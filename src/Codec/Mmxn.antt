-- ===== src/Codec/Mmxn.antt =====
-- src/protocols/MMXN/CodecMMXN.cpp.
use Prim.Native.String.{String}
use dbdky_gcc.Common.{
  ℕ, ◌+◌, ◌*◌, ◌%◌, ◌^◌, Option, none, some, List, [], ◌∷◌, length, take, drop, overwrite, ltb, leb,
  not, if◌then◌else◌, ◌>>=◌, ◌>>◌, assert, get_elem?,
}
use dbdky_gcc.Common.Dict.{Dict, lookup}
use dbdky_gcc.Common.Int.{ℤ, pos, ◌+ℤ◌, low_byte, to_int32, print_int}
use dbdky_gcc.Codec.{
  Tm, Float, ParseCode, parse_success, parse_error_length_short, parse_error_other, type_real,
  type_utc, DbInsert, CodecState, CodecBase, MakeCmd, crc16_of, crc_matches, command, assign_all,
  read_time, stamped, year_byte, month_byte,
}

abbrev pub data_max_len : ℕ
data_max_len = 128

unfoldable pub make_year_month_cmd : MakeCmd
make_year_month_cmd now id out len =
    command 8 (id ∷ 0x06 ∷ 0x00 ∷ 0x05 ∷ low_byte (year_byte now) ∷ low_byte (month_byte now) ∷ [])
      out len

unfoldable pub make_day_hour_cmd : MakeCmd
make_day_hour_cmd now id out len =
    command 8 (id ∷ 0x06 ∷ 0x00 ∷ 0x06 ∷ low_byte now.tm_mday ∷ low_byte now.tm_hour ∷ []) out len

unfoldable pub make_min_sec_cmd : MakeCmd
make_min_sec_cmd now id out len =
    command 8 (id ∷ 0x06 ∷ 0x00 ∷ 0x07 ∷ low_byte now.tm_min ∷ low_byte now.tm_sec ∷ []) out len

unfoldable pub make_thetime_cmd : MakeCmd
make_thetime_cmd now id out len =
    command 14
      (id
        ∷ 0x10
        ∷ 0x00
        ∷ 0x05
        ∷ 0x00
        ∷ 0x03
        ∷ low_byte (year_byte now)
        ∷ low_byte (month_byte now)
        ∷ low_byte now.tm_mday
        ∷ low_byte now.tm_hour
        ∷ low_byte now.tm_min
        ∷ low_byte now.tm_sec
        ∷ [])
      out len

unfoldable pub make_query_cmd : MakeCmd
make_query_cmd now id out len = command 8 (id ∷ 0x04 ∷ 0x00 ∷ 0x21 ∷ 0x00 ∷ 0x08 ∷ []) out len

-- `uint16_t ampData` of two bytes.
abbrev pub amp_word : ℕ → ℕ → ℕ
amp_word high low = (high * 256 % 2 ^ 16 + low) % 2 ^ 16

-- `mktime` is the C library's; `stack` is what the uninitialised array `data` holds.
module _ (fl : Float) (mktime : Tm → ℤ) (stack : List ℕ) where
  open fl use {F, one, of_ℕ, mul, print_real}

  unfoldable pub set_config : CodecState F → String → Dict F → CodecState F
  set_config c ln_inst props = record c {
    precisions = assign_all props c.precisions;
    ln_inst = ln_inst;
  }

  abbrev pub precision_of : CodecState F → String → F
  precision_of c name = elim (lookup name c.precisions) [ none ↦ one | some p ↦ p ]

  -- A value above 1000 is taken as it is.
  unfoldable pub scaled : ℕ → F → F
  scaled value precision = if ltb 1000 value then of_ℕ value else mul (of_ℕ value) precision

  -- What `parser` does with the bytes of a frame whose CRC is right.
  unfoldable pub decode : CodecState F → List ℕ → DbInsert → Option (ParseCode × DbInsert)
  decode c bytes out = do
    smp_tm ← read_time bytes 0
    high ← get_elem? bytes 6
    low ← get_elem? bytes 7
    let amp = scaled (amp_word high low) (precision_of c "Amp")
    let smp_text = print_int (to_int32 (mktime smp_tm +ℤ pos 28800))
    let named : DbInsert = stamped out c.ln_inst 2
    some (
      parse_success,
      record named {
        data_array = overwrite out.data_array 0 (smp_text ∷ print_real amp ∷ []);
        type_array = overwrite out.type_array 0 (type_utc ∷ type_real ∷ []);
        field_array = overwrite out.field_array 0 ("SmpTm" ∷ "Amp" ∷ []);
      },
    )

  -- `none` is a read outside the memory behind `buffer`. A payload length above 128 ends in
  -- `return 0`, which is PARSE_SUCCESS.
  unfoldable pub parser : CodecState F → List ℕ → ℕ → DbInsert → Option (ParseCode × DbInsert)
  unfolding decode
  parser c buffer len out = if ltb len 21 then some (parse_error_length_short, out) else do
    let crc = crc16_of buffer 19
    crc_hi ← get_elem? buffer 19
    crc_lo ← get_elem? buffer 20
    size ← get_elem? buffer 2
    if not (crc_matches crc crc_hi crc_lo)
        then some (parse_error_other, out)
        else (if ltb data_max_len size then some (parse_success, out) else do
          assert (leb (3 + size) (length buffer))
          decode c (overwrite stack 0 (take size (drop 3 buffer))) out)

  unfoldable pub mmxn : CodecBase F
  mmxn = record {
    make_year_month_cmd = make_year_month_cmd;
    make_day_hour_cmd = make_day_hour_cmd;
    make_min_sec_cmd = make_min_sec_cmd;
    make_thetime_cmd = make_thetime_cmd;
    make_query_cmd = make_query_cmd;
    set_config = set_config;
    parser = parser;
  }
