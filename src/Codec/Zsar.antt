-- ===== src/Codec/Zsar.antt =====
-- src/protocols/ZSAR/CodecZSAR.cpp.
use Prim.Native.String.{String}
use dbdky_gcc.Common.{
  ℕ, ◌+◌, ◌-◌, ◌*◌, ◌%◌, Option, none, some, List, [], ◌∷◌, length, take, drop, overwrite,
  replicate, ltb, leb, ◌==◌, not, if◌then◌else◌, ◌>>=◌, ◌>>◌, assert, get_elem?,
}
use dbdky_gcc.Common.Dict.{Dict, lookup}
use dbdky_gcc.Common.Decimal.{decimal}
use dbdky_gcc.Common.Int.{ℤ, pos, negsuc, ◌+ℤ◌, low_byte, to_int32, print_int}
use dbdky_gcc.Codec.{
  Tm, Float, ParseCode, parse_success, parse_error_length_short, parse_error_other, type_integer,
  type_real, type_utc, DbInsert, CodecState, CodecBase, MakeCmd, crc16_of, crc_matches, command,
  assign_all, read_time, stamped, year_byte, month_byte,
}

unfoldable pub make_year_month_cmd : MakeCmd
make_year_month_cmd now id codedata len =
    command 8 (id ∷ 0x06 ∷ 0x00 ∷ 0x05 ∷ low_byte (year_byte now) ∷ low_byte (month_byte now) ∷ [])
      codedata len

unfoldable pub make_day_hour_cmd : MakeCmd
make_day_hour_cmd now id codedata len =
    command 8 (id ∷ 0x06 ∷ 0x00 ∷ 0x06 ∷ low_byte now.tm_mday ∷ low_byte now.tm_hour ∷ []) codedata
      len

unfoldable pub make_min_sec_cmd : MakeCmd
make_min_sec_cmd now id codedata len =
    command 8 (id ∷ 0x06 ∷ 0x00 ∷ 0x07 ∷ low_byte now.tm_min ∷ low_byte now.tm_sec ∷ []) codedata
      len

unfoldable pub make_thetime_cmd : MakeCmd
make_thetime_cmd now id out len =
    command 14
      (id
        ∷ 0x10
        ∷ 0x00
        ∷ 0x05
        ∷ 0x00
        ∷ 0x03
        ∷ low_byte (year_byte now)
        ∷ low_byte (month_byte now)
        ∷ low_byte now.tm_mday
        ∷ low_byte now.tm_hour
        ∷ low_byte now.tm_min
        ∷ low_byte now.tm_sec
        ∷ [])
      out len

unfoldable pub make_query_cmd : MakeCmd
make_query_cmd now id out len = command 8 (id ∷ 0x04 ∷ 0x00 ∷ 0x20 ∷ 0x00 ∷ 0x0a ∷ []) out len

-- `unsigned char totaData`: both steps are cut to eight bits.
abbrev pub char_word : ℕ → ℕ → ℕ
char_word high low = (high * 256 % 256 + low) % 256

-- `(int)lastOpTm64`, with 0 for -1.
unfoldable pub last_op_time : ℤ → ℤ
last_op_time t = elim (to_int32 t) [ pos n ↦ pos n | negsuc n ↦ if n == 0 then pos 0 else negsuc n ]

module _ (fl : Float) (mktime : Tm → ℤ) where
  open fl use {F, one, of_ℕ, mul, print_real}

  unfoldable pub set_config : CodecState F → String → Dict F → CodecState F
  set_config c ln_inst props = record c {
    precisions = assign_all props c.precisions;
    ln_inst = ln_inst;
  }

  abbrev pub precision_of : CodecState F → String → F
  precision_of c name = elim (lookup name c.precisions) [ none ↦ one | some p ↦ p ]

  -- A value above 1000 is taken as it is.
  unfoldable pub scaled : ℕ → F → F
  scaled value precision = if ltb 1000 value then of_ℕ value else mul (of_ℕ value) precision

  -- What `parser` does with the bytes of a frame whose CRC is right.
  unfoldable pub decode : CodecState F → List ℕ → DbInsert → Option (ParseCode × DbInsert)
  decode c bytes out = do
    smp_tm ← read_time bytes 0
    tota_hi ← get_elem? bytes 6
    tota_lo ← get_elem? bytes 7
    risa_hi ← get_elem? bytes 8
    risa_lo ← get_elem? bytes 9
    optcnt_hi ← get_elem? bytes 10
    optcnt_lo ← get_elem? bytes 11
    last_op ← read_time bytes 12
    let tota = scaled (char_word tota_hi tota_lo) (precision_of c "TotA")
    let risa = scaled (char_word risa_hi risa_lo) (precision_of c "RisA")
    let opcnt = char_word optcnt_hi optcnt_lo
    let named : DbInsert = stamped out c.ln_inst 5
    some (
      parse_success,
      record named {
        field_array =
            overwrite out.field_array 0 ("SmpTm" ∷ "TotA" ∷ "RisA" ∷ "OpCnt" ∷ "LastOpTm" ∷ []);
        type_array =
            overwrite out.type_array 0
              (type_utc ∷ type_real ∷ type_real ∷ type_integer ∷ type_utc ∷ []);
        data_array = overwrite out.data_array 0 (
            print_int (to_int32 (mktime smp_tm +ℤ pos 28800))
            ∷ print_real tota
            ∷ print_real risa
            ∷ decimal opcnt
            ∷ print_int (last_op_time (mktime last_op))
            ∷ []);
      },
    )

  -- `none` is a read outside the memory behind `buffer`, or a `memcpy` of `length - 2` bytes at a
  -- length below 2, where the count wraps. `data` is 128 zero bytes.
  unfoldable pub parser : CodecState F → List ℕ → ℕ → DbInsert → Option (ParseCode × DbInsert)
  unfolding decode
  parser c buffer len out = if ltb len 25 then some (parse_error_length_short, out) else do
    let crc = crc16_of buffer 23
    crc_hi ← get_elem? buffer 23
    crc_lo ← get_elem? buffer 24
    size ← get_elem? buffer 2
    if not (crc_matches crc crc_hi crc_lo)
        then some (parse_error_other, out)
        else (if ltb 128 size then some (parse_error_other, out) else do
          assert (leb 2 size)
          assert (leb (3 + size) (length buffer))
          decode c (overwrite (replicate 128 0) 0 (take (size - 2) (drop 5 buffer))) out)

  unfoldable pub zsar : CodecBase F
  zsar = record {
    make_year_month_cmd = make_year_month_cmd;
    make_day_hour_cmd = make_day_hour_cmd;
    make_min_sec_cmd = make_min_sec_cmd;
    make_thetime_cmd = make_thetime_cmd;
    make_query_cmd = make_query_cmd;
    set_config = set_config;
    parser = parser;
  }
