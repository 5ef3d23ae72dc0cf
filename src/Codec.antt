-- ===== src/Codec.antt =====
-- src/CodecBase.h: the interface of the protocol codecs, and what the codecs under src/protocols
-- share. The C library's `mktime` and the floating-point type are parameters.
pub mod Mmxn
pub mod Zsar
pub mod Frames
pub mod Check
pub mod Parsing
pub mod Damage
pub mod Reading
use Prim.Native.String.{String, ◌++◌ as str_append}
use dbdky_gcc.Common.{
  ℕ, ◌+◌, ◌-◌, ◌*◌, ◌/◌, ◌%◌, Option, none, some, List, [], ◌∷◌, ◌++◌, length, take, overwrite, ltb,
  Bool, ◌==◌, ◌&&◌, if◌then◌else◌, ◌>>=◌, get_elem?,
}
use dbdky_gcc.Common.Dict.{Dict, assign, lookup}
use dbdky_gcc.Common.Decimal.{decimal, atoi}
use dbdky_gcc.Common.Int.{ℤ, pos, negsuc, ◌-ℤ◌, ◌+ℤ◌}
use dbdky_gcc.Crc.{crc16}

-- `struct tm`, as far as the codecs use it.
pub record Tm : Type 0 where
  pub tm_year : ℤ
  pub tm_mon : ℤ
  pub tm_mday : ℤ
  pub tm_hour : ℤ
  pub tm_min : ℤ
  pub tm_sec : ℤ

-- `float`, and its `%f` text.
pub record Float : Type 1 where
  pub F : Type 0
  pub one : F
  pub of_ℕ : ℕ → F
  pub mul : F → F → F
  pub print_real : F → List ℕ

-- The `enum` of result codes.
pub data ParseCode : Type 0 where
  parse_success parse_error_length_short parse_error_other : ParseCode

-- TYPEINTEGER, TYPEREAL, TYPECHAR and TYPEUTC.
pub data FieldType : Type 0 where
  type_integer type_real type_char type_utc : FieldType

-- `DB_INSERT_DATATYPE`; its arrays are lists.
pub record DbInsert : Type 0 where
  pub rep_id : String
  pub ln_inst_array : List String
  pub ln_id_array_size : ℕ
  pub data_array : List (List ℕ)
  pub type_array : List FieldType
  pub field_array : List String
  pub param_size : ℕ

-- The members of a codec.
pub record CodecState (F : Type 0) : Type 0 where
  pub precisions : Dict F
  pub ln_inst : String

-- The virtual functions. A command takes the time, the id, the array and its length, and gives
-- the return value, the array and the length.
abbrev pub MakeCmd : Type 0
MakeCmd = Tm → ℕ → List ℕ → ℕ → ℕ × List ℕ × ℕ

pub record CodecBase (F : Type 0) : Type 0 where
  pub make_year_month_cmd : MakeCmd
  pub make_day_hour_cmd : MakeCmd
  pub make_min_sec_cmd : MakeCmd
  pub make_thetime_cmd : MakeCmd
  pub make_query_cmd : MakeCmd
  pub set_config : CodecState F → String → Dict F → CodecState F
  pub parser : CodecState F → List ℕ → ℕ → DbInsert → Option (ParseCode × DbInsert)

-- `CRC16( buffer, n )` of the codecs, which have the loop of src/crc.h once more.
unfoldable pub crc16_of : List ℕ → ℕ → ℕ
crc16_of buffer n = crc16 (take n buffer)

-- The two bytes of the CRC against those of a frame.
abbrev pub crc_matches : ℕ → ℕ → ℕ → Bool
crc_matches crc hi lo = (crc / 256 == hi) && (crc % 256 == lo)

-- The bytes of a command, stored from index 0 on, and its CRC behind them, high byte first.
unfoldable pub store_command : List ℕ → List ℕ → List ℕ
unfolding crc16_of
store_command out body =
    let filled = overwrite out 0 body in
    let crc = crc16_of filled (length body) in
    overwrite filled (length body) (crc / 256 ∷ crc % 256 ∷ [])

-- A command of `n` bytes, refused where the caller's array is shorter.
unfoldable pub command : ℕ → List ℕ → List ℕ → ℕ → ℕ × List ℕ × ℕ
unfolding store_command
command n body out len = if ltb len n then (0, out, len) else (1, store_command out body, n)

-- The loop of `setConfig` over the given precisions.
unfoldable pub assign_all {ℓ} : {V : Type ℓ} → Dict V → Dict V → Dict V
assign_all [] m = m
assign_all ((k, v) ∷ props) m = assign_all props (assign k v m)

-- `sprintf("20%02d")` and `atoi`; `sprintf("%d")` and `atoi` give the byte itself.
abbrev pub pad_two : ℕ → List ℕ
pad_two n = if ltb n 10 then b'0' ∷ decimal n else decimal n

unfoldable pub year_of : ℕ → ℕ
year_of byte = atoi (b'2' ∷ b'0' ∷ pad_two byte)

unfoldable pub number_of : ℕ → ℕ
number_of byte = atoi (decimal byte)

-- Six bytes of time from index `i` on.
unfoldable pub read_time : List ℕ → ℕ → Option Tm
unfolding year_of number_of
read_time bytes i = do
  year ← get_elem? bytes i
  month ← get_elem? bytes (i + 1)
  day ← get_elem? bytes (i + 2)
  hour ← get_elem? bytes (i + 3)
  minute ← get_elem? bytes (i + 4)
  second ← get_elem? bytes (i + 5)
  some (record {
    tm_year = pos (year_of year) -ℤ pos 1900;
    tm_mon = pos (number_of month) -ℤ pos 1;
    tm_mday = pos (number_of day);
    tm_hour = pos (number_of hour);
    tm_min = pos (number_of minute);
    tm_sec = pos (number_of second);
  })

-- The strings and sizes that both parsers store.
unfoldable pub stamped : DbInsert → String → ℕ → DbInsert
stamped out ln_inst params = record out {
  rep_id = str_append "COMDATA/" ln_inst;
  ln_inst_array = overwrite out.ln_inst_array 0 (ln_inst ∷ []);
  ln_id_array_size = 1;
  param_size = params;
}

-- The time of a command: each field is cut to a byte.
unfoldable pub year_byte : Tm → ℤ
year_byte tm = tm.tm_year +ℤ pos 1900 -ℤ pos 2000

unfoldable pub month_byte : Tm → ℤ
month_byte tm = tm.tm_mon +ℤ pos 1
