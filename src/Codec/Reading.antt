-- ===== src/Codec/Reading.antt =====
-- The values that a device's frame delivers.
use Prim.Native.String.{String}
use dbdky_gcc.Common.{
  ℕ, ◌+◌, ◌*◌, ◌/◌, ◌≤◌, ◌<◌, ◌≡◌, refl, ap, List, [], ◌∷◌, ◌++◌, length, take, overwrite,
  replicate, arith, ltb, false, Bool-cases, inl, inr, some, get_elem?, overwrite-split,
  length-replicate, length-take, if◌then◌else◌,
}
use dbdky_gcc.Common.Decimal.{decimal, atoi, atoi-decimal, decimal_small, decimal_large}
use dbdky_gcc.Common.Int.{ℤ, pos, ◌+ℤ◌, ◌-ℤ◌, to_int32, print_int}
use dbdky_gcc.Crc.{crc16}
use dbdky_gcc.Codec.{
  Tm, Float, CodecState, DbInsert, parse_success, year_of, number_of, read_time, stamped, FieldType,
  type_utc, type_real, type_integer,
}
use dbdky_gcc.Codec.Check.{IsMemory}
use dbdky_gcc.Codec.Parsing.{mmxn_parser-decode, zsar_parser-decode}
use dbdky_gcc.Codec.Mmxn
use dbdky_gcc.Codec.Zsar

-- The text "20" with a byte below 100 behind it is the year of this century.
pub year_of-eq : (byte : ℕ) → byte < 100 → year_of byte ≡ 2000 + byte
unfolding year_of atoi
year_of-eq byte h = elim (Bool-cases (ltb byte 10)) [
  | inl e ↦ rw (e, decimal_small byte (ground arith)) (ground arith)
  | inr e ↦
      rw (e, decimal_large byte (ground arith), decimal_small (byte / 10) (omega arith))
        (ground arith)
]

pub number_of-eq : (byte : ℕ) → number_of byte ≡ byte
unfolding number_of
number_of-eq byte = atoi-decimal byte

-- A time in six bytes, and the `struct tm` of this century that it means.
pub record Stamp : Type 0 where
  pub year : ℕ
  pub month : ℕ
  pub day : ℕ
  pub hour : ℕ
  pub minute : ℕ
  pub second : ℕ

abbrev pub tm_of : Stamp → Tm
tm_of t = record {
  tm_year = pos (100 + t.year);
  tm_mon = pos t.month -ℤ pos 1;
  tm_mday = pos t.day;
  tm_hour = pos t.hour;
  tm_min = pos t.minute;
  tm_sec = pos t.second;
}

read_time_lem :
    (bytes : List ℕ) (i : ℕ) (t : Stamp)
    → t.year < 100
    → get_elem? bytes i ≡ some t.year
    → get_elem? bytes (i + 1) ≡ some t.month
    → get_elem? bytes (i + 2) ≡ some t.day
    → get_elem? bytes (i + 3) ≡ some t.hour
    → get_elem? bytes (i + 4) ≡ some t.minute
    → get_elem? bytes (i + 5) ≡ some t.second
    → read_time bytes i ≡ some (tm_of t)
unfolding read_time
read_time_lem bytes i t small e0 e1 e2 e3 e4 e5 =
    rw
      (
        e0,
        e1,
        e2,
        e3,
        e4,
        e5,
        year_of-eq t.year small,
        number_of-eq t.month,
        number_of-eq t.day,
        number_of-eq t.hour,
        number_of-eq t.minute,
        number_of-eq t.second,
      )
      (ap (λ z. some (record (tm_of t) { tm_year = z })) year)
  where
    year : pos (2000 + t.year) -ℤ pos 1900 ≡ pos (100 + t.year)
    year = unfold ◌-ℤ◌ in ground arith

-- The record that a codec stores, with the texts of the values.
abbrev pub stores : DbInsert → String → List (List ℕ) → List FieldType → List String → DbInsert
stores out ln_inst texts types fields = record (stamped out ln_inst (length texts)) {
  data_array = overwrite out.data_array 0 texts;
  type_array = overwrite out.type_array 0 types;
  field_array = overwrite out.field_array 0 fields;
}

-- A time stamp, before what follows it.
abbrev pub put_time : Stamp → List ℕ → List ℕ
put_time t rest = t.year ∷ t.month ∷ t.day ∷ t.hour ∷ t.minute ∷ t.second ∷ rest

-- What the MMXN device answers to the query for 8 registers: address, function, the payload's 16
-- bytes and the CRC. The payload is the time, the amplitude, high byte first, and eight bytes more.
abbrev pub mmxn_frame : ℕ → ℕ → Stamp → ℕ → ℕ → List ℕ → List ℕ
mmxn_frame addr code t hi lo rest = addr ∷ code ∷ 16 ∷ put_time t (hi ∷ lo ∷ rest)

-- Such a frame with a right CRC is stored: the time, moved by eight hours, as text, and the
-- amplitude, in the scale of the configuration up to 1000 and as it is above.
pub mmxn_parser-reading :
    (fl : Float) (mktime : Tm → ℤ) (stack : List ℕ) (c : CodecState fl.F) (addr code : ℕ)
    (t : Stamp) (hi lo : ℕ) (rest : List ℕ) (len : ℕ) (out : DbInsert)
    → IsMemory (mmxn_frame addr code t hi lo rest) len
    → 21 ≤ len
    → crc16 (take 21 (mmxn_frame addr code t hi lo rest)) ≡ 0
    → length stack ≡ 128
    → t.year < 100
    → Mmxn.parser fl mktime stack c (mmxn_frame addr code t hi lo rest) len out
      ≡ some (
        parse_success,
        stores out c.ln_inst
            (print_int (to_int32 (mktime (tm_of t) +ℤ pos 28800))
              ∷ fl.print_real (
                  if ltb 1000 (hi * 256 + lo)
                  then fl.of_ℕ (hi * 256 + lo)
                  else fl.mul (fl.of_ℕ (hi * 256 + lo)) (Mmxn.precision_of fl mktime stack c "Amp"))
              ∷ [])
            (type_utc ∷ type_real ∷ [])
            ("SmpTm" ∷ "Amp" ∷ []),
      )
unfolding Mmxn.decode Mmxn.scaled stamped
mmxn_parser-reading fl mktime stack c addr code t hi lo rest len out m long good room small =
    rw
      (
        mmxn_parser-decode fl mktime stack c (mmxn_frame addr code t hi lo rest) len out m long good
            refl (omega arith) (omega (arith, m)),
        overwrite-split stack 0 (take 16 (put_time t (hi ∷ lo ∷ rest)))
            (omega (arith, length-take 8 rest)),
        read_time_lem _ 0 t small refl refl refl refl refl refl,
        word,
      )
      refl
  where
    word : Mmxn.amp_word hi lo ≡ hi * 256 + lo
    word = omega (arith, m)

-- What the ZSAR device answers to the query for 10 registers: after the length two bytes that
-- the parser skips, the time, three words, high byte first, the time of the last operation and the CRC.
abbrev pub zsar_frame : ℕ → ℕ → ℕ → ℕ → Stamp → List ℕ → Stamp → List ℕ → List ℕ
zsar_frame addr code f g t words op rest =
    addr ∷ code ∷ 20 ∷ f ∷ g ∷ put_time t (words ++ put_time op rest)

-- Such a frame with a right CRC is stored: both times as text, and of the three words the low
-- bytes alone, the first two in the scale of the configuration.
pub zsar_parser-reading :
    (fl : Float) (mktime : Tm → ℤ) (c : CodecState fl.F) (addr code f g : ℕ) (t : Stamp)
    (ah al rh rl oh ol : ℕ) (op : Stamp) (rest : List ℕ) (len : ℕ) (out : DbInsert)
    → IsMemory (zsar_frame addr code f g t (ah ∷ al ∷ rh ∷ rl ∷ oh ∷ ol ∷ []) op rest) len
    → 25 ≤ len
    → crc16 (take 25 (zsar_frame addr code f g t (ah ∷ al ∷ rh ∷ rl ∷ oh ∷ ol ∷ []) op rest)) ≡ 0
    → t.year < 100
    → op.year < 100
    → Zsar.parser fl mktime c
        (zsar_frame addr code f g t (ah ∷ al ∷ rh ∷ rl ∷ oh ∷ ol ∷ []) op rest)
        len
        out
      ≡ some (
        parse_success,
        stores out c.ln_inst
            (print_int (to_int32 (mktime (tm_of t) +ℤ pos 28800))
              ∷ fl.print_real (fl.mul (fl.of_ℕ al) (Zsar.precision_of fl mktime c "TotA"))
              ∷ fl.print_real (fl.mul (fl.of_ℕ rl) (Zsar.precision_of fl mktime c "RisA"))
              ∷ decimal ol
              ∷ print_int (Zsar.last_op_time (mktime (tm_of op)))
              ∷ [])
            (type_utc ∷ type_real ∷ type_real ∷ type_integer ∷ type_utc ∷ [])
            ("SmpTm" ∷ "TotA" ∷ "RisA" ∷ "OpCnt" ∷ "LastOpTm" ∷ []),
      )
unfolding Zsar.decode stamped
zsar_parser-reading fl mktime c addr code f g t ah al rh rl oh ol op rest len out m long good small
      small' =
    rw
      (
        zsar_parser-decode fl mktime c _ len out m long good refl (omega arith) (omega arith)
            (omega (arith, m)),
        overwrite-split (replicate 128 0) 0
            (take 18 (put_time t (ah ∷ al ∷ rh ∷ rl ∷ oh ∷ ol ∷ put_time op rest)))
            (omega (arith, length-replicate {A = ℕ} 128 0)),
        read_time_lem _ 0 t small refl refl refl refl refl refl,
        read_time_lem _ 12 op small' refl refl refl refl refl refl,
        low ah al (omega (arith, m)),
        low rh rl (omega (arith, m)),
        low oh ol (omega (arith, m)),
        unscaled al _ (omega (arith, m)),
        unscaled rl _ (omega (arith, m)),
      )
      refl
  where
    low : (hi lo : ℕ) → lo < 256 → Zsar.char_word hi lo ≡ lo
    low hi lo h = omega arith

    unscaled :
        (value : ℕ) (p : fl.F)
        → value < 256
        → Zsar.scaled fl mktime value p ≡ fl.mul (fl.of_ℕ value) p
    unscaled value p h =
        unfold Zsar.scaled in (let le : ltb 1000 value ≡ false = ground arith in rw le)
