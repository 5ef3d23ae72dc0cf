-- ===== src/Codec/Parsing.antt =====
-- What the parsers accept, and what they store.
use dbdky_gcc.Common.{
  ℕ, ◌+◌, ◌-◌, ◌≤◌, ◌<◌, ◌≡◌, ◌≢◌, refl, List, length, take, drop, overwrite, replicate, arith, ltb,
  leb, true, false, Bool, some, get_elem?, get_elem?-lt,
}
use dbdky_gcc.Common.Int.{ℤ}
use dbdky_gcc.Crc.{crc16}
use dbdky_gcc.Codec.{
  Tm, Float, CodecState, DbInsert, parse_success, parse_error_length_short, parse_error_other,
  crc16_of, crc_matches,
}
use dbdky_gcc.Codec.Check.{IsMemory, crc_matches_iff}
use dbdky_gcc.Codec.Mmxn
use dbdky_gcc.Codec.Zsar

mismatch : (b : Bool) {P : Type 0} → (b ≡ true → P) → ¬ P → b ≡ false
mismatch true f h = absurd (h (f refl))
mismatch false f h = refl

module _ (fl : Float) (mktime : Tm → ℤ) (stack : List ℕ) (c : CodecState fl.F) (buffer : List ℕ)
    (len : ℕ) (out : DbInsert) where
  pub mmxn_parser-short :
      len < 21 → Mmxn.parser fl mktime stack c buffer len out ≡ some (parse_error_length_short, out)
  unfolding Mmxn.parser
  mmxn_parser-short h = let short : ltb len 21 ≡ true = ground arith in rw short

  -- A frame that does not check to zero is refused, and nothing is stored.
  pub mmxn_parser-damaged :
      IsMemory buffer len
      → 21 ≤ len
      → crc16 (take 21 buffer) ≢ 0
      → Mmxn.parser fl mktime stack c buffer len out ≡ some (parse_error_other, out)
  unfolding Mmxn.parser
  mmxn_parser-damaged m h bad =
      let (hi, ehi) = get_elem?-lt buffer 19 (omega (arith, m)) in
      let (lo, elo) = get_elem?-lt buffer 20 (omega (arith, m)) in
      let (size, esize) = get_elem?-lt buffer 2 (omega (arith, m)) in
      let long : ltb len 21 ≡ false = ground arith in
      let fails : crc_matches (crc16_of buffer 19) hi lo ≡ false =
        mismatch _ (crc_matches_iff buffer len 19 hi lo m ehi elo).0 bad in
      rw (long, ehi, elo, esize, fails)

  module _ (m : IsMemory buffer len) (long : 21 ≤ len) (good : crc16 (take 21 buffer) ≡ 0)
      {size : ℕ} (sized : get_elem? buffer 2 ≡ some size) where
    -- With the CRC right, a length above 128 ends the call.
    pub mmxn_parser-oversized :
        128 < size → Mmxn.parser fl mktime stack c buffer len out ≡ some (parse_success, out)
    unfolding Mmxn.parser
    mmxn_parser-oversized big =
        let (hi, ehi) = get_elem?-lt buffer 19 (omega (arith, m)) in
        let (lo, elo) = get_elem?-lt buffer 20 (omega (arith, m)) in
        let enough : ltb len 21 ≡ false = ground arith in
        let over : ltb 128 size ≡ true = ground arith in
        rw (enough, ehi, elo, sized, (crc_matches_iff buffer len 19 hi lo m ehi elo).1 good, over)

    pub mmxn_parser-decode :
        size ≤ 128
        → 3 + size ≤ length buffer
        → Mmxn.parser fl mktime stack c buffer len out
          ≡ Mmxn.decode fl mktime stack c (overwrite stack 0 (take size (drop 3 buffer))) out
    unfolding Mmxn.parser
    mmxn_parser-decode small fits =
        let (hi, ehi) = get_elem?-lt buffer 19 (omega (arith, m)) in
        let (lo, elo) = get_elem?-lt buffer 20 (omega (arith, m)) in
        let enough : ltb len 21 ≡ false = ground arith in
        let under : ltb 128 size ≡ false = ground arith in
        let inside : leb (3 + size) (length buffer) ≡ true = ground arith in
        rw (
          enough,
          ehi,
          elo,
          sized,
          (crc_matches_iff buffer len 19 hi lo m ehi elo).1 good,
          under,
          inside,
        )

module _ (fl : Float) (mktime : Tm → ℤ) (c : CodecState fl.F) (buffer : List ℕ) (len : ℕ)
    (out : DbInsert) where
  pub zsar_parser-short :
      len < 25 → Zsar.parser fl mktime c buffer len out ≡ some (parse_error_length_short, out)
  unfolding Zsar.parser
  zsar_parser-short h = let short : ltb len 25 ≡ true = ground arith in rw short

  -- A frame that does not check to zero is refused, and nothing is stored.
  pub zsar_parser-damaged :
      IsMemory buffer len
      → 25 ≤ len
      → crc16 (take 25 buffer) ≢ 0
      → Zsar.parser fl mktime c buffer len out ≡ some (parse_error_other, out)
  unfolding Zsar.parser
  zsar_parser-damaged m h bad =
      let (hi, ehi) = get_elem?-lt buffer 23 (omega (arith, m)) in
      let (lo, elo) = get_elem?-lt buffer 24 (omega (arith, m)) in
      let (size, esize) = get_elem?-lt buffer 2 (omega (arith, m)) in
      let long : ltb len 25 ≡ false = ground arith in
      let fails : crc_matches (crc16_of buffer 23) hi lo ≡ false =
        mismatch _ (crc_matches_iff buffer len 23 hi lo m ehi elo).0 bad in
      rw (long, ehi, elo, esize, fails)

  module _ (m : IsMemory buffer len) (long : 25 ≤ len) (good : crc16 (take 25 buffer) ≡ 0)
      {size : ℕ} (sized : get_elem? buffer 2 ≡ some size) where
    -- With the CRC right, a length above 128 ends the call.
    pub zsar_parser-oversized :
        128 < size → Zsar.parser fl mktime c buffer len out ≡ some (parse_error_other, out)
    unfolding Zsar.parser
    zsar_parser-oversized big =
        let (hi, ehi) = get_elem?-lt buffer 23 (omega (arith, m)) in
        let (lo, elo) = get_elem?-lt buffer 24 (omega (arith, m)) in
        let enough : ltb len 25 ≡ false = ground arith in
        let over : ltb 128 size ≡ true = ground arith in
        rw (enough, ehi, elo, sized, (crc_matches_iff buffer len 23 hi lo m ehi elo).1 good, over)

    pub zsar_parser-decode :
        2 ≤ size
        → size ≤ 128
        → 3 + size ≤ length buffer
        → Zsar.parser fl mktime c buffer len out
          ≡ Zsar.decode fl mktime c
              (overwrite (replicate 128 0) 0 (take (size - 2) (drop 5 buffer)))
              out
    unfolding Zsar.parser
    zsar_parser-decode two small fits =
        let (hi, ehi) = get_elem?-lt buffer 23 (omega (arith, m)) in
        let (lo, elo) = get_elem?-lt buffer 24 (omega (arith, m)) in
        let enough : ltb len 25 ≡ false = ground arith in
        let under : ltb 128 size ≡ false = ground arith in
        let least : leb 2 size ≡ true = ground arith in
        let inside : leb (3 + size) (length buffer) ≡ true = ground arith in
        rw (
          enough,
          ehi,
          elo,
          sized,
          (crc_matches_iff buffer len 23 hi lo m ehi elo).1 good,
          under,
          least,
          inside,
        )
