-- ===== src/SerialPort/Codecs.antt =====
-- The codecs behind the read loop: below which length they wait, and that MMXN always answers.
use dbdky_gcc.Common.{
  ℕ, ◌+◌, ◌<◌, ◌≡◌, refl, ap, sym, ◌∙◌, Option, none, some, List, length, take, drop, overwrite,
  arith, leb, ltb, true, Bool-cases, Option-cases, inl, inr, get_elem?-lt, length-overwrite,
}
use dbdky_gcc.Common.Int.{ℤ}
use dbdky_gcc.Codec.{
  Tm, Float, CodecState, DbInsert, ParseCode, parse_success, parse_error_length_short,
  parse_error_other, read_time, crc_matches, crc16_of,
}
use dbdky_gcc.Codec.Parsing.{mmxn_parser-short, zsar_parser-short}
use dbdky_gcc.Codec.Mmxn
use dbdky_gcc.Codec.Mmxn.{mmxn}
use dbdky_gcc.Codec.Zsar.{zsar}
use dbdky_gcc.SerialPort.Framing.{IsWaiting}
use dbdky_gcc.SerialPort.Bounds.{IsAnswering}

read_time-some :
    (bytes : List ℕ) (i : ℕ) → i + 5 < length bytes → (t : Tm) × (read_time bytes i ≡ some t)
unfolding read_time
read_time-some bytes i h =
    let (a, ea) = get_elem?-lt bytes i (omega arith) in
    let (b, eb) = get_elem?-lt bytes (i + 1) (omega arith) in
    let (c, ec) = get_elem?-lt bytes (i + 2) (omega arith) in
    let (d, ed) = get_elem?-lt bytes (i + 3) (omega arith) in
    let (m, em) = get_elem?-lt bytes (i + 4) (omega arith) in
    let (f, ef) = get_elem?-lt bytes (i + 5) (omega arith) in
    elim (Option-cases (read_time bytes i)) [
      | inl e ↦ absurd (cc (rw (ea, eb, ec, ed, em, ef) at e))
      | inr p ↦ p
    ]

abbrev code : Option (ParseCode × DbInsert) → ParseCode
code none = parse_success
code (some r) = r.0

module _ (fl : Float) (mktime : Tm → ℤ) (stack : List ℕ) (c : CodecState fl.F) where
  decode-some :
      (bytes : List ℕ) (out : DbInsert)
      → 7 < length bytes
      → (d : DbInsert) × (Mmxn.decode fl mktime stack c bytes out ≡ some (parse_success, d))
  unfolding Mmxn.decode
  decode-some bytes out h =
      let (t, et) = read_time-some bytes 0 (omega arith) in
      let (hi, ehi) = get_elem?-lt bytes 6 (omega arith) in
      let (lo, elo) = get_elem?-lt bytes 7 (omega arith) in
      elim (Option-cases (Mmxn.decode fl mktime stack c bytes out)) [
        | inl e ↦ absurd (cc (rw (et, ehi, elo) at e))
        | inr (r, e) ↦ (r.1, e ∙ ap (λ s. some (s, r.1)) (sym (ap code (rw (et, ehi, elo) at e))))
      ]

  pub mmxn-IsWaiting : IsWaiting (mmxn fl mktime stack, c) 21
  unfolding mmxn
  mmxn-IsWaiting = record {
    fits = ground arith;
    waits = λ buffer len out h. mmxn_parser-short fl mktime stack c buffer len out h;
  }

  -- Of 256 bytes, the MMXN parser always answers, and waits for more only below 21 bytes. What the
  -- array `data` held has the 128 bytes of that array.
  pub mmxn-IsAnswering : length stack ≡ 128 → IsAnswering (mmxn fl mktime stack, c) 21
  unfolding mmxn Mmxn.parser
  mmxn-IsAnswering room = record { answers = answer }
    where
      answer :
          (buffer : List ℕ) (len : ℕ) (out : DbInsert)
          → length buffer ≡ 256
          → (r : ParseCode × DbInsert) × (Mmxn.parser fl mktime stack c buffer len out ≡ some r)
            × (r.0 ≡ parse_error_length_short → len < 21)
      answer buffer len out whole =
          let (hi, ehi) = get_elem?-lt buffer 19 (omega arith) in
          let (lo, elo) = get_elem?-lt buffer 20 (omega arith) in
          let (size, esize) = get_elem?-lt buffer 2 (omega arith) in
          elim (Bool-cases (ltb len 21)) [
            | inl short ↦ ((parse_error_length_short, out), rw short refl, λ e. ground arith)
            | inr long ↦ elim (Bool-cases (crc_matches (crc16_of buffer 19) hi lo)) [
              | inr bad ↦ (
                (parse_error_other, out),
                rw (long, ehi, elo, esize, bad) refl,
                λ e. absurd (cc e),
              )
              | inl good ↦ elim (Bool-cases (ltb 128 size)) [
                | inl over ↦ (
                  (parse_success, out),
                  rw (long, ehi, elo, esize, good, over) refl,
                  λ e. absurd (cc e),
                )
                | inr under ↦
                    let inside : leb (3 + size) (length buffer) ≡ true = ground arith in
                    let (d, e) =
                      decode-some (overwrite stack 0 (take size (drop 3 buffer))) out
                        (omega (arith, length-overwrite stack 0 (take size (drop 3 buffer)))) in
                    (
                      (parse_success, d),
                      rw (long, ehi, elo, esize, good, under, inside) e,
                      λ e. absurd (cc e),
                    )
              ]
            ]
          ]

pub zsar-IsWaiting :
    (fl : Float) (mktime : Tm → ℤ) (c : CodecState fl.F) → IsWaiting (zsar fl mktime, c) 25
unfolding zsar
zsar-IsWaiting fl mktime c = record {
  fits = ground arith;
  waits = λ buffer len out h. zsar_parser-short fl mktime c buffer len out h;
}
