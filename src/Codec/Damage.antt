-- ===== src/Codec/Damage.antt =====
-- A frame that is damaged on the line is refused.
use mathlib.Core.List.{append_assoc}
use dbdky_gcc.Common.{
  ℕ, ◌+◌, ◌≤◌, ◌<◌, ◌≡◌, ◌≢◌, ap, sym, ◌∙◌, List, [], ◌∷◌, ◌++◌, length, take, All, arith, ltb,
  ◌==◌, Bool-cases, inl, inr, some, length-append, take-append, take_all,
}
use dbdky_gcc.Common.Int.{ℤ}
use dbdky_gcc.Crc.{crc16}
use dbdky_gcc.Crc.Detection.{crc16_burst}
use dbdky_gcc.Codec.{Tm, Float, CodecState, DbInsert, parse_success, parse_error_other}
use dbdky_gcc.Codec.Check.{IsMemory}
use dbdky_gcc.Codec.Parsing.{
  mmxn_parser-short, mmxn_parser-damaged, zsar_parser-short, zsar_parser-damaged,
}
use dbdky_gcc.Codec.Mmxn
use dbdky_gcc.Codec.Zsar

-- `n` bytes with a pair `a`, `b` among them, and what lies behind them.
abbrev pub around : List ℕ → ℕ → ℕ → List ℕ → List ℕ
around pre a b suf = pre ++ (a ∷ b ∷ suf)

module _ (n : ℕ) (pre suf tail : List ℕ) (size : length pre + 2 + length suf ≡ n) where
  take-around : (a b : ℕ) → take n (around pre a b (suf ++ tail)) ≡ around pre a b suf
  take-around a b =
      ap (take n) (sym (append_assoc pre (a ∷ b ∷ suf) tail))
      ∙ take-append (around pre a b suf) tail n (omega (arith, length-append pre (a ∷ b ∷ suf)))
      ∙ take_all (around pre a b suf) n (omega (arith, length-append pre (a ∷ b ∷ suf)))

All-front {ℓ} : {A : Type 0} (P : A → Type ℓ) (xs ys : List A) → All P (xs ++ ys) → All P xs
All-front P [] ys h = tt
All-front P (x ∷ xs) ys h = (h.0, All-front P xs ys h.1)

All-back {ℓ} : {A : Type 0} (P : A → Type ℓ) (xs ys : List A) → All P (xs ++ ys) → All P ys
All-back P [] ys h = h
All-back P (x ∷ xs) ys h = All-back P xs ys h.1

-- Both frames cannot check to zero.
changed_frame :
    (n : ℕ) (pre suf tail : List ℕ) (a b x y len : ℕ)
    → length pre + 2 + length suf ≡ n
    → IsMemory (around pre a b (suf ++ tail)) len
    → IsMemory (around pre x y (suf ++ tail)) len
    → ¬ ((a ≡ x) × (b ≡ y))
    → crc16 (take n (around pre a b (suf ++ tail))) ≡ 0
    → crc16 (take n (around pre x y (suf ++ tail))) ≢ 0
changed_frame n pre suf tail a b x y len size m k differ good bad = differ (
    crc16_burst pre suf a b x y (All-front _ pre _ m.bytes) (All-front _ suf tail first.1.1) first.0
      first.1.0 second.0 second.1.0
      (ap crc16 (sym (take-around n pre suf tail size a b))
        ∙ good
        ∙ sym bad
        ∙ ap crc16 (take-around n pre suf tail size x y)))
  where
    first : All (λ t. t < 256) (a ∷ b ∷ (suf ++ tail))
    first = All-back _ pre (a ∷ b ∷ (suf ++ tail)) m.bytes

    second : All (λ t. t < 256) (x ∷ y ∷ (suf ++ tail))
    second = All-back _ pre (x ∷ y ∷ (suf ++ tail)) k.bytes

module _ (fl : Float) (mktime : Tm → ℤ) (stack : List ℕ) (c : CodecState fl.F) (buffer : List ℕ)
    (len : ℕ) (out r : DbInsert) (m : IsMemory buffer len)
    (stores : Mmxn.parser fl mktime stack c buffer len out ≡ some (parse_success, r)) where
  -- A stored frame is long enough and checks to zero.
  mmxn_stored : (21 ≤ len) × (crc16 (take 21 buffer) ≡ 0)
  mmxn_stored = elim (Bool-cases (ltb len 21)) [
    | inl e ↦
        absurd (cc (stores, mmxn_parser-short fl mktime stack c buffer len out (ground arith)))
    | inr e ↦
        let long : 21 ≤ len = ground arith in
        elim (Bool-cases (crc16 (take 21 buffer) == 0)) [
          | inl zero ↦ (long, ground arith)
          | inr other ↦ absurd (
              cc (
                stores,
                mmxn_parser-damaged fl mktime stack c buffer len out m long (ground arith),
              ))
        ]
  ]

-- If the MMXN parser stores a frame of bytes, it refuses each frame of bytes that differs
-- from it within two neighbouring ones of the 21 bytes that it checks, and stores nothing.
pub mmxn_parser-burst :
    (fl : Float) (mktime : Tm → ℤ) (stack : List ℕ) (c : CodecState fl.F) (pre suf tail : List ℕ)
    (a b x y len : ℕ) (out r : DbInsert)
    → length pre + 2 + length suf ≡ 21
    → IsMemory (around pre a b (suf ++ tail)) len
    → IsMemory (around pre x y (suf ++ tail)) len
    → ¬ ((a ≡ x) × (b ≡ y))
    → Mmxn.parser fl mktime stack c (around pre a b (suf ++ tail)) len out ≡ some (parse_success, r)
    → Mmxn.parser fl mktime stack c (around pre x y (suf ++ tail)) len out
      ≡ some (parse_error_other, out)
mmxn_parser-burst fl mktime stack c pre suf tail a b x y len out r size m k differ stores =
    let s = mmxn_stored fl mktime stack c (around pre a b (suf ++ tail)) len out r m stores in
    mmxn_parser-damaged fl mktime stack c (around pre x y (suf ++ tail)) len out k s.0
      (changed_frame 21 pre suf tail a b x y len size m k differ s.1)

module _ (fl : Float) (mktime : Tm → ℤ) (c : CodecState fl.F) (buffer : List ℕ) (len : ℕ)
    (out r : DbInsert) (m : IsMemory buffer len)
    (stores : Zsar.parser fl mktime c buffer len out ≡ some (parse_success, r)) where
  -- A stored frame is long enough and checks to zero.
  zsar_stored : (25 ≤ len) × (crc16 (take 25 buffer) ≡ 0)
  zsar_stored = elim (Bool-cases (ltb len 25)) [
    | inl e ↦ absurd (cc (stores, zsar_parser-short fl mktime c buffer len out (ground arith)))
    | inr e ↦
        let long : 25 ≤ len = ground arith in
        elim (Bool-cases (crc16 (take 25 buffer) == 0)) [
          | inl zero ↦ (long, ground arith)
          | inr other ↦
              absurd
                (cc (stores, zsar_parser-damaged fl mktime c buffer len out m long (ground arith)))
        ]
  ]

-- If the ZSAR parser stores a frame of bytes, it refuses each frame of bytes that differs
-- from it within two neighbouring ones of the 25 bytes that it checks, and stores nothing.
pub zsar_parser-burst :
    (fl : Float) (mktime : Tm → ℤ) (c : CodecState fl.F) (pre suf tail : List ℕ) (a b x y len : ℕ)
    (out r : DbInsert)
    → length pre + 2 + length suf ≡ 25
    → IsMemory (around pre a b (suf ++ tail)) len
    → IsMemory (around pre x y (suf ++ tail)) len
    → ¬ ((a ≡ x) × (b ≡ y))
    → Zsar.parser fl mktime c (around pre a b (suf ++ tail)) len out ≡ some (parse_success, r)
    → Zsar.parser fl mktime c (around pre x y (suf ++ tail)) len out ≡ some (parse_error_other, out)
zsar_parser-burst fl mktime c pre suf tail a b x y len out r size m k differ stores =
    let s = zsar_stored fl mktime c (around pre a b (suf ++ tail)) len out r m stores in
    zsar_parser-damaged fl mktime c (around pre x y (suf ++ tail)) len out k s.0
      (changed_frame 25 pre suf tail a b x y len size m k differ s.1)
