-- ===== src/LogStream/Integers.antt =====
-- The text of an integer in the log.
use mathlib.Core.List.{reverse, reverse-cons, reverse-append, append-nil}
use native.Mathlib.Nat.{pow-suc}
use dbdky_gcc.Common.{
  ℕ, zero, suc, ◌+◌, ◌-◌, ◌/◌, ◌%◌, ◌≤◌, ◌<◌, ◌≡◌, refl, ap, ◌∙◌, [], ◌∷◌, ◌++◌, length, true,
  false, ◌==◌, ltb, leb, get_or, arith, Bool-cases, inl, inr, ◌&&◌, ◌⊎◌, ◌^◌, length-append, leb→le,
}
use dbdky_gcc.Common.Bits.{passes, passes-at}
use dbdky_gcc.Common.Decimal.{decimal, digits_loop, decimal_small, decimal_large}
use dbdky_gcc.Common.Int.{ℤ, pos, negsuc, print_int}
use dbdky_gcc.LogStream.{
  FixedBuffer, digits, digit_of, tenth, is_zero, magnitude, convert_loop, convert, format_integer,
  avail,
}

both_sides :
    passes (λ k. (get_or digits (9 + k) 0 == 48 + k) && (get_or digits (9 - k) 0 == 48 + k)) 10
    ≡ true
unfolding passes
both_sides = refl

digit_of-eq : (i : ℤ) → digit_of i ≡ 48 + magnitude i % 10
digit_of-eq (pos n) = let h = passes-at _ 10 (n % 10) both_sides (omega arith) in ground (arith, h)
digit_of-eq (negsuc n) =
    let h = passes-at _ 10 (suc n % 10) both_sides (omega arith) in ground (arith, h)

negated : (k : ℕ) → magnitude (elim k as (λ m. ℤ) [ zero ↦ pos 0 | suc m ↦ negsuc m ]) ≡ k
negated zero = refl
negated (suc k) = refl

magnitude-tenth : (i : ℤ) → magnitude (tenth i) ≡ magnitude i / 10
magnitude-tenth (pos n) = refl
magnitude-tenth (negsuc n) = negated (suc n / 10)

is_zero-eq : (i : ℤ) → is_zero i ≡ (magnitude i == 0)
is_zero-eq (pos n) = refl
is_zero-eq (negsuc n) = ground arith

reverse-convert_loop :
    (f : ℕ) (i : ℤ) → magnitude i < f → reverse (convert_loop f i) ≡ digits_loop f (magnitude i)
unfolding convert_loop digits_loop
reverse-convert_loop zero i h = absurd (omega arith)
reverse-convert_loop (suc f) i h = elim (Bool-cases (ltb (magnitude i) 10)) [
  | inl e ↦
      let last : is_zero (tenth i) ≡ true =
        ground (arith, is_zero-eq (tenth i), magnitude-tenth i) in
      let whole : digit_of i ≡ 48 + magnitude i = ground (arith, digit_of-eq i) in
      rw (e, last) (ap (λ d. d ∷ []) whole)
  | inr e ↦
      let more : is_zero (tenth i) ≡ false =
        ground (arith, is_zero-eq (tenth i), magnitude-tenth i) in
      rw (e, more)
        (reverse-cons (digit_of i) (convert_loop f (tenth i))
          ∙ ap (λ r. r ++ (digit_of i ∷ []))
              (reverse-convert_loop f (tenth i) (ground (arith, magnitude-tenth i))
                ∙ ap (digits_loop f) (magnitude-tenth i))
          ∙ ap (λ d. digits_loop f (magnitude i / 10) ++ (d ∷ [])) (digit_of-eq i))
]

-- `convert` writes the number as `sprintf("%d")` does, for every value, the smallest included.
pub convert-print_int : (v : ℤ) → convert v ≡ print_int v
unfolding convert print_int decimal
convert-print_int (pos n) =
    ap reverse (append-nil (convert_loop (suc n) (pos n)))
    ∙ reverse-convert_loop (suc n) (pos n) (omega arith)
convert-print_int (negsuc n) =
    reverse-append (convert_loop (suc (suc n)) (negsuc n)) (b'-' ∷ [])
    ∙ ap (λ r. b'-' ∷ r) (reverse-convert_loop (suc (suc n)) (negsuc n) (omega arith))

length-decimal : (k n : ℕ) → n < 10 ^ suc k → length (decimal n) ≤ suc k
length-decimal zero n h = rw (decimal_small n (omega (arith, pow-suc 10 0))) (omega arith)
length-decimal (suc k) n h = elim (Bool-cases (ltb n 10)) [
  | inl e ↦ rw (decimal_small n (ground arith)) (omega arith)
  | inr e ↦ rw (decimal_large n (ground arith)) (
      omega (
        arith,
        length-append (decimal (n / 10)) ((48 + n % 10) ∷ []),
        length-decimal k (n / 10) (omega (arith, pow-suc 10 (suc k))),
      ))
]

-- A 64-bit integer that is formatted into a buffer within its 4000 bytes leaves it so, with its
-- text behind the others or, where fewer than 32 bytes are free, without it.
pub format_integer-fits :
    (v : ℤ) (b : FixedBuffer)
    → magnitude v < 2 ^ 64
    → length b.text ≤ 4000
    → (length (format_integer v b).text ≤ 4000)
      × (((avail b < 32) × (format_integer v b ≡ b))
          ⊎ ((32 ≤ avail b) × ((format_integer v b).text ≡ b.text ++ print_int v)))
unfolding format_integer
format_integer-fits v b h fits = elim (Bool-cases (leb 32 (avail b))) [
  | inr e ↦ rw e (fits, inl (ground arith, refl))
  | inl e ↦
      rw (e, convert-print_int v)
        (
          omega (
            arith,
            length-append b.text (print_int v),
            length-print_int v h,
            leb→le 32 (avail b) e,
          ),
          inr (ground arith, refl),
        )
]
  where
    length-print_int : (w : ℤ) → magnitude w < 2 ^ 64 → length (print_int w) ≤ 21
    length-print_int (pos n) small =
        unfold print_int in omega (arith, length-decimal 19 n (omega arith))
    length-print_int (negsuc n) small =
        unfold print_int in omega (arith, length-decimal 19 (suc n) (omega arith))
