-- ===== src/Common/Decimal.antt =====
-- Decimal text, as `sprintf("%d")` writes it and `atoi` reads it: ASCII codes, most significant
-- digit first.
use Prim.Native.Nat.{ℕ, zero, suc, ◌+◌, ◌-◌, ◌*◌, ◌/◌, ◌%◌, ◌≤◌, ◌<◌}
use mathlib.Core.Path.{◌≡◌, refl, ap}
use mathlib.Core.Logic.{inl, inr}
use mathlib.Core.List.{List, [], ◌∷◌, ◌++◌}
use native.Mathlib.Omega.{arith}
use dbdky_gcc.Common.Lists.{All, All-append}
use dbdky_gcc.Common.Tests.{ltb, if◌then◌else◌, Bool-cases}

unfoldable pub digits_loop : ℕ → ℕ → List ℕ
digits_loop zero n = []
digits_loop (suc f) n =
    let rest = digits_loop f (n / 10) in
    if ltb n 10 then (48 + n) ∷ [] else rest ++ (48 + n % 10) ∷ []

-- As many rounds as the number is large are more than it has digits.
unfoldable pub decimal : ℕ → List ℕ
unfolding digits_loop
decimal n = digits_loop (suc n) n

digits_loop_fuel : (f g n : ℕ) → n < f → n < g → digits_loop f n ≡ digits_loop g n
unfolding digits_loop
digits_loop_fuel zero g n p q = absurd (omega arith)
digits_loop_fuel (suc f) zero n p q = absurd (omega arith)
digits_loop_fuel (suc f) (suc g) n p q = elim (Bool-cases (ltb n 10)) [
  | inl e ↦ rw e
  | inr e ↦ rw e (
      ap (λ t. t ++ (48 + n % 10) ∷ [])
        (digits_loop_fuel f g (n / 10) (ground arith) (ground arith)))
]

pub decimal_small : (n : ℕ) → n < 10 → decimal n ≡ (48 + n) ∷ []
unfolding decimal
decimal_small n h = ground arith

pub decimal_large : (n : ℕ) → 10 ≤ n → decimal n ≡ decimal (n / 10) ++ (48 + n % 10) ∷ []
unfolding decimal
decimal_large n h = elim (Bool-cases (ltb n 10)) [
  | inl e ↦ absurd (ground arith)
  | inr e ↦ rw e (
      ap (λ t. t ++ (48 + n % 10) ∷ [])
        (digits_loop_fuel n (suc (n / 10)) (n / 10) (ground arith) (omega arith)))
]

-- `atoi` on digits.
unfoldable pub atoi_loop : ℕ → List ℕ → ℕ
atoi_loop acc [] = acc
atoi_loop acc (c ∷ s) =
    if ltb c 48 then acc else (if ltb 57 c then acc else atoi_loop (acc * 10 + (c - 48)) s)

unfoldable pub atoi : List ℕ → ℕ
unfolding atoi_loop
atoi s = atoi_loop 0 s

abbrev pub IsDigit : ℕ → Type 0
IsDigit c = (48 ≤ c) × (c ≤ 57)

digits_loop-IsDigit : (f n : ℕ) → All IsDigit (digits_loop f n)
unfolding digits_loop
digits_loop-IsDigit zero n = tt
digits_loop-IsDigit (suc f) n = elim (Bool-cases (ltb n 10)) [
  | inl e ↦ rw e (ground arith)
  | inr e ↦
      rw e (
        All-append IsDigit (digits_loop f (n / 10)) _ (digits_loop-IsDigit f (n / 10))
          (omega arith))
]

pub decimal-IsDigit : (n : ℕ) → All IsDigit (decimal n)
unfolding decimal
decimal-IsDigit n = digits_loop-IsDigit (suc n) n

-- Digits are read on, whatever stands before them and follows them.
pub atoi_loop-append :
    (acc : ℕ) (s t : List ℕ)
    → All IsDigit s
    → atoi_loop acc (s ++ t) ≡ atoi_loop (atoi_loop acc s) t
unfolding atoi_loop
atoi_loop-append acc [] t h = refl
atoi_loop-append acc (c ∷ s) t h = ground (arith, atoi_loop-append (acc * 10 + (c - 48)) s t)

atoi_loop_digit :
    (acc d : ℕ) (s : List ℕ)
    → All IsDigit s
    → d < 10
    → atoi_loop acc (s ++ (48 + d) ∷ []) ≡ atoi_loop acc s * 10 + d
unfolding atoi_loop
atoi_loop_digit acc d s h k = ground (arith, atoi_loop-append acc s ((48 + d) ∷ []) h)

atoi-decimal_fuel : (f n : ℕ) → n < f → atoi (decimal n) ≡ n
unfolding atoi
atoi-decimal_fuel zero n h = absurd (omega arith)
atoi-decimal_fuel (suc f) n h = elim (Bool-cases (ltb n 10)) [
  | inl e ↦ rw (decimal_small n (ground arith)) (unfold atoi_loop in ground arith)
  | inr e ↦
      rw
        (
          decimal_large n (ground arith),
          atoi_loop_digit 0 (n % 10) (decimal (n / 10)) (decimal-IsDigit (n / 10)) (omega arith),
          atoi-decimal_fuel f (n / 10) (ground arith),
        )
        (omega arith)
]

-- Reading back what was written gives the number.
pub atoi-decimal : (n : ℕ) → atoi (decimal n) ≡ n
atoi-decimal n = atoi-decimal_fuel (suc n) n (omega arith)
