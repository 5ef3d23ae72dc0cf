-- ===== src/Common/Truncated.antt =====
-- Products and quotients of signed integers by a constant; C++ rounds a quotient towards zero.
use Prim.Native.Nat.{ℕ, zero, suc, ◌+◌, ◌-◌, ◌*◌, ◌/◌, ◌%◌, ◌^◌, ◌≤◌, ◌<◌}
use mathlib.Core.Path.{◌≡◌, refl, sym, ◌∙◌}
use native.Mathlib.Nat.{zero-mul}
use native.Mathlib.Omega.{arith}
use mathlib.Core.Bool.{true}
use dbdky_gcc.Common.Tests.{ltb}
use dbdky_gcc.Common.Int.{ℤ, pos, negsuc, pos_part, neg_part, ◌+ℤ◌, ◌-ℤ◌, to_int32}

-- -n.
unfoldable pub negated : ℕ → ℤ
negated zero = pos 0
negated (suc n) = negsuc n

infixl 70 ◌*ℤ◌ ◌/ℤ◌ ◌%ℤ◌
unfoldable pub ◌*ℤ◌ : ℤ → ℕ → ℤ
pos n *ℤ k = pos (n * k)
negsuc n *ℤ k = negated (suc n * k)

unfoldable pub ◌/ℤ◌ : ℤ → ℕ → ℤ
pos n /ℤ k = pos (n / k)
negsuc n /ℤ k = negated (suc n / k)

unfoldable pub ◌%ℤ◌ : ℤ → ℕ → ℤ
pos n %ℤ k = pos (n % k)
negsuc n %ℤ k = negated (suc n % k)

pub pos-+ℤ : (a b : ℕ) → pos a +ℤ pos b ≡ pos (a + b)
unfolding ◌+ℤ◌
pos-+ℤ a b = ground arith

pub pos--ℤ : (a b : ℕ) → b ≤ a → pos a -ℤ pos b ≡ pos (a - b)
unfolding ◌-ℤ◌
pos--ℤ a b h = ground arith

pub pos-*ℤ : (a k : ℕ) → pos a *ℤ k ≡ pos (a * k)
unfolding ◌*ℤ◌
pos-*ℤ a k = refl

pub pos-/ℤ : (a k : ℕ) → pos a /ℤ k ≡ pos (a / k)
unfolding ◌/ℤ◌
pos-/ℤ a k = refl

pub negated_parts : (n : ℕ) → (pos_part (negated n) ≡ 0) × (neg_part (negated n) ≡ n)
unfolding negated
negated_parts zero = (refl, refl)
negated_parts (suc n) = (refl, refl)

pub *ℤ_parts :
    (a : ℤ) (k : ℕ) → (pos_part (a *ℤ k) ≡ pos_part a * k) × (neg_part (a *ℤ k) ≡ neg_part a * k)
unfolding ◌*ℤ◌
*ℤ_parts (pos n) k = (refl, sym (zero-mul k))
*ℤ_parts (negsuc n) k =
    ((negated_parts (suc n * k)).0 ∙ sym (zero-mul k), (negated_parts (suc n * k)).1)

-- A number that an `int` can hold is not changed by the conversion.
pub int32_small : (z : ℤ) → pos_part z < 2 ^ 31 → neg_part z ≤ 2 ^ 31 → to_int32 z ≡ z
unfolding to_int32
int32_small (pos n) h k =
    let same : n % 2 ^ 32 ≡ n = omega (arith, h) in
    let test : ltb n (2 ^ 31) ≡ true = ground (arith, h) in rw (same, test) refl
int32_small (negsuc n) h k =
    let same : n % 2 ^ 32 ≡ n = omega (arith, k) in
    let test : ltb n (2 ^ 31) ≡ true = ground (arith, k) in rw (same, test) refl

pub int32_pos : (n : ℕ) → n < 2 ^ 31 → to_int32 (pos n) ≡ pos n
int32_pos n h = int32_small (pos n) h (omega arith)
