-- ===== src/Common/Store.antt =====
-- A store is a function from addresses, or from descriptors; `put` changes it at one place.
use Prim.Native.Nat.{ℕ}
use mathlib.Core.Path.{◌≡◌, refl}
use mathlib.Core.Logic.{◌≢◌}
use mathlib.Core.Bool.{true, false}
use native.Mathlib.Omega.{arith}
use dbdky_gcc.Common.Tests.{◌==◌, if◌then◌else◌}

module _ {ℓ} {A : Type ℓ} where
  abbrev pub put : ℕ → A → (ℕ → A) → ℕ → A
  put k a f j = if j == k then a else f j

  pub put_at : (k : ℕ) (a : A) (f : ℕ → A) (j : ℕ) → (j == k) ≡ true → put k a f j ≡ a
  put_at k a f j h = rw h refl

  pub put_off : (k : ℕ) (a : A) (f : ℕ → A) (j : ℕ) → (j == k) ≡ false → put k a f j ≡ f j
  put_off k a f j h = rw h refl

  pub put_same : (k : ℕ) (a : A) (f : ℕ → A) → put k a f k ≡ a
  put_same k a f = put_at k a f k (ground arith)

  pub put_other : (k j : ℕ) (a : A) (f : ℕ → A) → j ≢ k → put k a f j ≡ f j
  put_other k j a f n = put_off k a f j (ground (arith, n))
