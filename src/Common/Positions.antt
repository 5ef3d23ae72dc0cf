-- ===== src/Common/Positions.antt =====
-- What stands at a position of a list that was extended or changed.
use Prim.Native.Nat.{ℕ, zero, suc}
use mathlib.Core.Path.{◌≡◌, refl, ap}
use mathlib.Core.Logic.{◌≢◌, ◌⊎◌, inl, inr}
use mathlib.Core.Option.{some}
use mathlib.Core.List.{List, [], ◌∷◌, ◌++◌}
use native.Mathlib.Omega.{arith}
use dbdky_gcc.Common.Lists.{length, get_elem?, set}

module _ {ℓ} {A : Type ℓ} where
  pub get_elem?-last : (xs : List A) (x : A) → get_elem? (xs ++ (x ∷ [])) (length xs) ≡ some x
  get_elem?-last [] x = refl
  get_elem?-last (y ∷ xs) x = get_elem?-last xs x

  -- An element of the longer list is the new one or an old one.
  pub get_elem?-snoc :
      (xs : List A) (x y : A) (i : ℕ)
      → get_elem? (xs ++ (x ∷ [])) i ≡ some y
      → ((i ≡ length xs) × (x ≡ y)) ⊎ (get_elem? xs i ≡ some y)
  get_elem?-snoc [] x y zero h = inl (refl, cc h)
  get_elem?-snoc [] x y (suc i) h = absurd (cc h)
  get_elem?-snoc (z ∷ xs) x y zero h = inr h
  get_elem?-snoc (z ∷ xs) x y (suc i) h = elim (get_elem?-snoc xs x y i h) [
    | inl (e, e') ↦ inl (ap suc e, e')
    | inr e ↦ inr e
  ]

  pub get_elem?-front :
      (xs : List A) (x y : A) (i : ℕ)
      → get_elem? xs i ≡ some y
      → get_elem? (xs ++ (x ∷ [])) i ≡ some y
  get_elem?-front [] x y i h = absurd (cc h)
  get_elem?-front (z ∷ xs) x y zero h = h
  get_elem?-front (z ∷ xs) x y (suc i) h = get_elem?-front xs x y i h

  pub get_elem?-set :
      (xs : List A) (k : ℕ) (x y : A) (i : ℕ)
      → get_elem? (set xs k x) i ≡ some y
      → ((i ≡ k) × (x ≡ y)) ⊎ ((i ≢ k) × (get_elem? xs i ≡ some y))
  get_elem?-set [] k x y i h = absurd (cc h)
  get_elem?-set (z ∷ xs) zero x y zero h = inl (refl, cc h)
  get_elem?-set (z ∷ xs) zero x y (suc i) h = inr (omega arith, h)
  get_elem?-set (z ∷ xs) (suc k) x y zero h = inr (omega arith, h)
  get_elem?-set (z ∷ xs) (suc k) x y (suc i) h = elim (get_elem?-set xs k x y i h) [
    | inl (e, e') ↦ inl (ap suc e, e')
    | inr (n, e) ↦ inr (omega (arith, n), e)
  ]

  pub get_elem?-set_same :
      (xs : List A) (k : ℕ) (x y : A) → get_elem? xs k ≡ some y → get_elem? (set xs k x) k ≡ some x
  get_elem?-set_same [] k x y h = absurd (cc h)
  get_elem?-set_same (z ∷ xs) zero x y h = refl
  get_elem?-set_same (z ∷ xs) (suc k) x y h = get_elem?-set_same xs k x y h

  pub get_elem?-set_other :
      (xs : List A) (k : ℕ) (x y : A) (i : ℕ)
      → i ≢ k
      → get_elem? xs i ≡ some y
      → get_elem? (set xs k x) i ≡ some y
  get_elem?-set_other [] k x y i n h = absurd (cc h)
  get_elem?-set_other (z ∷ xs) zero x y zero n h = absurd (n refl)
  get_elem?-set_other (z ∷ xs) zero x y (suc i) n h = h
  get_elem?-set_other (z ∷ xs) (suc k) x y zero n h = h
  get_elem?-set_other (z ∷ xs) (suc k) x y (suc i) n h =
      get_elem?-set_other xs k x y i (λ e. n (ap suc e)) h
