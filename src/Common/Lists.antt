-- ===== src/Common/Lists.antt =====
-- Lists measured and indexed by native numbers, under the library's names.
use Prim.Native.Nat.{ℕ, zero, suc, ◌+◌, ◌-◌, ◌≤◌, ◌<◌, min}
use Prim.Native.Nat.add
use mathlib.Core.Path.{◌≡◌, refl, ap, ◌∙◌, subst}
use mathlib.Core.Logic.{◌≢◌}
use mathlib.Core.List.{List, [], ◌∷◌, ◌++◌, map}
use mathlib.Core.Option.{Option, none, some}
use native.Mathlib.Omega.{arith}

module _ {ℓ} {A : Type ℓ} where
  abbrev pub length : List A → ℕ
  length [] = 0
  length (x ∷ xs) = suc (length xs)

  abbrev pub get_elem? : List A → ℕ → Option A
  get_elem? [] i = none
  get_elem? (x ∷ xs) zero = some x
  get_elem? (x ∷ xs) (suc i) = get_elem? xs i

  -- A write out of bounds changes nothing.
  abbrev pub set : List A → ℕ → A → List A
  set [] i v = []
  set (x ∷ xs) zero v = v ∷ xs
  set (x ∷ xs) (suc i) v = x ∷ set xs i v

  pub length-append : (xs ys : List A) → length (xs ++ ys) ≡ length xs + length ys
  length-append [] ys = omega arith
  length-append (x ∷ xs) ys = omega (arith, length-append xs ys)

module _ {ℓ} {A : Type ℓ} where
  pub length-set : (xs : List A) (i : ℕ) (v : A) → length (set xs i v) ≡ length xs
  length-set [] i v = refl
  length-set (x ∷ xs) zero v = refl
  length-set (x ∷ xs) (suc i) v = ap suc (length-set xs i v)

  pub get_elem?-set_self :
      (xs : List A) (i : ℕ) (v : A) → i < length xs → get_elem? (set xs i v) i ≡ some v
  get_elem?-set_self [] i v h = elim h [ ]
  get_elem?-set_self (x ∷ xs) zero v h = refl
  get_elem?-set_self (x ∷ xs) (suc i) v h = get_elem?-set_self xs i v (omega arith)

  pub get_elem?-set_ne :
      (xs : List A) {i j : ℕ} (v : A) → i ≢ j → get_elem? (set xs i v) j ≡ get_elem? xs j
  get_elem?-set_ne [] v h = refl
  get_elem?-set_ne (x ∷ xs) {i = zero} {j = zero} v h = absurd (h refl)
  get_elem?-set_ne (x ∷ xs) {i = zero} {j = suc j} v h = refl
  get_elem?-set_ne (x ∷ xs) {i = suc i} {j = zero} v h = refl
  get_elem?-set_ne (x ∷ xs) {i = suc i} {j = suc j} v h = get_elem?-set_ne xs v (λ e. h (ap suc e))

module _ {ℓ} {A : Type ℓ} where
  abbrev pub get_or : List A → ℕ → A → A
  get_or [] i d = d
  get_or (x ∷ xs) zero d = x
  get_or (x ∷ xs) (suc i) d = get_or xs i d

  abbrev pub take : ℕ → List A → List A
  take zero xs = []
  take (suc n) [] = []
  take (suc n) (x ∷ xs) = x ∷ take n xs

  abbrev pub drop : ℕ → List A → List A
  drop zero xs = xs
  drop (suc n) [] = []
  drop (suc n) (x ∷ xs) = drop n xs

  abbrev pub replicate : ℕ → A → List A
  replicate zero a = []
  replicate (suc n) a = a ∷ replicate n a

  pub take-append-drop : (n : ℕ) (xs : List A) → take n xs ++ drop n xs ≡ xs
  take-append-drop zero xs = refl
  take-append-drop (suc n) [] = refl
  take-append-drop (suc n) (x ∷ xs) = rw (take-append-drop n xs)

  pub length-take : (n : ℕ) (xs : List A) → length (take n xs) ≡ min n (length xs)
  length-take zero xs = omega arith
  length-take (suc n) [] = omega arith
  length-take (suc n) (x ∷ xs) = omega (arith, length-take n xs)

  pub length-drop : (n : ℕ) (xs : List A) → length (drop n xs) ≡ length xs - n
  length-drop zero xs = omega arith
  length-drop (suc n) [] = omega arith
  length-drop (suc n) (x ∷ xs) = omega (arith, length-drop n xs)

  pub length-replicate : (n : ℕ) (a : A) → length (replicate n a) ≡ n
  length-replicate zero a = refl
  length-replicate (suc n) a = ap suc (length-replicate n a)

  pub length-map {κ} : {B : Type κ} (xs : List A) (f : A → B) → length (map f xs) ≡ length xs
  length-map [] f = refl
  length-map (x ∷ xs) f = ap suc (length-map xs f)

-- A predicate by recursion computes to tuples, which the tactics read and build.
abbrev pub All {ℓ κ} : {A : Type ℓ} → (A → Type κ) → List A → Type κ
All P [] = Unit
All P (x ∷ xs) = P x × All P xs

pub All-append {ℓ κ} :
    {A : Type ℓ} (P : A → Type κ) (xs ys : List A) → All P xs → All P ys → All P (xs ++ ys)
All-append P [] ys h k = k
All-append P (x ∷ xs) ys h k = (h.0, All-append P xs ys h.1 k)

-- Overwriting in place from index `i` on; what would fall behind the end is dropped.
module _ {ℓ} {A : Type ℓ} where
  unfoldable pub overwrite : List A → ℕ → List A → List A
  overwrite [] i ys = []
  overwrite (x ∷ xs) zero [] = x ∷ xs
  overwrite (x ∷ xs) zero (y ∷ ys) = y ∷ overwrite xs zero ys
  overwrite (x ∷ xs) (suc i) ys = x ∷ overwrite xs i ys

  pub length-overwrite :
      (xs : List A) (i : ℕ) (ys : List A) → length (overwrite xs i ys) ≡ length xs
  unfolding overwrite
  length-overwrite [] i ys = refl
  length-overwrite (x ∷ xs) zero [] = refl
  length-overwrite (x ∷ xs) zero (y ∷ ys) = ap suc (length-overwrite xs zero ys)
  length-overwrite (x ∷ xs) (suc i) ys = ap suc (length-overwrite xs i ys)

  pub overwrite-split :
      (xs : List A) (i : ℕ) (ys : List A)
      → i + length ys ≤ length xs
      → overwrite xs i ys ≡ take i xs ++ (ys ++ drop (i + length ys) xs)
  unfolding overwrite
  overwrite-split [] zero [] h = refl
  overwrite-split [] zero (y ∷ ys) h = absurd (omega arith)
  overwrite-split [] (suc i) ys h = absurd (omega arith)
  overwrite-split (x ∷ xs) zero [] h = refl
  overwrite-split (x ∷ xs) zero (y ∷ ys) h =
      rw (add.zero (suc (length ys)), ← add.zero (length ys))
        (ap (λ t. y ∷ t) (overwrite-split xs zero ys (omega arith)))
  overwrite-split (x ∷ xs) (suc i) ys h =
      rw add.suc (ap (λ t. x ∷ t) (overwrite-split xs i ys (omega arith)))

  pub overwrite-nil : (xs : List A) (i : ℕ) → overwrite xs i [] ≡ xs
  unfolding overwrite
  overwrite-nil [] i = refl
  overwrite-nil (x ∷ xs) zero = refl
  overwrite-nil (x ∷ xs) (suc i) = ap (λ t. x ∷ t) (overwrite-nil xs i)

  pub overwrite-overwrite :
      (xs : List A) (i : ℕ) (ys zs : List A)
      → overwrite (overwrite xs i ys) (i + length ys) zs ≡ overwrite xs i (ys ++ zs)
  unfolding overwrite
  overwrite-overwrite [] i ys zs = refl
  overwrite-overwrite (x ∷ xs) zero [] zs = refl
  overwrite-overwrite (x ∷ xs) zero (y ∷ ys) zs =
      rw (add.zero (suc (length ys)), ← add.zero (length ys))
        (ap (λ t. y ∷ t) (overwrite-overwrite xs zero ys zs))
  overwrite-overwrite (x ∷ xs) (suc i) ys zs =
      rw add.suc (ap (λ t. x ∷ t) (overwrite-overwrite xs i ys zs))

  pub take-append : (xs ys : List A) (n : ℕ) → n ≤ length xs → take n (xs ++ ys) ≡ take n xs
  take-append [] ys zero h = refl
  take-append [] ys (suc n) h = absurd (omega arith)
  take-append (x ∷ xs) ys zero h = refl
  take-append (x ∷ xs) ys (suc n) h = ap (λ t. x ∷ t) (take-append xs ys n (omega arith))

  pub drop-append : (xs ys : List A) (n : ℕ) → n ≤ length xs → drop n (xs ++ ys) ≡ drop n xs ++ ys
  drop-append [] ys zero h = refl
  drop-append [] ys (suc n) h = absurd (omega arith)
  drop-append (x ∷ xs) ys zero h = refl
  drop-append (x ∷ xs) ys (suc n) h = drop-append xs ys n (omega arith)

  pub drop_all : (xs : List A) (n : ℕ) → length xs ≤ n → drop n xs ≡ []
  drop_all [] zero h = refl
  drop_all [] (suc n) h = refl
  drop_all (x ∷ xs) zero h = absurd (omega arith)
  drop_all (x ∷ xs) (suc n) h = drop_all xs n (omega arith)

  pub take_all : (xs : List A) (n : ℕ) → length xs ≤ n → take n xs ≡ xs
  take_all [] zero h = refl
  take_all [] (suc n) h = refl
  take_all (x ∷ xs) zero h = absurd (omega arith)
  take_all (x ∷ xs) (suc n) h = ap (λ t. x ∷ t) (take_all xs n (omega arith))

  -- Past the end of `xs` a prefix goes on into `ys`, and a suffix starts in it.
  pub take-append_right :
      (xs ys : List A) (n k : ℕ) → n ≡ length xs + k → take n (xs ++ ys) ≡ xs ++ take k ys
  take-append_right [] ys n k e = ap (λ t. take t ys) (omega arith)
  take-append_right (x ∷ xs) ys zero k e = absurd (omega arith)
  take-append_right (x ∷ xs) ys (suc n) k e =
      ap (λ t. x ∷ t) (take-append_right xs ys n k (omega arith))

  pub drop-append_right :
      (xs ys : List A) (n k : ℕ) → n ≡ length xs + k → drop n (xs ++ ys) ≡ drop k ys
  drop-append_right [] ys n k e = ap (λ t. drop t ys) (omega arith)
  drop-append_right (x ∷ xs) ys zero k e = absurd (omega arith)
  drop-append_right (x ∷ xs) ys (suc n) k e = drop-append_right xs ys n k (omega arith)

  pub drop-drop : (xs : List A) (m n : ℕ) → drop n (drop m xs) ≡ drop (m + n) xs
  drop-drop xs zero n = ap (λ t. drop t xs) (omega arith)
  drop-drop [] (suc m) zero = rw add.suc refl
  drop-drop [] (suc m) (suc n) = rw add.suc refl
  drop-drop (x ∷ xs) (suc m) n = rw add.suc (drop-drop xs m n)

  pub take-drop : (xs : List A) (m n : ℕ) → take n (drop m xs) ≡ drop m (take (m + n) xs)
  take-drop xs zero n = ap (λ t. take t xs) (omega arith)
  take-drop [] (suc m) zero = rw add.suc refl
  take-drop [] (suc m) (suc n) = rw add.suc refl
  take-drop (x ∷ xs) (suc m) n = rw add.suc (take-drop xs m n)

  -- Up to the end of what was written.
  pub take-overwrite :
      (xs : List A) (i n : ℕ) (ys : List A)
      → i + length ys ≤ length xs
      → n ≡ i + length ys
      → take n (overwrite xs i ys) ≡ take i xs ++ ys
  take-overwrite xs i n ys h e =
      ap (take n) (overwrite-split xs i ys h)
      ∙ take-append_right (take i xs) (ys ++ drop (i + length ys) xs) n (length ys)
          (omega (arith, length-take i xs))
      ∙ ap (λ t. take i xs ++ t)
          (take-append ys (drop (i + length ys) xs) (length ys) (omega arith)
            ∙ take_all ys (length ys) (omega arith))

  pub get_elem?-lt : (xs : List A) (i : ℕ) → i < length xs → (x : A) × (get_elem? xs i ≡ some x)
  get_elem?-lt [] i h = absurd (omega arith)
  get_elem?-lt (x ∷ xs) zero h = (x, refl)
  get_elem?-lt (x ∷ xs) (suc i) h = get_elem?-lt xs i (omega arith)

  -- A longer prefix, by the two elements that it adds.
  pub take_two :
      (xs : List A) (n : ℕ) (x y : A)
      → get_elem? xs n ≡ some x
      → get_elem? xs (suc n) ≡ some y
      → take (suc (suc n)) xs ≡ take n xs ++ (x ∷ y ∷ [])
  take_two [] n x y ex ey = cc
  take_two (z ∷ []) zero x y ex ey = cc
  take_two (z ∷ w ∷ xs) zero x y ex ey = cc
  take_two (z ∷ xs) (suc n) x y ex ey = ap (λ t. z ∷ t) (take_two xs n x y ex ey)

  pub All-take {κ} : (P : A → Type κ) (n : ℕ) (xs : List A) → All P xs → All P (take n xs)
  All-take P zero xs h = tt
  All-take P (suc n) [] h = tt
  All-take P (suc n) (x ∷ xs) h = (h.0, All-take P n xs h.1)

  pub All-get_elem? {κ} :
      (P : A → Type κ) (xs : List A) (i : ℕ) (x : A) → All P xs → get_elem? xs i ≡ some x → P x
  All-get_elem? P [] i x h e = cc
  All-get_elem? P (y ∷ xs) zero x h e = subst P (cc) h.0
  All-get_elem? P (y ∷ xs) (suc i) x h e = All-get_elem? P xs i x h.1 e
