-- ===== src/Common/Pairs.antt =====
-- `std::set` of pairs: a list in ascending order, each pair once.
pub mod Split
use Prim.Native.Nat.{ℕ, suc, ◌-◌}
use mathlib.Core.Path.{◌≡◌, refl}
use mathlib.Core.Bool.{Bool, true, false, not, ◌&&◌, ◌||◌}
use mathlib.Core.List.{List, [], ◌∷◌}
use native.Mathlib.Omega.{arith}
use dbdky_gcc.Common.Tests.{ltb, ◌==◌, if◌then◌else◌}
use dbdky_gcc.Common.Lists.{length}

abbrev pub Pair : Type 0
Pair = ℕ × ℕ

-- `std::pair` compares by its first parts, and by the second ones where these are equal.
abbrev pub before : Pair → Pair → Bool
before x y = ltb x.0 y.0 || ((x.0 == y.0) && ltb x.1 y.1)

abbrev pub same : Pair → Pair → Bool
same x y = (x.0 == y.0) && (x.1 == y.1)

-- `find`, as a test.
unfoldable pub contains : Pair → List Pair → Bool
contains x [] = false
contains x (y ∷ l) = same x y || contains x l

unfoldable pub insert : Pair → List Pair → List Pair
insert x [] = x ∷ []
insert x (y ∷ l) = if before x y then x ∷ y ∷ l else if before y x then y ∷ insert x l else y ∷ l

unfoldable pub erase : Pair → List Pair → List Pair
erase x [] = []
erase x (y ∷ l) = if same x y then l else y ∷ erase x l

abbrev pub IsBelow : Pair → List Pair → Type 0
IsBelow x [] = Unit
IsBelow x (y ∷ l) = (before x y ≡ true) × IsBelow x l

abbrev pub IsAscending : List Pair → Type 0
IsAscending [] = Unit
IsAscending (x ∷ l) = IsBelow x l × IsAscending l

pub IsBelow-trans : (x y : Pair) (l : List Pair) → before x y ≡ true → IsBelow y l → IsBelow x l
IsBelow-trans x y [] h b = tt
IsBelow-trans x y (z ∷ l) h b = (ground (arith, b.0), IsBelow-trans x y l h b.1)

pub contains-below : (x : Pair) (l : List Pair) → IsBelow x l → contains x l ≡ false
unfolding contains
contains-below x [] b = refl
contains-below x (y ∷ l) b = ground (arith, b.0, contains-below x l b.1)

IsBelow-insert :
    (x y : Pair) (l : List Pair) → before x y ≡ true → IsBelow x l → IsBelow x (insert y l)
unfolding insert
IsBelow-insert x y [] h b = (h, tt)
IsBelow-insert x y (z ∷ l) h b = ground (arith, b, IsBelow-insert x y l h b.1)

pub insert-IsAscending : (x : Pair) (l : List Pair) → IsAscending l → IsAscending (insert x l)
unfolding insert
insert-IsAscending x [] h = (tt, tt)
insert-IsAscending x (y ∷ l) h =
    ground (arith, h, insert-IsAscending x l h.1, IsBelow-trans x y l, IsBelow-insert y x l)

IsBelow-erase : (x y : Pair) (l : List Pair) → IsBelow x l → IsBelow x (erase y l)
unfolding erase
IsBelow-erase x y [] b = tt
IsBelow-erase x y (z ∷ l) b = ground (arith, b, IsBelow-erase x y l b.1)

pub erase-IsAscending : (x : Pair) (l : List Pair) → IsAscending l → IsAscending (erase x l)
unfolding erase
erase-IsAscending x [] h = tt
erase-IsAscending x (y ∷ l) h =
    ground (arith, h, erase-IsAscending x l h.1, IsBelow-erase y x l h.0)

pub contains-insert :
    (x y : Pair) (l : List Pair) → contains y (insert x l) ≡ (same y x || contains y l)
unfolding contains insert
contains-insert x y [] = refl
contains-insert x y (z ∷ l) = ground (arith, contains-insert x y l)

contains-same : (x y : Pair) (l : List Pair) → same x y ≡ true → contains x l ≡ contains y l
unfolding contains
contains-same x y [] h = refl
contains-same x y (z ∷ l) h = ground (arith, contains-same x y l h)

pub contains-erase :
    (x y : Pair) (l : List Pair)
    → IsAscending l
    → contains y (erase x l) ≡ (not (same y x) && contains y l)
unfolding contains erase
contains-erase x y [] h = ground arith
contains-erase x y (z ∷ l) h =
    ground (arith, contains-erase x y l h.1, contains-below z l h.0, contains-same y z l)

pub length-insert :
    (x : Pair) (l : List Pair) → contains x l ≡ false → length (insert x l) ≡ suc (length l)
unfolding contains insert
length-insert x [] h = refl
length-insert x (y ∷ l) h = ground (arith, length-insert x l)

pub length-erase :
    (x : Pair) (l : List Pair) → contains x l ≡ true → length l ≡ suc (length (erase x l))
unfolding contains erase
length-erase x [] h = absurd (cc h)
length-erase x (y ∷ l) h = ground (arith, length-erase x l)
