-- ===== src/Common/Pairs/Split.antt =====
-- The part of an ascending list that stands before a pair, and the rest.
use Prim.Native.Nat.{◌+◌}
use mathlib.Core.Path.{◌≡◌, refl}
use mathlib.Core.Bool.{true, false, not, ◌&&◌}
use mathlib.Core.List.{List, [], ◌∷◌, ◌++◌}
use native.Mathlib.Omega.{arith}
use dbdky_gcc.Common.Tests.{if◌then◌else◌}
use dbdky_gcc.Common.Lists.{length}
use dbdky_gcc.Common.Pairs.{Pair, before, contains, IsBelow, IsAscending}

-- `[begin(), lower_bound(s))` and `[lower_bound(s), end())`.
unfoldable pub front : Pair → List Pair → List Pair
front s [] = []
front s (x ∷ l) = if before x s then x ∷ front s l else []

unfoldable pub rest : Pair → List Pair → List Pair
rest s [] = []
rest s (x ∷ l) = if before x s then rest s l else x ∷ l

pub front-append-rest : (s : Pair) (l : List Pair) → front s l ++ rest s l ≡ l
unfolding front rest
front-append-rest s [] = refl
front-append-rest s (x ∷ l) = ground (arith, front-append-rest s l)

IsBelow-rest : (s x : Pair) (l : List Pair) → IsBelow x l → IsBelow x (rest s l)
unfolding rest
IsBelow-rest s x [] h = tt
IsBelow-rest s x (y ∷ l) h = ground (arith, h, IsBelow-rest s x l h.1)

IsBelow-front : (s x : Pair) (l : List Pair) → IsBelow x l → IsBelow x (front s l)
unfolding front
IsBelow-front s x [] h = tt
IsBelow-front s x (y ∷ l) h = ground (arith, h, IsBelow-front s x l h.1)

pub rest-IsAscending : (s : Pair) (l : List Pair) → IsAscending l → IsAscending (rest s l)
unfolding rest
rest-IsAscending s [] h = tt
rest-IsAscending s (x ∷ l) h = ground (arith, h, rest-IsAscending s l h.1)

pub front-IsAscending : (s : Pair) (l : List Pair) → IsAscending l → IsAscending (front s l)
unfolding front
front-IsAscending s [] h = tt
front-IsAscending s (x ∷ l) h =
    ground (arith, h, front-IsAscending s l h.1, IsBelow-front s x l h.0)

contains-late :
    (s x y : Pair) (l : List Pair)
    → before x s ≡ false
    → IsBelow x l
    → before y s ≡ true
    → contains y l ≡ false
unfolding contains
contains-late s x y [] n b e = refl
contains-late s x y (z ∷ l) n b e = ground (arith, b, contains-late s x y l n b.1 e)

pub contains-front :
    (s y : Pair) (l : List Pair)
    → IsAscending l
    → contains y (front s l) ≡ (before y s && contains y l)
unfolding contains front
contains-front s y [] h = ground arith
contains-front s y (x ∷ l) h = ground (arith, h, contains-front s y l h.1, contains-late s x y l)

pub contains-rest :
    (s y : Pair) (l : List Pair)
    → IsAscending l
    → contains y (rest s l) ≡ (not (before y s) && contains y l)
unfolding contains rest
contains-rest s y [] h = ground arith
contains-rest s y (x ∷ l) h = ground (arith, h, contains-rest s y l h.1, contains-late s x y l)

pub length-front-add-rest :
    (s : Pair) (l : List Pair) → length l ≡ length (front s l) + length (rest s l)
unfolding front rest
length-front-add-rest s [] = refl
length-front-add-rest s (x ∷ l) = ground (arith, length-front-add-rest s l)
