-- ===== src/TimerQueue/Entries.antt =====
-- Lists of the entries of a timer set.
use dbdky_gcc.Common.{
  ℕ, ◌<◌, ◌≡◌, some, List, [], ◌∷◌, Bool, true, false, ◌||◌, ◌==◌, arith, inl, inr, Bool-cases,
}
use dbdky_gcc.Common.Pairs.{Pair, contains, same, IsAscending, contains-below}
use dbdky_gcc.TimerQueue.{Timer, TimerQueue, uintptr_max}

-- Whether an address stands in a list of entries.
unfoldable pub occurs : ℕ → List Pair → Bool
occurs a [] = false
occurs a (x ∷ l) = (a == x.1) || occurs a l

abbrev pub All : (Pair → Type 0) → List Pair → Type 0
All P [] = Unit
All P (x ∷ l) = P x × All P l

abbrev pub IsDistinct : List Pair → Type 0
IsDistinct [] = Unit
IsDistinct (x ∷ l) = (occurs x.1 l ≡ false) × IsDistinct l

-- An entry of a living timer.
abbrev pub IsAlive : TimerQueue → Pair → Type 0
IsAlive q x = (t : Timer) × (q.heap x.1 ≡ some t) × (t.expiration ≡ x.0) × (x.1 < uintptr_max)

pub All-of_contains :
    (P : Pair → Type 0) (l : List Pair) → ((x : Pair) → contains x l ≡ true → P x) → All P l
unfolding contains
All-of_contains P [] h = tt
All-of_contains P (x ∷ l) h =
    (h x (ground arith), All-of_contains P l (λ y c. h y (ground (arith, c))))

pub All-map : (P Q : Pair → Type 0) (l : List Pair) → ((x : Pair) → P x → Q x) → All P l → All Q l
All-map P Q [] f h = tt
All-map P Q (x ∷ l) f h = (f x h.0, All-map P Q l f h.1)

pub All-both : (P Q : Pair → Type 0) (l : List Pair) → All P l → All Q l → All (λ x. P x × Q x) l
All-both P Q [] h k = tt
All-both P Q (x ∷ l) h k = ((h.0, k.0), All-both P Q l h.1 k.1)

pub contains-of_occurs :
    (a : ℕ) (l : List Pair) → occurs a l ≡ true → (w : ℕ) × (contains (w, a) l ≡ true)
unfolding occurs contains
contains-of_occurs a [] h = absurd (cc h)
contains-of_occurs a (x ∷ l) h = elim (Bool-cases (a == x.1)) [
  | inl e ↦ (x.0, ground arith)
  | inr e ↦ let (w, c) = contains-of_occurs a l (ground arith) in (w, ground arith)
]

pub occurs-of_contains : (w a : ℕ) (l : List Pair) → contains (w, a) l ≡ true → occurs a l ≡ true
unfolding occurs contains
occurs-of_contains w a [] h = absurd (cc h)
occurs-of_contains w a (x ∷ l) h = ground (arith, occurs-of_contains w a l)

pub All-at :
    (q : TimerQueue) (w a : ℕ) (l : List Pair)
    → All (IsAlive q) l
    → contains (w, a) l ≡ true
    → IsAlive q (w, a)
unfolding contains
All-at q w a [] h c = absurd (cc c)
All-at q w a (x ∷ l) h c = elim (Bool-cases (same (w, a) x)) [
  | inl e ↦
      let (t, there, time, low) = h.0 in
      (t, ground (arith, there), ground (arith, time), ground (arith, low))
  | inr e ↦ All-at q w a l h.1 (ground arith)
]

-- One address has one time, so that an ascending list of living timers has it once.
pub IsDistinct-of_ascending :
    (q : TimerQueue) (l : List Pair) → IsAscending l → All (IsAlive q) l → IsDistinct l
unfolding occurs
IsDistinct-of_ascending q [] h a = tt
IsDistinct-of_ascending q (x ∷ l) h a = (
  elim (Bool-cases (occurs x.1 l)) [
    | inl o ↦
        let (w, c) = contains-of_occurs x.1 l o in
        let (t, there, time, low) = a.0 in
        let (u, there', time', low') = All-at q w x.1 l a.1 c in
        ground (arith, contains-below x l h.0)
    | inr o ↦ o
  ],
  IsDistinct-of_ascending q l h.1 a.1,
)
