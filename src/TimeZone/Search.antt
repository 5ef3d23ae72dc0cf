-- ===== src/TimeZone/Search.antt =====
-- The local time that `findLocaltime` finds, among transitions that ascend.
use mathlib.Core.Path.{subst}
use dbdky_gcc.Common.{
  ℕ, suc, ◌≡◌, refl, sym, ap, ◌∙◌, Option, none, some, List, [], ◌∷◌, Bool, true, false, length,
  ◌==◌, if◌then◌else◌, get_elem?, inl, inr, Bool-cases, arith, ◌>>=◌,
}
use dbdky_gcc.TimeZone.{
  Transition, Localtime, Data, comp, equal, lower_bound, back, previous, local_of, found_at,
  found_past, found_from, is_before, find_localtime,
}

-- Every transition comes after the one before it.
unfoldable pub IsAscending : Bool → List Transition → Type 0
IsAscending gmt [] = Unit
IsAscending gmt (t ∷ []) = Unit
IsAscending gmt (t ∷ u ∷ l) = (comp gmt t u ≡ true) × IsAscending gmt (u ∷ l)

-- The last transition that has come at the time of the sentry, `last` where none has.
unfoldable pub last_come :
    Bool → Option Transition → List Transition → Transition → Option Transition
last_come gmt last [] sentry = last
last_come gmt last (t ∷ l) sentry =
    if comp gmt sentry t then last else last_come gmt (some t) l sentry

-- Its local time; the first of all local times before the first transition.
unfoldable pub local_at : Data → Option Transition → Option Localtime
local_at zone none = get_elem? zone.localtimes 0
local_at zone (some t) = local_of zone t

bind_assoc :
    {A B C : Type 0} (m : Option A) (f : A → Option B) (g : B → Option C)
    → (m >>= f) >>= g ≡ m >>= λ a. f a >>= g
bind_assoc none f g = refl
bind_assoc (some a) f g = refl

module _ (gmt : Bool) (sentry : Transition) where
  -- Neither time is the earlier one.
  same_time :
      (t : Transition)
      → comp gmt sentry t ≡ false
      → comp gmt t sentry ≡ false
      → equal gmt sentry t ≡ true
  unfolding comp equal
  same_time t h k = ground (arith, h, k)

  later : (t : Transition) → comp gmt sentry t ≡ true → equal gmt sentry t ≡ false
  unfolding comp equal
  later t h = ground (arith, h)

  not_before : (t : Transition) → comp gmt sentry t ≡ true → comp gmt t sentry ≡ false
  unfolding comp
  not_before t h = ground (arith, h)

  next_later :
      (t u : Transition)
      → comp gmt t u ≡ true
      → comp gmt t sentry ≡ false
      → comp gmt sentry t ≡ false
      → comp gmt sentry u ≡ true
  unfolding comp
  next_later t u h k n = ground (arith, h, k, n)

  -- The position that `findLocaltime` takes, where the element at `i` is the first that is not below.
  pick_at : List Transition → ℕ → Option Transition
  pick_at l i = do
    t ← get_elem? l i
    j ← if equal gmt sentry t then some i else previous i
    get_elem? l j

  pick : List Transition → Option Transition
  pick l = let i = lower_bound gmt l sentry in if i == length l then back l else pick_at l i

  pick_first :
      (t : Transition) (l : List Transition)
      → comp gmt sentry t ≡ false
      → comp gmt t sentry ≡ false
      → pick (t ∷ l) ≡ some t
  unfolding pick pick_at lower_bound
  pick_first t l h k =
      let z : (0 == suc (length l)) ≡ false = ground arith in rw (k, z, same_time t h k) refl

  pick_second :
      (t u : Transition) (l : List Transition)
      → comp gmt t sentry ≡ true
      → comp gmt sentry u ≡ true
      → pick (t ∷ u ∷ l) ≡ some t
  unfolding pick pick_at lower_bound previous
  pick_second t u l k h =
      let z : (1 == suc (suc (length l))) ≡ false = ground arith in
      rw (k, not_before u h, z, later u h) refl

  positive :
      (u : Transition) (l : List Transition)
      → comp gmt u sentry ≡ true
      → lower_bound gmt (u ∷ l) sentry ≡ suc (lower_bound gmt l sentry)
  unfolding lower_bound
  positive u l h = rw h refl

  previous-suc : (n : ℕ) → previous (suc n) ≡ some n
  unfolding previous
  previous-suc n = ground arith

  step_back :
      (l : List Transition) (t : Transition) (n : ℕ) (same : Bool)
      → (if same then some (suc (suc n)) else previous (suc (suc n))) >>= (λ j. get_elem? (t ∷ l) j)
        ≡ (if same then some (suc n) else previous (suc n)) >>= (λ j. get_elem? l j)
  step_back l t n true = refl
  step_back l t n false = rw (previous-suc (suc n), previous-suc n) refl

  pick_at-later :
      (t : Transition) (l : List Transition) (n : ℕ)
      → pick_at (t ∷ l) (suc (suc n)) ≡ pick_at l (suc n)
  unfolding pick_at
  pick_at-later t l n = go (get_elem? l (suc n))
    where
      go :
          (o : Option Transition)
          → o >>= (λ u.
            (if equal gmt sentry u then some (suc (suc n)) else previous (suc (suc n)))
            >>= (λ j. get_elem? (t ∷ l) j))
            ≡ o >>= (λ u.
              (if equal gmt sentry u then some (suc n) else previous (suc n))
              >>= (λ j. get_elem? l j))
      go none = refl
      go (some u) = step_back l t n (equal gmt sentry u)

  pick_later :
      (t u : Transition) (l : List Transition)
      → comp gmt t sentry ≡ true
      → comp gmt sentry u ≡ false
      → pick (t ∷ u ∷ l) ≡ pick (u ∷ l)
  unfolding pick lower_bound back
  pick_later t u l k h = elim (Bool-cases (comp gmt u sentry)) [
    | inl below ↦
        let n = lower_bound gmt l sentry in
        let z : (suc (suc n) == suc (suc (length l))) ≡ (suc n == suc (length l)) = ground arith in
        rw (k, below, z, pick_at-later t (u ∷ l) n) refl
    | inr same ↦
        let z : (1 == suc (suc (length l))) ≡ false = ground arith in
        let z' : (0 == suc (length l)) ≡ false = ground arith in
        unfold pick_at in rw (k, same, z, z', same_time u h same) refl
  ]

  -- Among ascending transitions, of which the first has come, the last one that has come is picked.
  pick_lem :
      (t : Transition) (l : List Transition)
      → IsAscending gmt (t ∷ l)
      → comp gmt sentry t ≡ false
      → pick (t ∷ l) ≡ last_come gmt (some t) l sentry
  unfolding last_come IsAscending
  pick_lem t [] up h = elim (Bool-cases (comp gmt t sentry)) [
    | inl below ↦ unfold pick lower_bound back in rw below refl
    | inr same ↦ pick_first t [] h same
  ]
  pick_lem t (u ∷ l) up h = elim (Bool-cases (comp gmt t sentry)) [
    | inl below ↦ elim (Bool-cases (comp gmt sentry u)) [
      | inl after ↦ rw after (pick_second t u l below after)
      | inr come ↦ rw come (pick_later t u l below come ∙ pick_lem u l up.1 come)
    ]
    | inr same ↦ rw (next_later t u up.0 same h) (pick_first t (u ∷ l) h same)
  ]

  found_at-pick :
      (zone : Data) (i : ℕ)
      → found_at gmt zone sentry i ≡ pick_at zone.transitions i >>= local_of zone
  unfolding found_at pick_at
  found_at-pick zone i = go (get_elem? zone.transitions i)
    where
      go :
          (o : Option Transition)
          → o >>= (λ t.
            (if equal gmt sentry t then some i else previous i)
            >>= (λ j. get_elem? zone.transitions j >>= λ u. local_of zone u))
            ≡ (o >>= (λ t.
                (if equal gmt sentry t then some i else previous i)
                >>= (λ j. get_elem? zone.transitions j)))
              >>= local_of zone
      go none = refl
      go (some t) = sym (bind_assoc _ (λ j. get_elem? zone.transitions j) (local_of zone))

  found_from-pick :
      (zone : Data) → found_from gmt zone sentry ≡ pick zone.transitions >>= local_of zone
  unfolding found_from found_past pick
  found_from-pick zone =
      elim (Bool-cases (lower_bound gmt zone.transitions sentry == length zone.transitions)) [
        | inl past ↦ rw (past, found_from) refl
        | inr inside ↦
            rw (inside, found_from) (found_at-pick zone (lower_bound gmt zone.transitions sentry))
      ]

last_come-some :
    (gmt : Bool) (zone : Data) (sentry t : Transition) (l : List Transition)
    → local_at zone (last_come gmt (some t) l sentry)
      ≡ last_come gmt (some t) l sentry >>= local_of zone
unfolding last_come local_at
last_come-some gmt zone sentry t [] = refl
last_come-some gmt zone sentry t (u ∷ l) = elim (Bool-cases (comp gmt sentry u)) [
  | inl after ↦ rw after refl
  | inr come ↦ rw come (last_come-some gmt zone sentry u l)
]

-- Where the transitions ascend, `findLocaltime` finds the local time of the last transition that has
-- come at the given time, and the first local time where none has.
pub find_localtime_lem :
    (gmt : Bool) (zone : Data) (sentry : Transition)
    → IsAscending gmt zone.transitions
    → find_localtime gmt zone sentry ≡ local_at zone (last_come gmt none zone.transitions sentry)
unfolding find_localtime is_before last_come local_at
find_localtime_lem gmt zone sentry up = go zone.transitions refl
  where
    before_first :
        {l : List Transition}
        → zone.transitions ≡ l
        → is_before gmt zone.transitions sentry ≡ is_before gmt l sentry
    before_first e = ap (λ l. is_before gmt l sentry) e

    go :
        (l : List Transition)
        → zone.transitions ≡ l
        → find_localtime gmt zone sentry ≡ local_at zone (last_come gmt none l sentry)
    go [] e = rw (before_first e, find_localtime) refl
    go (t ∷ l) e = elim (Bool-cases (comp gmt sentry t)) [
      | inl before ↦ rw (before_first e ∙ before, before, find_localtime) refl
      | inr come ↦
          rw (before_first e ∙ come, come, find_localtime)
            (found_from-pick gmt sentry zone
              ∙ ap (λ l. pick gmt sentry l >>= local_of zone) e
              ∙ ap (λ o. o >>= local_of zone)
                  (pick_lem gmt sentry t l (subst (IsAscending gmt) e up) come)
              ∙ sym (last_come-some gmt zone sentry t l))
    ]
