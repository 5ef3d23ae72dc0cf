-- ===== src/TimerQueue/Reset.antt =====
-- What `reset` makes of the timers that were run.
use dbdky_gcc.Common.{
  put, ℕ, ◌<◌, ◌≡◌, refl, Option, none, some, List, [], ◌∷◌, Bool, true, false, ◌&&◌, not, ◌==◌,
  arith, inl, inr, Bool-cases, if◌then◌else◌,
}
use dbdky_gcc.Common.Pairs.{Pair, contains}
use dbdky_gcc.TimerQueue.{Timer, TimerQueue, restart, uintptr_max, reset_entry, reset_all}
use dbdky_gcc.TimerQueue.Invariant.{
  IsValid, put-IsValid, inserted, insert_timer_lem, inserted-IsValid,
}
use dbdky_gcc.TimerQueue.Entries.{occurs, All, IsDistinct}

-- A timer that is alive and in neither set.
abbrev pub IsAside : TimerQueue → (ℕ → Bool) → Pair → Type 0
IsAside q member x =
    (t : Timer) × (q.heap x.1 ≡ some t) × (member x.1 ≡ false) × (x.1 < uintptr_max)

-- Whether a timer that was run is put in again.
abbrev pub goes_on : TimerQueue → ℕ → Timer → Bool
goes_on q a t = t.repeat && not (contains (a, t.sequence) q.canceling_timers)

-- The timers of the list are restarted and queued if they repeat and nobody cancelled them; the
-- others of the list are deleted; all others stay as they are.
pub record Settles (now : ℕ) (l : List Pair) (q : TimerQueue) (member : ℕ → Bool)
    (result : Option TimerQueue) : Type 0 where
  pub after : TimerQueue
  pub member' : ℕ → Bool
  pub returns : result ≡ some after
  pub valid : IsValid after member'
  pub inside :
      (a : ℕ) (t : Timer)
      → occurs a l ≡ true
      → q.heap a ≡ some t
      → (after.heap a ≡ (if goes_on q a t then some (restart now t) else none))
        × (member' a ≡ goes_on q a t)
  pub outside : (a : ℕ) → occurs a l ≡ false → (after.heap a ≡ q.heap a) × (member' a ≡ member a)
  pub canceling : after.canceling_timers ≡ q.canceling_timers
  pub calling : after.calling_expired_timers ≡ q.calling_expired_timers

-- One entry.
record Rounds (now : ℕ) (x : Pair) (t : Timer) (q : TimerQueue) (member : ℕ → Bool) : Type 0 where
  after : TimerQueue
  member' : ℕ → Bool
  returns : reset_entry now x q ≡ some after
  valid : IsValid after member'
  heap :
      (a : ℕ)
      → after.heap a
        ≡ (if a == x.1 then (if goes_on q x.1 t then some (restart now t) else none) else q.heap a)
  members : (a : ℕ) → member' a ≡ (if a == x.1 then goes_on q x.1 t else member a)
  canceling : after.canceling_timers ≡ q.canceling_timers
  calling : after.calling_expired_timers ≡ q.calling_expired_timers

module _ (now : ℕ) (x : Pair) (t : Timer) (q : TimerQueue) (member : ℕ → Bool)
    (ok : IsValid q member) (there : q.heap x.1 ≡ some t) (out : member x.1 ≡ false)
    (low : x.1 < uintptr_max) where
  abbrev restarted : TimerQueue
  restarted = record q { heap = put x.1 (some (restart now t)) q.heap }

  restarted-IsValid : IsValid restarted member
  restarted-IsValid = put-IsValid q member ok x.1 (some (restart now t)) q.num_created out

  there' : restarted.heap x.1 ≡ some (restart now t)
  there' = ground arith

  on : goes_on q x.1 t ≡ true → Rounds now x t q member
  unfolding reset_entry
  on h = record {
    after = inserted restarted member restarted-IsValid x.1 (restart now t) there' out low;
    member' = put x.1 true member;
    returns =
        rw
          (
            there,
            h,
            insert_timer_lem restarted member restarted-IsValid x.1 (restart now t) there' out low,
          )
          refl;
    valid = inserted-IsValid restarted member restarted-IsValid x.1 (restart now t) there' out low;
    heap = λ a. ground (arith, h);
    members = λ a. ground (arith, h);
    canceling = refl;
    calling = refl;
  }

  off : goes_on q x.1 t ≡ false → Rounds now x t q member
  unfolding reset_entry
  off h = record {
    after = record q { heap = put x.1 none q.heap };
    member' = member;
    returns = rw (there, h) refl;
    valid = put-IsValid q member ok x.1 none q.num_created out;
    heap = λ a. ground (arith, h);
    members = λ a. ground (arith, h, out);
    canceling = refl;
    calling = refl;
  }

  rounds : Rounds now x t q member
  rounds = elim (Bool-cases (goes_on q x.1 t)) [ inl h ↦ on h | inr h ↦ off h ]

All-IsAside :
    (q r : TimerQueue) (k m : ℕ → Bool) (a : ℕ) (l : List Pair)
    → ((b : ℕ) → (b == a) ≡ false → (r.heap b ≡ q.heap b) × (m b ≡ k b))
    → occurs a l ≡ false
    → All (IsAside q k) l
    → All (IsAside r m) l
unfolding occurs
All-IsAside q r k m a [] h o al = tt
All-IsAside q r k m a (x ∷ l) h o al =
    let (t, there, out, low) = al.0 in
    let (e, e') = h x.1 (ground arith) in
    ((t, ground arith, ground arith, low), All-IsAside q r k m a l h (ground arith) al.1)

-- The first entry and the rest of the list.
module _ (now : ℕ) (x : Pair) (t : Timer) (q : TimerQueue) (member : ℕ → Bool) (l : List Pair)
    (there : q.heap x.1 ≡ some t) (once : occurs x.1 l ≡ false) (r : Rounds now x t q member)
    (s : Settles now l r.after r.member' (reset_all now l r.after)) where
  same_test : (a : ℕ) (u : Timer) → goes_on r.after a u ≡ goes_on q a u
  same_test a u = cc (r.canceling)

  first :
      (a : ℕ) (u : Timer)
      → a ≡ x.1
      → q.heap a ≡ some u
      → (s.after.heap a ≡ (if goes_on q a u then some (restart now u) else none))
        × (s.member' a ≡ goes_on q a u)
  first a u e h =
      let (f, g) = s.outside a (ground arith) in
      (ground (arith, f, r.heap a, there), ground (arith, g, r.members a, there))

  later :
      (a : ℕ) (u : Timer)
      → (a == x.1) ≡ false
      → occurs a l ≡ true
      → q.heap a ≡ some u
      → (s.after.heap a ≡ (if goes_on q a u then some (restart now u) else none))
        × (s.member' a ≡ goes_on q a u)
  later a u e o h =
      let (f, g) = s.inside a u o (ground (arith, r.heap a)) in
      (cc (f, same_test a u), cc (g, same_test a u))

  joined : Settles now (x ∷ l) q member (reset_all now (x ∷ l) q)
  unfolding reset_all occurs
  joined = record {
    after = s.after;
    member' = s.member';
    returns = rw r.returns s.returns;
    valid = s.valid;
    inside = λ a u o h. elim (Bool-cases (a == x.1)) [
      | inl e ↦ first a u (ground arith) h
      | inr e ↦ later a u e (ground arith) h
    ];
    outside = λ a o.
        let (f, g) = s.outside a (ground arith) in
        (ground (arith, f, r.heap a), ground (arith, g, r.members a));
    canceling = cc (s.canceling, r.canceling);
    calling = cc (s.calling, r.calling);
  }

pub reset_all-Settles :
    (now : ℕ) (l : List Pair) (q : TimerQueue) (member : ℕ → Bool)
    → IsValid q member
    → IsDistinct l
    → All (IsAside q member) l
    → Settles now l q member (reset_all now l q)
unfolding reset_all occurs
reset_all-Settles now [] q member ok d al = record {
  after = q;
  member' = member;
  returns = refl;
  valid = ok;
  inside = λ a t o. absurd (cc o);
  outside = λ a o. (refl, refl);
  canceling = refl;
  calling = refl;
}
reset_all-Settles now (x ∷ l) q member ok d al =
    let (t, there, out, low) = al.0 in
    let r = rounds now x t q member ok there out low in
    let s = reset_all-Settles now l r.after r.member' r.valid d.1 (
      All-IsAside q r.after member r.member' x.1 l
        (λ b h. (ground (arith, r.heap b), ground (arith, r.members b))) d.0 al.1) in
    joined now x t q member l there d.0 r s
