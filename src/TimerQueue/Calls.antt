-- ===== src/TimerQueue/Calls.antt =====
-- What the calls of `addTimer` and `cancel` change, alone and one after the other.
use mathlib.Core.Path.{subst}
use dbdky_gcc.Common.{
  put, ℕ, suc, ◌<◌, ◌≡◌, refl, ap, ◌&&◌, Option, none, some, Bool, true, false, ◌==◌, arith, length,
  inl, inr, Bool-cases, if◌then◌else◌, ◌>>=◌,
}
use dbdky_gcc.Common.Pairs.{Pair, contains, insert, contains-insert}
use dbdky_gcc.TimerQueue.{
  Interval, Timer, TimerQueue, add_timer, add_timer_in_loop, new_timer, cancel_in_loop,
  cancel_active, uintptr_max, reset_timerfd, is_earliest,
}
use dbdky_gcc.TimerQueue.Invariant.{
  has_sequence, IsValid, put-IsValid, frame-IsValid, inserted, insert_timer_lem, inserted-IsValid,
  erased, erased-IsValid,
}

-- A timer that is alive and not queued stays so, a note of a cancelled timer is kept, and the mark of
-- the running callbacks too.
pub record Keeps (q r : TimerQueue) (member member' : ℕ → Bool) : Type 0 where
  pub aside :
      (b : ℕ) (t : Timer)
      → q.heap b ≡ some t
      → member b ≡ false
      → (r.heap b ≡ some t) × (member' b ≡ false)
  pub noted :
      (id : Pair) → contains id q.canceling_timers ≡ true → contains id r.canceling_timers ≡ true
  pub calling : r.calling_expired_timers ≡ q.calling_expired_timers

-- A call that returns, and the invariant behind it.
pub record Keeping (result : Option TimerQueue) (q : TimerQueue) (member : ℕ → Bool) : Type 0 where
  pub after : TimerQueue
  pub member' : ℕ → Bool
  pub returns : result ≡ some after
  pub valid : IsValid after member'
  pub keeps : Keeps q after member member'

pub Keeps-refl : (q : TimerQueue) (member : ℕ → Bool) → Keeps q q member member
Keeps-refl q member = record { aside = λ b t e h. (e, h); noted = λ id h. h; calling = refl }

pub Keeps-trans :
    (q r s : TimerQueue) (k l m : ℕ → Bool) → Keeps q r k l → Keeps r s l m → Keeps q s k m
Keeps-trans q r s k l m x y = record {
  aside = λ b t e h. let (e', h') = x.aside b t e h in y.aside b t e' h';
  noted = λ id h. y.noted id (x.noted id h);
  calling = cc (x.calling, y.calling);
}

module _ (q : TimerQueue) (member : ℕ → Bool) (ok : IsValid q member) where
  unqueued : (a : ℕ) → q.heap a ≡ none → member a ≡ false
  unqueued a free = elim (Bool-cases (member a)) [
    | inl h ↦ let (t, e, lt) = ok.live a h in absurd (cc (free, e))
    | inr h ↦ h
  ]

  -- `add_timer` at a free address.
  module _ (clock a cb when : ℕ) (interval : Interval) (free : q.heap a ≡ none)
      (low : a < uintptr_max) where
    abbrev fresh : Timer
    fresh = record {
      callback = cb;
      expiration = when;
      interval = interval;
      repeat = interval.positive;
      sequence = suc q.num_created;
    }

    abbrev started : TimerQueue
    started = record q { heap = put a (some fresh) q.heap; num_created = suc q.num_created }

    out : member a ≡ false
    out = unqueued a free

    started-IsValid : IsValid started member
    started-IsValid = put-IsValid q member ok a (some fresh) (suc q.num_created) out

    there : started.heap a ≡ some fresh
    there = ground arith

    abbrev added : TimerQueue
    added = inserted started member started-IsValid a fresh there out low

    abbrev armed : TimerQueue
    armed = if is_earliest when q.timers then reset_timerfd clock when added else added

    add_timer_lem : add_timer clock a cb when interval q ≡ some ((a, suc q.num_created), armed)
    unfolding add_timer add_timer_in_loop new_timer
    add_timer_lem =
        rw (insert_timer_lem started member started-IsValid a fresh there out low) (rw there refl)

    armed_frame : (f : TimerQueue → Type 0) → f added → f (reset_timerfd clock when added) → f armed
    armed_frame f x y = elim (Bool-cases (is_earliest when q.timers)) [
      | inl e ↦ rw e y
      | inr e ↦ rw e x
    ]

    armed-Keeps :
        (r : TimerQueue)
        → r.heap ≡ added.heap
        → r.canceling_timers ≡ q.canceling_timers
        → r.calling_expired_timers ≡ q.calling_expired_timers
        → Keeps q r member (put a true member)
    armed-Keeps r e f g = record {
      aside = λ b t h o. ground (arith, e, free);
      noted = λ id h. cc (f, h);
      calling = g;
    }

    pub add_timer-Keeping :
        Keeping (add_timer clock a cb when interval q >>= λ r. some r.1) q member
    add_timer-Keeping = record {
      after = armed;
      member' = put a true member;
      returns = rw add_timer_lem refl;
      valid =
          armed_frame (λ r. IsValid r (put a true member)) valid_added
            (frame-IsValid added _ (put a true member) refl refl refl valid_added);
      keeps =
          armed_frame (λ r. Keeps q r member (put a true member)) (armed-Keeps _ refl refl refl)
            (armed-Keeps _ refl refl refl);
    }
      where
        valid_added : IsValid added (put a true member)
        valid_added = inserted-IsValid started member started-IsValid a fresh there out low

  module _ (a : ℕ) (t : Timer) (there : q.heap a ≡ some t) (queued : member a ≡ true) where
    abbrev gone : TimerQueue
    gone = erased q member ok a t there queued

    gone-IsValid : IsValid gone (put a false member)
    gone-IsValid = erased-IsValid q member ok a t there queued

    cancel_timer : Keeping (cancel_in_loop (a, t.sequence) q) q member
    unfolding cancel_in_loop cancel_active
    cancel_timer = record {
      after = gone;
      member' = put a false member;
      returns =
          let sizes : (length q.timers == length q.active_timers) ≡ true =
            ground (arith, ok.sizes) in
          let sizes' : (length gone.timers == length gone.active_timers) ≡ true =
            ground (arith, gone-IsValid.sizes) in
          let active : contains (a, t.sequence) q.active_timers ≡ true =
            ground (arith, ok.by_sequence a t.sequence) in
          let timed : contains (t.expiration, a) q.timers ≡ true =
            ground (arith, ok.by_time t.expiration a) in
          rw (sizes, active, there, timed, sizes') refl;
      valid = gone-IsValid;
      keeps = record {
        aside = λ b u e o. ground (arith, queued);
        noted = λ id h. h;
        calling = refl;
      };
    }

  cancel_queued :
      (id : Pair) → contains id q.active_timers ≡ true → Keeping (cancel_in_loop id q) q member
  cancel_queued id h =
      let both : (member id.0 && has_sequence (q.heap id.0) id.1) ≡ true =
        cc (h, ok.by_sequence id.0 id.1) in
      let queued : member id.0 ≡ true = ground arith in
      let (t, there, low) = ok.live id.0 queued in
      let number : t.sequence ≡ id.1 = ground arith in
      subst (λ x. Keeping (cancel_in_loop x q) q member) (ap (λ s. (id.0, s)) number)
        (cancel_timer id.0 t there queued)

  cancel_other :
      (id : Pair) → contains id q.active_timers ≡ false → Keeping (cancel_in_loop id q) q member
  unfolding cancel_in_loop
  cancel_other id h =
      let sizes : (length q.timers == length q.active_timers) ≡ true = ground (arith, ok.sizes) in
      elim (Bool-cases q.calling_expired_timers) [
        | inl calling ↦ record {
          after = record q { canceling_timers = insert id q.canceling_timers };
          member' = member;
          returns = rw (sizes, h, calling, sizes) refl;
          valid = frame-IsValid q _ member refl refl refl ok;
          keeps = record {
            aside = λ b t e o. (e, o);
            noted = λ x n. ground (arith, contains-insert id x q.canceling_timers);
            calling = refl;
          };
        }
        | inr idle ↦ record {
          after = q;
          member' = member;
          returns = rw (sizes, h, idle, sizes) refl;
          valid = ok;
          keeps = Keeps-refl q member;
        }
      ]

  pub cancel_in_loop-Keeping : (id : Pair) → Keeping (cancel_in_loop id q) q member
  cancel_in_loop-Keeping id = elim (Bool-cases (contains id q.active_timers)) [
    | inl h ↦ cancel_queued id h
    | inr h ↦ cancel_other id h
  ]

-- The calls of a callback: timers at free addresses, and cancellations.
pub data Calls (q : TimerQueue) : TimerQueue → Type 0 where
  done : Calls q q
  adding :
      {r s : TimerQueue} (clock a cb when : ℕ) (interval : Interval) (id : Pair)
      → Calls q r
      → r.heap a ≡ none
      → a < uintptr_max
      → add_timer clock a cb when interval r ≡ some (id, s)
      → Calls q s
  canceling : {r s : TimerQueue} (id : Pair) → Calls q r → cancel_in_loop id r ≡ some s → Calls q s

-- The invariant behind a sequence of calls.
pub record Kept (q r : TimerQueue) (member : ℕ → Bool) : Type 0 where
  pub member' : ℕ → Bool
  pub valid : IsValid r member'
  pub keeps : Keeps q r member member'

pub Keeping-Kept :
    (q r : TimerQueue) (member : ℕ → Bool) (result : Option TimerQueue)
    → Keeping result q member
    → result ≡ some r
    → Kept q r member
Keeping-Kept q r member result k e =
    let is : k.after ≡ r = cc (k.returns, e) in
    record {
      member' = k.member';
      valid = subst (λ s. IsValid s k.member') is k.valid;
      keeps = subst (λ s. Keeps q s member k.member') is k.keeps;
    }

pub Kept-trans :
    (q r s : TimerQueue) (member : ℕ → Bool) (k : Kept q r member)
    → Kept r s k.member'
    → Kept q s member
Kept-trans q r s member k l = record {
  member' = l.member';
  valid = l.valid;
  keeps = Keeps-trans q r s member k.member' l.member' k.keeps l.keeps;
}

pub Calls-Kept :
    (q r : TimerQueue) (member : ℕ → Bool) → IsValid q member → Calls q r → Kept q r member
Calls-Kept q r member ok done = record { member' = member; valid = ok; keeps = Keeps-refl q member }
Calls-Kept q s member ok (adding {r} clock a cb when interval id calls free low e) =
    let k = Calls-Kept q r member ok calls in
    let one = add_timer-Keeping r k.member' k.valid clock a cb when interval free low in
    Kept-trans q r s member k (Keeping-Kept r s k.member' _ one (rw e refl))
Calls-Kept q s member ok (canceling {r} id calls e) =
    let k = Calls-Kept q r member ok calls in
    Kept-trans q r s member k
      (Keeping-Kept r s k.member' _ (cancel_in_loop-Keeping r k.member' k.valid id) e)
