-- ===== src/TimerQueue/Arming.antt =====
-- The descriptor is set for the first timer that waits.
use dbdky_gcc.Common.{
  ℕ, ◌+◌, ◌*◌, ◌<◌, ◌≡◌, refl, ap, ◌∙◌, some, List, [], ◌∷◌, Bool, true, false, ◌&&◌, ltb, arith,
  inl, inr, Bool-cases, if◌then◌else◌,
}
use dbdky_gcc.Common.Pairs.{Pair, contains}
use dbdky_gcc.TimerQueue.{Timer, TimerQueue, Alarm, how_much_time_from_now, reset_timerfd, arm}
use dbdky_gcc.TimerQueue.Invariant.{expires_at, IsValid, frame-IsValid}

-- The descriptor is set for the first timer, if it has a valid time.
abbrev pub IsArmed : ℕ → TimerQueue → Type 0
IsArmed clock q =
    (first : Pair) (l : List Pair)
    → q.timers ≡ first ∷ l
    → 0 < first.0
    → q.alarm ≡ some (record { set_at = clock; value = how_much_time_from_now clock first.0 })

pub record Arms (clock : ℕ) (q : TimerQueue) (member : ℕ → Bool) : Type 0 where
  pub after : TimerQueue
  pub returns : arm clock q.timers q ≡ some after
  pub valid : IsValid after member
  pub armed : IsArmed clock after
  pub heap : after.heap ≡ q.heap
  pub calling : after.calling_expired_timers ≡ q.calling_expired_timers

-- The timer behind the first entry.
pub first_timer :
    (q : TimerQueue) (member : ℕ → Bool) (x : Pair) (l : List Pair)
    → IsValid q member
    → q.timers ≡ x ∷ l
    → (t : Timer) × (q.heap x.1 ≡ some t) × (t.expiration ≡ x.0)
unfolding contains
first_timer q member x l ok e =
    let found : contains x q.timers ≡ true = rw e (ground arith) in
    let both : (member x.1 && expires_at (q.heap x.1) x.0) ≡ true =
      cc (found, ok.by_time x.0 x.1) in
    let (t, there, low) = ok.live x.1 (ground arith) in (t, there, ground arith)

module _ (clock : ℕ) (q : TimerQueue) (member : ℕ → Bool) (ok : IsValid q member) (x : Pair)
    (l : List Pair) (e : q.timers ≡ x ∷ l) (t : Timer) (there : q.heap x.1 ≡ some t)
    (time : t.expiration ≡ x.0) where
  arm_later : ltb 0 t.expiration ≡ true → Arms clock q member
  unfolding arm
  arm_later h = record {
    after = reset_timerfd clock t.expiration q;
    returns = ap (λ k. arm clock k q) e ∙ rw (there, h) refl;
    valid = frame-IsValid q _ member refl refl refl ok;
    armed = λ first k e' pos.
        ap (λ w. some (record { set_at = clock; value = how_much_time_from_now clock w }))
          (cc (e, e', time));
    heap = refl;
    calling = refl;
  }

  arm_never : ltb 0 t.expiration ≡ false → Arms clock q member
  unfolding arm
  arm_never h = record {
    after = q;
    returns = ap (λ k. arm clock k q) e ∙ rw (there, h) refl;
    valid = ok;
    armed = λ first k e' pos.
        let is : x ≡ first = cc (e, e') in absurd (ground (arith, is, h, time, pos));
    heap = refl;
    calling = refl;
  }

pub arm-Arms :
    (clock : ℕ) (q : TimerQueue) (member : ℕ → Bool) → IsValid q member → Arms clock q member
unfolding arm
arm-Arms clock q member ok = go q.timers refl
  where
    go : (l : List Pair) → q.timers ≡ l → Arms clock q member
    go [] e = record {
      after = q;
      returns = rw e refl;
      valid = ok;
      armed = λ first l e' pos. absurd (cc (e, e'));
      heap = refl;
      calling = refl;
    }
    go (x ∷ l) e =
        let (t, there, time) = first_timer q member x l ok e in
        elim (Bool-cases (ltb 0 t.expiration)) [
          | inl h ↦ arm_later clock q member ok x l e t there time h
          | inr h ↦ arm_never clock q member ok x l e t there time h
        ]

-- The time at which a set descriptor becomes readable, in nanoseconds.
abbrev pub fires : Alarm → ℕ
fires a = a.set_at * 1000 + a.value.tv_sec * 1000000000 + a.value.tv_nsec

-- The descriptor fires at the time of the first timer, or 100 microseconds after it was set where that
-- is later, and its nanoseconds are in range.
abbrev pub IsOnTime : ℕ → TimerQueue → Type 0
IsOnTime clock q =
    (first : Pair) (l : List Pair)
    → q.timers ≡ first ∷ l
    → 0 < first.0
    → (a : Alarm) × (q.alarm ≡ some a)
      × (fires a ≡ (if ltb first.0 (clock + 100) then (clock + 100) * 1000 else first.0 * 1000))
      × (a.value.tv_nsec < 1000000000)

pub how_much_time_lem :
    (clock when : ℕ) (a : Alarm)
    → a ≡ record { set_at = clock; value = how_much_time_from_now clock when }
    → (fires a ≡ (if ltb when (clock + 100) then (clock + 100) * 1000 else when * 1000))
      × (a.value.tv_nsec < 1000000000)
unfolding how_much_time_from_now
how_much_time_lem clock when a e = rw e (ground arith, ground arith)
