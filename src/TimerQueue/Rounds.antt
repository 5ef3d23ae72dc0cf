-- ===== src/TimerQueue/Rounds.antt =====
-- `handleRead` as a whole, with callbacks that add and cancel timers.
use dbdky_gcc.Common.{
  ℕ, ◌≡◌, refl, ap, Option, none, some, List, [], ◌∷◌, ◌++◌, Bool, true, false, ◌&&◌, not, ltb,
  arith, if◌then◌else◌,
}
use dbdky_gcc.Common.Pairs.{Pair}
use dbdky_gcc.TimerQueue.{
  Timer, TimerQueue, restart, how_much_time_from_now, run_all, reset, reset_all, handle_read,
}
use dbdky_gcc.TimerQueue.Invariant.{IsValid, frame-IsValid}
use dbdky_gcc.TimerQueue.Calls.{Keeps, Keeps-refl, Keeps-trans, Calls, Calls-Kept}
use dbdky_gcc.TimerQueue.Expiry.{Expires, get_expired-Expires}
use dbdky_gcc.TimerQueue.Entries.{
  occurs, All, All-map, IsDistinct, All-both, All-of_contains, occurs-of_contains,
}
use dbdky_gcc.TimerQueue.Reset.{IsAside, goes_on, Settles, reset_all-Settles}
use dbdky_gcc.TimerQueue.Arming.{Arms, arm-Arms, IsOnTime, how_much_time_lem}

-- What a callback does: it returns, and is a sequence of calls of the queue.
abbrev pub AreCalls : (ℕ → TimerQueue → Option TimerQueue) → Type 0
AreCalls callbacks =
    (cb : ℕ) (q : TimerQueue) (member : ℕ → Bool)
    → IsValid q member
    → (r : TimerQueue) × (callbacks cb q ≡ some r) × Calls q r

-- The callbacks of these timers, as the heap `h` has them, are called one after the other: each once,
-- on the queue that the one before left, from the first queue to the last.
pub data Ran (callbacks : ℕ → TimerQueue → Option TimerQueue) (h : ℕ → Option Timer)
    : List Pair → TimerQueue → TimerQueue → Type 0 where
  nobody : {q : TimerQueue} → Ran callbacks h [] q q
  ran :
      {x : Pair} {l : List Pair} {q r s : TimerQueue} {t : Timer}
      → h x.1 ≡ some t
      → callbacks t.callback q ≡ some r
      → Ran callbacks h l r s
      → Ran callbacks h (x ∷ l) q s

record Runs (callbacks : ℕ → TimerQueue → Option TimerQueue) (h : ℕ → Option Timer)
    (result : Option TimerQueue) (q : TimerQueue) (member : ℕ → Bool) (l : List Pair) : Type 0 where
  after : TimerQueue
  member' : ℕ → Bool
  returns : result ≡ some after
  valid : IsValid after member'
  keeps : Keeps q after member member'
  trace : Ran callbacks h l q after

-- The timer of this entry is that of the heap `h` still.
abbrev IsOf : (ℕ → Option Timer) → TimerQueue → Pair → Type 0
IsOf h q x = q.heap x.1 ≡ h x.1

All-IsOf :
    (h : ℕ → Option Timer) (q r : TimerQueue) (k m : ℕ → Bool) (l : List Pair)
    → Keeps q r k m
    → All (IsAside q k) l
    → All (IsOf h q) l
    → All (IsOf h r) l
All-IsOf h q r k m [] keeps al same = tt
All-IsOf h q r k m (x ∷ l) keeps al same =
    let (t, there, out, low) = al.0 in
    let (there', out') = keeps.aside x.1 t there out in
    (cc (there, there', same.0), All-IsOf h q r k m l keeps al.1 same.1)

pub All-Keeps :
    (q r : TimerQueue) (k m : ℕ → Bool) (l : List Pair)
    → Keeps q r k m
    → All (IsAside q k) l
    → All (IsAside r m) l
All-Keeps q r k m l h =
    All-map (IsAside q k) (IsAside r m) l λ x (t, there, out, low).
      let (there', out') = h.aside x.1 t there out in (t, there', out', low)

run_all-Runs :
    (callbacks : ℕ → TimerQueue → Option TimerQueue) (h : ℕ → Option Timer) (l : List Pair)
    (q : TimerQueue) (member : ℕ → Bool)
    → AreCalls callbacks
    → IsValid q member
    → All (IsAside q member) l
    → All (IsOf h q) l
    → Runs callbacks h (run_all callbacks l q) q member l
unfolding run_all
run_all-Runs callbacks h [] q member c ok al same = record {
  after = q;
  member' = member;
  returns = refl;
  valid = ok;
  keeps = Keeps-refl q member;
  trace = nobody;
}
run_all-Runs callbacks h (x ∷ l) q member c ok al same =
    let (t, there, out, low) = al.0 in
    let (r, e, calls) = c t.callback q member ok in
    let k = Calls-Kept q r member ok calls in
    let s =
      run_all-Runs callbacks h l r k.member' c k.valid
        (All-Keeps q r member k.member' l k.keeps al.1)
        (All-IsOf h q r member k.member' l k.keeps al.1 same.1) in
    record {
      after = s.after;
      member' = s.member';
      returns = rw (there, e) s.returns;
      valid = s.valid;
      keeps = Keeps-trans q r s.after member k.member' s.member' k.keeps s.keeps;
      trace = ran {t = t} (cc (there, same.0)) e s.trace;
    }

-- What a run of `handleRead` at the time `now` does: it returns, and the callbacks of exactly the timers
-- whose time has come were called, each once, in the order of their times; the others are kept. Each that ran is queued again `interval` later if it repeats and no callback
-- cancelled it, and is deleted otherwise.
pub record Reads (callbacks : ℕ → TimerQueue → Option TimerQueue) (now clock : ℕ) (q : TimerQueue)
    (member : ℕ → Bool) : Type 0 where
  pub expired : List Pair
  pub later : List Pair
  pub parts : q.timers ≡ expired ++ later
  pub distinct : IsDistinct expired
  pub start : TimerQueue
  pub run : TimerQueue
  pub begins :
      (start.heap ≡ q.heap) × (start.calling_expired_timers ≡ true) × (start.canceling_timers ≡ [])
  pub trace : Ran callbacks q.heap expired start run
  pub known : All (λ x. (t : Timer) × (q.heap x.1 ≡ some t) × (member x.1 ≡ true)) expired
  pub after : TimerQueue
  pub member' : ℕ → Bool
  pub returns : handle_read callbacks now clock q ≡ some after
  pub valid : IsValid after member'
  pub due :
      (a : ℕ) (t : Timer)
      → q.heap a ≡ some t
      → member a ≡ true
      → occurs a expired ≡ not (ltb now t.expiration)
  pub settled :
      (a : ℕ) (t : Timer)
      → occurs a expired ≡ true
      → q.heap a ≡ some t
      → (after.heap a ≡ (if goes_on run a t then some (restart now t) else none))
        × (member' a ≡ goes_on run a t)
  pub on_time : IsOnTime clock after
  pub idle : after.calling_expired_timers ≡ false

module _ (callbacks : ℕ → TimerQueue → Option TimerQueue) (now clock : ℕ) (q : TimerQueue)
    (member : ℕ → Bool) (c : AreCalls callbacks) (ok : IsValid q member) where
  x : Expires now q member
  x = get_expired-Expires q member ok now

  abbrev waiting : ℕ → Bool
  waiting a = not (occurs a x.expired) && member a

  abbrev marked : TimerQueue
  marked = record x.after { calling_expired_timers = true; canceling_timers = [] }

  marked-IsValid : IsValid marked waiting
  marked-IsValid = frame-IsValid x.after marked waiting refl refl refl x.valid

  aside : All (IsAside marked waiting) x.expired
  aside =
      All-map _ (IsAside marked waiting) x.expired
        (λ e (o, timely).
          let (early, queued, live) = timely in
          let (t, there, time, low) = live in
          (t, cc (there, ap (λ r. r.heap) x.unchanged), ground (arith, o), low))
        (All-both _ _ x.expired
          (All-of_contains (λ e. occurs e.1 x.expired ≡ true) x.expired
            (λ e found. occurs-of_contains e.0 e.1 x.expired found))
          x.due)

  same_heap : x.after.heap ≡ q.heap
  same_heap = ap (λ r. r.heap) x.unchanged

  runs : Runs callbacks q.heap (run_all callbacks x.expired marked) marked waiting x.expired
  runs = run_all-Runs callbacks q.heap x.expired marked waiting c marked-IsValid aside (
      All-map (IsAside marked waiting) (IsOf q.heap marked) x.expired
        (λ e a. ap (λ f. f e.1) same_heap) aside)

  abbrev ended : TimerQueue
  ended = record runs.after { calling_expired_timers = false }

  ended-IsAside : All (IsAside ended runs.member') x.expired
  ended-IsAside =
      All-map (IsAside runs.after runs.member') (IsAside ended runs.member') x.expired (λ e h. h)
        (All-Keeps marked runs.after waiting runs.member' x.expired runs.keeps aside)

  settles : Settles now x.expired ended runs.member' (reset_all now x.expired ended)
  settles =
      reset_all-Settles now x.expired ended runs.member'
        (frame-IsValid runs.after ended runs.member' refl refl refl runs.valid) x.distinct
        ended-IsAside

  arms : Arms clock settles.after settles.member'
  arms = arm-Arms clock settles.after settles.member' settles.valid

  settled :
      (a : ℕ) (t : Timer)
      → occurs a x.expired ≡ true
      → q.heap a ≡ some t
      → (arms.after.heap a ≡ (if goes_on runs.after a t then some (restart now t) else none))
        × (settles.member' a ≡ goes_on runs.after a t)
  settled a t o h =
      let same : x.after.heap ≡ q.heap = ap (λ r. r.heap) x.unchanged in
      let (there, out) = runs.keeps.aside a t (cc (h, same)) (ground (arith, o)) in
      let (e, e') = settles.inside a t o there in (cc (arms.heap, e), e')

  -- A run of `handleRead` on a valid queue, with callbacks that return and add and cancel timers,
  -- returns. The callbacks of exactly the queued timers whose time has come are called, each once, in
  -- the order of the set of timers, on the queue that the one before left. Each of these timers is queued again `interval` later if it repeats and no
  -- callback cancelled it, and is deleted otherwise. Both sets hold the same living timers
  -- afterwards, and the descriptor is set for the first of them.
  pub handle_read-Reads : Reads callbacks now clock q member
  unfolding handle_read reset
  handle_read-Reads = record {
    expired = x.expired;
    later = x.after.timers;
    parts = x.parts;
    distinct = x.distinct;
    start = marked;
    begins = (same_heap, refl, refl);
    trace = runs.trace;
    known =
        All-map _ (λ e. (t : Timer) × (q.heap e.1 ≡ some t) × (member e.1 ≡ true)) x.expired
          (λ e d.
            let (early, queued, live) = d in let (t, there, time, low) = live in (t, there, queued))
          x.due;
    run = runs.after;
    after = arms.after;
    member' = settles.member';
    returns = rw (x.returns, runs.returns, settles.returns) arms.returns;
    valid = arms.valid;
    due = x.exactly;
    settled = settled;
    on_time = λ first l e pos.
        let (fire, range) = how_much_time_lem clock first.0 _ refl in
        (
          record { set_at = clock; value = how_much_time_from_now clock first.0 },
          arms.armed first l e pos,
          fire,
          range,
        );
    idle = cc (arms.calling, settles.calling);
  }
