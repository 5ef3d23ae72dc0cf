-- ===== src/TimerQueue/Cancel.antt =====
-- Timers that a callback cancels while the expired ones run, and the whole life of a queue.
use mathlib.Core.Path.{subst}
use dbdky_gcc.Common.{
  ℕ, ◌≡◌, refl, Option, none, some, List, [], ◌∷◌, length, Bool, true, false, ◌==◌, arith,
}
use dbdky_gcc.Common.Pairs.{Pair, contains, insert, contains-insert}
use dbdky_gcc.TimerQueue.{Timer, TimerQueue, new_queue, cancel_in_loop, handle_read, reset_all}
use dbdky_gcc.TimerQueue.Invariant.{IsValid, frame-IsValid}
use dbdky_gcc.TimerQueue.Calls.{
  Kept, Kept-trans, Keeping-Kept, Calls, Calls-Kept, cancel_in_loop-Keeping,
}
use dbdky_gcc.TimerQueue.Entries.{occurs, All, All-map, IsDistinct}
use dbdky_gcc.TimerQueue.Reset.{IsAside, Settles, reset_all-Settles}
use dbdky_gcc.TimerQueue.Rounds.{AreCalls, handle_read-Reads, All-Keeps}

cancel_noted :
    (q r : TimerQueue) (member : ℕ → Bool) (id : Pair)
    → IsValid q member
    → q.calling_expired_timers ≡ true
    → contains id q.active_timers ≡ false
    → cancel_in_loop id q ≡ some r
    → contains id r.canceling_timers ≡ true
unfolding cancel_in_loop
cancel_noted q r member id ok c n e =
    let sizes : (length q.timers == length q.active_timers) ≡ true = ground (arith, ok.sizes) in
    let is : cancel_in_loop id q
        ≡ some (record q { canceling_timers = insert id q.canceling_timers }) =
      rw (sizes, n, c, sizes) refl in
    let noted : insert id q.canceling_timers ≡ r.canceling_timers = cc (is, e) in
    ground (arith, contains-insert id id q.canceling_timers)

aside_member :
    (q : TimerQueue) (member : ℕ → Bool) (a : ℕ) (l : List Pair)
    → All (IsAside q member) l
    → occurs a l ≡ true
    → member a ≡ false
unfolding occurs
aside_member q member a [] al h = absurd (cc h)
aside_member q member a (x ∷ l) al h =
    let (t, there, out, low) = al.0 in ground (arith, aside_member q member a l al.1)

-- The queue while the callbacks of the expired timers `l` run.
module _ (now : ℕ) (l : List Pair) (q r s : TimerQueue) (member : ℕ → Bool) (ok : IsValid q member)
    (calling : q.calling_expired_timers ≡ true) (d : IsDistinct l) (al : All (IsAside q member) l)
    (a : ℕ) (t : Timer) (here : occurs a l ≡ true) (there : q.heap a ≡ some t)
    (e : cancel_in_loop (a, t.sequence) q ≡ some r) (calls : Calls r s) where
  out : member a ≡ false
  out = aside_member q member a l al here

  cancels : Kept q r member
  cancels = Keeping-Kept q r member _ (cancel_in_loop-Keeping q member ok (a, t.sequence)) e

  kept : Kept r s cancels.member'
  kept = Calls-Kept r s cancels.member' cancels.valid calls

  both : Kept q s member
  both = Kept-trans q r s member cancels kept

  noted : contains (a, t.sequence) s.canceling_timers ≡ true
  noted =
      kept.keeps.noted (a, t.sequence)
        (cancel_noted q r member (a, t.sequence) ok calling
          (ground (arith, out, ok.by_sequence a t.sequence)) e)

  abbrev ended : TimerQueue
  ended = record s { calling_expired_timers = false }

  settles : Settles now l ended both.member' (reset_all now l ended)
  settles =
      reset_all-Settles now l ended both.member'
        (frame-IsValid s ended both.member' refl refl refl both.valid) d
        (All-map (IsAside s both.member') (IsAside ended both.member') l (λ x h. h)
          (All-Keeps q s member both.member' l both.keeps al))

  -- A callback cancels a timer that has expired: whatever the callbacks do after that, the end of
  -- `handleRead` deletes the timer and leaves it in neither set.
  pub cancel-deleted :
      (after : TimerQueue) × (reset_all now l (record s { calling_expired_timers = false })
        ≡ some after)
      × (after.heap a ≡ none)
      × ((w : ℕ) → contains (w, a) after.timers ≡ false)
      × ((n : ℕ) → contains (a, n) after.active_timers ≡ false)
  cancel-deleted =
      let (alive, member_out) = both.keeps.aside a t there out in
      let (heap, member_end) = settles.inside a t here alive in
      (
        settles.after,
        settles.returns,
        ground (arith, noted),
        λ w. ground (arith, noted, settles.valid.by_time w a),
        λ n. ground (arith, noted, settles.valid.by_sequence a n),
      )

-- The life of a queue: timers added and cancelled between the calls of `handleRead`.
pub data Happens (callbacks : ℕ → TimerQueue → Option TimerQueue) : TimerQueue → Type 0 where
  created : Happens callbacks new_queue
  called : {q r : TimerQueue} → Happens callbacks q → Calls q r → Happens callbacks r
  read :
      {q r : TimerQueue} (now clock : ℕ)
      → Happens callbacks q
      → handle_read callbacks now clock q ≡ some r
      → Happens callbacks r

-- Both sets hold the same living timers, and no callback runs.
pub record IsIdle (q : TimerQueue) : Type 0 where
  pub member : ℕ → Bool
  pub valid : IsValid q member
  pub idle : q.calling_expired_timers ≡ false

pub created-IsIdle : IsIdle new_queue
unfolding contains
created-IsIdle = record {
  member = λ a. false;
  valid = record {
    ascending = tt;
    ascending_active = tt;
    sizes = refl;
    by_time = λ w a. refl;
    by_sequence = λ a s. refl;
    live = λ a h. absurd (cc h);
  };
  idle = refl;
}

-- Whatever was added, cancelled and run, the two sets hold the same living timers in ascending order,
-- each under its own time and number, and no callback is marked as running.
pub Happens-IsIdle :
    (callbacks : ℕ → TimerQueue → Option TimerQueue) (q : TimerQueue)
    → AreCalls callbacks
    → Happens callbacks q
    → IsIdle q
Happens-IsIdle callbacks q c created = created-IsIdle
Happens-IsIdle callbacks r c (called {q} before calls) =
    let i = Happens-IsIdle callbacks q c before in
    let k = Calls-Kept q r i.member i.valid calls in
    record { member = k.member'; valid = k.valid; idle = cc (k.keeps.calling, i.idle) }
Happens-IsIdle callbacks r c (read {q} now clock before e) =
    let i = Happens-IsIdle callbacks q c before in
    let x = handle_read-Reads callbacks now clock q i.member c i.valid in
    let is : x.after ≡ r = cc (x.returns, e) in
    record {
      member = x.member';
      valid = subst (λ s. IsValid s x.member') is x.valid;
      idle = cc (x.idle, is);
    }
