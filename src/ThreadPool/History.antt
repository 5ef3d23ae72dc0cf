-- ===== src/ThreadPool/History.antt =====
-- What the threads around a pool do, in any order.
use dbdky_gcc.Common.{
  put, ℕ, zero, suc, ◌≡◌, refl, ap, List, [], ◌∷◌, length, Bool, true, false, ltb, if◌then◌else◌,
  arith,
}
use dbdky_gcc.ThreadPool.{
  at_top, ended, System, start, wake, extract, notify_not_full, try_run, is_nil, work, stop,
  new_pool, set_max_queue_size,
}
use dbdky_gcc.ThreadPool.Invariant.{is_waiting, IsSound, none_waits, weaken, try_run-IsSound}
use dbdky_gcc.ThreadPool.Steps.{
  notify_not_full-IsSound, moved-IsSound, work_at-IsSound, stop-IsSound,
}

-- What can happen: a producer calls `run`, one that was notified tests the queue again, a worker takes
-- its next step, a thread wakes without a notification, or the pool is stopped. `which` picks among the
-- producers.
pub data Move : Type 0 where
  offers : ℕ → Move
  retries : ℕ → Move
  works : ℕ → ℕ → Move
  rouses_worker : ℕ → Move
  rouses_producer : ℕ → Move
  stops : Move

unfoldable pub retry : ℕ → List ℕ → System → System
retry which [] s = s
retry which (x ∷ l) s = let r = extract which x l in try_run r.0 (record s { released = r.1 })

unfoldable pub step : Move → System → System
step (offers task) s = try_run task s
step (retries which) s = retry which s.released s
step (works i which) s = work i which s
step (rouses_worker i) s = record s { workers = put i (wake (s.workers i)) s.workers }
step (rouses_producer which) s = notify_not_full which s.blocked s
step stops s = stop s

length-extract : (k x : ℕ) (l : List ℕ) → length (extract k x l).1 ≡ length l
unfolding extract
length-extract k x [] = refl
length-extract zero x (y ∷ l) = refl
length-extract (suc k) x (y ∷ l) = ap suc (length-extract k y l)

retry-IsSound :
    (which : ℕ) (l : List ℕ) (s : System) → s.released ≡ l → IsSound s → IsSound (retry which l s)
unfolding retry
retry-IsSound which [] s e ok = ok
retry-IsSound which (x ∷ l) s e ok =
    let one_less : length s.released ≡ suc (length l) = ap length e in
    try_run-IsSound (extract which x l).0 _ (record {
      bounded = ok.bounded;
      order = ok.order;
      awake = ok.awake;
      room = λ n. omega (arith, ok.room n, one_less, length-extract which x l);
    })

pub step-IsSound : (m : Move) (s : System) → IsSound s → IsSound (step m s)
unfolding step work
step-IsSound (offers task) s ok = try_run-IsSound task s (weaken s ok)
step-IsSound (retries which) s ok = retry-IsSound which s.released s refl ok
step-IsSound (works i which) s ok = work_at-IsSound (s.workers i) i which s ok
step-IsSound (rouses_worker i) s ok = moved-IsSound 0 i _ s (none_waits (s.workers i)) ok
step-IsSound (rouses_producer which) s ok =
    notify_not_full-IsSound which s.blocked s refl (weaken s ok)
step-IsSound stops s ok = stop-IsSound s ok

-- The life of a pool with a bound and a number of threads.
pub data Happens (bound num_threads : ℕ) : System → Type 0 where
  started : Happens bound num_threads (start num_threads (set_max_queue_size bound new_pool))
  moved :
      {s : System} (m : Move) → Happens bound num_threads s → Happens bound num_threads (step m s)

started-IsSound :
    (bound num_threads : ℕ) → IsSound (start num_threads (set_max_queue_size bound new_pool))
unfolding start set_max_queue_size is_waiting is_nil
started-IsSound bound num_threads = record {
  bounded = λ n. omega arith;
  order = refl;
  awake = λ i n. absurd (go (ltb i num_threads) n);
  room = λ n. absurd (cc n);
}
  where
    go : (b : Bool) → is_waiting (if b then at_top else ended) ≡ true → ⊥
    go true n = absurd (cc n)
    go false n = absurd (cc n)

-- Whatever the threads do, in any order: the queue never outgrows its bound; the tasks are taken in the
-- order of their insertion, each once; no worker waits while a task is in the queue or after `stop`;
-- and while a producer waits, the free places of the queue are no more than the producers that were
-- notified for them.
pub Happens-IsSound : (bound num_threads : ℕ) (s : System) → Happens bound num_threads s → IsSound s
Happens-IsSound bound num_threads s started = started-IsSound bound num_threads
Happens-IsSound bound num_threads r (moved {s} m before) =
    step-IsSound m s (Happens-IsSound bound num_threads s before)
