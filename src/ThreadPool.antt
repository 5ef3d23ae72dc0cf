-- ===== src/ThreadPool.antt =====
-- src/utils/ThreadPool.h and src/utils/ThreadPool.cpp: a queue of tasks between producers and workers.
-- What a thread does under the mutex, up to a wait, is one step; the two conditions are the sets of the
-- threads that wait for them.
pub mod History
pub mod Invariant
pub mod Leaving
pub mod Steps
pub mod Stopping
use dbdky_gcc.Common.{
  put, ℕ, zero, suc, Option, none, some, List, [], ◌∷◌, ◌++◌, length, Bool, true, false, ◌&&◌, not,
  ltb, leb, if◌then◌else◌,
}

-- A task is known by its number. The names of the threads are not modelled.
pub record ThreadPool : Type 0 where
  pub queue : List ℕ
  pub max_queue_size : ℕ
  pub running : Bool

abbrev pub new_pool : ThreadPool
new_pool = record { queue = []; max_queue_size = 0; running = false }

unfoldable pub set_max_queue_size : ℕ → ThreadPool → ThreadPool
set_max_queue_size n p = record p { max_queue_size = n }

unfoldable pub is_full : ThreadPool → Bool
is_full p = ltb 0 p.max_queue_size && leb p.max_queue_size (length p.queue)

-- A worker stands at the test of `running_`, waits for `notEmpty_`, has been notified, runs a task, or
-- has ended.
pub data Worker : Type 0 where
  at_top waiting notified ended : Worker
  busy : ℕ → Worker

-- The pool with its threads. `blocked` holds the tasks of the producers that wait for `notFull_`, and
-- `released` those of the producers that were notified; `inserted` and `taken` are the tasks that went
-- through the queue, in order.
pub record System : Type 0 where
  pub pool : ThreadPool
  pub workers : ℕ → Worker
  pub blocked : List ℕ
  pub released : List ℕ
  pub inserted : List ℕ
  pub taken : List ℕ

-- `start(numThreads)`, on a pool without threads.
unfoldable pub start : ℕ → ThreadPool → System
start num_threads p = record {
  pool = record p { running = true };
  workers = λ i. if ltb i num_threads then at_top else ended;
  blocked = [];
  released = [];
  inserted = p.queue;
  taken = [];
}

unfoldable pub wake : Worker → Worker
wake waiting = notified
wake w = w

-- `notEmpty_.notifyAll()`.
unfoldable pub notify_all_not_empty : System → System
notify_all_not_empty s = record s { workers = λ i. wake (s.workers i) }

-- The element at `k`, or the last one, and the others.
unfoldable pub extract : ℕ → ℕ → List ℕ → ℕ × List ℕ
extract k x [] = (x, [])
extract zero x (y ∷ l) = (x, y ∷ l)
extract (suc k) x (y ∷ l) = let r = extract k y l in (r.0, x ∷ r.1)

-- `notFull_.notify()`, which picks any one of those that wait.
unfoldable pub notify_not_full : ℕ → List ℕ → System → System
notify_not_full which [] s = s
notify_not_full which (x ∷ l) s =
    let r = extract which x l in record s { blocked = r.1; released = s.released ++ r.0 ∷ [] }

-- `run` of a pool that has threads, with the mutex, up to its wait.
unfoldable pub push_task : ℕ → System → System
push_task task s = notify_all_not_empty (record s {
  pool = record s.pool { queue = s.pool.queue ++ task ∷ [] };
  inserted = s.inserted ++ task ∷ [];
})

unfoldable pub try_run : ℕ → System → System
try_run task s =
    if is_full s.pool then record s { blocked = s.blocked ++ task ∷ [] } else push_task task s

-- `take` behind its loop, and the test of the task in `runInThread`.
unfoldable pub pop_task : ℕ → ℕ → List ℕ → System → System
pop_task i which [] s = record s { workers = put i at_top s.workers }
pop_task i which (task ∷ queue) s =
    let popped = record s {
      pool = record s.pool { queue = queue };
      taken = s.taken ++ task ∷ [];
      workers = put i (busy task) s.workers;
    } in
    if ltb 0 s.pool.max_queue_size then notify_not_full which s.blocked popped else popped

unfoldable pub is_nil : List ℕ → Bool
is_nil [] = true
is_nil (x ∷ l) = false

-- `take` with the mutex, up to its wait.
unfoldable pub try_take : ℕ → ℕ → System → System
try_take i which s =
    if is_nil s.pool.queue && s.pool.running
    then record s { workers = put i waiting s.workers }
    else pop_task i which s.pool.queue s

-- The next step of worker `i` in `runInThread`; the test of `running_` before it is made in the same step.
unfoldable pub work_at : Worker → ℕ → ℕ → System → System
work_at at_top i which s =
    if s.pool.running then try_take i which s else record s { workers = put i ended s.workers }
work_at notified i which s = try_take i which s
work_at (busy task) i which s = record s { workers = put i at_top s.workers }
work_at w i which s = s

unfoldable pub work : ℕ → ℕ → System → System
work i which s = work_at (s.workers i) i which s

-- `stop`, up to the joins.
unfoldable pub stop : System → System
stop s = notify_all_not_empty (record s { pool = record s.pool { running = false } })
