-- ===== src/ThreadPool/Leaving.antt =====
-- After `stop`, each step of a worker brings it nearer to its end.
use dbdky_gcc.Common.{
  put, put_same, ℕ, ◌-◌, ◌≤◌, ◌≡◌, refl, ap, ◌∙◌, List, [], ◌∷◌, Bool, true, false, ◌&&◌, ◌==◌, ltb,
  if◌then◌else◌, inl, inr, Bool-cases, arith,
}
use dbdky_gcc.ThreadPool.{
  Worker, at_top, waiting, notified, ended, busy, System, wake, notify_not_full, pop_task, is_nil,
  try_take, work_at, work,
}
use dbdky_gcc.ThreadPool.Invariant.{is_waiting, IsSound}
use dbdky_gcc.ThreadPool.History.{works, step}

-- The steps that a worker has left at most.
unfoldable pub left : Worker → ℕ
left ended = 0
left at_top = 1
left (busy task) = 2
left notified = 3
left waiting = 4

pub left-wake : (w : Worker) → left (wake w) ≤ left w
unfolding left wake
left-wake at_top = omega arith
left-wake waiting = omega arith
left-wake notified = omega arith
left-wake ended = omega arith
left-wake (busy t) = omega arith

-- A step of the pool that changes one worker, and leaves `running_` as it is.
record Moves (i : ℕ) (w : Worker) (s r : System) : Type 0 where
  running : r.pool.running ≡ s.pool.running
  workers : (j : ℕ) → r.workers j ≡ put i w s.workers j

notify_not_full-Moves :
    (which i : ℕ) (w : Worker) (l : List ℕ) (s r : System)
    → Moves i w s r
    → Moves i w s (notify_not_full which l r)
unfolding notify_not_full
notify_not_full-Moves which i w [] s r h = h
notify_not_full-Moves which i w (x ∷ l) s r h = record { running = h.running; workers = h.workers }

-- What `take` gives a worker.
taken_by : List ℕ → Worker
taken_by [] = at_top
taken_by (task ∷ queue) = busy task

pop_task-Moves :
    (i which : ℕ) (queue : List ℕ) (s : System)
    → Moves i (taken_by queue) s (pop_task i which queue s)
unfolding pop_task taken_by
pop_task-Moves i which [] s = record { running = refl; workers = λ j. refl }
pop_task-Moves i which (task ∷ queue) s = elim (Bool-cases (ltb 0 s.pool.max_queue_size)) [
  | inl bound ↦
      rw (bound, pop_task)
        (notify_not_full-Moves which i (busy task) s.blocked s _
          record { running = refl; workers = λ j. refl })
  | inr free ↦ rw (free, pop_task) record { running = refl; workers = λ j. refl }
]

left-taken_by : (queue : List ℕ) → left (taken_by queue) ≤ 2
unfolding left taken_by
left-taken_by [] = omega arith
left-taken_by (task ∷ queue) = omega arith

-- The worker after its own step.
next_of : Worker → List ℕ → Worker
next_of at_top queue = ended
next_of notified queue = taken_by queue
next_of (busy task) queue = at_top
next_of w queue = w

put_self : (i : ℕ) (w : Worker) (f : ℕ → Worker) → f i ≡ w → (j : ℕ) → f j ≡ put i w f j
put_self i w f e j = elim (Bool-cases (j == i)) [
  | inl same ↦ let is : j ≡ i = ground (arith, same) in rw same (ap f is ∙ e)
  | inr other ↦ rw other refl
]

unless-Moves :
    (b : Bool) (i : ℕ) (w : Worker) (s t r : System)
    → b ≡ false
    → Moves i w s r
    → Moves i w s (if b then t else r)
unless-Moves true i w s t r h k = absurd (cc h)
unless-Moves false i w s t r h k = k

and_false : (a b : Bool) → b ≡ false → (a && b) ≡ false
and_false true b h = h
and_false false b h = refl

try_take-Moves :
    (i which : ℕ) (s : System)
    → s.pool.running ≡ false
    → Moves i (taken_by s.pool.queue) s (try_take i which s)
unfolding try_take
try_take-Moves i which s h =
    unless-Moves (is_nil s.pool.queue && s.pool.running) i (taken_by s.pool.queue) s _ _
      (and_false (is_nil s.pool.queue) s.pool.running h) (pop_task-Moves i which s.pool.queue s)

work_at-Moves :
    (w : Worker) (i which : ℕ) (s : System)
    → s.pool.running ≡ false
    → s.workers i ≡ w
    → Moves i (next_of w s.pool.queue) s (work_at w i which s)
unfolding work_at next_of
work_at-Moves at_top i which s h e =
    unless-Moves s.pool.running i ended s _ _ h record { running = refl; workers = λ j. refl }
work_at-Moves notified i which s h e = try_take-Moves i which s h
work_at-Moves (busy task) i which s h e = record { running = refl; workers = λ j. refl }
work_at-Moves waiting i which s h e = record {
  running = refl;
  workers = put_self i waiting s.workers e;
}
work_at-Moves ended i which s h e = record {
  running = refl;
  workers = put_self i ended s.workers e;
}

left-next_of :
    (w : Worker) (queue : List ℕ) → is_waiting w ≡ false → left (next_of w queue) ≤ left w - 1
unfolding left next_of is_waiting
left-next_of at_top queue h = omega arith
left-next_of notified queue h = left-taken_by queue
left-next_of (busy task) queue h = omega arith
left-next_of waiting queue h = absurd (cc h)
left-next_of ended queue h = omega arith

pub not_waiting :
    (s : System) (i : ℕ) → IsSound s → s.pool.running ≡ false → is_waiting (s.workers i) ≡ false
not_waiting s i ok h = elim (Bool-cases (is_waiting (s.workers i))) [
  | inl w ↦ absurd (cc (h, (ok.awake i w).1))
  | inr w ↦ w
]

-- After `stop`, a step of worker `i` brings it nearer to its end.
pub record Nears (i : ℕ) (s r : System) : Type 0 where
  pub stopped : r.pool.running ≡ false
  pub nearer : left (r.workers i) ≤ left (s.workers i) - 1
  pub others : (j : ℕ) → left (r.workers j) ≤ left (s.workers j)

pub works-Nears :
    (i which : ℕ) (s : System)
    → IsSound s
    → s.pool.running ≡ false
    → Nears i s (step (works i which) s)
unfolding step work
works-Nears i which s ok h =
    let x = work_at-Moves (s.workers i) i which s h refl in
    let down = left-next_of (s.workers i) s.pool.queue (not_waiting s i ok h) in
    record {
      stopped = x.running ∙ h;
      nearer = rw (x.workers i, put_same i (next_of (s.workers i) s.pool.queue) s.workers) down;
      others = λ j. rw (x.workers j) (elim (Bool-cases (j == i)) [
        | inl same ↦ let is : j ≡ i = ground (arith, same) in rw (same, is) (omega (arith, down))
        | inr other ↦ rw other (omega arith)
      ]);
    }
