-- ===== src/ThreadPool/Stopping.antt =====
-- After `stop` the workers end.
use dbdky_gcc.Common.{
  put, ℕ, ◌+◌, ◌-◌, ◌≤◌, ◌≡◌, refl, List, [], ◌∷◌, Bool, true, false, ◌==◌, if◌then◌else◌, inl, inr,
  Bool-cases, arith,
}
use dbdky_gcc.ThreadPool.{
  is_full, Worker, at_top, waiting, notified, ended, busy, System, wake, notify_all_not_empty,
  extract, notify_not_full, push_task, try_run, stop,
}
use dbdky_gcc.ThreadPool.Invariant.{is_waiting, IsSound}
use dbdky_gcc.ThreadPool.History.{
  Move, offers, retries, works, rouses_worker, rouses_producer, stops, retry, step, step-IsSound,
  Happens, Happens-IsSound,
}
use dbdky_gcc.ThreadPool.Leaving.{left, left-wake, works-Nears, not_waiting}

-- After `stop`, no step takes a worker away from its end.
record Stays (s r : System) : Type 0 where
  stopped : r.pool.running ≡ false
  others : (j : ℕ) → left (r.workers j) ≤ left (s.workers j)

if-Stays : (b : Bool) (s t r : System) → Stays s t → Stays s r → Stays s (if b then t else r)
if-Stays true s t r x y = x
if-Stays false s t r x y = y

try_run-Stays : (task : ℕ) (s : System) → s.pool.running ≡ false → Stays s (try_run task s)
unfolding try_run push_task notify_all_not_empty
try_run-Stays task s h =
    if-Stays (is_full s.pool) s _ _ record { stopped = h; others = λ j. omega arith }
      record { stopped = h; others = λ j. left-wake (s.workers j) }

retry-Stays :
    (which : ℕ) (l : List ℕ) (s : System) → s.pool.running ≡ false → Stays s (retry which l s)
unfolding retry
retry-Stays which [] s h = record { stopped = h; others = λ j. omega arith }
retry-Stays which (x ∷ l) s h =
    let t = try_run-Stays (extract which x l).0 (record s { released = (extract which x l).1 }) h in
    record { stopped = t.stopped; others = t.others }

rouse-Stays :
    (which : ℕ) (l : List ℕ) (s : System)
    → s.pool.running ≡ false
    → Stays s (notify_not_full which l s)
unfolding notify_not_full
rouse-Stays which [] s h = record { stopped = h; others = λ j. omega arith }
rouse-Stays which (x ∷ l) s h = record { stopped = h; others = λ j. omega arith }

roused : (i j : ℕ) (f : ℕ → Worker) → left (put i (wake (f i)) f j) ≤ left (f j)
roused i j f = elim (Bool-cases (j == i)) [
  | inl same ↦ let is : j ≡ i = ground (arith, same) in rw (same, is) (left-wake (f i))
  | inr other ↦ rw other (omega arith)
]

step-Stays : (m : Move) (s : System) → IsSound s → s.pool.running ≡ false → Stays s (step m s)
unfolding step stop notify_all_not_empty
step-Stays (offers task) s ok h = try_run-Stays task s h
step-Stays (retries which) s ok h = retry-Stays which s.released s h
step-Stays (works i which) s ok h =
    let x = works-Nears i which s ok h in record { stopped = x.stopped; others = x.others }
step-Stays (rouses_worker i) s ok h = record { stopped = h; others = λ j. roused i j s.workers }
step-Stays (rouses_producer which) s ok h = rouse-Stays which s.blocked s h
step-Stays stops s ok h = record { stopped = refl; others = λ j. left-wake (s.workers j) }

unfoldable pub steps : List Move → System → System
steps [] s = s
steps (m ∷ moves) s = steps moves (step m s)

unfoldable pub is_turn : ℕ → Move → Bool
is_turn i (works j which) = i == j
is_turn i m = false

-- The steps of worker `i` among the moves.
unfoldable pub turns : ℕ → List Move → ℕ
turns i [] = 0
turns i (m ∷ moves) = (if is_turn i m then 1 else 0) + turns i moves

step-left :
    (i : ℕ) (m : Move) (s : System)
    → IsSound s
    → s.pool.running ≡ false
    → left ((step m s).workers i) ≤ left (s.workers i) - (if is_turn i m then 1 else 0)
unfolding is_turn
step-left i (works j which) s ok h =
    let x = works-Nears j which s ok h in
    elim (Bool-cases (i == j)) [
      | inl same ↦ let is : i ≡ j = ground (arith, same) in rw (same, is) x.nearer
      | inr other ↦ rw other (omega (arith, x.others i))
    ]
step-left i (offers task) s ok h = omega (arith, (step-Stays (offers task) s ok h).others i)
step-left i (retries which) s ok h = omega (arith, (step-Stays (retries which) s ok h).others i)
step-left i (rouses_worker j) s ok h = omega (arith, (step-Stays (rouses_worker j) s ok h).others i)
step-left i (rouses_producer which) s ok h =
    omega (arith, (step-Stays (rouses_producer which) s ok h).others i)
step-left i stops s ok h = omega (arith, (step-Stays stops s ok h).others i)

steps-left :
    (i : ℕ) (moves : List Move) (s : System)
    → IsSound s
    → s.pool.running ≡ false
    → left ((steps moves s).workers i) ≤ left (s.workers i) - turns i moves
unfolding steps turns
steps-left i [] s ok h = omega arith
steps-left i (m ∷ moves) s ok h = omega (
  arith,
  step-left i m s ok h,
  steps-left i moves (step m s) (step-IsSound m s ok) (step-Stays m s ok h).stopped,
)

ended_of_left : (w : Worker) → left w ≡ 0 → w ≡ ended
unfolding left
ended_of_left at_top h = absurd (omega (arith, h))
ended_of_left waiting h = absurd (omega (arith, h))
ended_of_left notified h = absurd (omega (arith, h))
ended_of_left (busy t) h = absurd (omega (arith, h))
ended_of_left ended h = refl

left-not_waiting : (w : Worker) → is_waiting w ≡ false → left w ≤ 3
unfolding left is_waiting
left-not_waiting at_top h = omega arith
left-not_waiting waiting h = absurd (cc h)
left-not_waiting notified h = omega arith
left-not_waiting (busy t) h = omega arith
left-not_waiting ended h = omega arith

-- After `stop`, a worker has ended once it took three more steps, whatever the other threads do
-- meanwhile.
pub steps-ended :
    (bound num_threads i : ℕ) (moves : List Move) (s : System)
    → Happens bound num_threads s
    → s.pool.running ≡ false
    → 3 ≤ turns i moves
    → (steps moves s).workers i ≡ ended
steps-ended bound num_threads i moves s before h enough =
    let ok = Happens-IsSound bound num_threads s before in
    ended_of_left _ (
      omega (
        arith,
        steps-left i moves s ok h,
        left-not_waiting (s.workers i) (not_waiting s i ok h),
        enough,
      ))
