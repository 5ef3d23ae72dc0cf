-- ===== src/ThreadPool/Steps.antt =====
-- What a worker does keeps the pool sound.
use mathlib.Core.List.{append_assoc}
use dbdky_gcc.Common.{
  put, put_at, put_off, ℕ, suc, ◌≡◌, refl, sym, ap, ◌∙◌, List, [], ◌∷◌, ◌++◌, length, Bool, true,
  false, ◌&&◌, ◌==◌, ltb, if◌then◌else◌, inl, inr, Bool-cases, arith, length-append,
}
use dbdky_gcc.ThreadPool.{
  Worker, at_top, waiting, notified, ended, busy, System, notify_all_not_empty, extract,
  notify_not_full, pop_task, is_nil, try_take, work_at, stop,
}
use dbdky_gcc.ThreadPool.Invariant.{is_waiting, IsSoundUpTo, IsSound, none_waits}

-- A slot of the queue became free, and one of those that wait for it is notified.
pub notify_not_full-IsSound :
    (which : ℕ) (l : List ℕ) (s : System)
    → s.blocked ≡ l
    → IsSoundUpTo 1 s
    → IsSound (notify_not_full which l s)
unfolding notify_not_full is_nil
notify_not_full-IsSound which [] s e ok = record {
  bounded = ok.bounded;
  order = ok.order;
  awake = ok.awake;
  room = λ n. absurd (cc (n, ap is_nil e));
}
notify_not_full-IsSound which (x ∷ l) s e ok = record {
  bounded = ok.bounded;
  order = ok.order;
  awake = ok.awake;
  room = λ n.
      omega (arith, ok.room (ap is_nil e), length-append s.released ((extract which x l).0 ∷ []));
}

put_waiting :
    (i j : ℕ) (w : Worker) (f : ℕ → Worker)
    → is_waiting w ≡ false
    → is_waiting (put i w f j) ≡ true
    → is_waiting (f j) ≡ true
put_waiting i j w f h n = elim (Bool-cases (j == i)) [
  | inl same ↦ absurd (cc (h, n, ap is_waiting (put_at i w f j same)))
  | inr other ↦ ap is_waiting (sym (put_off i w f j other)) ∙ n
]

-- A step that moves a worker on, and leaves the rest.
pub moved-IsSound :
    (slack i : ℕ) (w : Worker) (s : System)
    → is_waiting w ≡ false
    → IsSoundUpTo slack s
    → IsSoundUpTo slack (record s { workers = put i w s.workers })
moved-IsSound slack i w s h ok = record {
  bounded = ok.bounded;
  order = ok.order;
  awake = λ j n. ok.awake j (put_waiting i j w s.workers h n);
  room = ok.room;
}

waits-IsSound :
    (i : ℕ) (s : System)
    → (is_nil s.pool.queue && s.pool.running) ≡ true
    → IsSound s
    → IsSound (record s { workers = put i waiting s.workers })
waits-IsSound i s h ok = record {
  bounded = ok.bounded;
  order = ok.order;
  awake = λ j n. ground (arith, h);
  room = ok.room;
}

-- The pool without the task that is taken, before the producers hear of it.
abbrev popped : ℕ → ℕ → List ℕ → System → System
popped i task queue s = record s {
  pool = record s.pool { queue = queue };
  taken = s.taken ++ task ∷ [];
  workers = put i (busy task) s.workers;
}

popped-IsSound :
    (i task : ℕ) (queue : List ℕ) (s : System)
    → s.pool.queue ≡ task ∷ queue
    → IsSound s
    → IsSoundUpTo 1 (popped i task queue s)
unfolding is_waiting is_nil
popped-IsSound i task queue s e ok =
    let one_less : length s.pool.queue ≡ suc (length queue) = ap length e in
    record {
      bounded = λ n. omega (arith, ok.bounded n, one_less);
      order = append_assoc s.taken (task ∷ []) queue ∙ ap (λ l. s.taken ++ l) (sym e) ∙ ok.order;
      awake = λ j n.
          absurd (cc (ap is_nil e, (ok.awake j (put_waiting i j (busy task) s.workers refl n)).0));
      room = λ n. omega (arith, ok.room n, one_less);
    }

pop_task-IsSound :
    (i which : ℕ) (queue : List ℕ) (s : System)
    → s.pool.queue ≡ queue
    → IsSound s
    → IsSound (pop_task i which queue s)
unfolding pop_task is_waiting
pop_task-IsSound i which [] s e ok = moved-IsSound 0 i at_top s refl ok
pop_task-IsSound i which (task ∷ queue) s e ok =
    let p = popped-IsSound i task queue s e ok in
    elim (Bool-cases (ltb 0 s.pool.max_queue_size)) [
      | inl bound ↦
          rw (bound, pop_task)
            (notify_not_full-IsSound which s.blocked (popped i task queue s) refl p)
      | inr free ↦
          rw (free, pop_task)
            record {
              bounded = p.bounded;
              order = p.order;
              awake = p.awake;
              room = λ n. ground (arith, free);
            }
    ]

pub try_take-IsSound : (i which : ℕ) (s : System) → IsSound s → IsSound (try_take i which s)
unfolding try_take
try_take-IsSound i which s ok = elim (Bool-cases (is_nil s.pool.queue && s.pool.running)) [
  | inl h ↦ rw (h, try_take) (waits-IsSound i s h ok)
  | inr h ↦ rw (h, try_take) (pop_task-IsSound i which s.pool.queue s refl ok)
]

if-IsSound : (b : Bool) (s t : System) → IsSound s → IsSound t → IsSound (if b then s else t)
if-IsSound true s t p q = p
if-IsSound false s t p q = q

pub work_at-IsSound :
    (w : Worker) (i which : ℕ) (s : System) → IsSound s → IsSound (work_at w i which s)
unfolding work_at is_waiting
work_at-IsSound at_top i which s ok =
    if-IsSound s.pool.running (try_take i which s) (record s { workers = put i ended s.workers })
      (try_take-IsSound i which s ok) (moved-IsSound 0 i ended s refl ok)
work_at-IsSound notified i which s ok = try_take-IsSound i which s ok
work_at-IsSound (busy task) i which s ok = moved-IsSound 0 i at_top s refl ok
work_at-IsSound waiting i which s ok = ok
work_at-IsSound ended i which s ok = ok

pub stop-IsSound : (s : System) → IsSound s → IsSound (stop s)
unfolding stop notify_all_not_empty
stop-IsSound s ok = record {
  bounded = ok.bounded;
  order = ok.order;
  awake = λ i n. absurd (cc (n, none_waits (s.workers i)));
  room = ok.room;
}
