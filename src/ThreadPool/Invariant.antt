-- ===== src/ThreadPool/Invariant.antt =====
-- The queue stays within its bound, keeps its order, and nobody sleeps through a chance.
use mathlib.Core.List.{append_assoc}
use dbdky_gcc.Common.{
  ℕ, ◌+◌, ◌≤◌, ◌≡◌, refl, sym, ap, ◌∙◌, [], ◌∷◌, ◌++◌, length, Bool, true, false, ltb, inl, inr,
  Bool-cases, arith, length-append,
}
use dbdky_gcc.ThreadPool.{
  is_full, Worker, at_top, waiting, notified, ended, busy, System, wake, notify_all_not_empty,
  push_task, try_run, is_nil,
}

unfoldable pub is_waiting : Worker → Bool
is_waiting waiting = true
is_waiting w = false

-- All but the last line of the invariant, and that line up to `slack` producers.
pub record IsSoundUpTo (slack : ℕ) (s : System) : Type 0 where
  pub bounded : ltb 0 s.pool.max_queue_size ≡ true → length s.pool.queue ≤ s.pool.max_queue_size
  pub order : s.taken ++ s.pool.queue ≡ s.inserted
  pub awake :
      (i : ℕ)
      → is_waiting (s.workers i) ≡ true
      → (is_nil s.pool.queue ≡ true) × (s.pool.running ≡ true)
  pub room :
      is_nil s.blocked ≡ false
      → s.pool.max_queue_size ≤ length s.pool.queue + length s.released + slack

abbrev pub IsSound : System → Type 0
IsSound s = IsSoundUpTo 0 s

pub none_waits : (w : Worker) → is_waiting (wake w) ≡ false
unfolding is_waiting wake
none_waits at_top = refl
none_waits waiting = refl
none_waits notified = refl
none_waits ended = refl
none_waits (busy t) = refl

pub weaken : (s : System) → IsSound s → IsSoundUpTo 1 s
weaken s ok = record {
  bounded = ok.bounded;
  order = ok.order;
  awake = ok.awake;
  room = λ n. omega (arith, ok.room n);
}

pub try_run-IsSound : (task : ℕ) (s : System) → IsSoundUpTo 1 s → IsSound (try_run task s)
unfolding try_run push_task notify_all_not_empty is_full
try_run-IsSound task s ok = elim (Bool-cases (is_full s.pool)) [
  | inl full ↦
      rw (full, try_run)
        record {
          bounded = ok.bounded;
          order = ok.order;
          awake = ok.awake;
          room = λ n. ground (arith, full);
        }
  | inr free ↦
      rw (free, try_run)
        record {
          bounded = λ n. ground (arith, free, n, length-append s.pool.queue (task ∷ []));
          order =
              sym (append_assoc s.taken s.pool.queue (task ∷ []))
              ∙ ap (λ l. l ++ task ∷ []) ok.order;
          awake = λ i n. absurd (cc (n, none_waits (s.workers i)));
          room = λ n. omega (arith, ok.room n, length-append s.pool.queue (task ∷ []));
        }
]
