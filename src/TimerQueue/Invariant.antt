-- ===== src/TimerQueue/Invariant.antt =====
-- The two sets of a timer queue hold the same living timers, each under its own time and number.
use mathlib.Core.Path.{subst}
use dbdky_gcc.Common.{
  put, ℕ, ◌<◌, ◌≡◌, refl, Option, none, some, length, Bool, true, false, ◌&&◌, ◌==◌, arith, inl,
  inr, Bool-cases,
}
use dbdky_gcc.Common.Pairs.{
  contains, insert, erase, IsAscending, insert-IsAscending, erase-IsAscending, contains-insert,
  contains-erase, length-insert, length-erase,
}
use dbdky_gcc.TimerQueue.{Timer, TimerQueue, is_earliest, insert_timer, uintptr_max}

abbrev pub expires_at : Option Timer → ℕ → Bool
expires_at none w = false
expires_at (some timer) w = w == timer.expiration

abbrev pub has_sequence : Option Timer → ℕ → Bool
has_sequence none s = false
has_sequence (some timer) s = s == timer.sequence

-- `member` tells which addresses are queued.
pub record IsValid (q : TimerQueue) (member : ℕ → Bool) : Type 0 where
  pub ascending : IsAscending q.timers
  pub ascending_active : IsAscending q.active_timers
  pub sizes : length q.timers ≡ length q.active_timers
  pub by_time : (w a : ℕ) → contains (w, a) q.timers ≡ (member a && expires_at (q.heap a) w)
  pub by_sequence :
      (a s : ℕ) → contains (a, s) q.active_timers ≡ (member a && has_sequence (q.heap a) s)
  pub live :
      (a : ℕ) → member a ≡ true → (timer : Timer) × (q.heap a ≡ some timer) × (a < uintptr_max)

module _ (q : TimerQueue) (member : ℕ → Bool) (ok : IsValid q member) (a : ℕ) where
  -- What an address that is not queued holds does not matter.
  pub put-IsValid :
      (x : Option Timer) (n : ℕ)
      → member a ≡ false
      → IsValid (record q { heap = put a x q.heap; num_created = n }) member
  put-IsValid x n out = record {
    ascending = ok.ascending;
    ascending_active = ok.ascending_active;
    sizes = ok.sizes;
    by_time = λ w b. ground (arith, ok.by_time w b);
    by_sequence = λ b s. ground (arith, ok.by_sequence b s);
    live = λ b h. let (t, e, lt) = ok.live b h in (t, ground arith, lt);
  }

  module _ (timer : Timer) (there : q.heap a ≡ some timer) (out : member a ≡ false)
      (low : a < uintptr_max) where
    abbrev pub inserted : TimerQueue
    inserted = record q {
      timers = insert (timer.expiration, a) q.timers;
      active_timers = insert (a, timer.sequence) q.active_timers;
    }

    new_time : contains (timer.expiration, a) q.timers ≡ false
    new_time = ground (arith, ok.by_time timer.expiration a)

    new_sequence : contains (a, timer.sequence) q.active_timers ≡ false
    new_sequence = ground (arith, ok.by_sequence a timer.sequence)

    inserted_sizes : length inserted.timers ≡ length inserted.active_timers
    inserted_sizes = omega (
      arith,
      length-insert (timer.expiration, a) q.timers new_time,
      length-insert (a, timer.sequence) q.active_timers new_sequence,
      ok.sizes,
    )

    pub insert_timer_lem : insert_timer a q ≡ some (is_earliest timer.expiration q.timers, inserted)
    unfolding insert_timer
    insert_timer_lem =
        let before : (length q.timers == length q.active_timers) ≡ true =
          ground (arith, ok.sizes) in
        let after : (length inserted.timers == length inserted.active_timers) ≡ true =
          ground (arith, inserted_sizes) in
        rw (before, there, new_time, new_sequence, after) refl

    pub inserted-IsValid : IsValid inserted (put a true member)
    inserted-IsValid = record {
      ascending = insert-IsAscending _ _ ok.ascending;
      ascending_active = insert-IsAscending _ _ ok.ascending_active;
      sizes = inserted_sizes;
      by_time = λ w b.
          ground
            (arith, there, ok.by_time w b, contains-insert (timer.expiration, a) (w, b) q.timers);
      by_sequence = λ b s. ground (
        arith,
        there,
        ok.by_sequence b s,
        contains-insert (a, timer.sequence) (b, s) q.active_timers,
      );
      live = λ b h. elim (Bool-cases (b == a)) [
        | inl here ↦ (timer, ground arith, ground arith)
        | inr away ↦ let (t, e, lt) = ok.live b (ground arith) in (t, e, lt)
      ];
    }

  module _ (timer : Timer) (there : q.heap a ≡ some timer) (queued : member a ≡ true) where
    abbrev pub erased : TimerQueue
    erased = record q {
      timers = erase (timer.expiration, a) q.timers;
      active_timers = erase (a, timer.sequence) q.active_timers;
      heap = put a none q.heap;
    }

    old_time : contains (timer.expiration, a) q.timers ≡ true
    old_time = ground (arith, ok.by_time timer.expiration a)

    old_sequence : contains (a, timer.sequence) q.active_timers ≡ true
    old_sequence = ground (arith, ok.by_sequence a timer.sequence)

    erased_sizes : length erased.timers ≡ length erased.active_timers
    erased_sizes = omega (
      arith,
      length-erase (timer.expiration, a) q.timers old_time,
      length-erase (a, timer.sequence) q.active_timers old_sequence,
      ok.sizes,
    )

    pub erased-IsValid : IsValid erased (put a false member)
    erased-IsValid = record {
      ascending = erase-IsAscending _ _ ok.ascending;
      ascending_active = erase-IsAscending _ _ ok.ascending_active;
      sizes = erased_sizes;
      by_time = λ w b. ground (
        arith,
        there,
        ok.by_time w b,
        contains-erase (timer.expiration, a) (w, b) q.timers ok.ascending,
      );
      by_sequence = λ b s. ground (
        arith,
        there,
        ok.by_sequence b s,
        contains-erase (a, timer.sequence) (b, s) q.active_timers ok.ascending_active,
      );
      live = λ b h. let (t, e, lt) = ok.live b (ground arith) in (t, ground arith, lt);
    }

-- The other fields do not matter.
pub frame-IsValid :
    (q r : TimerQueue) (member : ℕ → Bool)
    → q.timers ≡ r.timers
    → q.active_timers ≡ r.active_timers
    → q.heap ≡ r.heap
    → IsValid q member
    → IsValid r member
frame-IsValid q r member e f g ok = record {
  ascending = subst IsAscending e ok.ascending;
  ascending_active = subst IsAscending f ok.ascending_active;
  sizes = cc (e, f, ok.sizes);
  by_time = λ w a. cc (e, g, ok.by_time w a);
  by_sequence = λ a s. cc (f, g, ok.by_sequence a s);
  live = λ a h. let (t, there, low) = ok.live a h in (t, cc (g, there), low);
}
