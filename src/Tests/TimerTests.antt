-- ===== src/Tests/TimerTests.antt =====
-- A timer that repeats, and whose callback cancels it.
use dbdky_gcc.Common.{put, ℕ, ◌≡◌, refl, Option, none, some, [], ◌∷◌, true, false, arith}
use dbdky_gcc.Common.Pairs.{contains, insert, erase}
use dbdky_gcc.Common.Pairs.Split.{front, rest}
use dbdky_gcc.TimerQueue.{
  Interval, Timer, TimerQueue, new_queue, how_much_time_from_now, insert_timer, add_timer_in_loop,
  new_timer, add_timer, cancel_in_loop, erase_active, get_expired, reset_entry, reset_all, arm,
  reset, run_all, handle_read,
}
use dbdky_gcc.TimerQueue.Invariant.{IsValid}
use dbdky_gcc.TimerQueue.Calls.{
  Kept, Keeping-Kept, done, adding, canceling, add_timer-Keeping, cancel_in_loop-Keeping,
}
use dbdky_gcc.TimerQueue.Entries.{occurs}
use dbdky_gcc.TimerQueue.Rounds.{AreCalls, Reads, handle_read-Reads}
use dbdky_gcc.TimerQueue.Cancel.{
  cancel-deleted, created, called, read, IsIdle, created-IsIdle, Happens-IsIdle,
}

abbrev every_50 : Interval
every_50 = record { positive = true; micros = 50 }

abbrev ticking : Timer
ticking = record {
  callback = 7;
  expiration = 100;
  interval = every_50;
  repeat = true;
  sequence = 1;
}

abbrev with_ticking : TimerQueue
with_ticking = record {
  timers = (100, 5) ∷ [];
  active_timers = (5, 1) ∷ [];
  calling_expired_timers = false;
  canceling_timers = [];
  heap = put 5 (some ticking) (λ a. none);
  num_created = 1;
  alarm = some (record { set_at = 10; value = record { tv_sec = 0; tv_nsec = 100000 } });
}

ticking_added : add_timer 10 5 7 100 every_50 new_queue ≡ some ((5, 1), with_ticking)
unfolding add_timer add_timer_in_loop new_timer insert_timer contains insert how_much_time_from_now
ticking_added = refl

abbrev cancel_own : ℕ → TimerQueue → Option TimerQueue
cancel_own cb q = cancel_in_loop (5, 1) q

cancel_own-AreCalls : AreCalls cancel_own
cancel_own-AreCalls cb q member ok =
    let k = cancel_in_loop-Keeping q member ok (5, 1) in
    (k.after, k.returns, canceling (5, 1) done k.returns)

with_ticking-Kept : Kept new_queue with_ticking created-IsIdle.member
with_ticking-Kept =
    Keeping-Kept new_queue with_ticking created-IsIdle.member _
      (add_timer-Keeping new_queue created-IsIdle.member created-IsIdle.valid 10 5 7 100 every_50
        refl (omega arith))
      (rw ticking_added refl)

handle_read-Reads_example : Reads cancel_own 120 130 with_ticking with_ticking-Kept.member'
handle_read-Reads_example =
    handle_read-Reads cancel_own 120 130 with_ticking with_ticking-Kept.member' cancel_own-AreCalls
      with_ticking-Kept.valid

-- While the callback runs.
abbrev during : TimerQueue
during = record with_ticking { timers = []; active_timers = []; calling_expired_timers = true }

during-IsValid : IsValid during (λ a. false)
unfolding contains
during-IsValid = record {
  ascending = tt;
  ascending_active = tt;
  sizes = refl;
  by_time = λ w a. refl;
  by_sequence = λ a s. refl;
  live = λ a h. absurd (cc h);
}

abbrev own_noted : TimerQueue
own_noted = record during { canceling_timers = (5, 1) ∷ [] }

own_canceled : cancel_in_loop (5, 1) during ≡ some own_noted
unfolding cancel_in_loop contains insert
own_canceled = refl

once : occurs 5 [] ≡ false
unfolding occurs
once = refl

there : occurs 5 ((100, 5) ∷ []) ≡ true
unfolding occurs
there = refl

cancel-deleted_example :
    (after : TimerQueue) × (reset_all 120
        ((100, 5) ∷ [])
        (record own_noted { calling_expired_timers = false })
      ≡ some after)
    × (after.heap 5 ≡ none)
    × ((w : ℕ) → contains (w, 5) after.timers ≡ false)
    × ((n : ℕ) → contains (5, n) after.active_timers ≡ false)
cancel-deleted_example =
    cancel-deleted 120 ((100, 5) ∷ []) during own_noted own_noted (λ a. false) during-IsValid refl
      (once, tt) ((ticking, refl, refl, omega arith), tt) 5 ticking there refl own_canceled done

abbrev at_end : TimerQueue
at_end = record own_noted {
  calling_expired_timers = false;
  heap = put 5 none (put 5 (some ticking) (λ a. none));
}

own_read : handle_read cancel_own 120 130 with_ticking ≡ some at_end
unfolding handle_read get_expired erase_active reset reset_all reset_entry arm run_all
    cancel_in_loop contains insert erase front rest
own_read = refl

Happens-IsIdle_example : IsIdle at_end
Happens-IsIdle_example = Happens-IsIdle cancel_own at_end cancel_own-AreCalls (
    read 120 130
      (called created (adding 10 5 7 100 every_50 (5, 1) done refl (omega arith) ticking_added))
      own_read)
