-- ===== src/Tests/LoopTests.antt =====
-- A loop that another thread wakes twice, with a counter in place of the descriptor.
use dbdky_gcc.Common.{◌>>=◌, ltb, suc, ℕ, ◌≡◌, refl, some, [], ◌∷◌, true, false, arith}
use dbdky_gcc.EventLoop.{
  Eventfd, new_loop, wakeup, push, notify, queue_in_loop, run_in_loop, quit, set_quit,
  start_looping, start_handling, end_handling, swap_pending, end_calling, call_all,
  do_pending_functors,
}
use dbdky_gcc.EventLoop.Moves.{
  polling, calling, System, new_system, enters, inserts, wakes, returns, starts, calls, queues,
  is_polling, is_handling, is_calling, has_called, is_stopped, move, can_move, call_next, enter,
}
use dbdky_gcc.EventLoop.Sound.{Moves}
use dbdky_gcc.EventLoop.History.{Happens, created, moved, Happens-Moves}

readable_once_added : (k : ℕ) → ltb 0 (suc k) ≡ true
readable_once_added k = ground arith

abbrev counter : Eventfd ℕ
counter = record {
  add_one = λ k. suc k;
  take_all = λ k. 0;
  readable = λ k. ltb 0 k;
  readable-add_one = readable_once_added;
}

abbrev sleeping : System ℕ
sleeping = record {
  loop = record {
    looping = true;
    quitting = false;
    event_handling = false;
    calling_pending_functors = false;
    wakeup_fd = 1;
    pending_functors = 4 ∷ [];
  };
  phase = polling;
  waking = 0;
  queued = 4 ∷ [];
  ran = [];
  early = false;
}

sleeping-Happens : Happens counter sleeping
unfolding move can_move enter start_looping push wakeup new_loop is_stopped
sleeping-Happens =
    moved wakes (moved (inserts 4) (moved enters (created 0) refl refl) refl refl) refl refl

abbrev called : System ℕ
called = record {
  loop = record {
    looping = true;
    quitting = false;
    event_handling = false;
    calling_pending_functors = true;
    wakeup_fd = 1;
    pending_functors = [];
  };
  phase = calling [];
  waking = 0;
  queued = 4 ∷ [];
  ran = 4 ∷ [];
  early = false;
}

called-Happens : Happens counter called
unfolding move can_move call_next swap_pending start_handling end_handling is_polling is_handling
    is_calling has_called
called-Happens =
    moved calls (moved starts (moved returns sleeping-Happens refl refl) refl refl) refl refl

-- A functor queues another one.
Happens-Moves_example : Moves counter (move counter (queues 5) called)
unfolding can_move is_polling
Happens-Moves_example = Happens-Moves counter called (queues 5) called-Happens refl

requeued :
    do_pending_functors counter
      (λ cb l. run_in_loop counter true cb (queue_in_loop counter true 9) l)
      sleeping.loop
    ≡ record sleeping.loop { wakeup_fd = 2; pending_functors = 9 ∷ [] }
unfolding do_pending_functors call_all run_in_loop queue_in_loop notify push wakeup swap_pending
    end_calling
requeued = refl

quit_elsewhere :
    quit counter false (new_loop 0) ≡ record (new_loop 0) { quitting = true; wakeup_fd = 1 }
unfolding quit set_quit wakeup new_loop
quit_elsewhere = refl

-- The loop's own thread queues a functor before `loop`: in `poll` the functor waits, and nothing is to
-- wake the loop.
asleep :
    (move counter (queues 4) (new_system 0) >>= move counter enters)
    ≡ some (record {
      loop = record sleeping.loop { wakeup_fd = 0 };
      phase = polling;
      waking = 0;
      queued = 4 ∷ [];
      ran = [];
      early = true;
    })
unfolding move enter start_looping queue_in_loop notify push new_loop is_stopped
asleep = refl
