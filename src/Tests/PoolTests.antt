-- ===== src/Tests/PoolTests.antt =====
-- A pool with a bound of one task and two threads.
use dbdky_gcc.Common.{◌≡◌, refl, List, [], ◌∷◌, arith}
use dbdky_gcc.ThreadPool.{
  System, ended, start, set_max_queue_size, new_pool, try_run, push_task, notify_all_not_empty,
  is_full, wake, work, work_at, try_take, pop_task, is_nil, notify_not_full, extract, stop,
}
use dbdky_gcc.ThreadPool.Invariant.{IsSound}
use dbdky_gcc.ThreadPool.History.{
  Move, offers, works, stops, step, Happens, started, moved, Happens-IsSound,
}
use dbdky_gcc.ThreadPool.Stopping.{steps, turns, is_turn, steps-ended}

abbrev pool : System
pool = start 2 (set_max_queue_size 1 new_pool)

-- The second producer waits, and the worker that takes the first task notifies it.
abbrev one_taken : System
one_taken = step (works 0 0) (step (offers 8) (step (offers 7) pool))

one_taken-Happens : Happens 1 2 one_taken
one_taken-Happens = moved (works 0 0) (moved (offers 8) (moved (offers 7) started))

Happens-IsSound_example : IsSound one_taken
Happens-IsSound_example = Happens-IsSound 1 2 one_taken one_taken-Happens

-- The pool is stopped with a task in the queue and a producer that waits.
abbrev stopped : System
stopped = step stops (step (offers 8) (step (offers 7) pool))

abbrev three_turns : List Move
three_turns = works 0 0 ∷ works 1 0 ∷ works 0 0 ∷ works 0 0 ∷ []

steps-ended_example : (steps three_turns stopped).workers 0 ≡ ended
unfolding step stop notify_all_not_empty try_run push_task is_full start set_max_queue_size turns
    is_turn
steps-ended_example =
    steps-ended 1 2 0 three_turns stopped
      (moved stops (moved (offers 8) (moved (offers 7) started))) refl (omega arith)

-- Both workers have ended, and the producer still waits.
left_behind : (steps three_turns stopped).blocked ≡ 8 ∷ []
unfolding steps step stop notify_all_not_empty try_run push_task is_full start set_max_queue_size
    work work_at try_take pop_task is_nil notify_not_full extract wake
left_behind = refl
