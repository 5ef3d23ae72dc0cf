-- ===== src/EventLoop/Sound.antt =====
-- What holds of the loop and its threads at every step.
use dbdky_gcc.Common.{ltb, ◌≡◌, Option, some, ◌++◌, Bool, true, false, not, ◌||◌}
use dbdky_gcc.EventLoop.{Eventfd}
use dbdky_gcc.EventLoop.Moves.{System, is_stopped, is_polling, is_handling, is_calling, left}
use dbdky_gcc.EventLoop.Phases.{is_nil}

module _ {K : Type 0} (fd : Eventfd K) where
  -- `poll` returns at once, or it does as soon as another thread has written to the descriptor.
  abbrev pub awake : System K → Bool
  awake s = ltb 0 s.waking || fd.readable s.loop.wakeup_fd

  pub record IsSound (s : System K) : Type 0 where
    pub order : s.ran ++ (left s.phase ++ s.loop.pending_functors) ≡ s.queued
    pub looping : s.loop.looping ≡ not (is_stopped s.phase)
    pub handling_events : s.loop.event_handling ≡ is_handling s.phase
    pub calling_functors : s.loop.calling_pending_functors ≡ is_calling s.phase
    pub functors_wake :
        is_handling s.phase ≡ false
        → is_nil s.loop.pending_functors ≡ false
        → (s.early || awake s) ≡ true
    pub quit_wakes : is_polling s.phase ≡ true → s.loop.quitting ≡ true → awake s ≡ true

  pub record Moves (answer : Option (System K)) : Type 0 where
    pub after : System K
    pub returns : answer ≡ some after
    pub sound : IsSound after
