-- ===== src/EventLoop/History.antt =====
-- Whatever the threads have done since the loop was made.
use mathlib.Core.Path.{subst}
use dbdky_gcc.Common.{◌≡◌, refl, some, true}
use dbdky_gcc.EventLoop.{Eventfd, new_loop}
use dbdky_gcc.EventLoop.Moves.{
  System, new_system, Move, move, can_move, left, is_stopped, is_polling, is_handling, is_calling,
}
use dbdky_gcc.EventLoop.Phases.{is_nil}
use dbdky_gcc.EventLoop.Sound.{IsSound, Moves}
use dbdky_gcc.EventLoop.Waking.{move-Moves}

module _ {K : Type 0} (fd : Eventfd K) where
  -- The steps of the threads from a new loop on.
  pub data Happens : System K → Type 0 where
    created : (k : K) → Happens (new_system k)
    moved :
        {s r : System K} (m : Move)
        → Happens s
        → can_move m s ≡ true
        → move fd m s ≡ some r
        → Happens r

  new_system-IsSound : (k : K) → IsSound fd (new_system k)
  unfolding new_loop left is_stopped is_polling is_handling is_calling is_nil
  new_system-IsSound k = record {
    order = refl;
    looping = refl;
    handling_events = refl;
    calling_functors = refl;
    functors_wake = λ n e. absurd (cc e);
    quit_wakes = λ n. absurd (cc n);
  }

  pub Happens-IsSound : (s : System K) → Happens s → IsSound fd s
  Happens-IsSound s (created k) = new_system-IsSound k
  Happens-IsSound r (moved {s} m before can e) =
      let x = move-Moves fd m s (Happens-IsSound s before) can in
      let is : x.after ≡ r = cc (x.returns, e) in subst (IsSound fd) is x.sound

  -- Whatever the threads have done since the loop was made, a step that a thread can take goes through,
  -- its assertion included. After it the functors called, those still to be called and those in the
  -- queue are the functors inserted, in that order; the flags say where the loop is; wherever `quit_` is
  -- set in `poll`, the descriptor is readable or another thread is about to write to it; and so it is
  -- wherever a functor waits outside the callbacks of the channels, unless the loop's own thread has
  -- queued one outside of `loop` since the queue was last taken.
  pub Happens-Moves :
      (s : System K) (m : Move) → Happens s → can_move m s ≡ true → Moves fd (move fd m s)
  Happens-Moves s m h can = move-Moves fd m s (Happens-IsSound s h) can
