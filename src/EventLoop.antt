-- ===== src/EventLoop.antt =====
-- src/port/EventLoop.h and src/port/EventLoop.cpp: the queue of functors, the flags of the loop, and
-- the descriptor by which the other threads wake it. The mutex makes an insertion into the queue and
-- the exchange of the queue one step each. Channels and timers have their own modules; the number of
-- iterations and the channel that is being handled are not modelled.
pub mod Moves
pub mod History
pub mod Phases
pub mod Running
pub mod Sound
pub mod Waking
use dbdky_gcc.Common.{
  assert, ◌>>◌, ℕ, ◌≡◌, refl, Option, some, List, [], ◌∷◌, ◌++◌, Bool, true, false, ◌||◌, not,
  if◌then◌else◌,
}

-- The descriptor that `eventfd` gives: a number is added to it, it is read, and `poll` reports it as
-- readable once something was added.
pub record Eventfd (K : Type 0) : Type 0 where
  pub add_one : K → K
  pub take_all : K → K
  pub readable : K → Bool
  pub readable-add_one : (k : K) → readable (add_one k) ≡ true

-- A functor is known by its number.
pub record EventLoop (K : Type 0) : Type 0 where
  pub looping : Bool
  pub quitting : Bool
  pub event_handling : Bool
  pub calling_pending_functors : Bool
  pub wakeup_fd : K
  pub pending_functors : List ℕ

unfoldable pub new_loop : {K : Type 0} → K → EventLoop K
new_loop k = record {
  looping = false;
  quitting = false;
  event_handling = false;
  calling_pending_functors = false;
  wakeup_fd = k;
  pending_functors = [];
}

module _ {K : Type 0} (fd : Eventfd K) where
  unfoldable pub wakeup : EventLoop K → EventLoop K
  wakeup l = record l { wakeup_fd = fd.add_one l.wakeup_fd }

  unfoldable pub handle_read : EventLoop K → EventLoop K
  handle_read l = record l { wakeup_fd = fd.take_all l.wakeup_fd }

  -- `inside` says whether the caller runs in the thread of the loop.
  unfoldable pub set_quit : EventLoop K → EventLoop K
  set_quit l = record l { quitting = true }

  unfoldable pub quit : Bool → EventLoop K → EventLoop K
  quit inside l = if not inside then wakeup (set_quit l) else set_quit l

  -- What `queueInLoop` does under the mutex, and what it does then.
  unfoldable pub push : ℕ → EventLoop K → EventLoop K
  push cb l = record l { pending_functors = l.pending_functors ++ cb ∷ [] }

  unfoldable pub notify : Bool → EventLoop K → EventLoop K
  notify inside l = if not inside || l.calling_pending_functors then wakeup l else l

  unfoldable pub queue_in_loop : Bool → ℕ → EventLoop K → EventLoop K
  queue_in_loop inside cb l = notify inside (push cb l)

  -- `cb` is the number of the functor, and `called` what a call of it does.
  unfoldable pub run_in_loop : Bool → ℕ → (EventLoop K → EventLoop K) → EventLoop K → EventLoop K
  run_in_loop inside cb called l = if inside then called l else queue_in_loop inside cb l

  -- The parts of `loop`: its start, the return of `poll`, and the end after `quit`.
  unfoldable pub start_looping : EventLoop K → Option (EventLoop K)
  start_looping l = do assert (not l.looping); some (record l { looping = true; quitting = false })

  unfoldable pub start_handling : EventLoop K → EventLoop K
  start_handling l = record l { event_handling = true }

  unfoldable pub end_handling : EventLoop K → EventLoop K
  end_handling l = record l { event_handling = false }

  unfoldable pub stop_looping : EventLoop K → EventLoop K
  stop_looping l = record l { looping = false }

  -- The parts of `doPendingFunctors` around the calls: the queue of the loop becomes empty, and the
  -- functors that it held are those of the local vector.
  unfoldable pub swap_pending : EventLoop K → EventLoop K
  swap_pending l = record l { calling_pending_functors = true; pending_functors = [] }

  unfoldable pub end_calling : EventLoop K → EventLoop K
  end_calling l = record l { calling_pending_functors = false }

  unfoldable pub call_all : (ℕ → EventLoop K → EventLoop K) → List ℕ → EventLoop K → EventLoop K
  call_all called [] l = l
  call_all called (cb ∷ functors) l = call_all called functors (called cb l)

  unfoldable pub do_pending_functors : (ℕ → EventLoop K → EventLoop K) → EventLoop K → EventLoop K
  do_pending_functors called l = end_calling (call_all called l.pending_functors (swap_pending l))
