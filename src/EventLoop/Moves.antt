-- ===== src/EventLoop/Moves.antt =====
-- The threads around src/port/EventLoop.cpp: what the thread of the loop and the other threads do, one
-- step at a time and in any order.
use dbdky_gcc.Common.{
  ltb, ℕ, ◌-◌, suc, Option, some, List, [], ◌∷◌, ◌++◌, Bool, true, false, not, if◌then◌else◌, ◌||◌,
  ◌&&◌, ◌>>=◌,
}
use dbdky_gcc.EventLoop.{
  Eventfd, EventLoop, wakeup, handle_read, set_quit, quit, push, queue_in_loop, start_looping,
  start_handling, end_handling, stop_looping, swap_pending, end_calling, new_loop,
}

-- Where the thread of the loop is: outside `loop`, in `poll`, in the callbacks of the channels, or in
-- `doPendingFunctors` with the functors that it has not called yet.
pub data Phase : Type 0 where
  stopped polling handling : Phase
  calling : List ℕ → Phase

-- `waking` counts the other threads that inserted a functor or set `quit_` and write to the descriptor
-- next. `queued` holds the functors in the order of their insertion, `ran` those that were called.
-- `early` says that the loop's own thread queued a functor outside of `loop`, where it does not write to
-- the descriptor, and that the loop has not taken the queue since.
pub record System (K : Type 0) : Type 0 where
  pub loop : EventLoop K
  pub phase : Phase
  pub waking : ℕ
  pub queued : List ℕ
  pub ran : List ℕ
  pub early : Bool

abbrev pub new_system : {K : Type 0} → K → System K
new_system k = record {
  loop = new_loop k;
  phase = stopped;
  waking = 0;
  queued = [];
  ran = [];
  early = false;
}

-- The steps of the loop's thread come first, then those of the other threads.
pub data Move : Type 0 where
  enters returns reads quits starts calls ends : Move
  queues : ℕ → Move
  inserts : ℕ → Move
  sets_quit wakes : Move

unfoldable pub call_next : {K : Type 0} → Phase → System K → System K
call_next (calling (cb ∷ functors)) s = record s {
  phase = calling functors;
  ran = s.ran ++ cb ∷ [];
}
call_next p s = s

unfoldable pub is_stopped : Phase → Bool
is_stopped stopped = true
is_stopped p = false

unfoldable pub is_polling : Phase → Bool
is_polling polling = true
is_polling p = false

unfoldable pub is_handling : Phase → Bool
is_handling handling = true
is_handling p = false

unfoldable pub is_calling : Phase → Bool
is_calling (calling functors) = true
is_calling p = false

-- The loop over the functors is at its end.
unfoldable pub has_called : Phase → Bool
has_called (calling []) = true
has_called p = false

-- The functors that `doPendingFunctors` still has to call.
unfoldable pub left : Phase → List ℕ
left (calling functors) = functors
left p = []

module _ {K : Type 0} (fd : Eventfd K) where
  unfoldable pub enter : System K → Option (System K)
  enter s = do l ← start_looping fd s.loop; some (record s { loop = l; phase = polling })

  -- The test of `quit_` that ends `loop` or begins the next turn.
  unfoldable pub next_turn : System K → System K
  next_turn s =
      if s.loop.quitting
      then record s { loop = stop_looping fd s.loop; phase = stopped }
      else record s { phase = polling }

  unfoldable pub move : Move → System K → Option (System K)
  move enters s = enter s
  move returns s = some (record s { loop = start_handling fd s.loop; phase = handling })
  move reads s = some (record s { loop = handle_read fd s.loop })
  move quits s = some (record s { loop = quit fd true s.loop })
  move starts s = some (record s {
    loop = swap_pending fd (end_handling fd s.loop);
    phase = calling s.loop.pending_functors;
    early = false;
  })
  move calls s = some (call_next s.phase s)
  move ends s = some (next_turn (record s { loop = end_calling fd s.loop }))
  move (queues cb) s = some (record s {
    loop = queue_in_loop fd true cb s.loop;
    queued = s.queued ++ cb ∷ [];
    early = s.early || is_stopped s.phase;
  })
  move (inserts cb) s =
      some
        (record s { loop = push fd cb s.loop; queued = s.queued ++ cb ∷ []; waking = suc s.waking })
  move sets_quit s = some (record s { loop = set_quit fd s.loop; waking = suc s.waking })
  move wakes s = some (record s { loop = wakeup fd s.loop; waking = s.waking - 1 })

-- Where the thread can take the step: the loop's thread is there, and is not in `poll` where it queues
-- or quits; another thread writes to the descriptor after it inserted or set the flag.
unfoldable pub can_move : {K : Type 0} → Move → System K → Bool
can_move enters s = is_stopped s.phase
can_move returns s = is_polling s.phase
can_move reads s = is_handling s.phase
can_move quits s = not (is_polling s.phase)
can_move starts s = is_handling s.phase
can_move calls s = is_calling s.phase && not (has_called s.phase)
can_move ends s = has_called s.phase
can_move (queues cb) s = not (is_polling s.phase)
can_move (inserts cb) s = true
can_move sets_quit s = true
can_move wakes s = ltb 0 s.waking
