-- ===== src/EventLoop/Waking.antt =====
-- The loop loses no functor, calls them in order, and does not sleep while there is work.
use dbdky_gcc.Common.{
  ltb, ap, ℕ, ◌-◌, suc, ◌≡◌, refl, [], ◌∷◌, ◌++◌, Bool, true, false, not, ◌||◌, arith, inl, inr,
  Bool-cases,
}
use dbdky_gcc.EventLoop.{Eventfd, wakeup, handle_read, set_quit, quit, push, notify, queue_in_loop}
use dbdky_gcc.EventLoop.Moves.{
  System, Move, enters, returns, reads, quits, starts, calls, ends, queues, inserts, sets_quit,
  wakes, is_polling, is_handling, is_calling, is_stopped, left, move, can_move,
}
use dbdky_gcc.EventLoop.Phases.{handling_only, stopped_else, order-push}
use dbdky_gcc.EventLoop.Sound.{IsSound, Moves}
use dbdky_gcc.EventLoop.Running.{enters-Moves, returns-Moves, starts-Moves, calls-Moves, ends-Moves}

module _ {K : Type 0} (fd : Eventfd K) (s : System K) (ok : IsSound fd s) where
  reads-Moves : is_handling s.phase ≡ true → Moves fd (move fd reads s)
  unfolding move handle_read is_polling
  reads-Moves h = record {
    after = record s { loop = handle_read fd s.loop };
    returns = refl;
    sound = record {
      order = ok.order;
      looping = ok.looping;
      handling_events = ok.handling_events;
      calling_functors = ok.calling_functors;
      functors_wake = λ n. absurd (cc (h, n));
      quit_wakes = λ n. absurd (cc (n, ap is_polling (handling_only s.phase h)));
    };
  }

  quits-Moves : not (is_polling s.phase) ≡ true → Moves fd (move fd quits s)
  unfolding move quit set_quit
  quits-Moves h = record {
    after = record s { loop = quit fd true s.loop };
    returns = refl;
    sound = record {
      order = ok.order;
      looping = ok.looping;
      handling_events = ok.handling_events;
      calling_functors = ok.calling_functors;
      functors_wake = ok.functors_wake;
      quit_wakes = λ n. absurd (ground (arith, n, h));
    };
  }

  readable : (w : ℕ) (k : K) → (ltb 0 w || fd.readable (fd.add_one k)) ≡ true
  readable w k = ground (arith, fd.readable-add_one k)

  queues-Moves : (cb : ℕ) → not (is_polling s.phase) ≡ true → Moves fd (move fd (queues cb) s)
  unfolding move queue_in_loop notify push wakeup
  queues-Moves cb h =
      let polls : is_polling s.phase ≡ false = ground (arith, h) in
      let order = order-push s.ran (left s.phase) s.loop.pending_functors s.queued cb ok.order in
      elim (Bool-cases s.loop.calling_pending_functors) [
        | inl c ↦ record {
          after = record s {
            loop = wakeup fd (push fd cb s.loop);
            queued = s.queued ++ cb ∷ [];
            early = s.early || is_stopped s.phase;
          };
          returns = rw c refl;
          sound = record {
            order = order;
            looping = ok.looping;
            handling_events = ok.handling_events;
            calling_functors = ok.calling_functors;
            functors_wake = λ n e. ground (arith, readable s.waking s.loop.wakeup_fd);
            quit_wakes = λ n. absurd (cc (polls, n));
          };
        }
        | inr c ↦ record {
          after = record s {
            loop = push fd cb s.loop;
            queued = s.queued ++ cb ∷ [];
            early = s.early || is_stopped s.phase;
          };
          returns = rw c refl;
          sound = record {
            order = order;
            looping = ok.looping;
            handling_events = ok.handling_events;
            calling_functors = ok.calling_functors;
            functors_wake = λ n e.
                let out : is_calling s.phase ≡ false = cc (c, ok.calling_functors) in
                ground (arith, stopped_else s.phase polls n out);
            quit_wakes = λ n. absurd (cc (polls, n));
          };
        }
      ]

  about_to_write : (w : ℕ) (r : Bool) → (ltb 0 (suc w) || r) ≡ true
  about_to_write w r = ground arith

  inserts-Moves : (cb : ℕ) → Moves fd (move fd (inserts cb) s)
  unfolding move push
  inserts-Moves cb = record {
    after = record s {
      loop = push fd cb s.loop;
      queued = s.queued ++ cb ∷ [];
      waking = suc s.waking;
    };
    returns = refl;
    sound = record {
      order = order-push s.ran (left s.phase) s.loop.pending_functors s.queued cb ok.order;
      looping = ok.looping;
      handling_events = ok.handling_events;
      calling_functors = ok.calling_functors;
      functors_wake = λ n e. ground (arith, about_to_write s.waking (fd.readable s.loop.wakeup_fd));
      quit_wakes = λ n e. about_to_write s.waking (fd.readable s.loop.wakeup_fd);
    };
  }

  sets_quit-Moves : Moves fd (move fd sets_quit s)
  unfolding move set_quit
  sets_quit-Moves = record {
    after = record s { loop = set_quit fd s.loop; waking = suc s.waking };
    returns = refl;
    sound = record {
      order = ok.order;
      looping = ok.looping;
      handling_events = ok.handling_events;
      calling_functors = ok.calling_functors;
      functors_wake = λ n e. ground (arith, about_to_write s.waking (fd.readable s.loop.wakeup_fd));
      quit_wakes = λ n e. about_to_write s.waking (fd.readable s.loop.wakeup_fd);
    };
  }

  wakes-Moves : Moves fd (move fd wakes s)
  unfolding move wakeup
  wakes-Moves = record {
    after = record s { loop = wakeup fd s.loop; waking = s.waking - 1 };
    returns = refl;
    sound = record {
      order = ok.order;
      looping = ok.looping;
      handling_events = ok.handling_events;
      calling_functors = ok.calling_functors;
      functors_wake = λ n e. ground (arith, readable (s.waking - 1) s.loop.wakeup_fd);
      quit_wakes = λ n e. readable (s.waking - 1) s.loop.wakeup_fd;
    };
  }

pub move-Moves :
    {K : Type 0} (fd : Eventfd K) (m : Move) (s : System K)
    → IsSound fd s
    → can_move m s ≡ true
    → Moves fd (move fd m s)
unfolding can_move
move-Moves fd enters s ok h = enters-Moves fd s ok h
move-Moves fd returns s ok h = returns-Moves fd s ok h
move-Moves fd reads s ok h = reads-Moves fd s ok h
move-Moves fd quits s ok h = quits-Moves fd s ok h
move-Moves fd starts s ok h = starts-Moves fd s ok h
move-Moves fd calls s ok h = calls-Moves fd s ok h
move-Moves fd ends s ok h = ends-Moves fd s ok h
move-Moves fd (queues cb) s ok h = queues-Moves fd s ok cb h
move-Moves fd (inserts cb) s ok h = inserts-Moves fd s ok cb
move-Moves fd sets_quit s ok h = sets_quit-Moves fd s ok
move-Moves fd wakes s ok h = wakes-Moves fd s ok
