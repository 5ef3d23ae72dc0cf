-- ===== src/EventLoop/Running.antt =====
-- The loop's own thread on its way from one phase to the next.
use mathlib.Core.List.{append_assoc, append-nil}
use dbdky_gcc.Common.{
  ◌∙◌, ap, ◌≡◌, refl, [], ◌∷◌, ◌++◌, true, false, not, inl, inr, ◌&&◌, Bool-cases,
}
use dbdky_gcc.EventLoop.{
  Eventfd, start_looping, start_handling, end_handling, stop_looping, swap_pending, end_calling,
}
use dbdky_gcc.EventLoop.Moves.{
  stopped, polling, handling, calling, System, enters, returns, starts, calls, ends, call_next,
  is_stopped, is_polling, is_handling, is_calling, has_called, left, enter, next_turn, move,
}
use dbdky_gcc.EventLoop.Phases.{
  is_nil, stopped_only, polling_only, handling_only, drained_only, calling_next,
}
use dbdky_gcc.EventLoop.Sound.{IsSound, Moves}

module _ {K : Type 0} (fd : Eventfd K) (s : System K) (ok : IsSound fd s) where
  pub enters-Moves : is_stopped s.phase ≡ true → Moves fd (move fd enters s)
  unfolding move enter start_looping is_stopped is_polling is_handling is_calling left
  enters-Moves h =
      let p = stopped_only s.phase h in
      let idle : s.loop.looping ≡ false = cc (ok.looping, ap is_stopped p) in
      record {
        after = record s {
          loop = record s.loop { looping = true; quitting = false };
          phase = polling;
        };
        returns = rw idle refl;
        sound = record {
          order = cc (ok.order, ap left p);
          looping = refl;
          handling_events = cc (ok.handling_events, ap is_handling p);
          calling_functors = cc (ok.calling_functors, ap is_calling p);
          functors_wake = λ n. ok.functors_wake (ap is_handling p);
          quit_wakes = λ n e. absurd (cc e);
        };
      }

  pub returns-Moves : is_polling s.phase ≡ true → Moves fd (move fd returns s)
  unfolding move is_stopped is_polling is_handling is_calling left start_handling
  returns-Moves h =
      let p = polling_only s.phase h in
      record {
        after = record s { loop = start_handling fd s.loop; phase = handling };
        returns = refl;
        sound = record {
          order = cc (ok.order, ap left p);
          looping = cc (ok.looping, ap is_stopped p);
          handling_events = refl;
          calling_functors = cc (ok.calling_functors, ap is_calling p);
          functors_wake = λ n. absurd (cc n);
          quit_wakes = λ n. absurd (cc n);
        };
      }

  pub starts-Moves : is_handling s.phase ≡ true → Moves fd (move fd starts s)
  unfolding move swap_pending end_handling is_stopped is_polling is_handling is_calling left is_nil
  starts-Moves h =
      let p = handling_only s.phase h in
      record {
        after = record s {
          loop = swap_pending fd (end_handling fd s.loop);
          phase = calling s.loop.pending_functors;
          early = false;
        };
        returns = refl;
        sound = record {
          order = cc (ok.order, ap left p, append-nil s.loop.pending_functors);
          looping = cc (ok.looping, ap is_stopped p);
          handling_events = refl;
          calling_functors = refl;
          functors_wake = λ n e. absurd (cc e);
          quit_wakes = λ n. absurd (cc n);
        };
      }

  pub calls-Moves :
      (is_calling s.phase && not (has_called s.phase)) ≡ true → Moves fd (move fd calls s)
  unfolding move call_next is_stopped is_polling is_handling is_calling left
  calls-Moves h =
      let (cb, functors, p) = calling_next s.phase h in
      record {
        after = record s { phase = calling functors; ran = s.ran ++ cb ∷ [] };
        returns = rw p refl;
        sound = record {
          order =
              append_assoc s.ran (cb ∷ []) (functors ++ s.loop.pending_functors)
              ∙ cc (ok.order, ap left p);
          looping = cc (ok.looping, ap is_stopped p);
          handling_events = cc (ok.handling_events, ap is_handling p);
          calling_functors = cc (ok.calling_functors, ap is_calling p);
          functors_wake = λ n. ok.functors_wake (ap is_handling p);
          quit_wakes = λ n. absurd (cc n);
        };
      }

  pub ends-Moves : has_called s.phase ≡ true → Moves fd (move fd ends s)
  unfolding move next_turn end_calling stop_looping is_stopped is_polling is_handling is_calling
      left
  ends-Moves h =
      let p = drained_only s.phase h in
      let still = ok.functors_wake (ap is_handling p) in
      let order : s.ran ++ s.loop.pending_functors ≡ s.queued = cc (ok.order, ap left p) in
      elim (Bool-cases s.loop.quitting) [
        | inl q ↦ record {
          after = record s { loop = stop_looping fd (end_calling fd s.loop); phase = stopped };
          returns = rw q refl;
          sound = record {
            order = order;
            looping = refl;
            handling_events = cc (ok.handling_events, ap is_handling p);
            calling_functors = refl;
            functors_wake = λ n. still;
            quit_wakes = λ n. absurd (cc n);
          };
        }
        | inr q ↦ record {
          after = record s { loop = end_calling fd s.loop; phase = polling };
          returns = rw q refl;
          sound = record {
            order = order;
            looping = cc (ok.looping, ap is_stopped p);
            handling_events = cc (ok.handling_events, ap is_handling p);
            calling_functors = refl;
            functors_wake = λ n. still;
            quit_wakes = λ n e. absurd (cc (q, e));
          };
        }
      ]
