-- ===== src/SerialPort/Living.antt =====
-- A port owns its device, its threads and its timers as long as it lives.
use mathlib.Core.Path.{subst}
use Prim.Native.String.{String}
use dbdky_gcc.Common.{
  ℕ, ◌≡◌, refl, sym, ap, ◌∙◌, Option, some, [], Bool, true, false, if◌then◌else◌, inl, inr,
  Bool-cases, arith,
}
use dbdky_gcc.Common.Dict.{Dict}
use dbdky_gcc.Common.Int.{ℤ, pos, negsuc, eqb_ℤ}
use dbdky_gcc.Registry.{MonitorUnit}
use dbdky_gcc.SerialPort.{start_timers}
use dbdky_gcc.SerialPort.Life.{
  SerialPort, new_serial_port, Answers, close_fd, open_device, init, cancel_timers, start_pool,
  start_all_timers, start_threads, start_with, start_port, stop, close_device, release, fresh_pool,
  fire_timer,
}
use dbdky_gcc.ThreadPool.{System}
use dbdky_gcc.SerialPort.Owning.{
  owned, is_some, Holds, close_fd_same, Inits, init_from-Inits, run_every-Holds,
  cancel_timers-Holds, none_of, fire-lasting,
}

-- What can happen to a port; at last, that the loop runs a timer.
pub data Event : Type 0 where
  starts : Answers → Event
  stops releases : Event
  fires : ℕ → Event

module _ (to_int : String → Option ℤ) (units : Dict MonitorUnit) where
  unfoldable pub step : Event → SerialPort → Option SerialPort
  step (starts a) p = start_port to_int units a p
  step stops p = some (stop p)
  step releases p = some (release p)
  step (fires id) p = some (fire_timer id p)

  abbrev pub Owns : SerialPort → Type 0
  Owns p = Holds (if p.started then start_timers to_int units else []) p

  pub record Steps (r : Option SerialPort) : Type 0 where
    pub after : SerialPort
    pub returns : r ≡ some after
    pub owns : Owns after

  started-Owns :
      (s : System) (p : SerialPort)
      → Holds [] p
      → Holds
          (start_timers to_int units)
          (start_all_timers to_int units (record p { started = true; pool = some s }))
        × ((start_all_timers to_int units (record p { started = true; pool = some s })).started
            ≡ true)
  unfolding start_all_timers is_some cancel_timers
  started-Owns s p h = run_every-Holds (start_timers to_int units) [] _ (
      cancel_timers-Holds [] (record p { started = true; pool = some s })
        (record {
          device = h.device;
          minus_one = h.minus_one;
          threads = refl;
          unknown = h.unknown;
          asked_for = h.asked_for;
        }))

  owned_by :
      (p : SerialPort) (b : Bool)
      → p.started ≡ b
      → Holds (if b then start_timers to_int units else []) p
      → Owns p
  owned_by p b e h = subst (λ c. Holds (if c then start_timers to_int units else []) p) (sym e) h

  start_threads-Steps :
      (p : SerialPort) → p.started ≡ false → Holds [] p → Steps (start_threads to_int units p)
  unfolding start_threads start_pool
  start_threads-Steps p e h =
      let free = none_of p.pool (h.threads ∙ e) in
      let x = started-Owns (fresh_pool p.max_queue_size) p h in
      record {
        after =
            start_all_timers to_int units
              (record p { started = true; pool = some (fresh_pool p.max_queue_size) });
        returns = rw (free, start_threads) refl;
        owns = owned_by _ true x.1 x.0;
      }

  start_with-Steps :
      (r : ℤ × SerialPort) (p : SerialPort)
      → p.started ≡ false
      → Inits [] p r
      → Steps (start_with to_int units r)
  unfolding start_with
  start_with-Steps (fd, q) p e x =
      let idle : q.started ≡ false = x.started ∙ e in
      elim (Bool-cases (eqb_ℤ fd (negsuc 0))) [
        | inl fails ↦ record {
          after = q;
          returns = rw (fails, start_with) refl;
          owns = owned_by q false idle x.holds;
        }
        | inr opens ↦
            let s = start_threads-Steps q idle x.holds in
            record { after = s.after; returns = rw (opens, start_with) s.returns; owns = s.owns }
      ]

  if-Steps :
      (b : Bool) (x y : Option SerialPort)
      → (b ≡ true → Steps x)
      → (b ≡ false → Steps y)
      → Steps (if b then x else y)
  if-Steps true x y f g = f refl
  if-Steps false x y f g = g refl

  start_port-Steps : (a : Answers) (p : SerialPort) → Owns p → Steps (start_port to_int units a p)
  unfolding start_port init cancel_timers
  start_port-Steps a p h =
      if-Steps p.started (some p) (start_with to_int units (init a (cancel_timers p)))
        (λ started. record { after = p; returns = refl; owns = h })
        (λ idle.
          let held : Holds [] p =
            subst (λ c. Holds (if c then start_timers to_int units else []) p) idle h in
          start_with-Steps (init a (cancel_timers p)) (cancel_timers p) idle (
            init_from-Inits [] (cancel_timers p) (cancel_timers-Holds [] p held)
              (cancel_timers p).fd a refl))

  close_device-Owns : (fd : ℤ) (p : SerialPort) → p.fd ≡ fd → Owns p → Owns (close_device fd p)
  unfolding close_device owned
  close_device-Owns (pos d) p e h = record {
    device = ap (close_fd d) (h.device ∙ ap owned e) ∙ close_fd_same d [];
    minus_one = λ n q. ground (arith, q);
    threads = h.threads;
    unknown = h.unknown;
    asked_for = h.asked_for;
  }
  close_device-Owns (negsuc n) p e h = record {
    device = h.device ∙ ap owned e;
    minus_one = λ n q. ground (arith, q);
    threads = h.threads;
    unknown = h.unknown;
    asked_for = h.asked_for;
  }

  release-Owns : (p : SerialPort) → Owns p → Owns (release p)
  unfolding release
  release-Owns p h = elim (Bool-cases (eqb_ℤ p.fd (negsuc 0))) [
    | inl closed ↦ rw (closed, release) h
    | inr open_device ↦ rw (open_device, release) (close_device-Owns p.fd p refl h)
  ]

  step-Steps : (e : Event) (p : SerialPort) → Owns p → Steps (step e p)
  unfolding step stop fire_timer
  step-Steps (starts a) p h = start_port-Steps a p h
  step-Steps stops p h = record { after = p; returns = refl; owns = h }
  step-Steps releases p h = record { after = release p; returns = refl; owns = release-Owns p h }
  step-Steps (fires id) p h = record {
    after = fire_timer id p;
    returns = refl;
    owns = record {
      device = h.device;
      minus_one = h.minus_one;
      threads = h.threads;
      unknown = h.unknown;
      asked_for = fire-lasting id p.running_timers ∙ h.asked_for;
    };
  }

  -- The life of a port, from its constructor on.
  pub data Happens (max_queue_size : ℕ) : SerialPort → Type 0 where
    created : Happens max_queue_size (new_serial_port max_queue_size)
    moved :
        {p q : SerialPort} (e : Event)
        → Happens max_queue_size p
        → step e p ≡ some q
        → Happens max_queue_size q

  created-Owns : (n : ℕ) → Owns (new_serial_port n)
  unfolding new_serial_port owned is_some
  created-Owns n = record {
    device = refl;
    minus_one = λ k q. ground (arith, q);
    threads = refl;
    unknown = refl;
    asked_for = refl;
  }

  pub Happens-Owns : (n : ℕ) (p : SerialPort) → Happens n p → Owns p
  Happens-Owns n p created = created-Owns n
  Happens-Owns n q (moved {p} e before is) =
      let x = step-Steps e p (Happens-Owns n p before) in
      let same : x.after ≡ q = cc (x.returns, is) in subst Owns same x.owns

  -- Whatever was started, stopped and released, and whatever timers ran before, each call returns, its assertion on the pool
  -- included. After it the one open descriptor is that of the port, or there is none; the pool has
  -- threads exactly where the port was started; and from then on, also after stop and release, the timers
  -- of the loop that repeat are one for each unit with an interval of a second or more, and `timers_`
  -- knows none.
  pub Happens-Steps : (n : ℕ) (p : SerialPort) (e : Event) → Happens n p → Steps (step e p)
  Happens-Steps n p e h = step-Steps e p (Happens-Owns n p h)
