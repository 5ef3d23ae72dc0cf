-- ===== src/SerialPort/Life.antt =====
-- The life of a port in src/SerialPort.cpp: the constructors, init, start, stop, release and the timers.
-- What the system answers is an argument, and the open descriptors and the timers that the loop runs
-- are part of the state. `none` is a failed assertion.
use Prim.Native.String.{String}
use dbdky_gcc.Common.{
  ℕ, ◌+◌, Option, none, some, List, [], ◌∷◌, ◌++◌, Bool, true, false, ◌==◌, ◌&&◌, not,
  if◌then◌else◌, ◌>>=◌,
}
use dbdky_gcc.Common.Dict.{Dict}
use dbdky_gcc.Common.Int.{ℤ, pos, negsuc, eqb_ℤ, ltb_ℤ}
use dbdky_gcc.Registry.{MonitorUnit}
use dbdky_gcc.SerialPort.{start_timers}
use dbdky_gcc.ThreadPool.{System, start, set_max_queue_size, new_pool, try_run}

-- `timers` are the ids of `timers_`, `running_timers` the timers that the loop has, with their ids and
-- their intervals in seconds, and `pool` is `none` while the pool has no threads.
pub record SerialPort : Type 0 where
  pub fd : ℤ
  pub started : Bool
  pub pool : Option System
  pub max_queue_size : ℕ
  pub timers : List ℕ
  pub running_timers : List (ℕ × ℤ × String)
  pub next_id : ℕ
  pub open_fds : List ℕ

-- The first constructor bounds the queue of the pool by 6, the second one does not.
unfoldable pub new_serial_port : ℕ → SerialPort
new_serial_port max_queue_size = record {
  fd = negsuc 0;
  started = false;
  pool = none;
  max_queue_size = max_queue_size;
  timers = [];
  running_timers = [];
  next_id = 1;
  open_fds = [];
}

-- What open and the two calls of tcsetattr answer; `none` is -1.
pub record Answers : Type 0 where
  pub opened : Option ℕ
  pub first_set : Bool
  pub second_set : Bool

unfoldable pub close_fd : ℕ → List ℕ → List ℕ
close_fd d [] = []
close_fd d (e ∷ l) = if d == e then l else e ∷ close_fd d l

-- `init` behind a successful open, with the label `_fail`.
unfoldable pub configure : Answers → ℕ → SerialPort → ℤ × SerialPort
configure a d p =
    if a.first_set
    then (if a.second_set
        then (pos d, record p { fd = pos d; open_fds = d ∷ p.open_fds })
        else (negsuc 0, record p { fd = negsuc 0; open_fds = close_fd d (d ∷ p.open_fds) }))
    else (negsuc 0, record p { fd = negsuc 0; open_fds = close_fd d (d ∷ p.open_fds) })

unfoldable pub open_device : Option ℕ → Answers → SerialPort → ℤ × SerialPort
open_device none a p = (negsuc 0, record p { fd = negsuc 0 })
open_device (some d) a p = configure a d p

unfoldable pub init_from : ℤ → Answers → SerialPort → ℤ × SerialPort
init_from (pos d) a p = (pos d, p)
init_from (negsuc n) a p = open_device a.opened a p

unfoldable pub init : Answers → SerialPort → ℤ × SerialPort
init a p = init_from p.fd a p

-- `EventLoop::cancel`.
unfoldable pub cancel : ℕ → List (ℕ × ℤ × String) → List (ℕ × ℤ × String)
cancel id [] = []
cancel id (t ∷ l) = let rest = cancel id l in if t.0 == id then rest else t ∷ rest

unfoldable pub cancel_each : List ℕ → List (ℕ × ℤ × String) → List (ℕ × ℤ × String)
cancel_each [] l = l
cancel_each (id ∷ ids) l = cancel_each ids (cancel id l)

unfoldable pub cancel_timers : SerialPort → SerialPort
cancel_timers p = record p { running_timers = cancel_each p.timers p.running_timers; timers = [] }

-- `EventLoop::runEvery` for each timer; the ids that it returns are not kept.
unfoldable pub run_every : List (ℤ × String) → SerialPort → SerialPort
run_every [] p = p
run_every (t ∷ l) p = run_every l (record p {
  running_timers = p.running_timers ++ (p.next_id, t.0, t.1) ∷ [];
  next_id = p.next_id + 1;
})

-- `repeat_` of a timer: its interval is positive.
abbrev pub repeats : ℤ → Bool
repeats interval = ltb_ℤ (pos 0) interval

-- A timer has run: one that does not repeat is deleted.
unfoldable pub fire : ℕ → List (ℕ × ℤ × String) → List (ℕ × ℤ × String)
fire id [] = []
fire id (t ∷ l) =
    let rest = fire id l in if (t.0 == id) && not (repeats t.1) then rest else t ∷ rest

unfoldable pub fire_timer : ℕ → SerialPort → SerialPort
fire_timer id p = record p { running_timers = fire id p.running_timers }

abbrev pub fresh_pool : ℕ → System
fresh_pool max_queue_size = try_run 0 (start 2 (set_max_queue_size max_queue_size new_pool))

-- `threadPool_->start(2)`, which asserts that the pool has no threads, and `run` with the task 0, which
-- is listen.
unfoldable pub start_pool : ℕ → Option System → Option System
start_pool max_queue_size none = some (fresh_pool max_queue_size)
start_pool max_queue_size (some s) = none

module _ (to_int : String → Option ℤ) (units : Dict MonitorUnit) where
  unfoldable pub start_all_timers : SerialPort → SerialPort
  start_all_timers p = run_every (start_timers to_int units) (cancel_timers p)

  -- `start` behind a successful init.
  unfoldable pub start_threads : SerialPort → Option SerialPort
  start_threads p = do
    s ← start_pool p.max_queue_size p.pool
    some (start_all_timers (record p { started = true; pool = some s }))

  unfoldable pub start_with : ℤ × SerialPort → Option SerialPort
  start_with (fd, p) = if eqb_ℤ fd (negsuc 0) then some p else start_threads p

  -- `start`. `cancelTimers` does nothing where there are no timers.
  unfoldable pub start_port : Answers → SerialPort → Option SerialPort
  start_port a p = if p.started then some p else start_with (init a (cancel_timers p))

unfoldable pub stop : SerialPort → SerialPort
stop p = p

unfoldable pub close_device : ℤ → SerialPort → SerialPort
close_device (pos d) p = record p { fd = negsuc 0; open_fds = close_fd d p.open_fds }
close_device (negsuc n) p = record p { fd = negsuc 0 }

unfoldable pub release : SerialPort → SerialPort
release p = if eqb_ℤ p.fd (negsuc 0) then p else close_device p.fd p
