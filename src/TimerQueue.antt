-- ===== src/TimerQueue.antt =====
-- src/port/TimerQueue.cpp, Timer.h and Timer.cpp: the timers of an event loop. Times are counts of
-- microseconds, a Timer is an address in a heap, and a failed `assert` or a bad access is `none`.
-- All calls are made in the loop's thread, where `runInLoop` calls at once.
pub mod Calls
pub mod Expiry
pub mod Entries
pub mod Invariant
pub mod Reset
pub mod Cancel
pub mod Rounds
pub mod Arming
use dbdky_gcc.Common.{
  ℕ, put, suc, ◌+◌, ◌-◌, ◌*◌, ◌/◌, ◌%◌, Option, none, some, List, [], ◌∷◌, length, Bool, true,
  false, ◌&&◌, not, ◌==◌, ltb, if◌then◌else◌, ◌>>=◌, ◌>>◌, assert,
}
use dbdky_gcc.Common.Pairs.{Pair, contains, insert, erase}
use dbdky_gcc.Common.Pairs.Split.{front, rest}

abbrev pub k_micro_seconds_per_second : ℕ
k_micro_seconds_per_second = 1000000

-- A number of seconds as a double, by what is read of it: whether it is above 0.0, and the
-- microseconds that `addTime` makes of it.
pub record Interval : Type 0 where
  pub positive : Bool
  pub micros : ℕ

-- The callback is a number that names it.
pub record Timer : Type 0 where
  pub callback : ℕ
  pub expiration : ℕ
  pub interval : Interval
  pub repeat : Bool
  pub sequence : ℕ

pub record TimeSpec : Type 0 where
  pub tv_sec : ℕ
  pub tv_nsec : ℕ

-- What the timer descriptor was set to, and the time of the call.
pub record Alarm : Type 0 where
  pub set_at : ℕ
  pub value : TimeSpec

pub record TimerQueue : Type 0 where
  pub timers : List Pair
  pub active_timers : List Pair
  pub calling_expired_timers : Bool
  pub canceling_timers : List Pair
  pub heap : ℕ → Option Timer
  pub num_created : ℕ
  pub alarm : Option Alarm

abbrev pub new_queue : TimerQueue
new_queue = record {
  timers = [];
  active_timers = [];
  calling_expired_timers = false;
  canceling_timers = [];
  heap = λ a. none;
  num_created = 0;
  alarm = none;
}

-- `Timer::restart`; 0 is the invalid time.
unfoldable pub restart : ℕ → Timer → Timer
restart now timer = record timer {
  expiration = if timer.repeat then now + timer.interval.micros else 0;
}

-- A difference below 100, a negative one included, becomes 100.
unfoldable pub how_much_time_from_now : ℕ → ℕ → TimeSpec
how_much_time_from_now now when =
    let microseconds = if ltb (when - now) 100 then 100 else when - now in
    record {
      tv_sec = microseconds / k_micro_seconds_per_second;
      tv_nsec = (microseconds % k_micro_seconds_per_second) * 1000;
    }

abbrev pub reset_timerfd : ℕ → ℕ → TimerQueue → TimerQueue
reset_timerfd now expiration q = record q {
  alarm = some (record { set_at = now; value = how_much_time_from_now now expiration });
}

-- `it == timers_.end() || when < it->first`.
abbrev pub is_earliest : ℕ → List Pair → Bool
is_earliest when [] = true
is_earliest when (first ∷ l) = ltb when first.0

-- `assert(timers_.size() == activeTimers_.size())`.
abbrev pub same_sizes : TimerQueue → Bool
same_sizes q = length q.timers == length q.active_timers

unfoldable pub insert_timer : ℕ → TimerQueue → Option (Bool × TimerQueue)
insert_timer a q = do
  assert (same_sizes q)
  timer ← q.heap a
  assert (not (contains (timer.expiration, a) q.timers))
  assert (not (contains (a, timer.sequence) q.active_timers))
  let q' = record q {
    timers = insert (timer.expiration, a) q.timers;
    active_timers = insert (a, timer.sequence) q.active_timers;
  }
  assert (same_sizes q')
  some (is_earliest timer.expiration q.timers, q')

-- The first number is the time that the clock shows in `resetTimerfd`.
unfoldable pub add_timer_in_loop : ℕ → ℕ → TimerQueue → Option TimerQueue
add_timer_in_loop clock a q = do
  r ← insert_timer a q
  timer ← r.1.heap a
  some (if r.0 then reset_timerfd clock timer.expiration r.1 else r.1)

-- `new Timer` at an address that the heap has free.
unfoldable pub new_timer : ℕ → ℕ → ℕ → Interval → TimerQueue → TimerQueue
new_timer a cb when interval q = record q {
  heap =
      put a
        (some (record {
          callback = cb;
          expiration = when;
          interval = interval;
          repeat = interval.positive;
          sequence = suc q.num_created;
        }))
        q.heap;
  num_created = suc q.num_created;
}

-- The TimerId of the new timer stands beside the queue.
unfoldable pub add_timer : ℕ → ℕ → ℕ → ℕ → Interval → TimerQueue → Option (Pair × TimerQueue)
add_timer clock a cb when interval q = do
  q' ← add_timer_in_loop clock a (new_timer a cb when interval q)
  some ((a, suc q.num_created), q')

-- The two branches: a timer of the queue is deleted, another one only noted.
unfoldable pub cancel_active : Pair → TimerQueue → Option TimerQueue
cancel_active id q = do
  timer ← q.heap id.0
  assert (contains (timer.expiration, id.0) q.timers)
  some (record q {
    timers = erase (timer.expiration, id.0) q.timers;
    active_timers = erase id q.active_timers;
    heap = put id.0 none q.heap;
  })

abbrev pub cancel_expired : Pair → TimerQueue → TimerQueue
cancel_expired id q =
    if q.calling_expired_timers
    then record q { canceling_timers = insert id q.canceling_timers }
    else q

unfoldable pub cancel_in_loop : Pair → TimerQueue → Option TimerQueue
cancel_in_loop id q = do
  assert (same_sizes q)
  q' ← if contains id q.active_timers then cancel_active id q else some (cancel_expired id q)
  assert (same_sizes q')
  some q'

-- `reinterpret_cast<Timer*>(UINTPTR_MAX)`.
abbrev pub uintptr_max : ℕ
uintptr_max = 0xffffffffffffffff

-- The loop of `getExpired` that takes the expired timers out of the active ones.
unfoldable pub erase_active : List Pair → (ℕ → Option Timer) → List Pair → Option (List Pair)
erase_active [] heap active = some active
erase_active (entry ∷ l) heap active = do
  timer ← heap entry.1
  assert (contains (entry.1, timer.sequence) active)
  erase_active l heap (erase (entry.1, timer.sequence) active)

-- `end == timers_.end() || now < end->first`.
abbrev pub is_later : ℕ → List Pair → Bool
is_later now [] = true
is_later now (first ∷ l) = ltb now first.0

unfoldable pub get_expired : ℕ → TimerQueue → Option (List Pair × TimerQueue)
get_expired now q = do
  assert (same_sizes q)
  let sentry : Pair = (now, uintptr_max)
  let expired = front sentry q.timers
  assert (is_later now (rest sentry q.timers))
  active ← erase_active expired q.heap q.active_timers
  let q' = record q { timers = rest sentry q.timers; active_timers = active }
  assert (same_sizes q')
  some (expired, q')

-- One round of the loop of `reset`.
unfoldable pub reset_entry : ℕ → Pair → TimerQueue → Option TimerQueue
reset_entry now entry q = do
  timer ← q.heap entry.1
  if timer.repeat && not (contains (entry.1, timer.sequence) q.canceling_timers)
      then (insert_timer entry.1 (record q { heap = put entry.1 (some (restart now timer)) q.heap })
          >>= λ r. some r.1)
      else some (record q { heap = put entry.1 none q.heap })

unfoldable pub reset_all : ℕ → List Pair → TimerQueue → Option TimerQueue
reset_all now [] q = some q
reset_all now (entry ∷ l) q = do q' ← reset_entry now entry q; reset_all now l q'

-- The end of `reset`: the descriptor is set for the first timer, if its time is a valid one.
unfoldable pub arm : ℕ → List Pair → TimerQueue → Option TimerQueue
arm clock [] q = some q
arm clock (first ∷ l) q = do
  timer ← q.heap first.1
  some (if ltb 0 timer.expiration then reset_timerfd clock timer.expiration q else q)

unfoldable pub reset : ℕ → ℕ → List Pair → TimerQueue → Option TimerQueue
reset clock now expired q = do q' ← reset_all now expired q; arm clock q'.timers q'

-- `run` of each expired timer. What a callback does is a parameter.
unfoldable pub run_all :
    (ℕ → TimerQueue → Option TimerQueue) → List Pair → TimerQueue → Option TimerQueue
run_all callbacks [] q = some q
run_all callbacks (entry ∷ l) q = do
  timer ← q.heap entry.1
  q' ← callbacks timer.callback q
  run_all callbacks l q'

-- `now` is the time at the start, `clock` that of the last call of `resetTimerfd`.
unfoldable pub handle_read :
    (ℕ → TimerQueue → Option TimerQueue) → ℕ → ℕ → TimerQueue → Option TimerQueue
handle_read callbacks now clock q = do
  r ← get_expired now q
  q' ← run_all callbacks r.0 (record r.1 { calling_expired_timers = true; canceling_timers = [] })
  reset clock now r.0 (record q' { calling_expired_timers = false })
