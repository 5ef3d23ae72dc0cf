-- ===== src/Connector.antt =====
-- src/port/Connector.cpp: the state machine that opens a client's connection. The sockets, the
-- timers and the queued functors that its calls make are part of the state.
pub mod Accounts
pub mod Sockets
use dbdky_gcc.Common.{
  ℕ, ◌*◌, ◌+◌, ◌-◌, min, Option, none, some, List, [], ◌∷◌, ◌++◌, Bool, true, false, ◌==◌,
  if◌then◌else◌, ◌>>=◌, ◌>>◌, assert,
}

pub data States : Type 0 where
  k_disconnected k_connecting k_connected : States

abbrev pub k_max_retry_delay_ms : ℕ
k_max_retry_delay_ms = 30 * 1000

abbrev pub k_init_retry_delay_ms : ℕ
k_init_retry_delay_ms = 500

-- `opened` counts the sockets that were created; `closed`, `handed_on` and `timers` hold what was
-- closed, given to the callback, and the delays of the calls of `startInLoop` asked for.
pub record Connector : Type 0 where
  pub connect : Bool
  pub state : States
  pub retry_delay_ms : ℕ
  pub channel : Option ℕ
  pub queued_resets : ℕ
  pub opened : ℕ
  pub closed : List ℕ
  pub handed_on : List ℕ
  pub timers : List ℕ

-- The three groups of `errno` values that `connect` tells apart.
pub data Outcome : Type 0 where
  under_way try_again give_up : Outcome

unfoldable pub new_connector : Connector
new_connector = record {
  connect = false;
  state = k_disconnected;
  retry_delay_ms = k_init_retry_delay_ms;
  channel = none;
  queued_resets = 0;
  opened = 0;
  closed = [];
  handed_on = [];
  timers = [];
}

abbrev pub is_connecting : States → Bool
is_connecting k_disconnected = false
is_connecting k_connecting = true
is_connecting k_connected = false

abbrev pub is_disconnected : States → Bool
is_disconnected k_disconnected = true
is_disconnected k_connecting = false
is_disconnected k_connected = false

abbrev pub is_free : Option ℕ → Bool
is_free none = true
is_free (some fd) = false

unfoldable pub retry : ℕ → Connector → Connector
retry sockfd c =
    if c.connect
    then record c {
      closed = sockfd ∷ c.closed;
      state = k_disconnected;
      timers = c.retry_delay_ms ∷ c.timers;
      retry_delay_ms = min (c.retry_delay_ms * 2) k_max_retry_delay_ms;
    }
    else record c { closed = sockfd ∷ c.closed; state = k_disconnected }

unfoldable pub connecting : ℕ → Connector → Option Connector
connecting sockfd c = do
  assert (is_free c.channel)
  some (record c { state = k_connecting; channel = some sockfd })

-- `connect()`, with the socket that the system gives and the outcome of its call.
unfoldable pub try_connect : ℕ → Outcome → Connector → Option Connector
unfolding connecting retry
try_connect sockfd under_way c = connecting sockfd (record c { opened = c.opened + 1 })
try_connect sockfd try_again c = some (retry sockfd (record c { opened = c.opened + 1 }))
try_connect sockfd give_up c = some (record c { opened = c.opened + 1; closed = sockfd ∷ c.closed })

-- `none` is an `assert` that fails.
unfoldable pub start_in_loop : ℕ → Outcome → Connector → Option Connector
unfolding try_connect
start_in_loop sockfd outcome c = do
  assert (is_disconnected c.state)
  if c.connect then try_connect sockfd outcome c else some c

unfoldable pub start : ℕ → Outcome → Connector → Option Connector
unfolding start_in_loop
start sockfd outcome c = start_in_loop sockfd outcome (record c { connect = true })

unfoldable pub restart : ℕ → Outcome → Connector → Option Connector
unfolding start_in_loop
restart sockfd outcome c =
    start_in_loop sockfd outcome
      (record c { state = k_disconnected; retry_delay_ms = k_init_retry_delay_ms; connect = true })

-- The channel's socket; `resetChannel` is queued. `none` is a null channel.
unfoldable pub remove_and_reset_channel : Connector → Option (ℕ × Connector)
remove_and_reset_channel c = do
  sockfd ← c.channel
  some (sockfd, record c { queued_resets = c.queued_resets + 1 })

-- The body of `stopInLoop`, under the test of the state.
unfoldable pub stop_when : Bool → Connector → Option Connector
unfolding retry remove_and_reset_channel
stop_when false c = some c
stop_when true c = do
  r ← remove_and_reset_channel (record c { state = k_disconnected })
  some (retry r.0 r.1)

unfoldable pub stop_in_loop : Connector → Option Connector
unfolding stop_when
stop_in_loop c = stop_when (is_connecting c.state) c

unfoldable pub stop : Connector → Option Connector
unfolding stop_in_loop
stop c = stop_in_loop (record c { connect = false })

-- Run from the queue.
unfoldable pub reset_channel : Connector → Connector
reset_channel c = record c { channel = none; queued_resets = c.queued_resets - 1 }

-- What `handleWrite` does with the socket, its error, and whether it is connected to itself.
unfoldable pub settle : Bool → Bool → ℕ → Connector → Connector
unfolding retry
settle true self_connect sockfd c = retry sockfd c
settle false true sockfd c = retry sockfd c
settle false false sockfd c =
    if c.connect
    then record c { state = k_connected; handed_on = sockfd ∷ c.handed_on }
    else record c { state = k_connected; closed = sockfd ∷ c.closed }

-- The two branches of `handleWrite`.
unfoldable pub write_when : Bool → Bool → Bool → Connector → Option Connector
unfolding settle remove_and_reset_channel
write_when true err self_connect c = do
  r ← remove_and_reset_channel c
  some (settle err self_connect r.0 r.1)
write_when false err self_connect c = do assert (is_disconnected c.state); some c

unfoldable pub handle_write : Bool → Bool → Connector → Option Connector
unfolding write_when
handle_write err self_connect c = write_when (is_connecting c.state) err self_connect c

unfoldable pub handle_error : Connector → Option Connector
unfolding retry remove_and_reset_channel
handle_error c = do
  assert (is_connecting c.state)
  r ← remove_and_reset_channel c
  some (retry r.0 r.1)
