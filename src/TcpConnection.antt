-- ===== src/TcpConnection.antt =====
-- src/port/TcpConnection.h and src/port/TcpConnection.cpp: a connection over two buffers, a channel and
-- a socket. The system calls are answered by the environment; a failed `assert` is `none`.
pub mod Delivery
pub mod Events
pub mod Reacting
pub mod Closing
pub mod Valid
pub mod Writing
use dbdky_gcc.Common.{
  ℕ, suc, ◌+◌, ◌-◌, ◌*◌, Option, none, some, List, [], ◌∷◌, ◌++◌, length, take, drop, Bool, true,
  false, ◌&&◌, ◌||◌, not, ◌==◌, ltb, leb, if◌then◌else◌, ◌>>=◌, ◌>>◌, assert, size_add, size_sub,
}
use dbdky_gcc.Buffer.{
  Buffer, ReadV, new_buffer, readable_bytes, content, append, retrieve, retrieve_all, read_fd,
}
use dbdky_gcc.Channel.{
  Interest, Callback, on_close, on_error, on_read, on_write, no_interest, enable_reading,
  enable_writing, disable_writing, disable_all, is_none_event, handle_event,
}

pub data State : Type 0 where
  disconnected connecting connected disconnecting : State

-- What the loop is asked to run later.
pub data Functor : Type 0 where
  send_later : List ℕ → Functor
  write_complete : Functor
  high_water_mark : ℕ → Functor

-- The calls of the client's callbacks; the number of a message is that of the readable bytes.
pub data Call : Type 0 where
  connection_up connection_down closed : Call
  message : ℕ → Call

-- `wire` is what the system has taken for the socket, and `shut` whether it was shut for writing.
pub record Connection : Type 0 where
  pub state : State
  pub interest : Interest
  pub input : Buffer
  pub output : Buffer
  pub mark : ℕ
  pub has_write_complete : Bool
  pub has_high_water_mark : Bool
  pub wire : List ℕ
  pub shut : Bool
  pub removed : Bool
  pub queue : List Functor
  pub calls : List Call

-- The constructor, with the callbacks that the client sets.
abbrev pub new_connection : Bool → Bool → Connection
new_connection has_write_complete has_high_water_mark = record {
  state = connecting;
  interest = no_interest;
  input = new_buffer;
  output = new_buffer;
  mark = 64 * 1024 * 1024;
  has_write_complete = has_write_complete;
  has_high_water_mark = has_high_water_mark;
  wire = [];
  shut = false;
  removed = false;
  queue = [];
  calls = [];
}

-- What `write` answers: the bytes taken, or an `errno`.
pub data Written : Type 0 where
  wrote : ℕ → Written
  failed : ℕ → Written

abbrev pub epipe : ℕ
epipe = 32

abbrev pub is_connected : State → Bool
is_connected connected = true
is_connected s = false

abbrev pub is_connecting : State → Bool
is_connecting connecting = true
is_connecting s = false

abbrev pub is_disconnected : State → Bool
is_disconnected disconnected = true
is_disconnected s = false

abbrev pub is_disconnecting : State → Bool
is_disconnecting disconnecting = true
is_disconnecting s = false

abbrev pub queue_when : Bool → Functor → Connection → Connection
queue_when test f c = record c { queue = if test then c.queue ++ (f ∷ []) else c.queue }

-- The first part of `sendInLoop`: `nwrote`, `error`, and the connection.
abbrev pub first_write : List ℕ → Written → Connection → ℕ × Bool × Connection
first_write text (wrote n) c = (
  n,
  false,
  queue_when ((size_sub (length text) n == 0) && c.has_write_complete) write_complete
      (record c { wire = c.wire ++ take n text }),
)
first_write text (failed errno) c = (0, errno == epipe, c)

abbrev pub try_write : List ℕ → Written → Connection → ℕ × Bool × Connection
try_write text answer c =
    if not c.interest.writing && (readable_bytes c.output == 0)
    then first_write text answer c
    else (0, false, c)

-- The second part: the bytes that are left go to the buffer, after a look at the mark.
abbrev pub look_at_mark : ℕ → Connection → Connection
look_at_mark remaining c =
    let old_len = readable_bytes c.output in
    queue_when
      (leb c.mark (size_add old_len remaining) && (ltb old_len c.mark && c.has_high_water_mark))
      (high_water_mark (size_add old_len remaining)) c

abbrev pub hold : Buffer → Connection → Connection
hold output c = record c {
  output = output;
  interest = if c.interest.writing then c.interest else enable_writing c.interest;
}

unfoldable pub keep_rest : List ℕ → ℕ → Connection → Option Connection
keep_rest rest remaining c = do
  output ← append c.output rest
  some (hold output (look_at_mark remaining c))

abbrev pub send_rest : List ℕ → ℕ → Bool → Connection → Option Connection
send_rest text nwrote error c = do
  let remaining = size_sub (length text) nwrote
  assert (leb remaining (length text))
  if not error && ltb 0 remaining then keep_rest (drop nwrote text) remaining c else some c

unfoldable pub send_in_loop : List ℕ → Written → Connection → Option Connection
send_in_loop text answer c =
    let (nwrote, error, c') = try_write text answer c in
    if is_disconnected c.state then some c else send_rest text nwrote error c'

-- `send`; another thread than the loop's leaves a copy for the loop.
unfoldable pub send : Bool → List ℕ → Written → Connection → Option Connection
send in_loop text answer c =
    if is_connected c.state
    then if in_loop then send_in_loop text answer c else some (queue_when true (send_later text) c)
    else some c

abbrev pub shutdown_in_loop : Connection → Connection
shutdown_in_loop c = record c { shut = if c.interest.writing then c.shut else true }

-- In the loop's thread, where `runInLoop` calls at once.
unfoldable pub shutdown : Connection → Connection
shutdown c =
    if is_connected c.state then shutdown_in_loop (record c { state = disconnecting }) else c

abbrev pub call : Call → Connection → Connection
call k c = record c { calls = c.calls ++ (k ∷ []) }

unfoldable pub connect_established : Connection → Option Connection
connect_established c = do
  assert (is_connecting c.state)
  some (call connection_up (record c { state = connected; interest = enable_reading c.interest }))

abbrev pub disconnect : Connection → Connection
disconnect c = record c { state = disconnected; interest = disable_all c.interest }

unfoldable pub connect_destroyed : Connection → Option Connection
connect_destroyed c = do
  let c' = if is_connected c.state then call connection_down (disconnect c) else c
  assert (is_none_event c'.interest)
  some (record c' { removed = true })

unfoldable pub handle_close : Connection → Option Connection
handle_close c = do
  assert (is_connected c.state || is_disconnecting c.state)
  some (call closed (call connection_down (disconnect c)))

-- What `readFd` leaves: bytes are a message, none of them is the end, and an error is logged.
abbrev pub after_read : ReadV → Connection → Option Connection
after_read (ReadV.failed errno) c = some c
after_read (ReadV.got []) c = handle_close c
after_read (ReadV.got (x ∷ text)) c = some (call (message (readable_bytes c.input)) c)

unfoldable pub handle_read : ReadV → Connection → Option Connection
handle_read answer c = do r ← read_fd c.input answer; after_read answer (record c { input = r.1 })

-- The buffer was drained.
abbrev pub finish_write : Connection → Connection
finish_write c =
    let c' =
      queue_when c.has_write_complete write_complete
        (record c { interest = disable_writing c.interest }) in
    record c' { shut = if is_disconnecting c.state then (shutdown_in_loop c').shut else c.shut }

abbrev pub after_write : Written → Connection → Option Connection
after_write (failed errno) c = some c
after_write (wrote n) c = if n == 0 then some c else do
  output ← retrieve c.output n
  let c' = record c { output = output; wire = c.wire ++ take n (content c.output) }
  some (if readable_bytes output == 0 then finish_write c' else c')

unfoldable pub handle_write : Written → Connection → Option Connection
handle_write answer c = if c.interest.writing then after_write answer c else some c

-- The callbacks that the constructor gives to the channel; `handleError` writes to the log.
abbrev pub run_callback : ReadV → Written → Callback → Connection → Option Connection
run_callback reading writing on_close c = handle_close c
run_callback reading writing on_error c = some c
run_callback reading writing on_read c = handle_read reading c
run_callback reading writing on_write c = handle_write writing c

unfoldable pub run_callbacks : ReadV → Written → List Callback → Connection → Option Connection
run_callbacks reading writing [] c = some c
run_callbacks reading writing (k ∷ l) c = do
  c' ← run_callback reading writing k c
  run_callbacks reading writing l c'

-- What a round of the loop does with the reported events; the channel is tied to the connection, which
-- is alive.
unfoldable pub react : ℕ → ReadV → Written → Connection → Option Connection
unfolding run_callbacks
react revents reading writing c = run_callbacks reading writing (handle_event true true revents) c
