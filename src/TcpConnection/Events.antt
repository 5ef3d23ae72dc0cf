-- ===== src/TcpConnection/Events.antt =====
-- Whatever happens to a connection.
use dbdky_gcc.Common.{
  ℕ, ◌≡◌, refl, Option, none, some, List, [], length, Bool, true, false, ◌||◌, arith, inl, inr,
  Bool-cases,
}
use dbdky_gcc.Buffer.{ReadV, content}
use dbdky_gcc.Buffer.Bounds.{Fits}
use dbdky_gcc.Channel.{is_none_event, enable_reading}
use dbdky_gcc.TcpConnection.{
  State, connected, disconnected, connecting, disconnecting, Connection, Written, shutdown_in_loop,
  queue_when, send_later, connection_up, is_connected, is_connecting, is_disconnected, disconnect,
  send_in_loop, send, shutdown, connect_established, connect_destroyed, call, connection_down,
  react,
}
use dbdky_gcc.TcpConnection.Valid.{IsValid, IsAnswer, nil_of_length}
use dbdky_gcc.TcpConnection.Delivery.{send_in_loop-Delivers}
use dbdky_gcc.TcpConnection.Reacting.{CanReact, closes_once, react-Steps}
use dbdky_gcc.TcpConnection.Closing.{
  Steps, Steps-of, stays, delivered, disconnect-IsValid, call-IsValid, StepsWhere,
}

-- What can happen to a connection: bytes are sent in the loop's thread or in another one, the loop runs
-- what another thread left, and it reports events of the socket.
pub data Event : Type 0 where
  established shutting destroyed : Event
  sending running : List ℕ → Written → Event
  elsewhere : List ℕ → Event
  reacting : ℕ → ReadV → Written → Event

pub step : Event → Connection → Option Connection
step established c = connect_established c
step shutting c = some (shutdown c)
step destroyed c = connect_destroyed c
step (sending text answer) c = send true text answer c
step (running text answer) c = send_in_loop text answer c
step (elsewhere text) c = send false text (Written.wrote 0) c
step (reacting revents reading writing) c = react revents reading writing c

-- What may happen: the system calls answer as they are documented, the sizes fit, the loop reports
-- events only of an open connection.
abbrev pub CanHappen : Event → Connection → Type 0
CanHappen established c = Unit {0}
CanHappen shutting c = Unit {0}
CanHappen destroyed c = Unit {0}
CanHappen (sending text answer) c =
    Fits c.output (length text) × IsAnswer (length text) c.shut answer
CanHappen (running text answer) c =
    Fits c.output (length text) × IsAnswer (length text) c.shut answer
CanHappen (elsewhere text) c = Unit {0}
CanHappen (reacting revents reading writing) c = CanReact reading writing c

-- Where the assertions hold: a connection is established once, it is destroyed while it is connected or
-- when its channel asks for nothing, and events close it once.
abbrev pub is_safe : Event → Connection → Bool
is_safe established c = is_connecting c.state
is_safe shutting c = true
is_safe destroyed c = is_connected c.state || is_none_event c.interest
is_safe (sending text answer) c = true
is_safe (running text answer) c = true
is_safe (elsewhere text) c = true
is_safe (reacting revents reading writing) c = closes_once revents reading

where_safe :
    (b : Bool) (r : Option Connection)
    → (b ≡ true → Steps r)
    → (b ≡ false → r ≡ none)
    → StepsWhere b r
where_safe true r f g = f refl
where_safe false r f g = g refl

established_fails : (c : Connection) → is_connecting c.state ≡ false → connect_established c ≡ none
unfolding connect_established
established_fails c h = rw h refl

destroyed_fails :
    (c : Connection)
    → (is_connected c.state || is_none_event c.interest) ≡ false
    → connect_destroyed c ≡ none
unfolding connect_destroyed
destroyed_fails c h =
    let down : is_connected c.state ≡ false = ground (arith, h) in
    let asks : is_none_event c.interest ≡ false = ground (arith, h) in rw (down, asks) refl

open_of_connected : (s : State) → is_connected s ≡ true → is_disconnected s ≡ false
open_of_connected connected h = refl
open_of_connected disconnected h = absurd (cc h)
open_of_connected connecting h = refl
open_of_connected disconnecting h = refl

open_of_connecting : (s : State) → is_connecting s ≡ true → is_disconnected s ≡ false
open_of_connecting connected h = refl
open_of_connecting disconnected h = absurd (cc h)
open_of_connecting connecting h = refl
open_of_connecting disconnecting h = refl

established-Steps :
    (c : Connection) → IsValid c → is_connecting c.state ≡ true → Steps (connect_established c)
unfolding connect_established
established-Steps c v h = record {
  after = call connection_up (record c { state = connected; interest = enable_reading c.interest });
  returns = rw h refl;
  valid = record {
    input = v.input;
    output = v.output;
    waits = λ o. v.waits (open_of_connecting c.state h);
    closed = λ o. absurd (cc o);
    drained = λ o. v.drained (open_of_connecting c.state h);
  };
}

shutdown-Steps : (c : Connection) → IsValid c → Steps (some (shutdown c))
unfolding shutdown
shutdown-Steps c v = elim (Bool-cases (is_connected c.state)) [
  | inl h ↦ Steps-of (rw h refl) (
      stays (shutdown_in_loop (record c { state = disconnecting })) record {
        input = v.input;
        output = v.output;
        waits = λ o. v.waits (open_of_connected c.state h);
        closed = λ o. absurd (cc o);
        drained = λ o t. drained h t;
      })
  | inr h ↦ Steps-of (rw h refl) (stays c v)
]
  where
    drained : is_connected c.state ≡ true → (shutdown_in_loop c).shut ≡ true → content c.output ≡ []
    drained h t = elim (Bool-cases c.interest.writing) [
      | inl busy ↦ v.drained (open_of_connected c.state h) (ground arith)
      | inr idle ↦
          nil_of_length (content c.output) (ground (arith, v.waits (open_of_connected c.state h)))
    ]

destroyed-Steps :
    (c : Connection)
    → IsValid c
    → (is_connected c.state || is_none_event c.interest) ≡ true
    → Steps (connect_destroyed c)
unfolding connect_destroyed
destroyed-Steps c v h = elim (Bool-cases (is_connected c.state)) [
  | inl up ↦ Steps-of (rw up refl) (
      stays _ (
        removed (call connection_down (disconnect c))
          (call-IsValid connection_down _ (disconnect-IsValid c v))))
  | inr down ↦
      let none : is_none_event c.interest ≡ true = ground (arith, h, down) in
      Steps-of (rw (down, none) refl) (stays _ (removed c v))
]
  where
    removed : (d : Connection) → IsValid d → IsValid (record d { removed = true })
    removed d w = record {
      input = w.input;
      output = w.output;
      waits = w.waits;
      closed = w.closed;
      drained = w.drained;
    }

send-Steps :
    (in_loop : Bool) (text : List ℕ) (answer : Written) (c : Connection)
    → IsValid c
    → (in_loop ≡ true → Fits c.output (length text) × IsAnswer (length text) c.shut answer)
    → Steps (send in_loop text answer c)
unfolding send
send-Steps in_loop text answer c v h = elim (Bool-cases (is_connected c.state)) [
  | inr down ↦ Steps-of (rw down refl) (stays c v)
  | inl up ↦ elim (Bool-cases in_loop) [
    | inl here ↦
        Steps-of (rw (up, here) refl)
          (delivered (send_in_loop-Delivers text answer c v (h here).0 (h here).1))
    | inr there ↦ Steps-of (rw (up, there) refl) (
        stays (queue_when true (send_later text) c) record {
          input = v.input;
          output = v.output;
          waits = v.waits;
          closed = v.closed;
          drained = v.drained;
        })
  ]
]

pub step-Steps :
    (e : Event) (c : Connection) → IsValid c → CanHappen e c → StepsWhere (is_safe e c) (step e c)
unfolding step
step-Steps established c v h = where_safe _ _ (established-Steps c v) (established_fails c)
step-Steps shutting c v h = shutdown-Steps c v
step-Steps destroyed c v h = where_safe _ _ (destroyed-Steps c v) (destroyed_fails c)
step-Steps (sending text answer) c v h = send-Steps true text answer c v (λ e. h)
step-Steps (running text answer) c v h = delivered (send_in_loop-Delivers text answer c v h.0 h.1)
step-Steps (elsewhere text) c v h = send-Steps false text (Written.wrote 0) c v (λ e. absurd (cc e))
step-Steps (reacting revents reading writing) c v h = react-Steps revents reading writing c v h
