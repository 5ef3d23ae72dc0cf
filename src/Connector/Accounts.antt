-- ===== src/Connector/Accounts.antt =====
-- What can happen to a connector, and what stays true of its sockets.
use dbdky_gcc.Common.{
  ℕ, ◌+◌, ◌≤◌, ◌≡◌, refl, ap, Option, none, some, length, Bool, true, false, not, ◌&&◌, ◌||◌, ◌<◌,
  if◌then◌else◌, arith, ◌>>◌, assert, Bool-cases, Option-cases, inl, inr,
}
use dbdky_gcc.Connector.{
  Connector, States, k_disconnected, k_connecting, k_connected, Outcome, under_way, try_again,
  give_up, k_init_retry_delay_ms, is_disconnected, is_connecting, is_free, retry, connecting,
  try_connect, start_in_loop, start, restart, stop, reset_channel, handle_write, handle_error,
}

-- What can happen to a connector. The timer is a call of `startInLoop`.
pub data Event : Type 0 where
  starts restarts fires : ℕ → Outcome → Event
  stops resets fails : Event
  writes : Bool → Bool → Event

abbrev pub is_over : States → Bool
is_over k_disconnected = true
is_over k_connecting = false
is_over k_connected = true

unfoldable pub happens : Event → Connector → Option Connector
happens (starts fd outcome) c = start fd outcome c
happens (restarts fd outcome) c = restart fd outcome c
happens (fires fd outcome) c = start_in_loop fd outcome c
happens stops c = stop c
happens resets c = some (reset_channel c)
happens fails c = handle_error c
happens (writes err self_connect) c = handle_write err self_connect c

-- A reset is run after it was queued, and a restart is called when nothing is being connected.
abbrev pub IsProper : Event → Connector → Type 0
IsProper (restarts fd outcome) c = is_over c.state ≡ true
IsProper resets c = 0 < c.queued_resets
IsProper e c = Unit

-- A new channel needs that the one before was reset.
abbrev pub has_room : Outcome → Option ℕ → Bool
has_room under_way channel = is_free channel
has_room try_again channel = true
has_room give_up channel = true

-- Where the assertions hold.
abbrev pub is_safe : Event → Connector → Bool
is_safe (starts fd outcome) c = is_disconnected c.state && has_room outcome c.channel
is_safe (restarts fd outcome) c = has_room outcome c.channel
is_safe (fires fd outcome) c =
    is_disconnected c.state && (not c.connect || has_room outcome c.channel)
is_safe stops c = true
is_safe resets c = true
is_safe fails c = is_connecting c.state
is_safe (writes err self_connect) c = is_connecting c.state || is_disconnected c.state

abbrev pub held : States → ℕ
held k_disconnected = 0
held k_connecting = 1
held k_connected = 0

abbrev pub present : Option ℕ → ℕ
present none = 0
present (some fd) = 1

-- Each socket was closed, or handed on, or is the one that is being connected. A channel is there
-- while it is being connected, and then until its reset is run. The delay has its bounds.
pub record Accounts (c : Connector) : Type 0 where
  pub sockets : c.opened ≡ length c.closed + length c.handed_on + held c.state
  pub channels : present c.channel ≡ held c.state + c.queued_resets
  pub at_least : 500 ≤ c.retry_delay_ms
  pub at_most : c.retry_delay_ms ≤ 30000

-- A call returns within the accounts where its assertions hold, and stops elsewhere.
abbrev pub After : Bool → Option Connector → Type 0
After true o = (d : Connector) × (o ≡ some d) × Accounts d
After false o = o ≡ none

pub retry-Accounts :
    (fd : ℕ) (c : Connector)
    → c.opened ≡ length c.closed + length c.handed_on + 1
    → present c.channel ≡ c.queued_resets
    → 500 ≤ c.retry_delay_ms
    → c.retry_delay_ms ≤ 30000
    → Accounts (retry fd c)
unfolding retry
retry-Accounts fd c h k l u = elim (Bool-cases c.connect) [
  | inl e ↦ rw e (record {
    sockets = omega arith;
    channels = omega arith;
    at_least = ground arith;
    at_most = ground arith;
  })
  | inr e ↦
      rw e (record { sockets = omega arith; channels = omega arith; at_least = l; at_most = u })
]

module _ (fd : ℕ) (c : Connector) (over : held c.state ≡ 0) (a : Accounts c) where
  try_connect-After :
      (outcome : Outcome) → After (has_room outcome c.channel) (try_connect fd outcome c)
  unfolding try_connect connecting
  try_connect-After under_way = elim (Option-cases c.channel) [
    | inl e ↦
        let none_there : present c.channel ≡ 0 = ap present e in
        rw e (
          _,
          refl,
          record {
            sockets = omega (arith, a.sockets, over);
            channels = omega (arith, a.channels, none_there, over);
            at_least = a.at_least;
            at_most = a.at_most;
          },
        )
    | inr (other, e) ↦ rw e refl
  ]
  try_connect-After try_again = (
    _,
    refl,
    retry-Accounts fd (record c { opened = c.opened + 1 }) (omega (arith, a.sockets, over))
        (omega (arith, a.channels, over)) a.at_least a.at_most,
  )
  try_connect-After give_up = (
    _,
    refl,
    record {
      sockets = omega (arith, a.sockets);
      channels = a.channels;
      at_least = a.at_least;
      at_most = a.at_most;
    },
  )

pub start_in_loop-After :
    (fd : ℕ) (outcome : Outcome) (c : Connector)
    → Accounts c
    → After
        (is_disconnected c.state && (not c.connect || has_room outcome c.channel))
        (start_in_loop fd outcome c)
unfolding start_in_loop
start_in_loop-After fd outcome c a = go c.state refl c.connect
  where
    go :
        (s : States)
        → c.state ≡ s
        → (b : Bool)
        → After
            (is_disconnected s && (not b || has_room outcome c.channel))
            (assert (is_disconnected s) >> (if b then try_connect fd outcome c else some c))
    go k_disconnected e true = try_connect-After fd c (ap held e) a outcome
    go k_disconnected e false = (c, refl, a)
    go k_connecting e b = refl
    go k_connected e b = refl

over_holds : (s : States) → is_over s ≡ true → held s ≡ 0
over_holds k_disconnected h = refl
over_holds k_connecting h = absurd (cc h)
over_holds k_connected h = refl

pub restart-After :
    (fd : ℕ) (outcome : Outcome) (c : Connector)
    → Accounts c
    → is_over c.state ≡ true
    → After (has_room outcome c.channel) (restart fd outcome c)
unfolding restart
restart-After fd outcome c a over =
    let h = over_holds c.state over in
    start_in_loop-After fd outcome
      (record c { state = k_disconnected; retry_delay_ms = k_init_retry_delay_ms; connect = true })
      (record {
        sockets = omega (arith, a.sockets, h);
        channels = omega (arith, a.channels, h);
        at_least = omega arith;
        at_most = omega arith;
      })
