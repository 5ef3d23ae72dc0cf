-- ===== src/Connector/Sockets.antt =====
-- Where the sockets of a connector go, whatever happens to it.
use dbdky_gcc.Common.{
  ℕ, ◌+◌, ◌*◌, ◌≤◌, ◌≡◌, refl, ap, min, Option, none, some, ◌∷◌, length, Bool, true, false, ◌||◌,
  ◌<◌, if◌then◌else◌, arith, ◌>>=◌, ◌>>◌, assert, Option-cases, inl, inr,
}
use dbdky_gcc.Connector.{
  Connector, States, k_disconnected, k_connecting, k_connected, k_max_retry_delay_ms, new_connector,
  is_connecting, is_disconnected, retry, start, stop_in_loop, stop, reset_channel,
  remove_and_reset_channel, stop_when, write_when, settle, handle_write, handle_error,
}
use dbdky_gcc.Connector.Accounts.{
  Event, starts, restarts, fires, stops, resets, fails, writes, happens, IsProper, is_safe, held,
  present, Accounts, After, retry-Accounts, start_in_loop-After, restart-After,
}

abbrev taken : Connector → Option ℕ → Option (ℕ × Connector)
taken d o = o >>= λ sockfd. some (sockfd, d)

-- While a socket is being connected, its channel is there.
connecting_channel :
    (c : Connector)
    → Accounts c
    → held c.state ≡ 1
    → (fd : ℕ) × (c.channel ≡ some fd) × (c.queued_resets ≡ 0)
connecting_channel c a h = elim (Option-cases c.channel) [
  | inl e ↦ absurd (omega (arith, a.channels, h, ap present e))
  | inr (fd, e) ↦ (fd, e, omega (arith, a.channels, h, ap present e))
]

retry-over : (fd : ℕ) (c : Connector) → held (retry fd c).state ≡ 0
unfolding retry
retry-over fd c = go c.connect
  where
    go :
        (b : Bool)
        → held
            (if b
              then record c {
                closed = fd ∷ c.closed;
                state = k_disconnected;
                timers = c.retry_delay_ms ∷ c.timers;
                retry_delay_ms = min (c.retry_delay_ms * 2) k_max_retry_delay_ms;
              }
              else record c { closed = fd ∷ c.closed; state = k_disconnected }).state
          ≡ 0
    go true = refl
    go false = refl

-- A call that returns, within the accounts, with nothing being connected.
abbrev pub Ends : Option Connector → Type 0
Ends o = (d : Connector) × (o ≡ some d) × Accounts d × (held d.state ≡ 0)

stop_in_loop-Ends : (c : Connector) → Accounts c → Ends (stop_in_loop c)
unfolding stop_in_loop stop_when remove_and_reset_channel
stop_in_loop-Ends c a = go c.state refl
  where
    go : (s : States) → c.state ≡ s → Ends (stop_when (is_connecting s) c)
    go k_disconnected e = (c, refl, a, ap held e)
    go k_connected e = (c, refl, a, ap held e)
    go k_connecting e =
        let (fd, there, none_queued) = connecting_channel c a (ap held e) in
        let d : Connector = record c {
          state = k_disconnected;
          queued_resets = c.queued_resets + 1;
        } in
        (
          retry fd d,
          ap (λ o. taken d o >>= λ r. some (retry r.0 r.1)) there,
          retry-Accounts fd d (omega (arith, a.sockets, ap held e))
              (omega (arith, a.channels, ap held e)) a.at_least a.at_most,
          retry-over fd d,
        )

settle-Accounts :
    (err self_connect : Bool) (fd : ℕ) (c : Connector)
    → c.opened ≡ length c.closed + length c.handed_on + 1
    → present c.channel ≡ c.queued_resets
    → 500 ≤ c.retry_delay_ms
    → c.retry_delay_ms ≤ 30000
    → Accounts (settle err self_connect fd c)
unfolding settle
settle-Accounts true self_connect fd c h k l u = retry-Accounts fd c h k l u
settle-Accounts false true fd c h k l u = retry-Accounts fd c h k l u
settle-Accounts false false fd c h k l u = go c.connect
  where
    go :
        (b : Bool)
        → Accounts (
            if b
            then record c { state = k_connected; handed_on = fd ∷ c.handed_on }
            else record c { state = k_connected; closed = fd ∷ c.closed })
    go true = record { sockets = omega arith; channels = omega arith; at_least = l; at_most = u }
    go false = record { sockets = omega arith; channels = omega arith; at_least = l; at_most = u }

handle_write-After :
    (err self_connect : Bool) (c : Connector)
    → Accounts c
    → After (is_connecting c.state || is_disconnected c.state) (handle_write err self_connect c)
unfolding handle_write write_when remove_and_reset_channel
handle_write-After err self_connect c a = go c.state refl
  where
    d : Connector
    d = record c { queued_resets = c.queued_resets + 1 }

    go :
        (s : States)
        → c.state ≡ s
        → After
            (is_connecting s || is_disconnected s)
            (write_when (is_connecting s) err self_connect c)
    go k_disconnected e = (c, rw (ap is_disconnected e) refl, a)
    go k_connected e = rw (ap is_disconnected e) refl
    go k_connecting e =
        let (fd, there, none_queued) = connecting_channel c a (ap held e) in
        (
          settle err self_connect fd d,
          ap (λ o. taken d o >>= λ r. some (settle err self_connect r.0 r.1)) there,
          settle-Accounts err self_connect fd d (omega (arith, a.sockets, ap held e))
              (omega (arith, a.channels, ap held e)) a.at_least a.at_most,
        )

handle_error-After : (c : Connector) → Accounts c → After (is_connecting c.state) (handle_error c)
unfolding handle_error remove_and_reset_channel
handle_error-After c a = go c.state refl
  where
    d : Connector
    d = record c { queued_resets = c.queued_resets + 1 }

    go :
        (s : States)
        → c.state ≡ s
        → After
            (is_connecting s)
            (assert (is_connecting s) >> (taken d c.channel >>= λ r. some (retry r.0 r.1)))
    go k_disconnected e = refl
    go k_connected e = refl
    go k_connecting e =
        let (fd, there, none_queued) = connecting_channel c a (ap held e) in
        (
          retry fd d,
          ap (λ o. taken d o >>= λ r. some (retry r.0 r.1)) there,
          retry-Accounts fd d (omega (arith, a.sockets, ap held e))
              (omega (arith, a.channels, ap held e)) a.at_least a.at_most,
        )

at_most_one : (o : Option ℕ) → present o ≤ 1
at_most_one none = omega arith
at_most_one (some fd) = omega arith

reset_channel-Accounts :
    (c : Connector) → Accounts c → 0 < c.queued_resets → Accounts (reset_channel c)
unfolding reset_channel
reset_channel-Accounts c a queued = record {
  sockets = a.sockets;
  channels = omega (arith, a.channels, queued, at_most_one c.channel);
  at_least = a.at_least;
  at_most = a.at_most;
}

connects : (b : Bool) (c : Connector) → Accounts c → Accounts (record c { connect = b })
connects b c a = record {
  sockets = a.sockets;
  channels = a.channels;
  at_least = a.at_least;
  at_most = a.at_most;
}

-- Whatever happens to a connector within the accounts, where a restart comes only when nothing is being
-- connected and a reset only after it was queued: the call stops at an assertion, or at a null
-- channel, exactly where `is_safe` says so. It stops where a start or a timer finds another state than
-- kDisconnected, where a new channel is wanted before the old one was reset, and where an event comes
-- in a state that does not expect it. Elsewhere it returns, every socket that was created is closed, or
-- handed on, or the one that is being connected; a channel is there while that lasts and until its
-- reset; and the delay stays between 500 and 30000 milliseconds.
pub happens-After :
    (e : Event) (c : Connector) → Accounts c → IsProper e c → After (is_safe e c) (happens e c)
unfolding happens start stop
happens-After (starts fd outcome) c a p =
    start_in_loop-After fd outcome (record c { connect = true }) (connects true c a)
happens-After (restarts fd outcome) c a p = restart-After fd outcome c a p
happens-After (fires fd outcome) c a p = start_in_loop-After fd outcome c a
happens-After stops c a p =
    let (d, e, k, over) = stop_in_loop-Ends (record c { connect = false }) (connects false c a) in
    (d, e, k)
happens-After resets c a p = (reset_channel c, refl, reset_channel-Accounts c a p)
happens-After fails c a p = handle_error-After c a
happens-After (writes err self_connect) c a p = handle_write-After err self_connect c a

pub new_connector-Accounts : Accounts new_connector
unfolding new_connector
new_connector-Accounts = record {
  sockets = refl;
  channels = refl;
  at_least = omega arith;
  at_most = omega arith;
}
