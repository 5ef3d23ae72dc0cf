-- ===== src/Tests/ConnectorTests.antt =====
-- A connector with one socket under way.
use dbdky_gcc.Common.{refl, some, [], ◌∷◌, ◌≡◌, true, false, arith}
use dbdky_gcc.Connector.{
  Connector, k_connecting, k_disconnected, try_again, restart, start_in_loop, try_connect, retry,
}
use dbdky_gcc.Connector.Accounts.{Accounts, After, happens, writes}
use dbdky_gcc.Connector.Sockets.{happens-After}

-- The second attempt, after 500 milliseconds.
abbrev under : Connector
under = record {
  connect = true;
  state = k_connecting;
  retry_delay_ms = 1000;
  channel = some 8;
  queued_resets = 0;
  opened = 2;
  closed = 7 ∷ [];
  handed_on = [];
  timers = 500 ∷ [];
}

under-Accounts : Accounts under
under-Accounts = record {
  sockets = refl;
  channels = refl;
  at_least = omega arith;
  at_most = omega arith;
}

happens-After_example : After true (happens (writes true false) under)
happens-After_example = happens-After (writes true false) under under-Accounts tt

-- A restart while a socket is being connected forgets it: of the three sockets that were created, two
-- are closed, none was handed on, and none is being connected.
forgotten :
    restart 9 try_again under
    ≡ some (record under {
      state = k_disconnected;
      opened = 3;
      closed = 9 ∷ 7 ∷ [];
      timers = 500 ∷ 500 ∷ [];
    })
unfolding restart start_in_loop try_connect retry
forgotten = refl
