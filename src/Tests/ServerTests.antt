-- ===== src/Tests/ServerTests.antt =====
-- A server with two threads.
use dbdky_gcc.Common.{◌≡◌, refl, ℕ, ◌+◌, [], ◌∷◌, true, All, arith}
use dbdky_gcc.TcpServer.{
  LoopPool, Conn, Config, Server, new_server, set_thread_num, start_server, start_loop_pool,
  start_loops, new_loop_pool, new_connection, get_next_loop, turn_to, insert_conn,
  remove_connection_in_loop, conn_name,
}
use dbdky_gcc.TcpServer.Lives.{IsBelow, entries}
use dbdky_gcc.TcpServer.Serving.{HaveLoops}
use dbdky_gcc.TcpServer.History.{Happens, opened, accepted, Returns, Happens-Serves}

-- The address is 0.0.0.0:80, and the name is s.
abbrev config : Config
config = record { hostport = 48 ∷ 46 ∷ 48 ∷ 46 ∷ 48 ∷ 46 ∷ 48 ∷ 58 ∷ 56 ∷ 48 ∷ []; name = 115 ∷ [] }

abbrev pool : ℕ → LoopPool
pool next = record {
  base_loop = 9;
  started = true;
  num_threads = 2;
  next = next;
  loops = 70 ∷ 71 ∷ [];
}

abbrev server : Server
server = record {
  pool = pool 0;
  started = true;
  listening = true;
  next_conn_id = 1;
  connections = [];
  calls = [];
}

server-Happens : Happens config server []
unfolding start_server set_thread_num new_server new_loop_pool start_loop_pool start_loops
server-Happens = opened 9 2 (λ i. 70 + i) server refl

abbrev conn : Conn
conn = record { io_loop = 70; name = conn_name config 1; sockfd = 5 }

abbrev one : Server
one = insert_conn conn (pool 1) server

one-Happens : Happens config one ((1, conn) ∷ [])
unfolding new_connection get_next_loop turn_to
one-Happens = accepted 5 conn one (omega arith) refl server-Happens

abbrev next_conn : Conn
next_conn = record { io_loop = 71; name = conn_name config 2; sockfd = 6 }

abbrev both : Server
both = insert_conn next_conn (pool 0) one

both-Happens : Happens config both ((2, next_conn) ∷ (1, conn) ∷ [])
unfolding new_connection get_next_loop turn_to insert_conn
both-Happens = accepted 6 next_conn both (omega arith) refl one-Happens

Happens-Serves_example :
    (both.connections ≡ entries config ((2, next_conn) ∷ (1, conn) ∷ []))
    × IsBelow both.next_conn_id ((2, next_conn) ∷ (1, conn) ∷ [])
    × HaveLoops config both.pool ((2, next_conn) ∷ (1, conn) ∷ [])
    × Returns (new_connection config 7 both)
    × All
        (λ (e : ℕ × Conn). Returns (remove_connection_in_loop e.1 both))
        ((2, next_conn) ∷ (1, conn) ∷ [])
Happens-Serves_example =
    Happens-Serves config both ((2, next_conn) ∷ (1, conn) ∷ []) (omega arith) both-Happens 7
