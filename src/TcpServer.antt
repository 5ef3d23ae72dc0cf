-- ===== src/TcpServer.antt =====
-- src/port/TcpServer.h, src/port/TcpServer.cpp and src/port/EventLoopThreadPool.cpp: a server with its
-- connections, and the loops that serve them. A loop and a socket are known by numbers. The server's
-- own calls are made in the thread of its loop. A map is a list of pairs in any order. The callbacks,
-- which a server only passes on, are left out.
pub mod Names
pub mod Lives
pub mod Turns
pub mod Serving
pub mod History
use dbdky_gcc.Common.{
  ℕ, zero, suc, ◌+◌, ◌<◌, Option, none, some, List, [], ◌∷◌, ◌++◌, length, take, get_elem?, Bool,
  true, false, not, ◌==◌, ◌&&◌, leb, ◌>>◌, ◌>>=◌, assert, if◌then◌else◌,
}
use dbdky_gcc.Common.Decimal.{decimal}

-- `EventLoopThreadPool`.
pub record LoopPool : Type 0 where
  pub base_loop : ℕ
  pub started : Bool
  pub num_threads : ℕ
  pub next : ℕ
  pub loops : List ℕ

unfoldable pub new_loop_pool : ℕ → LoopPool
new_loop_pool base_loop = record {
  base_loop = base_loop;
  started = false;
  num_threads = 0;
  next = 0;
  loops = [];
}

-- The loop of `start`, from thread i on: `loop_of i` is what `startLoop` returns.
unfoldable pub start_loops : (ℕ → ℕ) → ℕ → ℕ → List ℕ
start_loops loop_of i zero = []
start_loops loop_of i (suc n) = loop_of i ∷ start_loops loop_of (suc i) n

-- `EventLoopThreadPool::start`, without the callback.
unfoldable pub start_loop_pool : (ℕ → ℕ) → LoopPool → Option LoopPool
start_loop_pool loop_of p = do
  assert (not p.started)
  some (record p { started = true; loops = p.loops ++ start_loops loop_of 0 p.num_threads })

unfoldable pub turn_to : ℕ → LoopPool → LoopPool
turn_to next p = record p { next = if leb (length p.loops) next then 0 else next }

unfoldable pub get_next_loop : LoopPool → Option (ℕ × LoopPool)
get_next_loop p =
    if length p.loops == 0
    then some (p.base_loop, p)
    else (do loop ← get_elem? p.loops p.next; some (loop, turn_to (p.next + 1) p))

pub record Conn : Type 0 where
  pub io_loop : ℕ
  pub name : List ℕ
  pub sockfd : ℕ

-- What a loop is to call.
pub data LoopCall : Type 0 where
  connect_established : Conn → LoopCall
  connect_destroyed : Conn → LoopCall

-- What the constructor sets for good.
pub record Config : Type 0 where
  pub hostport : List ℕ
  pub name : List ℕ

pub record Server : Type 0 where
  pub pool : LoopPool
  pub started : Bool
  pub listening : Bool
  pub next_conn_id : ℕ
  pub connections : List (List ℕ × Conn)
  pub calls : List (ℕ × LoopCall)

unfoldable pub new_server : ℕ → Server
new_server loop = record {
  pool = new_loop_pool loop;
  started = false;
  listening = false;
  next_conn_id = 1;
  connections = [];
  calls = [];
}

unfoldable pub set_thread_num : ℕ → Server → Server
set_thread_num n s = record s { pool = record s.pool { num_threads = n } }

-- `TcpServer::start`; the loop runs `Acceptor::listen` at once.
unfoldable pub start_server : (ℕ → ℕ) → Server → Option Server
start_server loop_of s = if s.started then some (record s { listening = true }) else (do
  pool ← start_loop_pool loop_of s.pool
  some (record s { pool = pool; started = true; listening = true }))

unfoldable pub same_text : List ℕ → List ℕ → Bool
same_text [] [] = true
same_text [] (d ∷ t) = false
same_text (c ∷ s) [] = false
same_text (c ∷ s) (d ∷ t) = (c == d) && same_text s t

-- `erase`, with the number of the pairs that it takes out.
unfoldable pub erase_conn : List ℕ → List (List ℕ × Conn) → ℕ × List (List ℕ × Conn)
erase_conn k [] = (0, [])
erase_conn k ((j, c) ∷ m) =
    let r = erase_conn k m in if same_text j k then (suc r.0, r.1) else (r.0, (j, c) ∷ r.1)

-- The name of a connection: snprintf writes 31 bytes at most, a ":" and a "#" among them.
unfoldable pub conn_name : Config → ℕ → List ℕ
conn_name g id = g.name ++ take 31 (58 ∷ g.hostport ++ 35 ∷ decimal id)

unfoldable pub insert_conn : Conn → LoopPool → Server → Server
insert_conn conn pool s = record s {
  pool = pool;
  next_conn_id = s.next_conn_id + 1;
  connections = (conn.name, conn) ∷ (erase_conn conn.name s.connections).1;
  calls = s.calls ++ (conn.io_loop, connect_established conn) ∷ [];
}

-- `newConnection`, with the connection that it makes.
unfoldable pub new_connection : Config → ℕ → Server → Option (Conn × Server)
new_connection g sockfd s = do
  r ← get_next_loop s.pool
  let conn : Conn = record { io_loop = r.0; name = conn_name g s.next_conn_id; sockfd = sockfd }
  some (conn, insert_conn conn r.1 s)

unfoldable pub remove_connection_in_loop : Conn → Server → Option Server
remove_connection_in_loop conn s = do
  let r = erase_conn conn.name s.connections
  assert (r.0 == 1)
  some (record s {
    connections = r.1;
    calls = s.calls ++ (conn.io_loop, connect_destroyed conn) ∷ [];
  })
