-- ===== src/TcpServer/Serving.antt =====
-- A server serves the connections that live.
use mathlib.Core.Path.{subst}
use dbdky_gcc.Common.{
  ℕ, zero, suc, ◌^◌, ◌≤◌, ◌<◌, ◌≡◌, refl, sym, ap, ◌∙◌, inl, inr, Option, none, some, List, [], ◌∷◌,
  ◌++◌, length, All, arith,
}
use dbdky_gcc.TcpServer.{
  LoopPool, LoopCall, new_loop_pool, start_loop_pool, start_loops, Conn, Config, Server, new_server,
  set_thread_num, start_server, conn_name, insert_conn, connect_destroyed, new_connection,
  remove_connection_in_loop,
}
use dbdky_gcc.TcpServer.Lives.{
  Live, IsMember, without, entries, IsBelow, IsBelow-without, All-without, without_absent,
  IsMember-below, count_member, erase_conn-entries,
}
use dbdky_gcc.TcpServer.Turns.{HasLoop, IsNext, Gives, get_next_loop-Gives, HasLoop-same}

-- Each connection has its name, and the loop of its number.
abbrev pub HaveLoops : Config → LoopPool → Live → Type 0
HaveLoops g p live = All (λ e. (e.1.name ≡ conn_name g e.0) × HasLoop p e.0 e.1.io_loop) live

All-HasLoop :
    (g : Config) (p q : LoopPool) (live : Live)
    → q.loops ≡ p.loops
    → q.base_loop ≡ p.base_loop
    → HaveLoops g p live
    → HaveLoops g q live
All-HasLoop g p q [] e b h = tt
All-HasLoop g p q ((id, c) ∷ live) e b h =
    ((h.0.0, HasLoop-same p q id c.io_loop e b h.0.1), All-HasLoop g p q live e b h.1)

-- The state of a server with the connections that live.
pub record IsServing (g : Config) (s : Server) (live : Live) : Type 0 where
  pub pairs : s.connections ≡ entries g live
  pub below : IsBelow s.next_conn_id live
  pub small : s.next_conn_id ≤ 10 ^ 8
  pub next : IsNext s.pool s.next_conn_id
  pub each : HaveLoops g s.pool live

-- What `new_connection` gives.
pub record Accepts (g : Config) (sockfd : ℕ) (s : Server) : Type 0 where
  pub gives : Gives s.pool s.next_conn_id
  pub conn : Conn
  pub result : new_connection g sockfd s ≡ some (conn, insert_conn conn gives.pool s)
  pub named : conn.name ≡ conn_name g s.next_conn_id
  pub at_loop : conn.io_loop ≡ gives.loop

pub new_connection-Accepts :
    (g : Config) (sockfd : ℕ) (s : Server) (live : Live) → IsServing g s live → Accepts g sockfd s
unfolding new_connection
new_connection-Accepts g sockfd s live v =
    let gives = get_next_loop-Gives s.pool s.next_conn_id v.next in
    record {
      gives = gives;
      conn = record { io_loop = gives.loop; name = conn_name g s.next_conn_id; sockfd = sockfd };
      result = rw (gives.result) refl;
      named = refl;
      at_loop = refl;
    }

pub insert_conn-IsServing :
    (g : Config) (sockfd : ℕ) (s : Server) (live : Live)
    → length g.hostport ≤ 21
    → s.next_conn_id < 10 ^ 8
    → IsServing g s live
    → (a : Accepts g sockfd s)
    → IsServing g (insert_conn a.conn a.gives.pool s) ((s.next_conn_id, a.conn) ∷ live)
unfolding insert_conn entries IsBelow
insert_conn-IsServing g sockfd s live short h v a = record {
  pairs =
      rw
        (
          a.named,
          v.pairs,
          erase_conn-entries g s.next_conn_id s.next_conn_id live short h v.small v.below,
          without_absent s.next_conn_id s.next_conn_id live (omega arith) v.below,
        )
        refl;
  below = (omega arith, v.below);
  small = omega (arith, h);
  next = subst (IsNext a.gives.pool) (omega arith) a.gives.next;
  each = (
    (
      a.named,
      HasLoop-same s.pool a.gives.pool s.next_conn_id a.conn.io_loop a.gives.same_loops
          a.gives.same_base
          (subst (HasLoop s.pool s.next_conn_id) (sym a.at_loop) a.gives.has_loop),
    ),
    All-HasLoop g s.pool a.gives.pool live a.gives.same_loops a.gives.same_base v.each,
  );
}

pub remove_connection-returns :
    (g : Config) (s : Server) (live : Live) (id : ℕ) (conn : Conn)
    → length g.hostport ≤ 21
    → IsServing g s live
    → conn.name ≡ conn_name g id
    → IsMember id conn live
    → remove_connection_in_loop conn s
      ≡ some (record s {
        connections = entries g (without id live);
        calls = s.calls ++ (conn.io_loop, connect_destroyed conn) ∷ [];
      })
unfolding remove_connection_in_loop
remove_connection-returns g s live id conn short v named m =
    let b = IsMember-below s.next_conn_id id conn live v.below m in
    rw
      (
        named,
        v.pairs,
        erase_conn-entries g id s.next_conn_id live short (omega (arith, v.small, b)) v.small
            v.below,
        count_member s.next_conn_id id conn live v.below m,
      )
      refl

-- A server that comes about serves what lives.
abbrev pub IsServed : Config → Live → Option Server → Type 0
IsServed g live none = ⊥
IsServed g live (some s) = IsServing g s live

pub start_server-IsServed :
    (g : Config) (base n : ℕ) (loop_of : ℕ → ℕ)
    → IsServed g [] (start_server loop_of (set_thread_num n (new_server base)))
unfolding start_server set_thread_num new_server new_loop_pool start_loop_pool start_loops entries
    IsBelow
start_server-IsServed g base zero loop_of = record {
  pairs = refl;
  below = tt;
  small = omega arith;
  next = inl refl;
  each = tt;
}
start_server-IsServed g base (suc n) loop_of = record {
  pairs = refl;
  below = tt;
  small = omega arith;
  next = inr (record { round = 0; number = omega arith; inside = omega arith });
  each = tt;
}

pub remove_connection-IsServing :
    (g : Config) (s : Server) (live : Live) (id : ℕ) (calls : List (ℕ × LoopCall))
    → IsServing g s live
    → IsServing g
        (record s { connections = entries g (without id live); calls = calls })
        (without id live)
remove_connection-IsServing g s live id calls v = record {
  pairs = refl;
  below = IsBelow-without s.next_conn_id id live v.below;
  small = v.small;
  next = v.next;
  each = All-without _ id live v.each;
}

-- The same for what `new_connection` gives.
abbrev pub IsAccepted : Config → ℕ → Live → Option (Conn × Server) → Type 0
IsAccepted g id live none = ⊥
IsAccepted g id live (some r) = IsServing g r.1 ((id, r.0) ∷ live)

pub HaveLoops-named :
    (g : Config) (p : LoopPool) (live : Live) (id : ℕ) (conn : Conn)
    → HaveLoops g p live
    → IsMember id conn live
    → conn.name ≡ conn_name g id
unfolding IsMember
HaveLoops-named g p [] id conn h m = absurd m
HaveLoops-named g p ((j, c) ∷ live) id conn h (inl e) =
    ap (λ d. d.name) (sym e.1) ∙ h.0.0 ∙ ap (conn_name g) e.0
HaveLoops-named g p ((j, c) ∷ live) id conn h (inr m) = HaveLoops-named g p live id conn h.1 m
