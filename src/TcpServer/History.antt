-- ===== src/TcpServer/History.antt =====
-- The life of a server.
use mathlib.Core.Path.{subst}
use dbdky_gcc.Common.{
  ℕ, ◌^◌, ◌≤◌, ◌<◌, ◌≡◌, refl, sym, ◌∙◌, inl, inr, Option, some, [], ◌∷◌, length, All,
}
use dbdky_gcc.TcpServer.{
  Conn, Config, Server, new_server, set_thread_num, start_server, new_connection,
  remove_connection_in_loop,
}
use dbdky_gcc.TcpServer.Lives.{Live, IsMember, without, entries, IsBelow}
use dbdky_gcc.TcpServer.Serving.{
  HaveLoops, IsServing, IsServed, IsAccepted, new_connection-Accepts, insert_conn-IsServing,
  remove_connection-returns, remove_connection-IsServing, start_server-IsServed, HaveLoops-named,
}

-- The life of a server, with the connections that were accepted and not removed: less than 10 ^ 8
-- are accepted, and what is removed lives.
pub data Happens (g : Config) : Server → Live → Type 0 where
  opened :
      (base n : ℕ) (loop_of : ℕ → ℕ) (s : Server)
      → start_server loop_of (set_thread_num n (new_server base)) ≡ some s
      → Happens g s []
  accepted :
      {s : Server} {live : Live}
      → (sockfd : ℕ) (conn : Conn) (r : Server) → s.next_conn_id < 10 ^ 8
      → new_connection g sockfd s ≡ some (conn, r)
      → Happens g s live
      → Happens g r ((s.next_conn_id, conn) ∷ live)
  removed :
      {s : Server} {live : Live}
      → (id : ℕ) (conn : Conn) (r : Server) → IsMember id conn live
      → remove_connection_in_loop conn s ≡ some r
      → Happens g s live
      → Happens g r (without id live)

Happens-IsServing :
    (g : Config) {s : Server} {live : Live}
    → length g.hostport ≤ 21
    → Happens g s live
    → IsServing g s live
Happens-IsServing g short (opened base n loop_of s e) =
    subst (IsServed g []) e (start_server-IsServed g base n loop_of)
Happens-IsServing g short (accepted {s} {live} sockfd conn r h e t) =
    let v = Happens-IsServing g short t in
    let a = new_connection-Accepts g sockfd s live v in
    subst (IsAccepted g (s.next_conn_id) live) (sym a.result ∙ e)
      (insert_conn-IsServing g sockfd s live short h v a)
Happens-IsServing g short (removed {s} {live} id conn r m e t) =
    let v = Happens-IsServing g short t in
    let named = HaveLoops-named g s.pool live id conn v.each m in
    subst (IsServed g (without id live))
      (sym (remove_connection-returns g s live id conn short v named m) ∙ e)
      (remove_connection-IsServing g s live id _ v)

-- What the loop's thread calls returns, and does not stop at an assertion.
abbrev pub Returns : {A : Type 0} → Option A → Type 0
Returns {A} o = (r : A) × (o ≡ some r)

IsMember-All :
    (P : ℕ × Conn → Type 0) (live : Live)
    → ((id : ℕ) (conn : Conn) → IsMember id conn live → P (id, conn))
    → All P live
unfolding IsMember
IsMember-All P [] h = tt
IsMember-All P ((j, c) ∷ live) h =
    (h j c (inl (refl, refl)), IsMember-All P live (λ id conn m. h id conn (inr m)))

-- Where the text of the address has 21 bytes at most, a server that was started with any number of
-- threads, and that accepts less than 10 ^ 8 connections and removes some that live, has in its map
-- those that live and no other, each under the name made of its number, and the numbers differ. Each
-- has the base loop where there are no threads, and otherwise the loop at the remainder of its number
-- less one by the number of loops. The next connection is accepted, and each that lives can be
-- removed: the loop that is looked up exists, and the assertion on erase holds.
pub Happens-Serves :
    (g : Config) (s : Server) (live : Live)
    → length g.hostport ≤ 21
    → Happens g s live
    → (sockfd : ℕ)
    → (s.connections ≡ entries g live)
      × IsBelow s.next_conn_id live
      × HaveLoops g s.pool live
      × Returns (new_connection g sockfd s)
      × All (λ e. Returns (remove_connection_in_loop e.1 s)) live
Happens-Serves g s live short t sockfd =
    let v = Happens-IsServing g short t in
    (
      v.pairs,
      v.below,
      v.each,
      (_, (new_connection-Accepts g sockfd s live v).result),
      IsMember-All _ live (λ id conn m. (
        _,
        remove_connection-returns g s live id conn short v
            (HaveLoops-named g s.pool live id conn v.each m) m,
      )),
    )
