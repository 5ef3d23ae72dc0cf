-- ===== src/TcpServer/Lives.antt =====
-- The connections that live, with their numbers, and the map of a server that has them.
use dbdky_gcc.Common.{
  ℕ, suc, ◌^◌, ◌≤◌, ◌<◌, ◌≡◌, refl, ap, ◌⊎◌, inl, inr, List, [], ◌∷◌, length, true, false, ◌==◌,
  if◌then◌else◌, Bool-cases, All, arith,
}
use dbdky_gcc.TcpServer.{Conn, Config, erase_conn, conn_name}
use dbdky_gcc.TcpServer.Names.{same_text-conn_name}

-- Connections with their numbers, the latest first.
abbrev pub Live : Type 0
Live = List (ℕ × Conn)

unfoldable pub IsMember : ℕ → Conn → Live → Type 0
IsMember id conn [] = ⊥
IsMember id conn ((j, c) ∷ live) = ((j ≡ id) × (c ≡ conn)) ⊎ IsMember id conn live

unfoldable pub without : ℕ → Live → Live
without id [] = []
without id ((j, c) ∷ live) = let rest = without id live in if j == id then rest else (j, c) ∷ rest

unfoldable pub count : ℕ → Live → ℕ
count id [] = 0
count id ((j, c) ∷ live) = let n = count id live in if j == id then suc n else n

-- The map that a server has when these live.
unfoldable pub entries : Config → Live → List (List ℕ × Conn)
entries g [] = []
entries g ((id, c) ∷ live) = (conn_name g id, c) ∷ entries g live

-- The numbers descend from below n.
unfoldable pub IsBelow : ℕ → Live → Type 0
IsBelow n [] = Unit
IsBelow n ((id, c) ∷ live) = (id < n) × IsBelow id live

IsBelow-mono : (m n : ℕ) (live : Live) → m ≤ n → IsBelow m live → IsBelow n live
unfolding IsBelow
IsBelow-mono m n [] h b = tt
IsBelow-mono m n ((id, c) ∷ live) h b = (omega (arith, h, b.0), b.1)

pub IsBelow-without : (n id : ℕ) (live : Live) → IsBelow n live → IsBelow n (without id live)
unfolding IsBelow without
IsBelow-without n id [] b = tt
IsBelow-without n id ((j, c) ∷ live) b = elim (Bool-cases (j == id)) [
  | inl e ↦
      rw e (IsBelow-mono j n (without id live) (omega (arith, b.0)) (IsBelow-without j id live b.1))
  | inr e ↦ rw e (b.0, IsBelow-without j id live b.1)
]

pub All-without :
    (P : ℕ × Conn → Type 0) (id : ℕ) (live : Live) → All P live → All P (without id live)
unfolding without
All-without P id [] a = a
All-without P id ((j, c) ∷ live) a = elim (Bool-cases (j == id)) [
  | inl e ↦ rw e (All-without P id live a.1)
  | inr e ↦ rw e (a.0, All-without P id live a.1)
]

pub count_absent : (n id : ℕ) (live : Live) → n ≤ id → IsBelow n live → count id live ≡ 0
unfolding count IsBelow
count_absent n id [] h b = refl
count_absent n id ((j, c) ∷ live) h b =
    let p : (j == id) ≡ false = ground (arith, h, b.0) in
    rw p (count_absent j id live (omega (arith, h, b.0)) b.1)

pub without_absent : (n id : ℕ) (live : Live) → n ≤ id → IsBelow n live → without id live ≡ live
unfolding without IsBelow
without_absent n id [] h b = refl
without_absent n id ((j, c) ∷ live) h b =
    let p : (j == id) ≡ false = ground (arith, h, b.0) in
    rw p (ap (λ l. (j, c) ∷ l) (without_absent j id live (omega (arith, h, b.0)) b.1))

pub IsMember-below :
    (n id : ℕ) (conn : Conn) (live : Live) → IsBelow n live → IsMember id conn live → id < n
unfolding IsBelow IsMember
IsMember-below n id conn [] b m = absurd m
IsMember-below n id conn ((j, c) ∷ live) b (inl e) = omega (arith, b.0, e.0)
IsMember-below n id conn ((j, c) ∷ live) b (inr m) =
    omega (arith, b.0, IsMember-below j id conn live b.1 m)

pub count_member :
    (n id : ℕ) (conn : Conn) (live : Live)
    → IsBelow n live
    → IsMember id conn live
    → count id live ≡ 1
unfolding count IsBelow IsMember
count_member n id conn [] b m = absurd m
count_member n id conn ((j, c) ∷ live) b (inl e) =
    let p : (j == id) ≡ true = ground (arith, e.0) in
    rw p (ap suc (count_absent j id live (omega (arith, e.0)) b.1))
count_member n id conn ((j, c) ∷ live) b (inr m) =
    let p : (j == id) ≡ false = ground (arith, IsMember-below j id conn live b.1 m) in
    rw p (count_member j id conn live b.1 m)

pub erase_conn-entries :
    (g : Config) (id n : ℕ) (live : Live)
    → length g.hostport ≤ 21
    → id < 10 ^ 8
    → n ≤ 10 ^ 8
    → IsBelow n live
    → erase_conn (conn_name g id) (entries g live) ≡ (count id live, entries g (without id live))
unfolding erase_conn entries count without IsBelow
erase_conn-entries g id n [] short p q b = refl
erase_conn-entries g id n ((j, c) ∷ live) short p q b =
    let h = erase_conn-entries g id j live short p (omega (arith, q, b.0)) b.1 in
    elim (Bool-cases (j == id)) [
      | inl e ↦ rw (same_text-conn_name g j id short (omega (arith, q, b.0)) p, h, e) refl
      | inr e ↦ rw (same_text-conn_name g j id short (omega (arith, q, b.0)) p, h, e) refl
    ]
