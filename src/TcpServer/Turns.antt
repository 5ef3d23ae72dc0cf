-- ===== src/TcpServer/Turns.antt =====
-- The loops of a server take turns.
use dbdky_gcc.Common.{
  ℕ, zero, suc, ◌+◌, ◌*◌, ◌≤◌, ◌<◌, ◌≡◌, refl, sym, ap, ◌∙◌, ◌⊎◌, inl, inr, some, List, [], ◌∷◌,
  length, get_elem?, false, ◌==◌, leb, Bool-cases, arith,
}
use dbdky_gcc.TcpServer.{LoopPool, turn_to, get_next_loop}

-- The number is one more than some rounds of the loops and a place in the next round.
pub record IsTurn (p : LoopPool) (id place : ℕ) : Type 0 where
  pub round : ℕ
  pub number : id ≡ suc (round * length p.loops + place)
  pub inside : place < length p.loops

-- The loop that the connection of this number has: the base loop, or the one whose turn it is.
pub record HasTurn (p : LoopPool) (id loop : ℕ) : Type 0 where
  pub place : ℕ
  pub turn : IsTurn p id place
  pub at_place : get_elem? p.loops place ≡ some loop

abbrev pub HasLoop : LoopPool → ℕ → ℕ → Type 0
HasLoop p id loop = ((length p.loops ≡ 0) × (loop ≡ p.base_loop)) ⊎ HasTurn p id loop

abbrev pub IsNext : LoopPool → ℕ → Type 0
IsNext p id = (length p.loops ≡ 0) ⊎ IsTurn p id p.next

get_elem?-inside : (xs : List ℕ) (i : ℕ) → i < length xs → (x : ℕ) × (get_elem? xs i ≡ some x)
get_elem?-inside [] i h = absurd (omega (arith, h))
get_elem?-inside (x ∷ xs) zero h = (x, refl)
get_elem?-inside (x ∷ xs) (suc i) h = get_elem?-inside xs i (omega (arith, h))

-- What the pool gives for a number, with the pool after it.
pub record Gives (p : LoopPool) (id : ℕ) : Type 0 where
  pub loop : ℕ
  pub pool : LoopPool
  pub result : get_next_loop p ≡ some (loop, pool)
  pub same_loops : pool.loops ≡ p.loops
  pub same_base : pool.base_loop ≡ p.base_loop
  pub has_loop : HasLoop p id loop
  pub next : IsNext pool (suc id)

turn_to-IsTurn :
    (p : LoopPool) (id : ℕ)
    → IsTurn p id p.next
    → IsTurn (turn_to (p.next + 1) p) (suc id) (turn_to (p.next + 1) p).next
unfolding turn_to
turn_to-IsTurn p id t = elim (Bool-cases (leb (length p.loops) (p.next + 1))) [
  | inl e ↦
      let h : length p.loops ≤ p.next + 1 = ground (arith, e) in
      rw e record {
        round = suc t.round;
        number = omega (arith, h, t.number, t.inside);
        inside = omega (arith, t.inside);
      }
  | inr e ↦
      rw e record { round = t.round; number = omega (arith, t.number); inside = ground (arith, e) }
]

pub get_next_loop-Gives : (p : LoopPool) (id : ℕ) → IsNext p id → Gives p id
unfolding get_next_loop turn_to
get_next_loop-Gives p id (inl e) = record {
  loop = p.base_loop;
  pool = p;
  result = ground (arith, e);
  same_loops = refl;
  same_base = refl;
  has_loop = inl (e, refl);
  next = inl e;
}
get_next_loop-Gives p id (inr t) =
    let found = get_elem?-inside p.loops p.next t.inside in
    let some_loops : (length p.loops == 0) ≡ false = ground (arith, t.inside) in
    record {
      loop = found.0;
      pool = turn_to (p.next + 1) p;
      result = rw (some_loops, found.1) refl;
      same_loops = refl;
      same_base = refl;
      has_loop = inr (record { place = p.next; turn = t; at_place = found.1 });
      next = inr (turn_to-IsTurn p id t);
    }

pub HasLoop-same :
    (p q : LoopPool) (id loop : ℕ)
    → q.loops ≡ p.loops
    → q.base_loop ≡ p.base_loop
    → HasLoop p id loop
    → HasLoop q id loop
HasLoop-same p q id loop e b (inl h) = inl (ap length e ∙ h.0, h.1 ∙ sym b)
HasLoop-same p q id loop e b (inr t) = inr record {
  place = t.place;
  turn = record {
    round = t.turn.round;
    number = rw (e) t.turn.number;
    inside = rw (e) t.turn.inside;
  };
  at_place = ap (λ l. get_elem? l t.place) e ∙ t.at_place;
}
