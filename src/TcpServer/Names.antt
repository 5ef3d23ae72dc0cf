-- ===== src/TcpServer/Names.antt =====
-- The names of the connections of a server differ.
use mathlib.Core.Path.{subst}
use dbdky_gcc.Common.{
  ℕ, zero, suc, ◌+◌, ◌*◌, ◌/◌, ◌%◌, ◌^◌, ◌≤◌, ◌<◌, ◌≡◌, refl, sym, ap, ap₂, ◌∙◌, inl, inr, List, [],
  ◌∷◌, ◌++◌, length, true, ◌==◌, ltb, Bool-cases, length-append, take_all, arith,
}
use dbdky_gcc.Common.Decimal.{decimal, decimal_small, decimal_large, atoi, atoi-decimal}
use dbdky_gcc.TcpServer.{Config, conn_name, same_text}

tenth : (m n : ℕ) → n < 10 * m → n / 10 < m
tenth m n h = omega arith

length-decimal : (k n : ℕ) → n < 10 ^ suc k → length (decimal n) ≤ suc k
length-decimal zero n h = rw (decimal_small n h) (omega arith)
length-decimal (suc k) n h = elim (Bool-cases (ltb n 10)) [
  | inl e ↦ rw (decimal_small n (ground arith)) (omega arith)
  | inr e ↦
      let d = length-decimal k (n / 10) (tenth (10 ^ suc k) n (omega (arith, h))) in
      rw (decimal_large n (ground arith), length-append (decimal (n / 10)) ((48 + n % 10) ∷ []))
        (omega (arith, d))
]

same_text_refl : (s : List ℕ) → same_text s s ≡ true
unfolding same_text
same_text_refl [] = refl
same_text_refl (c ∷ s) = ground (arith, same_text_refl s)

same_text_path : (s t : List ℕ) → same_text s t ≡ true → s ≡ t
unfolding same_text
same_text_path [] [] h = refl
same_text_path [] (d ∷ t) h = absurd (ground (arith, h))
same_text_path (c ∷ s) [] h = absurd (ground (arith, h))
same_text_path (c ∷ s) (d ∷ t) h =
    let p : c ≡ d = ground (arith, h) in
    let q : same_text s t ≡ true = ground (arith, h) in ap₂ (λ a r. a ∷ r) p (same_text_path s t q)

same_text-append : (p s t : List ℕ) → same_text (p ++ s) (p ++ t) ≡ same_text s t
unfolding same_text
same_text-append [] s t = refl
same_text-append (c ∷ p) s t = ground (arith, same_text-append p s t)

-- A name that snprintf does not cut: the address has 21 bytes at most, and the number 8 digits.
conn_name_lem :
    (g : Config) (id : ℕ)
    → length g.hostport ≤ 21
    → id < 10 ^ 8
    → conn_name g id ≡ g.name ++ (58 ∷ g.hostport ++ 35 ∷ decimal id)
unfolding conn_name
conn_name_lem g id h k =
    let d = length-decimal 7 id k in
    ap (λ t. g.name ++ t)
      (take_all (58 ∷ g.hostport ++ 35 ∷ decimal id) 31
        (omega (arith, h, d, length-append g.hostport (35 ∷ decimal id))))

same_text-decimal : (i j : ℕ) → same_text (decimal i) (decimal j) ≡ (i == j)
same_text-decimal i j = elim (Bool-cases (i == j)) [
  | inl e ↦
      let p : i ≡ j = ground (arith, e) in
      rw e (subst (λ k. same_text (decimal i) (decimal k) ≡ true) p (same_text_refl (decimal i)))
  | inr e ↦ rw e (elim (Bool-cases (same_text (decimal i) (decimal j))) [
    | inl same ↦
        let p : i ≡ j =
          sym (atoi-decimal i)
          ∙ ap atoi (same_text_path (decimal i) (decimal j) same)
          ∙ atoi-decimal j in
        absurd (ground (arith, p, e))
    | inr other ↦ other
  ])
]

pub same_text-conn_name :
    (g : Config) (i j : ℕ)
    → length g.hostport ≤ 21
    → i < 10 ^ 8
    → j < 10 ^ 8
    → same_text (conn_name g i) (conn_name g j) ≡ (i == j)
unfolding same_text
same_text-conn_name g i j h p q =
    rw (conn_name_lem g i h p, conn_name_lem g j h q)
      (same_text-append g.name (58 ∷ g.hostport ++ 35 ∷ decimal i)
          (58 ∷ g.hostport ++ 35 ∷ decimal j)
        ∙ same_text-append g.hostport (35 ∷ decimal i) (35 ∷ decimal j)
        ∙ same_text-decimal i j)
