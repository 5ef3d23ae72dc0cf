-- ===== src/Crc/Detection.antt =====
-- What the CRC of src/crc.h detects: a frame whose last two bytes are its CRC checks to zero, and
-- only such a frame does; no change within two neighbouring bytes goes unnoticed.
use dbdky_gcc.Common.{
  ℕ, suc, ◌/◌, ◌%◌, ◌<◌, ◌≡◌, refl, ap, ap₂, sym, ◌∙◌, ◌↔◌, true, List, [], ◌∷◌, ◌++◌, bit_xor,
  arith, get_or, ◌==◌, ==_iff, if◌then◌else◌, All,
}
use dbdky_gcc.Common.Bits.{
  passes, passes-at, bit_xor_assoc, bit_xor_self, zero-bit_xor, bit_xor-zero, bit_xor_comm,
  bit_xor-lt,
}
use dbdky_gcc.Crc.{Reg, crc_step, crc_loop, start, word, crc16}
use dbdky_gcc.Crc.Table.{auch_crc_hi, auch_crc_lo}
use dbdky_gcc.Crc.Reference.{IsReg, crc_step-IsReg, crc_loop-IsReg}

bit_xor_cancel : (a b c : ℕ) → bit_xor a b ≡ bit_xor a c → b ≡ c
bit_xor_cancel a b c e = sym (undo b) ∙ ap (bit_xor a) e ∙ undo c
  where
    undo : (t : ℕ) → bit_xor a (bit_xor a t) ≡ t
    undo t = rw (← bit_xor_assoc a a t, bit_xor_self a, zero-bit_xor t)

bit_xor_cancel_right : (a b c : ℕ) → bit_xor b a ≡ bit_xor c a → b ≡ c
bit_xor_cancel_right a b c e = bit_xor_cancel a b c (bit_xor_comm a b ∙ e ∙ bit_xor_comm c a)

-- The place of a value in a table.
place : List ℕ → ℕ → ℕ
place [] v = 0
place (x ∷ xs) v = let later = place xs v in if x == v then 0 else suc later

lo_is_permutation : passes (λ i. place auch_crc_lo (get_or auch_crc_lo i 0) == i) 256 ≡ true
unfolding passes place auch_crc_lo
lo_is_permutation = refl

lo_place : (i : ℕ) → i < 256 → place auch_crc_lo (get_or auch_crc_lo i 0) ≡ i
lo_place i h = (==_iff _ i).0 (passes-at _ 256 i lo_is_permutation h)

-- No two indices of the low table share an entry.
lo_injective :
    (i j : ℕ) → i < 256 → j < 256 → get_or auch_crc_lo i 0 ≡ get_or auch_crc_lo j 0 → i ≡ j
lo_injective i j hi hj e = sym (lo_place i hi) ∙ ap (place auch_crc_lo) e ∙ lo_place j hj

-- A round tells the index and the low byte of the state apart.
crc_step_injective :
    (r s : Reg) (a b : ℕ)
    → IsReg r
    → IsReg s
    → a < 256
    → b < 256
    → crc_step r a ≡ crc_step s b
    → (bit_xor r.hi a ≡ bit_xor s.hi b) × (r.lo ≡ s.lo)
unfolding crc_step
crc_step_injective r s a b vr vs ha hb e = (same, low)
  where
    same : bit_xor r.hi a ≡ bit_xor s.hi b
    same =
        lo_injective _ _ (bit_xor-lt 8 r.hi a vr.0 ha) (bit_xor-lt 8 s.hi b vs.0 hb)
          (ap (λ (t : Reg). t.lo) e)

    low : r.lo ≡ s.lo
    low =
        bit_xor_cancel_right (get_or auch_crc_hi (bit_xor s.hi b) 0) r.lo s.lo
          (rw same at (ap (λ (t : Reg). t.hi) e))

Reg_path : (r s : Reg) → r.hi ≡ s.hi → r.lo ≡ s.lo → r ≡ s
Reg_path r s p q = λ i. record { hi = p i; lo = q i }

crc_loop_injective :
    (r s : Reg) (msg : List ℕ)
    → IsReg r
    → IsReg s
    → All (λ b. b < 256) msg
    → crc_loop r msg ≡ crc_loop s msg
    → r ≡ s
unfolding crc_loop
crc_loop_injective r s [] vr vs h e = e
crc_loop_injective r s (b ∷ msg) vr vs h e =
    let ih =
      crc_loop_injective (crc_step r b) (crc_step s b) msg (crc_step-IsReg r b vr h.0)
        (crc_step-IsReg s b vs h.0) h.1 e in
    let (same, low) = crc_step_injective r s b b vr vs h.0 h.0 ih in
    Reg_path r s (bit_xor_cancel_right b r.hi s.hi same) low

crc_loop-append : (r : Reg) (xs ys : List ℕ) → crc_loop r (xs ++ ys) ≡ crc_loop (crc_loop r xs) ys
unfolding crc_loop
crc_loop-append r [] ys = refl
crc_loop-append r (x ∷ xs) ys = crc_loop-append (crc_step r x) xs ys

word_injective : (r s : Reg) → IsReg r → IsReg s → word r ≡ word s → r ≡ s
word_injective r s vr vs e = Reg_path r s (omega arith) (omega arith)

-- From one state, two bytes are told apart by the state that they lead to.
two_steps_injective :
    (r : Reg) (a b c d : ℕ)
    → IsReg r
    → a < 256
    → b < 256
    → c < 256
    → d < 256
    → crc_step (crc_step r a) b ≡ crc_step (crc_step r c) d
    → (a ≡ c) × (b ≡ d)
two_steps_injective r a b c d v ha hb hc hd e = (first, second)
  where
    after_first :
        (bit_xor (crc_step r a).hi b ≡ bit_xor (crc_step r c).hi d)
        × ((crc_step r a).lo ≡ (crc_step r c).lo)
    after_first =
        crc_step_injective (crc_step r a) (crc_step r c) b d (crc_step-IsReg r a v ha)
          (crc_step-IsReg r c v hc) hb hd e

    first : a ≡ c
    first = bit_xor_cancel r.hi a c (
        lo_injective _ _ (bit_xor-lt 8 r.hi a v.0 ha) (bit_xor-lt 8 r.hi c v.0 hc)
          (unfold crc_step in after_first.1))

    second : b ≡ d
    second =
        bit_xor_cancel (crc_step r c).hi b d
          (ap (λ t. bit_xor (crc_step r t).hi b) (sym first) ∙ after_first.0)

start-IsReg : IsReg start
start-IsReg = omega arith

-- Two messages of bytes that are equal outside two neighbouring bytes, and have the same CRC, are
-- equal in these two bytes.
pub crc16_burst :
    (pre suf : List ℕ) (a b c d : ℕ)
    → All (λ x. x < 256) pre
    → All (λ x. x < 256) suf
    → a < 256
    → b < 256
    → c < 256
    → d < 256
    → crc16 (pre ++ (a ∷ b ∷ suf)) ≡ crc16 (pre ++ (c ∷ d ∷ suf))
    → (a ≡ c) × (b ≡ d)
unfolding crc16 crc_loop
crc16_burst pre suf a b c d hp hs ha hb hc hd e = two_steps_injective r a b c d vr ha hb hc hd (
    crc_loop_injective _ _ suf (after a b ha hb) (after c d hc hd) hs (
      word_injective _ _ (crc_loop-IsReg _ suf (after a b ha hb) hs)
        (crc_loop-IsReg _ suf (after c d hc hd) hs)
        (rw (crc_loop-append start pre (a ∷ b ∷ suf), crc_loop-append start pre (c ∷ d ∷ suf)) at
          e)))
  where
    r : Reg
    r = crc_loop start pre

    vr : IsReg r
    vr = crc_loop-IsReg start pre start-IsReg hp

    after : (x y : ℕ) → x < 256 → y < 256 → IsReg (crc_step (crc_step r x) y)
    after x y hx hy = crc_step-IsReg _ y (crc_step-IsReg r x vr hx) hy

table_zero : (get_or auch_crc_hi 0 0 ≡ 0) × (get_or auch_crc_lo 0 0 ≡ 0)
unfolding auch_crc_hi auch_crc_lo
table_zero = (refl, refl)

-- Feeding a state its own two bytes clears it.
clears : (r : Reg) → crc_step (crc_step r r.hi) r.lo ≡ record { hi = 0; lo = 0 }
unfolding crc_step
clears r = simp (bit_xor_self, table_zero.0, table_zero.1, bit_xor-zero)

-- A message followed by two bytes has the CRC 0 exactly when these bytes are the message's CRC,
-- high byte first.
pub crc16_residue :
    (msg : List ℕ) (x y : ℕ)
    → All (λ b. b < 256) msg
    → x < 256
    → y < 256
    → (crc16 (msg ++ (x ∷ y ∷ [])) ≡ 0) ↔ ((x ≡ crc16 msg / 256) × (y ≡ crc16 msg % 256))
unfolding crc16 crc_loop
crc16_residue msg x y h hx hy = (to, from)
  where
    r : Reg
    r = crc_loop start msg

    vr : IsReg r
    vr = crc_loop-IsReg start msg start-IsReg h

    whole : crc_loop start (msg ++ (x ∷ y ∷ [])) ≡ crc_step (crc_step r x) y
    whole = crc_loop-append start msg (x ∷ y ∷ [])

    last : IsReg (crc_step (crc_step r x) y)
    last = crc_step-IsReg _ y (crc_step-IsReg r x vr hx) hy

    to : word (crc_loop start (msg ++ (x ∷ y ∷ []))) ≡ 0 → (x ≡ word r / 256) × (y ≡ word r % 256)
    to e =
        let zeros =
          word_injective _ (record { hi = 0; lo = 0 }) last (omega arith)
            (ap word (sym whole) ∙ e) in
        let (first, second) =
          two_steps_injective r x y r.hi r.lo vr hx hy vr.0 vr.1 (zeros ∙ sym (clears r)) in
        (omega (arith, vr), omega (arith, vr))

    from : (x ≡ word r / 256) × (y ≡ word r % 256) → word (crc_loop start (msg ++ (x ∷ y ∷ []))) ≡ 0
    from (ex, ey) =
        let first : x ≡ r.hi = omega (arith, vr) in
        let second : y ≡ r.lo = omega (arith, vr) in
        ap word (whole ∙ ap₂ (λ a b. crc_step (crc_step r a) b) first second ∙ clears r)
