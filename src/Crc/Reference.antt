-- ===== src/Crc/Reference.antt =====
-- `crc16` of src/crc.h against the bit-serial definition of CRC-16/Modbus: the reflected
-- polynomial 0xA001, start value 0xffff, one shift for each bit.
use dbdky_gcc.Common.{
  ℕ, zero, suc, ◌+◌, ◌*◌, ◌/◌, ◌%◌, ◌^◌, ◌<◌, ◌≡◌, refl, ap, sym, ◌∙◌, true, List, [], ◌∷◌, ◌&&◌,
  bit_xor, arith, get_or, ◌==◌, ==_iff, if◌then◌else◌, All, ◌≡⟨◌⟩◌, ◌∎, ltb,
}
use dbdky_gcc.Common.Bits.{
  passes, passes-at, bit_xor_half, bit_xor_parity, bit_xor_assoc, bit_xor-low, bit_xor_comm,
  zero-bit_xor, bit_xor-lt, double_pow,
}
use dbdky_gcc.Crc.{Reg, crc_step, crc_loop, start, crc16}
use dbdky_gcc.Crc.Table.{auch_crc_hi, auch_crc_lo}

-- One bit.
pub shift_bit : ℕ → ℕ
shift_bit c = if c % 2 == 1 then bit_xor (c / 2) 0xa001 else c / 2

unfoldable pub shift_bits : ℕ → ℕ → ℕ
unfolding shift_bit
shift_bits zero c = c
shift_bits (suc n) c = shift_bits n (shift_bit c)

pub ref_loop : ℕ → List ℕ → ℕ
ref_loop c [] = c
ref_loop c (byte ∷ msg) = ref_loop (shift_bits 8 (bit_xor c byte)) msg

pub ref_crc : List ℕ → ℕ
ref_crc msg = ref_loop 0xffff msg

-- Even terms pass through a shift.
shift_bit-even : (m r : ℕ) → shift_bit (bit_xor (2 * m) r) ≡ bit_xor m (shift_bit r)
unfolding shift_bit
shift_bit-even m r =
    let half : bit_xor (2 * m) r / 2 ≡ bit_xor m (r / 2) =
      bit_xor_half (2 * m) r ∙ ap (λ t. bit_xor t (r / 2)) (omega arith) in
    let odd : bit_xor (2 * m) r % 2 ≡ r % 2 = omega (arith, bit_xor_parity (2 * m) r) in
    rw (half, odd) (ground (arith, bit_xor_assoc m (r / 2) 0xa001))

shift_bits-high : (k m r : ℕ) → shift_bits k (bit_xor (m * 2 ^ k) r) ≡ bit_xor m (shift_bits k r)
unfolding shift_bits
shift_bits-high zero m r = ap (λ t. bit_xor t r) (omega arith)
shift_bits-high (suc k) m r =
    rw (double_pow m k, shift_bit-even (m * 2 ^ k) r) (shift_bits-high k m (shift_bit r))

table_entries :
    passes (λ i. shift_bits 8 i == get_or auch_crc_hi i 0 + get_or auch_crc_lo i 0 * 256) 256 ≡ true
unfolding passes shift_bits auch_crc_hi auch_crc_lo
table_entries = refl

pub tables-shift_bits :
    (i : ℕ) → i < 256 → shift_bits 8 i ≡ get_or auch_crc_lo i 0 * 2 ^ 8 + get_or auch_crc_hi i 0
tables-shift_bits i h = omega (arith, (==_iff _ _).0 (passes-at _ 256 i table_entries h))

tables_are_bytes :
    passes (λ i. ltb (get_or auch_crc_hi i 0) 256 && ltb (get_or auch_crc_lo i 0) 256) 256 ≡ true
unfolding passes auch_crc_hi auch_crc_lo
tables_are_bytes = refl

pub table_bytes :
    (i : ℕ) → i < 256 → (get_or auch_crc_hi i 0 < 256) × (get_or auch_crc_lo i 0 < 256)
table_bytes i h = ground (arith, passes-at _ 256 i tables_are_bytes h)

-- Both bytes of the state stay bytes.
abbrev pub IsReg : Reg → Type 0
IsReg r = (r.hi < 256) × (r.lo < 256)

pub crc_step-IsReg : (r : Reg) (byte : ℕ) → IsReg r → byte < 256 → IsReg (crc_step r byte)
unfolding crc_step
crc_step-IsReg r byte v b =
    let t = table_bytes (bit_xor r.hi byte) (bit_xor-lt 8 r.hi byte v.0 b) in
    (bit_xor-lt 8 r.lo _ v.1 t.0, t.1)

pub crc_loop-IsReg :
    (r : Reg) (msg : List ℕ) → IsReg r → All (λ b. b < 256) msg → IsReg (crc_loop r msg)
unfolding crc_loop
crc_loop-IsReg r [] v h = v
crc_loop-IsReg r (byte ∷ msg) v h =
    crc_loop-IsReg (crc_step r byte) msg (crc_step-IsReg r byte v h.0) h.1

-- The register of the bit-serial loop: `hi` is its low byte.
abbrev pub register : Reg → ℕ
register r = r.lo * 2 ^ 8 + r.hi

crc_step-register :
    (r : Reg) (byte : ℕ)
    → IsReg r
    → byte < 256
    → register (crc_step r byte) ≡ shift_bits 8 (bit_xor (register r) byte)
unfolding crc_step
crc_step-register r byte v b =
    let index = bit_xor r.hi byte in
    let index_lt : index < 256 = bit_xor-lt 8 r.hi byte v.0 b in
    let high : ℕ = get_or auch_crc_hi index 0 in
    let low : ℕ = get_or auch_crc_lo index 0 in
    let alone : bit_xor (r.lo * 2 ^ 8) index ≡ r.lo * 2 ^ 8 + index =
      ap (λ t. bit_xor t index) (omega arith)
      ∙ bit_xor-low 8 r.lo 0 index (omega arith) index_lt
      ∙ ap (λ t. r.lo * 2 ^ 8 + t) (zero-bit_xor index) in
    sym (
      shift_bits 8 (bit_xor (r.lo * 2 ^ 8 + r.hi) byte)
      ≡⟨ ap (shift_bits 8) (bit_xor-low 8 r.lo r.hi byte v.0 b ∙ sym alone) ⟩
        shift_bits 8 (bit_xor (r.lo * 2 ^ 8) index)
      ≡⟨ shift_bits-high 8 r.lo index ⟩ bit_xor r.lo (shift_bits 8 index)
      ≡⟨ ap (bit_xor r.lo) (tables-shift_bits index index_lt) ⟩ bit_xor r.lo (low * 2 ^ 8 + high)
      ≡⟨ bit_xor_comm r.lo _ ⟩ bit_xor (low * 2 ^ 8 + high) r.lo
      ≡⟨ bit_xor-low 8 low high r.lo (table_bytes index index_lt).0 v.1 ⟩
        low * 2 ^ 8 + bit_xor high r.lo
      ≡⟨ ap (λ t. low * 2 ^ 8 + t) (bit_xor_comm high r.lo) ⟩ low * 2 ^ 8 + bit_xor r.lo high ∎)

crc_loop-register :
    (r : Reg) (msg : List ℕ)
    → IsReg r
    → All (λ b. b < 256) msg
    → register (crc_loop r msg) ≡ ref_loop (register r) msg
unfolding crc_loop ref_loop
crc_loop-register r [] v h = refl
crc_loop-register r (byte ∷ msg) v h =
    rw (← crc_step-register r byte v h.0)
      (crc_loop-register (crc_step r byte) msg (crc_step-IsReg r byte v h.0) h.1)

-- On every message of bytes the table-driven routine returns the bit-serial CRC with its two
-- bytes exchanged.
pub crc16-ref_crc :
    (msg : List ℕ)
    → All (λ b. b < 256) msg
    → crc16 msg ≡ ref_crc msg % 256 * 256 + ref_crc msg / 256
unfolding crc16 ref_crc
crc16-ref_crc msg h =
    omega
      (arith, crc_loop-register start msg (omega arith) h, crc_loop-IsReg start msg (omega arith) h)

-- The CRC of a message of bytes is a 16-bit word.
pub crc16-lt : (msg : List ℕ) → All (λ b. b < 256) msg → crc16 msg < 2 ^ 16
unfolding crc16
crc16-lt msg h = omega (arith, crc_loop-IsReg start msg (omega arith) h)
