-- ===== src/Crc.antt =====
-- src/crc.h: the table-driven CRC-16 of the serial protocols.
pub mod Table
pub mod Reference
pub mod Detection
use dbdky_gcc.Common.{ℕ, ◌+◌, ◌*◌, ◌/◌, ◌%◌, List, [], ◌∷◌, bit_xor, get_or}
use Table.{auch_crc_hi, auch_crc_lo}

-- The two bytes that the loop carries, `uchCRCHi` and `uchCRCLo`.
pub record Reg : Type 0 where
  pub hi : ℕ
  pub lo : ℕ

-- One round of the loop. The index is the exclusive or of two bytes, so it is in the tables.
unfoldable pub crc_step : Reg → ℕ → Reg
crc_step r byte =
    let index = bit_xor r.hi byte in
    record { hi = bit_xor r.lo (get_or auch_crc_hi index 0); lo = get_or auch_crc_lo index 0 }

-- `while (usDataLen--)` over the bytes that are left.
unfoldable pub crc_loop : Reg → List ℕ → Reg
crc_loop r [] = r
crc_loop r (byte ∷ msg) = crc_loop (crc_step r byte) msg

abbrev pub start : Reg
start = record { hi = 0xff; lo = 0xff }

-- `uchCRCHi << 8 | uchCRCLo`: the two bytes do not overlap.
abbrev pub word : Reg → ℕ
word r = r.hi * 256 + r.lo

-- `crc16(puchMsg, usDataLen)` on the `usDataLen` bytes of the list.
unfoldable pub crc16 : List ℕ → ℕ
unfolding crc_loop crc_step
crc16 msg = word (crc_loop start msg)
