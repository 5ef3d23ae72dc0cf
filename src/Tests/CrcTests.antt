-- ===== src/Tests/CrcTests.antt =====
-- The CRC of short messages.
use dbdky_gcc.Common.{◌+◌, ◌*◌, ◌/◌, ◌%◌, ◌≡◌, refl, [], ◌∷◌, arith}
use dbdky_gcc.Crc.{crc16}
use dbdky_gcc.Crc.Table.{auch_crc_hi, auch_crc_lo}
use dbdky_gcc.Crc.Reference.{ref_crc, crc16-ref_crc}

crc16_query : crc16 (1 ∷ 4 ∷ 0 ∷ 0x21 ∷ 0 ∷ 8 ∷ []) ≡ 0xa1c6
unfolding crc16 auch_crc_hi auch_crc_lo
crc16_query = refl

crc16-ref_crc_example :
    crc16 (1 ∷ 4 ∷ 0 ∷ []) ≡ ref_crc (1 ∷ 4 ∷ 0 ∷ []) % 256 * 256 + ref_crc (1 ∷ 4 ∷ 0 ∷ []) / 256
crc16-ref_crc_example = crc16-ref_crc (1 ∷ 4 ∷ 0 ∷ []) (omega arith)
