-- ===== src/Codec/Check.antt =====
-- The CRC test of the parsers: it passes exactly for the frames that check to zero.
use dbdky_gcc.Common.{
  ℕ, suc, ◌/◌, ◌%◌, ◌≤◌, ◌<◌, ◌≡◌, ap, sym, ◌∙◌, ◌↔◌, List, [], ◌∷◌, ◌++◌, length, take, All, arith,
  true, some, get_elem?, take_two, All-take, All-get_elem?,
}
use dbdky_gcc.Crc.{crc16}
use dbdky_gcc.Crc.Detection.{crc16_residue}
use dbdky_gcc.Codec.{crc16_of, crc_matches}

-- The bytes behind a buffer: at least the ones that were received.
pub record IsMemory (buffer : List ℕ) (len : ℕ) : Type 0 where
  pub bytes : All (λ b. b < 256) buffer
  pub holds : len ≤ length buffer

module _ (buffer : List ℕ) (len n hi lo : ℕ) (m : IsMemory buffer len)
    (ehi : get_elem? buffer n ≡ some hi) (elo : get_elem? buffer (suc n) ≡ some lo) where
  frame_split : take (suc (suc n)) buffer ≡ take n buffer ++ (hi ∷ lo ∷ [])
  frame_split = take_two buffer n hi lo ehi elo

  pub crc_matches_iff :
      (crc_matches (crc16_of buffer n) hi lo ≡ true) ↔ (crc16 (take (suc (suc n)) buffer) ≡ 0)
  unfolding crc16_of
  crc_matches_iff = (to, from)
    where
      residue :
          (crc16 (take n buffer ++ (hi ∷ lo ∷ [])) ≡ 0)
          ↔ ((hi ≡ crc16 (take n buffer) / 256) × (lo ≡ crc16 (take n buffer) % 256))
      residue =
          crc16_residue (take n buffer) hi lo (All-take _ n buffer m.bytes)
            (All-get_elem? _ buffer n hi m.bytes ehi)
            (All-get_elem? _ buffer (suc n) lo m.bytes elo)

      to : crc_matches (crc16 (take n buffer)) hi lo ≡ true → crc16 (take (suc (suc n)) buffer) ≡ 0
      to e = ap crc16 frame_split ∙ residue.1 (ground arith)

      from :
          crc16 (take (suc (suc n)) buffer) ≡ 0 → crc_matches (crc16 (take n buffer)) hi lo ≡ true
      from e = let parts = residue.0 (ap crc16 (sym frame_split) ∙ e) in ground arith
