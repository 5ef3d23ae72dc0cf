-- ===== src/Buffer/Integers.antt =====
-- `hostToNetwork32` and its kin of src/port/Endian.h with the `memcpy` round them: an integer in
-- memory in network order, most significant byte first.
use dbdky_gcc.Common.{
  ℕ, zero, suc, ◌+◌, ◌*◌, ◌/◌, ◌%◌, ◌^◌, ◌<◌, ◌≡◌, refl, ap, List, [], ◌∷◌, length, arith,
}

-- The low `n` bytes of `x`.
unfoldable pub be_bytes : ℕ → ℕ → List ℕ
be_bytes zero x = []
be_bytes (suc n) x = (x / 256 ^ n) % 256 ∷ be_bytes n x

unfoldable pub from_be_loop : ℕ → List ℕ → ℕ
from_be_loop acc [] = acc
from_be_loop acc (b ∷ bs) = from_be_loop (acc * 256 + b) bs

unfoldable pub from_be : List ℕ → ℕ
unfolding from_be_loop
from_be bs = from_be_loop 0 bs

pub length-be_bytes : (n x : ℕ) → length (be_bytes n x) ≡ n
unfolding be_bytes
length-be_bytes zero x = refl
length-be_bytes (suc n) x = ap suc (length-be_bytes n x)

pub from_be-be_bytes_four : (x : ℕ) → x < 2 ^ 32 → from_be (be_bytes 4 x) ≡ x
unfolding from_be be_bytes
from_be-be_bytes_four x h = omega arith

pub from_be-be_bytes_two : (x : ℕ) → x < 2 ^ 16 → from_be (be_bytes 2 x) ≡ x
unfolding from_be be_bytes
from_be-be_bytes_two x h = omega arith

pub from_be-be_bytes_one : (x : ℕ) → x < 2 ^ 8 → from_be (be_bytes 1 x) ≡ x
unfolding from_be be_bytes
from_be-be_bytes_one x h = omega arith
