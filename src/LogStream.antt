-- ===== src/LogStream.antt =====
-- src/utils/LogStream.cpp and LogStream.h: how the stream formats integers into its buffer.
pub mod Integers
use mathlib.Core.List.{reverse}
use dbdky_gcc.Common.{
  ℕ, zero, suc, ◌+◌, ◌-◌, ◌/◌, ◌%◌, List, [], ◌∷◌, ◌++◌, length, Bool, true, false, ◌==◌, ltb, leb,
  if◌then◌else◌, get_or,
}
use dbdky_gcc.Common.Int.{ℤ, pos, negsuc}

abbrev pub k_small_buffer : ℕ
k_small_buffer = 4000

abbrev pub k_max_numeric_size : ℕ
k_max_numeric_size = 32

-- `FixedBuffer<kSmallBuffer>`: the bytes before `cur_`.
pub record FixedBuffer : Type 0 where
  pub text : List ℕ

abbrev pub avail : FixedBuffer → ℕ
avail b = k_small_buffer - length b.text

unfoldable pub append : List ℕ → FixedBuffer → FixedBuffer
append buf b = if ltb (length buf) (avail b) then record { text = b.text ++ buf } else b

-- "9876543210123456789".
abbrev pub digits : List ℕ
digits =
    57 ∷ 56 ∷ 55 ∷ 54 ∷ 53 ∷ 52 ∷ 51 ∷ 50 ∷ 49 ∷ 48 ∷ 49 ∷ 50 ∷ 51 ∷ 52 ∷ 53 ∷ 54 ∷ 55 ∷ 56 ∷ 57
    ∷ []

-- `zero[i % 10]`, where `zero` is `digits + 9` and the remainder has the sign of `i`.
abbrev pub digit_of : ℤ → ℕ
digit_of (pos n) = get_or digits (9 + n % 10) 0
digit_of (negsuc n) = get_or digits (9 - suc n % 10) 0

-- `i / 10`, towards 0.
abbrev pub tenth : ℤ → ℤ
tenth (pos n) = pos (n / 10)
tenth (negsuc n) = elim (suc n / 10) [ zero ↦ pos 0 | suc k ↦ negsuc k ]

abbrev pub is_zero : ℤ → Bool
is_zero (pos n) = n == 0
is_zero (negsuc n) = false

abbrev pub magnitude : ℤ → ℕ
magnitude (pos n) = n
magnitude (negsuc n) = suc n

-- The `do` loop, with as much fuel as the number is large and one round more.
unfoldable pub convert_loop : ℕ → ℤ → List ℕ
convert_loop zero i = []
convert_loop (suc f) i =
    let rest = convert_loop f (tenth i) in digit_of i ∷ (if is_zero (tenth i) then [] else rest)

abbrev pub sign : ℤ → List ℕ
sign (pos n) = []
sign (negsuc n) = b'-' ∷ []

-- The digits and the sign, reversed.
unfoldable pub convert : ℤ → List ℕ
unfolding convert_loop
convert value = reverse (convert_loop (suc (magnitude value)) value ++ sign value)

unfoldable pub format_integer : ℤ → FixedBuffer → FixedBuffer
unfolding convert
format_integer v b =
    if leb k_max_numeric_size (avail b) then record { text = b.text ++ convert v } else b
