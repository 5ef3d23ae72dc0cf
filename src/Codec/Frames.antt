-- ===== src/Codec/Frames.antt =====
-- The commands that the codecs write: what a device that checks the CRC receives.
use dbdky_gcc.Common.{
  ℕ, ◌+◌, ◌/◌, ◌%◌, ◌≤◌, ◌<◌, ◌≡◌, refl, ap, sym, ◌∙◌, List, [], ◌∷◌, ◌++◌, length, take, drop,
  overwrite, All, arith, ltb, drop-append_right, overwrite-split, length-append, length-drop,
  drop-drop, ap₂, take_all, take-append, Bool-cases, inl, inr, ◌⊎◌,
}
use mathlib.Core.List.{append_assoc}
use dbdky_gcc.Common.Int.{ℤ, pos, negsuc, low_byte}
use dbdky_gcc.Crc.{crc16}
use dbdky_gcc.Crc.Reference.{crc16-lt}
use dbdky_gcc.Crc.Detection.{crc16_residue}
use dbdky_gcc.Codec.{
  Tm, Float, MakeCmd, CodecBase, crc16_of, store_command, command, year_byte, month_byte,
}
use dbdky_gcc.Codec.Mmxn
use dbdky_gcc.Codec.Zsar
use dbdky_gcc.Codec.Mmxn.{mmxn}
use dbdky_gcc.Codec.Zsar.{zsar}

abbrev pub Byte : ℕ → Type 0
Byte b = b < 256

-- The body followed by its CRC.
abbrev pub sealed : List ℕ → List ℕ
sealed body = body ++ (crc16 body / 256 ∷ crc16 body % 256 ∷ [])

crc16-sealed : (body : List ℕ) → All Byte body → crc16 (sealed body) ≡ 0
crc16-sealed body h =
    (crc16_residue body _ _ h (omega (arith, crc16-lt body h)) (omega arith)).1 (refl, refl)

store_command-split :
    (out body : List ℕ)
    → length body + 2 ≤ length out
    → store_command out body ≡ sealed body ++ drop (length body + 2) out
unfolding store_command crc16_of
store_command-split out body h =
    rw (filled, front)
      (overwrite-split (body ++ behind) (length body) crc
          (omega (arith, length-append body behind, length-drop (length body) out))
        ∙ ap₂ (λ s t. s ++ (crc ++ t)) front
            (drop-append_right body behind (length body + 2) 2 refl ∙ drop-drop out (length body) 2)
        ∙ sym (append_assoc body crc (drop (length body + 2) out)))
  where
    behind : List ℕ
    behind = drop (length body) out

    crc : List ℕ
    crc = crc16 body / 256 ∷ crc16 body % 256 ∷ []

    filled : overwrite out 0 body ≡ body ++ behind
    filled = overwrite-split out 0 body (omega arith) ∙ ap (λ t. body ++ drop t out) (omega arith)

    front : take (length body) (body ++ behind) ≡ body
    front =
        take-append body behind (length body) (omega arith)
        ∙ take_all body (length body) (omega arith)

-- A command that was stored: the return value 1, the number of bytes, and in the array the body
-- under its CRC before what stood there already.
pub record Sends (body out : List ℕ) (r : ℕ × List ℕ × ℕ) : Type 0 where
  pub accepted : r.0 ≡ 1
  pub sent : r.2 ≡ length body + 2
  pub frame : take (length body + 2) r.1 ≡ sealed body
  pub checks : crc16 (take (length body + 2) r.1) ≡ 0
  pub untouched : drop (length body + 2) r.1 ≡ drop (length body + 2) out

command-Sends :
    (n : ℕ) (body out : List ℕ) (len : ℕ)
    → n ≡ length body + 2
    → All Byte body
    → n ≤ len
    → len ≤ length out
    → Sends body out (command n body out len)
unfolding command
command-Sends n body out len size bytes fits inside = elim (Bool-cases (ltb len n)) [
  | inl e ↦ absurd (ground arith)
  | inr e ↦ rw e (record {
    accepted = refl;
    sent = size;
    frame = prefix;
    checks = ap crc16 prefix ∙ crc16-sealed body bytes;
    untouched =
        ap (drop (length body + 2)) stored
        ∙ drop-append_right (sealed body) _ (length body + 2) 0 (omega (arith, sealed_size));
  })
]
  where
    stored : store_command out body ≡ sealed body ++ drop (length body + 2) out
    stored = store_command-split out body (omega arith)

    sealed_size : length (sealed body) ≡ length body + 2
    sealed_size = length-append body _

    prefix : take (length body + 2) (store_command out body) ≡ sealed body
    prefix =
        ap (take (length body + 2)) stored
        ∙ take-append (sealed body) _ (length body + 2) (omega (arith, sealed_size))
        ∙ take_all (sealed body) (length body + 2) (omega (arith, sealed_size))

-- The five commands of a codec.
pub data Command : Type 0 where
  year_month day_hour min_sec thetime query : Command

abbrev pub make : {F : Type 0} → CodecBase F → Command → MakeCmd
make c year_month = c.make_year_month_cmd
make c day_hour = c.make_day_hour_cmd
make c min_sec = c.make_min_sec_cmd
make c thetime = c.make_thetime_cmd
make c query = c.make_query_cmd

-- The bytes of a command before its CRC: the device, the function (6 writes a register, 16 several, 4
-- reads), the first register, and what the codec puts behind it. For function 16 Modbus has a byte
-- count behind the number of registers, which the codec does not write. `first` and `count` are those
-- of the query.
abbrev pub command_bytes : ℕ → ℕ → Command → Tm → ℕ → List ℕ
command_bytes first count year_month now id =
    id ∷ 6 ∷ 0 ∷ 5 ∷ low_byte (year_byte now) ∷ low_byte (month_byte now) ∷ []
command_bytes first count day_hour now id =
    id ∷ 6 ∷ 0 ∷ 6 ∷ low_byte now.tm_mday ∷ low_byte now.tm_hour ∷ []
command_bytes first count min_sec now id =
    id ∷ 6 ∷ 0 ∷ 7 ∷ low_byte now.tm_min ∷ low_byte now.tm_sec ∷ []
command_bytes first count thetime now id =
    id
    ∷ 16
    ∷ 0
    ∷ 5
    ∷ 0
    ∷ 3
    ∷ low_byte (year_byte now)
    ∷ low_byte (month_byte now)
    ∷ low_byte now.tm_mday
    ∷ low_byte now.tm_hour
    ∷ low_byte now.tm_min
    ∷ low_byte now.tm_sec
    ∷ []
command_bytes first count query now id = id ∷ 4 ∷ 0 ∷ first ∷ 0 ∷ count ∷ []

-- Refused without a trace where the array is too short, and sent otherwise.
abbrev pub Answers : List ℕ → List ℕ → ℕ → ℕ × List ℕ × ℕ → Type 0
Answers body out len r =
    ((len < length body + 2) × (r ≡ (0, out, len))) ⊎ ((length body + 2 ≤ len) × Sends body out r)

pub low_byte-Byte : (z : ℤ) → Byte (low_byte z)
low_byte-Byte (pos n) = unfold low_byte in omega arith
low_byte-Byte (negsuc n) = unfold low_byte in omega arith

command_bytes-Byte :
    (first count : ℕ) (c : Command) (now : Tm) (id : ℕ)
    → Byte first
    → Byte count
    → Byte id
    → All Byte (command_bytes first count c now id)
command_bytes-Byte first count year_month now id hf hc hi =
    omega (arith, low_byte-Byte (year_byte now), low_byte-Byte (month_byte now))
command_bytes-Byte first count day_hour now id hf hc hi =
    omega (arith, low_byte-Byte now.tm_mday, low_byte-Byte now.tm_hour)
command_bytes-Byte first count min_sec now id hf hc hi =
    omega (arith, low_byte-Byte now.tm_min, low_byte-Byte now.tm_sec)
command_bytes-Byte first count thetime now id hf hc hi = omega (
  arith,
  low_byte-Byte (year_byte now),
  low_byte-Byte (month_byte now),
  low_byte-Byte now.tm_mday,
  low_byte-Byte now.tm_hour,
  low_byte-Byte now.tm_min,
  low_byte-Byte now.tm_sec,
)
command_bytes-Byte first count query now id hf hc hi = omega arith

command-Answers :
    (n : ℕ) (body out : List ℕ) (len : ℕ)
    → n ≡ length body + 2
    → All Byte body
    → len ≤ length out
    → Answers body out len (command n body out len)
unfolding command
command-Answers n body out len size bytes inside = elim (Bool-cases (ltb len n)) [
  | inl e ↦ inl (ground arith, rw e)
  | inr e ↦ inr (ground arith, command-Sends n body out len size bytes (ground arith) inside)
]

-- The size that a codec's guard compares with.
abbrev frame_size : Command → ℕ
frame_size thetime = 14
frame_size year_month = 8
frame_size day_hour = 8
frame_size min_sec = 8
frame_size query = 8

command_bytes-Answers :
    (first count : ℕ) (c : Command) (now : Tm) (id : ℕ) (out : List ℕ) (len : ℕ)
    → Byte first
    → Byte count
    → Byte id
    → len ≤ length out
    → Answers
        (command_bytes first count c now id)
        out
        len
        (command (frame_size c) (command_bytes first count c now id) out len)
command_bytes-Answers first count c now id out len hf hc h k =
    command-Answers (frame_size c) (command_bytes first count c now id) out len (size c)
      (command_bytes-Byte first count c now id hf hc h) k
  where
    size : (d : Command) → frame_size d ≡ length (command_bytes first count d now id) + 2
    size thetime = refl
    size year_month = refl
    size day_hour = refl
    size min_sec = refl
    size query = refl

-- Each command of the MMXN codec is refused, with the array and the length as they were, where
-- the array is too short; otherwise the array starts with the bytes that `command_bytes` lists under
-- their CRC, the length is theirs, and nothing behind them changes. The array has at least `len`
-- places. The bytes of `thetime` are no whole Modbus request: the byte count of function 16 is not there.
pub mmxn-Answers :
    (fl : Float) (mktime : Tm → ℤ) (stack : List ℕ) (c : Command) (now : Tm) (id : ℕ) (out : List ℕ)
    (len : ℕ)
    → Byte id
    → len ≤ length out
    → Answers (command_bytes 0x21 8 c now id) out len (make (mmxn fl mktime stack) c now id out len)
unfolding mmxn Mmxn.make_year_month_cmd Mmxn.make_day_hour_cmd Mmxn.make_min_sec_cmd
    Mmxn.make_thetime_cmd Mmxn.make_query_cmd
mmxn-Answers fl mktime stack year_month now id out len h k =
    command_bytes-Answers 0x21 8 year_month now id out len (omega arith) (omega arith) h k
mmxn-Answers fl mktime stack day_hour now id out len h k =
    command_bytes-Answers 0x21 8 day_hour now id out len (omega arith) (omega arith) h k
mmxn-Answers fl mktime stack min_sec now id out len h k =
    command_bytes-Answers 0x21 8 min_sec now id out len (omega arith) (omega arith) h k
mmxn-Answers fl mktime stack thetime now id out len h k =
    command_bytes-Answers 0x21 8 thetime now id out len (omega arith) (omega arith) h k
mmxn-Answers fl mktime stack query now id out len h k =
    command_bytes-Answers 0x21 8 query now id out len (omega arith) (omega arith) h k

-- Each command of the ZSAR codec is refused, with the array and the length as they were, where
-- the array is too short; otherwise the array starts with the bytes that `command_bytes` lists under
-- their CRC, the length is theirs, and nothing behind them changes. The array has at least `len`
-- places. The bytes of `thetime` are no whole Modbus request: the byte count of function 16 is not there.
pub zsar-Answers :
    (fl : Float) (mktime : Tm → ℤ) (c : Command) (now : Tm) (id : ℕ) (out : List ℕ) (len : ℕ)
    → Byte id
    → len ≤ length out
    → Answers (command_bytes 0x20 10 c now id) out len (make (zsar fl mktime) c now id out len)
unfolding zsar Zsar.make_year_month_cmd Zsar.make_day_hour_cmd Zsar.make_min_sec_cmd
    Zsar.make_thetime_cmd Zsar.make_query_cmd
zsar-Answers fl mktime year_month now id out len h k =
    command_bytes-Answers 0x20 10 year_month now id out len (omega arith) (omega arith) h k
zsar-Answers fl mktime day_hour now id out len h k =
    command_bytes-Answers 0x20 10 day_hour now id out len (omega arith) (omega arith) h k
zsar-Answers fl mktime min_sec now id out len h k =
    command_bytes-Answers 0x20 10 min_sec now id out len (omega arith) (omega arith) h k
zsar-Answers fl mktime thetime now id out len h k =
    command_bytes-Answers 0x20 10 thetime now id out len (omega arith) (omega arith) h k
zsar-Answers fl mktime query now id out len h k =
    command_bytes-Answers 0x20 10 query now id out len (omega arith) (omega arith) h k
