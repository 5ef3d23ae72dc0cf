-- ===== src/Buffer/Refine.antt =====
-- The buffer against the queue of bytes that it stands for, one call at a time, and the integers
-- that are written into it and read back.
use dbdky_gcc.Common.{
  ℕ, ◌+◌, ◌^◌, ◌≤◌, ◌<◌, ◌≡◌, refl, ap, ◌∙◌, sym, Option, none, some, List, [], ◌++◌, leb,
  if◌then◌else◌, length, true, Bool-cases, inl, inr, take, drop, size_mod, arith, ◌>>=◌, take_all,
  take-append, drop-append_right, drop_all, length-append, length-take,
}
use mathlib.Core.Option
use mathlib.Core.List.{append-nil}
use dbdky_gcc.Buffer.{
  Buffer, cheap_prepend, content, initial_size, prependable_bytes, readable_bytes, peek,
  retrieve_all, retrieve, append, shrink, got, read_fd, append_int32, prepend_int32, prepend_int16,
  prepend_int8, read_int32, read_int16, read_int8, peek_int32, peek_int16, peek_int8,
  retrieve_int32, retrieve_int16, retrieve_int8,
}
use dbdky_gcc.Buffer.Integers.{
  be_bytes, length-be_bytes, from_be-be_bytes_four, from_be-be_bytes_two, from_be-be_bytes_one,
}
use dbdky_gcc.Buffer.Bounds.{IsValid, Fits, length-content}
use dbdky_gcc.Buffer.Content.{
  Holds, append-Holds, retrieve-Holds, prepend-Holds, read_fd-Holds, shrink-Holds, peek-content,
}

-- The calls that a client of the queue makes.
pub data Op : Type 0 where
  puts : List ℕ → Op
  takes : ℕ → Op
  clears : Op
  shrinks : ℕ → Op
  receives : List ℕ → Op

pub step : Buffer → Op → Option Buffer
step b (puts text) = append b text
step b (takes n) = retrieve b n
step b clears = some (retrieve_all b)
step b (shrinks reserve) = shrink b reserve
step b (receives text) = Option.map (λ r. r.1) (read_fd b (got text))

-- The queue: only taking more than there is fails.
pub spec_step : List ℕ → Op → Option (List ℕ)
spec_step q (puts text) = some (q ++ text)
spec_step q (takes n) = if leb n (length q) then some (drop n q) else none
spec_step q clears = some []
spec_step q (shrinks reserve) = some q
spec_step q (receives text) = some (q ++ text)

abbrev pub Refines : Option Buffer → Option (List ℕ) → Type 0
Refines r none = r ≡ none
Refines r (some q) = Holds r q

-- The sizes that a call needs stay within `size_t`, and for `shrink` the readable bytes within `int`.
abbrev pub OpFits : Buffer → Op → Type 0
OpFits b (puts text) = Fits b (length text)
OpFits b (takes n) = Unit {0}
OpFits b clears = Unit {0}
OpFits b (shrinks reserve) =
    (length (content b) + reserve + initial_size < size_mod) × (length (content b) < 2 ^ 31)
OpFits b (receives text) = Fits b (length text)

retrieve_too_much : (b : Buffer) (n : ℕ) → IsValid b → length (content b) < n → retrieve b n ≡ none
unfolding retrieve
retrieve_too_much b n v h = ground (arith, length-content b v)

takes-Refines :
    (b : Buffer) (n : ℕ) → IsValid b → Refines (retrieve b n) (spec_step (content b) (takes n))
unfolding spec_step
takes-Refines b n v = elim (Bool-cases (leb n (length (content b)))) [
  | inl e ↦ rw e (retrieve-Holds b n v (ground arith))
  | inr e ↦ rw e (retrieve_too_much b n v (ground arith))
]

clears-Refines : (b : Buffer) → IsValid b → Refines (some (retrieve_all b)) (some [])
unfolding retrieve_all
clears-Refines b v = record {
  buffer = retrieve_all b;
  returns = refl;
  valid = omega (arith, v);
  shows =
      drop_all (take cheap_prepend b.bytes) cheap_prepend
        (omega (arith, length-take cheap_prepend b.bytes));
}

-- Within the invariant, and where the sizes that the call needs stay within `size_t` and, for
-- `shrink`, less than 2 ^ 31 bytes are readable, each call does to the readable bytes what it does to
-- the queue, keeps the invariant, and aborts only where the queue has too few bytes.
pub step-Refines :
    (b : Buffer) (op : Op)
    → IsValid b
    → OpFits b op
    → Refines (step b op) (spec_step (content b) op)
unfolding step spec_step
step-Refines b (puts text) v fits = append-Holds b text v fits
step-Refines b (takes n) v fits = takes-Refines b n v
step-Refines b clears v fits = clears-Refines b v
step-Refines b (shrinks reserve) v fits = shrink-Holds b reserve v fits.0 fits.1
step-Refines b (receives text) v fits = read_fd-Holds b text v fits

-- The readable bytes start with an integer: what reading it leaves.
module _ (b : Buffer) (n x : ℕ) (rest : List ℕ) (v : IsValid b)
    (e : content b ≡ be_bytes n x ++ rest) where
  enough : n ≤ length (content b)
  enough = omega (arith, ap length e, length-append (be_bytes n x) rest, length-be_bytes n x)

  peek_front : take n (peek b) ≡ be_bytes n x
  peek_front =
      peek-content b n v enough
      ∙ ap (take n) e
      ∙ take-append (be_bytes n x) rest n (omega (arith, length-be_bytes n x))
      ∙ take_all (be_bytes n x) n (omega (arith, length-be_bytes n x))

  after_front : Holds (retrieve b n) rest
  after_front =
      rw
        (ap (drop n) e
          ∙ drop-append_right (be_bytes n x) rest n 0 (omega (arith, length-be_bytes n x)))
        at (retrieve-Holds b n v enough)

  readable : leb n (readable_bytes b) ≡ true
  readable = ground (arith, enough, length-content b v, v)

pub read_int32_front :
    (b : Buffer) (x : ℕ) (rest : List ℕ)
    → x < 2 ^ 32
    → IsValid b
    → content b ≡ be_bytes 4 x ++ rest
    → (b' : Buffer) × (read_int32 b ≡ some (x, b')) × IsValid b' × (content b' ≡ rest)
unfolding read_int32 peek_int32 retrieve_int32
read_int32_front b x rest h v e =
    let r = after_front b 4 x rest v e in
    (
      r.buffer,
      rw (readable b 4 x rest v e, peek_front b 4 x rest v e, from_be-be_bytes_four x h, r.returns),
      r.valid,
      r.shows,
    )

pub read_int16_front :
    (b : Buffer) (x : ℕ) (rest : List ℕ)
    → x < 2 ^ 16
    → IsValid b
    → content b ≡ be_bytes 2 x ++ rest
    → (b' : Buffer) × (read_int16 b ≡ some (x, b')) × IsValid b' × (content b' ≡ rest)
unfolding read_int16 peek_int16 retrieve_int16
read_int16_front b x rest h v e =
    let r = after_front b 2 x rest v e in
    (
      r.buffer,
      rw (readable b 2 x rest v e, peek_front b 2 x rest v e, from_be-be_bytes_two x h, r.returns),
      r.valid,
      r.shows,
    )

pub read_int8_front :
    (b : Buffer) (x : ℕ) (rest : List ℕ)
    → x < 2 ^ 8
    → IsValid b
    → content b ≡ be_bytes 1 x ++ rest
    → (b' : Buffer) × (read_int8 b ≡ some (x, b')) × IsValid b' × (content b' ≡ rest)
unfolding read_int8 peek_int8 retrieve_int8
read_int8_front b x rest h v e =
    let r = after_front b 1 x rest v e in
    (
      r.buffer,
      rw (readable b 1 x rest v e, peek_front b 1 x rest v e, from_be-be_bytes_one x h, r.returns),
      r.valid,
      r.shows,
    )

-- A 32-bit integer that is put before the readable bytes, where four bytes are free, is read
-- next, and reading it leaves the readable bytes of before.
pub read_int32-prepend_int32 :
    (b : Buffer) (x : ℕ)
    → x < 2 ^ 32
    → IsValid b
    → 4 ≤ prependable_bytes b
    → (b' : Buffer) × ((prepend_int32 b x >>= read_int32) ≡ some (x, b'))
      × IsValid b'
      × (content b' ≡ content b)
unfolding prepend_int32
read_int32-prepend_int32 b x h v room =
    let p = prepend-Holds b (be_bytes 4 x) v (omega (arith, length-be_bytes 4 x)) in
    let (b', reads, valid, shows) = read_int32_front p.buffer x (content b) h p.valid p.shows in
    (b', rw p.returns reads, valid, shows)

pub read_int16-prepend_int16 :
    (b : Buffer) (x : ℕ)
    → x < 2 ^ 16
    → IsValid b
    → 2 ≤ prependable_bytes b
    → (b' : Buffer) × ((prepend_int16 b x >>= read_int16) ≡ some (x, b'))
      × IsValid b'
      × (content b' ≡ content b)
unfolding prepend_int16
read_int16-prepend_int16 b x h v room =
    let p = prepend-Holds b (be_bytes 2 x) v (omega (arith, length-be_bytes 2 x)) in
    let (b', reads, valid, shows) = read_int16_front p.buffer x (content b) h p.valid p.shows in
    (b', rw p.returns reads, valid, shows)

pub read_int8-prepend_int8 :
    (b : Buffer) (x : ℕ)
    → x < 2 ^ 8
    → IsValid b
    → 1 ≤ prependable_bytes b
    → (b' : Buffer) × ((prepend_int8 b x >>= read_int8) ≡ some (x, b'))
      × IsValid b'
      × (content b' ≡ content b)
unfolding prepend_int8
read_int8-prepend_int8 b x h v room =
    let p = prepend-Holds b (be_bytes 1 x) v (omega (arith, length-be_bytes 1 x)) in
    let (b', reads, valid, shows) = read_int8_front p.buffer x (content b) h p.valid p.shows in
    (b', rw p.returns reads, valid, shows)

-- An integer appended to an empty buffer is read back, and leaves it empty.
pub read_int32-append_int32 :
    (b : Buffer) (x : ℕ)
    → x < 2 ^ 32
    → IsValid b
    → Fits b 4
    → content b ≡ []
    → (b' : Buffer) × ((append_int32 b x >>= read_int32) ≡ some (x, b'))
      × IsValid b'
      × (content b' ≡ [])
unfolding append_int32
read_int32-append_int32 b x h v fits empty =
    let p = append-Holds b (be_bytes 4 x) v (omega (arith, length-be_bytes 4 x)) in
    let shown : content p.buffer ≡ be_bytes 4 x ++ [] =
      p.shows ∙ ap (λ t. t ++ be_bytes 4 x) empty ∙ sym (append-nil (be_bytes 4 x)) in
    let (b', reads, valid, shows) = read_int32_front p.buffer x [] h p.valid shown in
    (b', rw p.returns reads, valid, shows)
