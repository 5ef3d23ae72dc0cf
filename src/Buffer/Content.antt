-- ===== src/Buffer/Content.antt =====
-- What the operations of the buffer do to its readable bytes, the queue that a client sees.
use dbdky_gcc.Common.{
  ℕ, ◌+◌, ◌-◌, ◌%◌, ◌^◌, ◌≤◌, ◌<◌, ◌≡◌, refl, ap, ◌∙◌, sym, Option, none, some, List, [], ◌++◌, ltb,
  leb, length, take, drop, overwrite, ◌>>=◌, size_add, size_sub, size_mod, arith, length-overwrite,
  length-take, length-drop, take-append, take_all, drop-append, drop-drop, take-drop,
  take-append-drop, drop_all, take-overwrite, take-append_right, drop-append_right, true,
  Bool-cases, inl, inr, overwrite-split,
}
use mathlib.Core.Option
use mathlib.Core.List.{append_assoc}
use native.Mathlib.Nat.{le_refl}
use dbdky_gcc.Buffer.{
  Buffer, initial_size, swap, new_buffer, cheap_prepend, readable_bytes, writable_bytes,
  prependable_bytes, content, peek, retrieve_all, retrieve, retrieve_as_string,
  ensure_writable_bytes, has_written, append, prepend, shrink, got, read_fd, string_piece,
  to_string_piece,
}
use dbdky_gcc.Common.Int.{to_int32}
use dbdky_gcc.Buffer.Bounds.{
  IsValid, Fits, ensure_writable_bytes-Makes, length-content, new_buffer-IsValid,
}

-- The outcome is a buffer within the invariant whose readable bytes are `xs`.
pub record Holds (r : Option Buffer) (xs : List ℕ) : Type 0 where
  pub buffer : Buffer
  pub returns : r ≡ some buffer
  pub valid : IsValid buffer
  pub shows : content buffer ≡ xs

-- Bytes written behind the readable ones, with the writer moved behind them.
abbrev written : Buffer → List ℕ → ℕ → Buffer
written b text end = record b { bytes = overwrite b.bytes b.writer text; writer = end }

module _ (b : Buffer) (text : List ℕ) (end : ℕ) (v : IsValid b)
    (moved : end ≡ b.writer + length text) (h : end ≤ length b.bytes) where
  written-IsValid : IsValid (written b text end)
  written-IsValid = omega (arith, length-overwrite b.bytes b.writer text, v)

  content-written : content (written b text end) ≡ content b ++ text
  content-written =
      ap (drop b.reader) (take-overwrite b.bytes b.writer end text (omega arith) moved)
      ∙ drop-append (take b.writer b.bytes) text b.reader
          (omega (arith, v, length-take b.writer b.bytes))

written-Holds :
    (b : Buffer) (text : List ℕ) (end : ℕ)
    → IsValid b
    → end ≡ b.writer + length text
    → end ≤ length b.bytes
    → Holds (some (written b text end)) (content b ++ text)
written-Holds b text end v moved h = record {
  buffer = written b text end;
  returns = refl;
  valid = written-IsValid b text end v moved h;
  shows = content-written b text end v moved h;
}

pub append-Holds :
    (b : Buffer) (text : List ℕ)
    → IsValid b
    → Fits b (length text)
    → Holds (append b text) (content b ++ text)
unfolding append has_written
append-Holds b text v fits =
    let m = ensure_writable_bytes-Makes b (length text) v fits in
    rw (m.returns, ← m.kept)
      (written-Holds m.made text _ m.valid (omega (arith, m.valid, m.roomy))
        (omega (arith, m.valid, m.roomy)))

pub retrieve-Holds :
    (b : Buffer) (len : ℕ)
    → IsValid b
    → len ≤ length (content b)
    → Holds (retrieve b len) (drop len (content b))
unfolding retrieve
retrieve-Holds b len v h = elim (Bool-cases (ltb len (readable_bytes b))) [
  | inl e ↦ record {
    buffer = record b { reader = size_add b.reader len };
    returns = ground arith;
    valid = ground arith;
    shows =
        ap (λ t. drop t (take b.writer b.bytes)) (ground arith)
        ∙ sym (drop-drop (take b.writer b.bytes) b.reader len);
  }
  | inr e ↦ record {
    buffer = retrieve_all b;
    returns = ground (arith, length-content b v);
    valid = omega (arith, v);
    shows =
        drop_all (take cheap_prepend b.bytes) cheap_prepend
          (omega (arith, length-take cheap_prepend b.bytes))
        ∙ sym (drop_all (content b) len (ground (arith, length-content b v)));
  }
]

-- Bytes that fit the space in front stand before the readable ones after `prepend`.
pub prepend-Holds :
    (b : Buffer) (text : List ℕ)
    → IsValid b
    → length text ≤ prependable_bytes b
    → Holds (prepend b text) (text ++ content b)
unfolding prepend
prepend-Holds b text v h = record {
  buffer = after;
  returns = ground arith;
  valid = omega (arith, v, length-overwrite b.bytes start text);
  shows =
      ap (λ t. drop start (take b.writer t)) (overwrite-split b.bytes start text (omega (arith, v)))
      ∙ ap (drop start) (
          take-append_right (take start b.bytes) behind b.writer (b.writer - start)
            (omega (arith, v, front)))
      ∙ drop-append_right (take start b.bytes) (take (b.writer - start) behind) start 0
          (omega (arith, v, front))
      ∙ take-append_right text (drop (start + length text) b.bytes) (b.writer - start)
          (b.writer - b.reader) (omega (arith, v))
      ∙ ap (λ t. text ++ take (b.writer - b.reader) (drop t b.bytes)) (omega arith)
      ∙ ap (λ t. text ++ t) (take-drop b.bytes b.reader (b.writer - b.reader))
      ∙ ap (λ t. text ++ drop b.reader (take t b.bytes)) (omega (arith, v));
}
  where
    start : ℕ
    start = size_sub b.reader (length text)

    behind : List ℕ
    behind = text ++ drop (start + length text) b.bytes

    after : Buffer
    after = record b { bytes = overwrite b.bytes start text; reader = start }

    front : length (take start b.bytes) ≡ start
    front = omega (arith, v, length-take start b.bytes)

take-take : (xs : List ℕ) (m n : ℕ) → m ≤ n → n ≤ length xs → take m (take n xs) ≡ take m xs
take-take xs m n h k =
    sym (take-append (take n xs) (drop n xs) m (omega (arith, length-take n xs)))
    ∙ ap (take m) (take-append-drop n xs)

-- A read of readable bytes does not look past them.
pub peek-content :
    (b : Buffer) (len : ℕ)
    → IsValid b
    → len ≤ length (content b)
    → take len (peek b) ≡ take len (content b)
peek-content b len v h =
    take-drop b.bytes b.reader len
    ∙ ap (drop b.reader) (
        sym (
          take-take b.bytes (b.reader + len) b.writer (omega (arith, length-content b v, v))
            v.within))
    ∙ sym (take-drop (take b.writer b.bytes) b.reader len)

-- `retrieveAsString` hands out the first `len` readable bytes and keeps the rest.
pub retrieve_as_string_lem :
    (b : Buffer) (len : ℕ)
    → IsValid b
    → len ≤ length (content b)
    → (b' : Buffer) × (retrieve_as_string b len ≡ some (take len (content b), b'))
      × IsValid b'
      × (content b' ≡ drop len (content b))
unfolding retrieve_as_string
retrieve_as_string_lem b len v h =
    let r = retrieve-Holds b len v h in
    (
      r.buffer,
      ground (arith, r.returns, peek-content b len v h, length-content b v),
      r.valid,
      r.shows,
    )

-- The first area filled, then the rest appended.
read_fd_spill :
    (b : Buffer) (text : List ℕ)
    → IsValid b
    → Fits b (length text)
    → length b.bytes - b.writer < length text
    → Holds
        (append
          (written b (take (writable_bytes b) text) (length b.bytes))
          (drop (writable_bytes b) text))
        (content b ++ text)
read_fd_spill b text v fits h = rw (← together) (
    append-Holds (written b first (length b.bytes)) rest
      (written-IsValid b first _ v filled (le_refl _))
      (omega (arith, length-drop (writable_bytes b) text, v)))
  where
    first : List ℕ
    first = take (writable_bytes b) text

    rest : List ℕ
    rest = drop (writable_bytes b) text

    filled : length b.bytes ≡ b.writer + length first
    filled = omega (arith, length-take (writable_bytes b) text, v)

    together : content (written b first (length b.bytes)) ++ rest ≡ content b ++ text
    together =
        ap (λ t. t ++ rest) (content-written b first (length b.bytes) v filled (le_refl _))
        ∙ append_assoc (content b) first rest
        ∙ ap (λ t. content b ++ t) (take-append-drop (writable_bytes b) text)

-- A bind and a projection that only pass the buffer on.
passed_on :
    (r : Option Buffer)
    → Option.map (λ (p : Option ℕ × Buffer). p.1) (r >>= λ b. some (none, b)) ≡ r
passed_on none = refl
passed_on (some b) = refl

-- The bytes that `readv` delivers are appended, however they fall into the two areas.
pub read_fd-Holds :
    (b : Buffer) (text : List ℕ)
    → IsValid b
    → Fits b (length text)
    → Holds (Option.map (λ r. r.1) (read_fd b (got text))) (content b ++ text)
unfolding read_fd
read_fd-Holds b text v fits = elim (Bool-cases (leb (length text) (writable_bytes b))) [
  | inl e ↦
      rw (e, take_all text (writable_bytes b) (ground arith))
        (written-Holds b text _ v (ground arith) (ground arith))
  | inr e ↦
      rw
        (
          e,
          passed_on (
              append (written b (take (writable_bytes b) text) (length b.bytes))
                (drop (writable_bytes b) text)),
        )
        (read_fd_spill b text v fits (ground arith))
]

new_buffer_fields : (new_buffer.writer ≡ cheap_prepend) × (content new_buffer ≡ [])
unfolding new_buffer
new_buffer_fields = (refl, refl)

-- Where the bytes fit, `append` needs no new space.
append_roomy-Holds :
    (b : Buffer) (text : List ℕ)
    → IsValid b
    → b.writer + length text ≤ length b.bytes
    → Holds (append b text) (content b ++ text)
unfolding append ensure_writable_bytes has_written
append_roomy-Holds b text v h = elim (Bool-cases (ltb (writable_bytes b) (length text))) [
  | inl e ↦ absurd (ground arith)
  | inr e ↦ rw (e, lt-leb) (written-Holds b text _ v (omega (arith, v)) (omega (arith, v)))
]
  where
    lt-leb : leb (length text) (writable_bytes b) ≡ true
    lt-leb = ground (arith, v)

rewrapped : (r : Option Buffer) → (r >>= λ filled. some filled) ≡ r
rewrapped none = refl
rewrapped (some b) = refl

peek_all : (b : Buffer) → IsValid b → take (readable_bytes b) (peek b) ≡ content b
peek_all b v =
    peek-content b (readable_bytes b) v (omega (arith, length-content b v, v))
    ∙ take_all (content b) (readable_bytes b) (omega (arith, length-content b v, v))

to_string_piece-content :
    (b : Buffer) → IsValid b → length (content b) < 2 ^ 31 → to_string_piece b ≡ some (content b)
unfolding to_string_piece string_piece to_int32
to_string_piece-content b v small =
    let low : (readable_bytes b % 2 ^ 32) ≡ readable_bytes b =
      omega (arith, small, length-content b v) in
    let test : ltb (readable_bytes b) (2 ^ 31) ≡ true = ground (arith, small, length-content b v) in
    rw (low, test) (ap some (peek_all b v))

-- `shrink` keeps the readable bytes.
pub shrink-Holds :
    (b : Buffer) (reserve : ℕ)
    → IsValid b
    → length (content b) + reserve + initial_size < size_mod
    → length (content b) < 2 ^ 31
    → Holds (shrink b reserve) (content b)
unfolding shrink swap
shrink-Holds b reserve v fits small =
    let room = size_add (readable_bytes b) reserve in
    let m =
      ensure_writable_bytes-Makes new_buffer room new_buffer-IsValid
        (omega (arith, new_buffer_fields, length-content b v)) in
    rw (m.returns, to_string_piece-content b v small, rewrapped (append m.made (content b)))
      (rw (ap (λ t. t ++ content b) (m.kept ∙ new_buffer_fields.1)) at (
        append_roomy-Holds m.made (content b) m.valid
          (omega (arith, m.roomy, length-content b v, v))))
