-- ===== src/Buffer/Bounds.antt =====
-- The indices of the buffer: the invariant, and that within it no `assert` of an operation fails.
use dbdky_gcc.Common.{
  ℕ, ◌+◌, ◌-◌, ◌≤◌, ◌<◌, ◌≡◌, refl, ap, ◌∙◌, Option, some, List, ltb, length, take, drop, replicate,
  size_add, size_mod, arith, length-overwrite, length-append, length-take, length-drop,
  length-replicate, Bool-cases, inl, inr, take-append, take_all, take-overwrite, drop-append_right,
}
use dbdky_gcc.Buffer.{
  Buffer, new_buffer, cheap_prepend, grow, compact, readable_bytes, writable_bytes,
  prependable_bytes, content, resize, make_space, ensure_writable_bytes,
}

pub record IsValid (b : Buffer) : Type 0 where
  pub order : b.reader ≤ b.writer
  pub within : b.writer ≤ length b.bytes
  pub room : cheap_prepend ≤ length b.bytes
  pub size : length b.bytes < size_mod

pub new_buffer-IsValid : IsValid new_buffer
unfolding new_buffer
new_buffer-IsValid = omega arith

-- Within the invariant no subtraction wraps.
pub readable_bytes-eq : (b : Buffer) → IsValid b → readable_bytes b ≡ b.writer - b.reader
readable_bytes-eq b v = omega arith

pub writable_bytes-eq : (b : Buffer) → IsValid b → writable_bytes b ≡ length b.bytes - b.writer
writable_bytes-eq b v = omega arith

pub length-content : (b : Buffer) → IsValid b → length (content b) ≡ b.writer - b.reader
length-content b v =
    omega (arith, length-drop b.reader (take b.writer b.bytes), length-take b.writer b.bytes)

length-resize : (xs : List ℕ) (n : ℕ) → length (resize xs n) ≡ n
length-resize xs n = omega (
  arith,
  length-append (take n xs) (replicate (n - length xs) 0),
  length-take n xs,
  length-replicate {A = ℕ} (n - length xs) 0,
)

-- What makes room within the invariant keeps the readable bytes.
pub record Makes (b : Buffer) (len : ℕ) (r : Option Buffer) : Type 0 where
  pub made : Buffer
  pub returns : r ≡ some made
  pub valid : IsValid made
  pub roomy : made.writer + len ≤ length made.bytes
  pub kept : content made ≡ content b

-- The new size fits `size_t`, and so does the sum that `makeSpace` compares.
abbrev pub Fits : Buffer → ℕ → Type 0
Fits b len = b.writer + len + cheap_prepend < size_mod

grow-Makes :
    (b : Buffer) (len : ℕ)
    → IsValid b
    → Fits b len
    → length b.bytes < b.writer + len
    → Makes b len (some (grow b len))
grow-Makes b len v fits h = record {
  made = grow b len;
  returns = refl;
  valid = omega (arith, size, v);
  roomy = omega (arith, size, v);
  kept = ap (drop b.reader) (
      take-append (take (size_add b.writer len) b.bytes) _ b.writer
        (omega (arith, length-take (size_add b.writer len) b.bytes, v))
      ∙ ap (take b.writer) (take_all b.bytes (size_add b.writer len) (omega arith)));
}
  where
    size : length (grow b len).bytes ≡ b.writer + len
    size = omega (arith, length-resize b.bytes (size_add b.writer len))

compact-Makes :
    (b : Buffer) (len : ℕ)
    → IsValid b
    → Fits b len
    → len + cheap_prepend ≤ (length b.bytes - b.writer) + b.reader
    → Makes b len (some (compact b))
compact-Makes b len v fits h = record {
  made = compact b;
  returns = refl;
  valid = omega (arith, size, v);
  roomy = omega (arith, size, v);
  kept =
      ap (drop cheap_prepend) (
        take-overwrite b.bytes cheap_prepend (compact b).writer (content b)
          (omega (arith, length-content b v)) (omega (arith, length-content b v)))
      ∙ drop-append_right (take cheap_prepend b.bytes) (content b) cheap_prepend 0
          (omega (arith, length-take cheap_prepend b.bytes));
}
  where
    size : length (compact b).bytes ≡ length b.bytes
    size = length-overwrite b.bytes cheap_prepend (content b)

make_space-Makes :
    (b : Buffer) (len : ℕ)
    → IsValid b
    → Fits b len
    → length b.bytes < b.writer + len
    → Makes b len (make_space b len)
unfolding make_space
make_space-Makes b len v fits h =
    elim (Bool-cases
      (ltb (size_add (writable_bytes b) (prependable_bytes b)) (size_add len cheap_prepend))) [
        | inl e ↦ rw e (grow-Makes b len v fits h)
        | inr e ↦ ground (arith, compact-Makes b len v fits)
      ]

-- `ensureWritableBytes` succeeds, and what is readable stays.
pub ensure_writable_bytes-Makes :
    (b : Buffer) (len : ℕ) → IsValid b → Fits b len → Makes b len (ensure_writable_bytes b len)
unfolding ensure_writable_bytes
ensure_writable_bytes-Makes b len v fits = elim (Bool-cases (ltb (writable_bytes b) len)) [
  | inl e ↦
      let m = make_space-Makes b len v fits (ground arith) in
      record {
        made = m.made;
        returns = rw (e, m.returns) (ground (arith, m.valid, m.roomy));
        valid = m.valid;
        roomy = m.roomy;
        kept = m.kept;
      }
  | inr e ↦ record {
    made = b;
    returns = ground arith;
    valid = v;
    roomy = ground arith;
    kept = refl;
  }
]
