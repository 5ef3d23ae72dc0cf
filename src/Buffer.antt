-- ===== src/Buffer.antt =====
-- src/port/Buffer.h and src/port/Buffer.cpp: the byte buffer of the network layer. A byte is its
-- unsigned value, an `int32_t` its bit pattern. An operation whose `assert` fails returns `none`.
pub mod Integers
pub mod Bounds
pub mod Content
pub mod Refine
use dbdky_gcc.Common.{
  ℕ, suc, ◌+◌, ◌-◌, ◌≤◌, ◌<◌, Option, none, some, List, [], ◌∷◌, ◌++◌, ltb, leb, ◌==◌,
  if◌then◌else◌, length, take, drop, replicate, overwrite, ◌>>=◌, ◌>>◌, assert, size_add, size_sub,
}
use dbdky_gcc.Common.Int.{ℤ, pos, negsuc, to_int32}
use Integers.{be_bytes, from_be}

abbrev pub cheap_prepend : ℕ
cheap_prepend = 8

abbrev pub initial_size : ℕ
initial_size = 1024

-- The fields `buffer_`, `readerIndex_` and `writerIndex_`.
pub record Buffer : Type 0 where
  pub bytes : List ℕ
  pub reader : ℕ
  pub writer : ℕ

unfoldable pub new_buffer : Buffer
new_buffer = record {
  bytes = replicate (cheap_prepend + initial_size) 0;
  reader = cheap_prepend;
  writer = cheap_prepend;
}

pub swap : Buffer → Buffer → Buffer × Buffer
swap a b = (b, a)

abbrev pub readable_bytes : Buffer → ℕ
readable_bytes b = size_sub b.writer b.reader

abbrev pub writable_bytes : Buffer → ℕ
writable_bytes b = size_sub (length b.bytes) b.writer

abbrev pub prependable_bytes : Buffer → ℕ
prependable_bytes b = b.reader

-- What `peek()` points at: the bytes from `readerIndex_` on.
abbrev pub peek : Buffer → List ℕ
peek b = drop b.reader b.bytes

-- The range from `peek()` to `beginWrite()`.
abbrev pub content : Buffer → List ℕ
content b = drop b.reader (take b.writer b.bytes)

pub retrieve_all : Buffer → Buffer
retrieve_all b = record b { reader = cheap_prepend; writer = cheap_prepend }

unfoldable pub retrieve : Buffer → ℕ → Option Buffer
unfolding retrieve_all
retrieve b len = do
  assert (leb len (readable_bytes b))
  some (
      if ltb len (readable_bytes b)
      then record b { reader = size_add b.reader len }
      else retrieve_all b)

-- The argument `end` as an index into the vector.
abbrev pub retrieve_until : Buffer → ℕ → Option Buffer
retrieve_until b end = do
  assert (leb b.reader end)
  assert (leb end b.writer)
  retrieve b (size_sub end b.reader)

pub retrieve_int32 : Buffer → Option Buffer
retrieve_int32 b = retrieve b 4

pub retrieve_int16 : Buffer → Option Buffer
retrieve_int16 b = retrieve b 2

pub retrieve_int8 : Buffer → Option Buffer
retrieve_int8 b = retrieve b 1

pub retrieve_as_string : Buffer → ℕ → Option (List ℕ × Buffer)
retrieve_as_string b len = do
  assert (leb len (readable_bytes b))
  let result = take len (peek b)
  b' ← retrieve b len
  some (result, b')

abbrev pub retrieve_all_as_string : Buffer → Option (List ℕ × Buffer)
retrieve_all_as_string b = retrieve_as_string b (readable_bytes b)

-- `std::vector::resize`.
abbrev pub resize : List ℕ → ℕ → List ℕ
resize xs n = take n xs ++ replicate (n - length xs) 0

-- The two ways of `makeSpace`: a longer vector, or the readable bytes moved to the front.
abbrev pub grow : Buffer → ℕ → Buffer
grow b len = record b { bytes = resize b.bytes (size_add b.writer len) }

abbrev pub compact : Buffer → Buffer
compact b = record {
  bytes = overwrite b.bytes cheap_prepend (content b);
  reader = cheap_prepend;
  writer = size_add cheap_prepend (readable_bytes b);
}

unfoldable pub make_space : Buffer → ℕ → Option Buffer
make_space b len =
    if ltb (size_add (writable_bytes b) (prependable_bytes b)) (size_add len cheap_prepend)
    then some (grow b len)
    else do
      assert (ltb cheap_prepend b.reader)
      assert (readable_bytes b == readable_bytes (compact b))
      some (compact b)

unfoldable pub ensure_writable_bytes : Buffer → ℕ → Option Buffer
ensure_writable_bytes b len = do
  b' ← if ltb (writable_bytes b) len then make_space b len else some b
  assert (leb len (writable_bytes b'))
  some b'

pub has_written : Buffer → ℕ → Buffer
has_written b len = record b { writer = size_add b.writer len }

-- `append(data, len)` with the `len` bytes of the list; the overloads differ in the pointer's type.
unfoldable pub append : Buffer → List ℕ → Option Buffer
append b text = do
  b' ← ensure_writable_bytes b (length text)
  some (has_written (record b' { bytes = overwrite b'.bytes b'.writer text }) (length text))

pub append_int32 : Buffer → ℕ → Option Buffer
append_int32 b x = append b (be_bytes 4 x)

abbrev pub append_int16 : Buffer → ℕ → Option Buffer
append_int16 b x = append b (be_bytes 2 x)

abbrev pub append_int8 : Buffer → ℕ → Option Buffer
append_int8 b x = append b (be_bytes 1 x)

pub peek_int32 : Buffer → Option ℕ
peek_int32 b = do assert (leb 4 (readable_bytes b)); some (from_be (take 4 (peek b)))

pub peek_int16 : Buffer → Option ℕ
peek_int16 b = do assert (leb 2 (readable_bytes b)); some (from_be (take 2 (peek b)))

pub peek_int8 : Buffer → Option ℕ
peek_int8 b = do assert (leb 1 (readable_bytes b)); some (from_be (take 1 (peek b)))

pub read_int32 : Buffer → Option (ℕ × Buffer)
read_int32 b = do result ← peek_int32 b; b' ← retrieve_int32 b; some (result, b')

pub read_int16 : Buffer → Option (ℕ × Buffer)
read_int16 b = do result ← peek_int16 b; b' ← retrieve_int16 b; some (result, b')

pub read_int8 : Buffer → Option (ℕ × Buffer)
read_int8 b = do result ← peek_int8 b; b' ← retrieve_int8 b; some (result, b')

unfoldable pub prepend : Buffer → List ℕ → Option Buffer
prepend b text = do
  assert (leb (length text) (prependable_bytes b))
  let start = size_sub b.reader (length text)
  some (record b { bytes = overwrite b.bytes start text; reader = start })

pub prepend_int32 : Buffer → ℕ → Option Buffer
prepend_int32 b x = prepend b (be_bytes 4 x)

pub prepend_int16 : Buffer → ℕ → Option Buffer
prepend_int16 b x = prepend b (be_bytes 2 x)

pub prepend_int8 : Buffer → ℕ → Option Buffer
prepend_int8 b x = prepend b (be_bytes 1 x)

-- The bytes from `peek` that a StringPiece of this length has; none has a negative length.
unfoldable pub string_piece : List ℕ → ℤ → Option (List ℕ)
string_piece bytes (pos n) = some (take n bytes)
string_piece bytes (negsuc n) = none

-- `toStringPiece`: the size becomes an `int`.
unfoldable pub to_string_piece : Buffer → Option (List ℕ)
to_string_piece b = string_piece (peek b) (to_int32 (pos (readable_bytes b)))

-- `Buffer other`, filled and swapped in; the old contents go with `other`.
unfoldable pub shrink : Buffer → ℕ → Option Buffer
shrink b reserve = do
  other ← ensure_writable_bytes new_buffer (size_add (readable_bytes b) reserve)
  text ← to_string_piece b
  filled ← append other text
  some (swap b filled).0

-- What `readv` answers: an `errno`, or the bytes that it has stored, first into the writable part
-- of the buffer and then into `extrabuf`, which holds 65536.
pub data ReadV : Type 0 where
  failed : ℕ → ReadV
  got : List ℕ → ReadV

-- The saved `errno`, if any, stands beside the new buffer; `n` is the length of the bytes.
unfoldable pub read_fd : Buffer → ReadV → Option (Option ℕ × Buffer)
read_fd b (failed errno) = some (some errno, b)
read_fd b (got text) =
    let writable = writable_bytes b in
    let stored : Buffer = record b { bytes = overwrite b.bytes b.writer (take writable text) } in
    if leb (length text) writable
    then some (none, record stored { writer = size_add b.writer (length text) })
    else do
      b' ← append (record stored { writer = length b.bytes }) (drop writable text)
      some (none, b')
