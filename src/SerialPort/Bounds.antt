-- ===== src/SerialPort/Bounds.antt =====
-- The read loop stays within its buffer.
use dbdky_gcc.Common.{
  ℕ, ◌+◌, ◌≤◌, ◌<◌, ◌≡◌, refl, ◌∙◌, Option, none, some, List, [], ◌∷◌, ◌++◌, length, overwrite, All,
  arith, ◌==◌, leb, true, Bool-cases, inl, inr, length-overwrite, length-replicate,
}
use dbdky_gcc.Codec.{
  DbInsert, ParseCode, parse_success, parse_error_length_short, parse_error_other,
}
use dbdky_gcc.SerialPort.{
  CodecObject, Listener, StoreCall, Turn, cleared, handle, listen_turn, listen, store_calls,
}

-- A codec that gives an answer for each 256 bytes, and waits below `w` bytes only.
pub record IsAnswering {F : Type 0} (codec : CodecObject F) (w : ℕ) : Type 0 where
  pub answers :
      (buffer : List ℕ) (len : ℕ) (out : DbInsert)
      → length buffer ≡ 256
      → (r : ParseCode × DbInsert) × (codec.0.parser codec.1 buffer len out ≡ some r)
        × (r.0 ≡ parse_error_length_short → len < w)

-- The loop has its whole buffer, and fewer than `w` bytes in it.
pub record IsWithin (w : ℕ) (s : Listener) : Type 0 where
  pub whole : length s.read_buf ≡ 256
  pub below : s.n < w

abbrev pub Answers : {F : Type 0} → ℕ → Option (CodecObject F) → Type 0
Answers w none = Unit
Answers w (some codec) = IsAnswering codec w

-- `read` gives at most what lies behind `w` bytes, and the codec, if one is set, answers.
abbrev pub IsMild : {F : Type 0} → ℕ → Turn F → Type 0
IsMild w t = (w + length t.bytes ≤ 257) × Answers w t.pcodec

-- The loop goes on, with such a state.
abbrev pub Continues : ℕ → Option (Listener × List StoreCall) → Type 0
Continues w o = (r : Listener × List StoreCall) × (o ≡ some r) × IsWithin w r.0

pub cleared-IsWithin : (w : ℕ) → 0 < w → IsWithin w cleared
unfolding cleared
cleared-IsWithin w room = record { whole = length-replicate {A = ℕ} 256 0; below = room }

module _ {F : Type 0} (w : ℕ) (room : 0 < w) where
  handle-Continues :
      (pcodec : Option (CodecObject F)) (out : DbInsert) (read_buf : List ℕ) (n : ℕ)
      → Answers w pcodec
      → length read_buf ≡ 256
      → Continues w (handle pcodec out read_buf n)
  unfolding handle
  handle-Continues none out read_buf n safe whole = ((cleared, []), refl, cleared-IsWithin w room)
  handle-Continues (some codec) out read_buf n safe whole =
      let (r, e, short) = safe.answers read_buf n out whole in finish r e short
    where
      finish :
          (r : ParseCode × DbInsert)
          → codec.0.parser codec.1 read_buf n out ≡ some r
          → (r.0 ≡ parse_error_length_short → n < w)
          → Continues w (handle (some codec) out read_buf n)
      finish (parse_success, d) e short =
          ((cleared, store_calls d 0 d.ln_id_array_size), rw e refl, cleared-IsWithin w room)
      finish (parse_error_other, d) e short = ((cleared, []), rw e refl, cleared-IsWithin w room)
      finish (parse_error_length_short, d) e short = (
        (record { read_buf = read_buf; n = n }, []),
        rw e refl,
        record { whole = whole; below = short refl },
      )

  listen_turn-Continues :
      (t : Turn F) (s : Listener) → IsMild w t → IsWithin w s → Continues w (listen_turn t s)
  unfolding listen_turn
  listen_turn-Continues t s mild h = elim (Bool-cases (length t.bytes == 0)) [
    | inl e ↦ ((s, []), rw e refl, h)
    | inr e ↦
        let inside : leb (s.n + length t.bytes) (length s.read_buf) ≡ true =
          ground (arith, mild.0, h.whole, h.below) in
        rw (e, inside)
          (handle-Continues t.pcodec t.stack_out (overwrite s.read_buf s.n t.bytes)
            (s.n + length t.bytes) mild.1 (length-overwrite s.read_buf s.n t.bytes ∙ h.whole))
  ]

  -- From a state with the whole buffer and fewer than `w` bytes in it, the loop never writes
  -- outside the buffer and never stops, as long as a `read` gives at most `257 - w` bytes and the
  -- codecs answer: after any turns it is in such a state again.
  pub listen-Continues :
      (turns : List (Turn F)) (s : Listener)
      → All (IsMild w) turns
      → IsWithin w s
      → Continues w (listen turns s)
  unfolding listen
  listen-Continues [] s mild h = ((s, []), refl, h)
  listen-Continues (t ∷ turns) s mild h =
      let (one, e, k) = listen_turn-Continues t s mild.0 h in
      let (rest, e', k') = listen-Continues turns one.0 mild.1 k in
      ((rest.0, one.1 ++ rest.1), rw (e, e') refl, k')
