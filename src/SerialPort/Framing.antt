-- ===== src/SerialPort/Framing.antt =====
-- How the read loop puts a frame together from the pieces that `read` gives.
use mathlib.Core.List.{append_assoc}
use dbdky_gcc.Common.{
  ℕ, ◌+◌, ◌≤◌, ◌<◌, ◌≡◌, refl, ap, sym, ◌∙◌, Option, none, some, List, [], ◌∷◌, ◌++◌, map, length,
  overwrite, arith, ◌==◌, leb, true, false, ◌>>=◌, ◌>>◌, assert, ap₂, length-append,
  length-overwrite, overwrite-nil, overwrite-overwrite,
}
use dbdky_gcc.Codec.{DbInsert, parse_error_length_short}
use dbdky_gcc.SerialPort.{CodecObject, Listener, StoreCall, Turn, handle, listen_turn, listen}

-- A codec that waits for more below `w` bytes.
pub record IsWaiting {F : Type 0} (codec : CodecObject F) (w : ℕ) : Type 0 where
  pub fits : w ≤ 256
  pub waits :
      (buffer : List ℕ) (len : ℕ) (out : DbInsert)
      → len < w
      → codec.0.parser codec.1 buffer len out ≡ some (parse_error_length_short, out)

-- The turns in which `read` gives these pieces.
abbrev pub turns : {F : Type 0} → CodecObject F → DbInsert → List (List ℕ) → List (Turn F)
turns codec out pieces =
    map (λ bytes. record { pcodec = some codec; stack_out = out; bytes = bytes }) pieces

abbrev pub joined : List (List ℕ) → List ℕ
joined [] = []
joined (bytes ∷ pieces) = bytes ++ joined pieces

module _ {F : Type 0} (codec : CodecObject F) (w : ℕ) (framer : IsWaiting codec w)
    (out : DbInsert) where
  abbrev turn : List ℕ → Turn F
  turn bytes = record { pcodec = some codec; stack_out = out; bytes = bytes }

  -- The state behind a piece that leaves the frame too short.
  abbrev after : Listener → List ℕ → Listener
  after s bytes = record { read_buf = overwrite s.read_buf s.n bytes; n = s.n + length bytes }

  after-nil : (s : Listener) → after s [] ≡ s
  after-nil s =
      ap₂ (λ t k. record { read_buf = t; n = k }) (overwrite-nil s.read_buf s.n) (omega arith)

  turn-short :
      (bytes : List ℕ) (s : Listener)
      → length s.read_buf ≡ 256
      → s.n + length bytes < w
      → listen_turn (turn bytes) s ≡ some (after s bytes, [])
  unfolding listen_turn handle
  turn-short [] s room h = ap (λ t. some (t, [])) (sym (after-nil s))
  turn-short (b ∷ bytes) s room h =
      let full : (length (b ∷ bytes) == 0) ≡ false = ground arith in
      let inside : leb (s.n + length (b ∷ bytes)) (length s.read_buf) ≡ true =
        ground (arith, framer.fits) in
      rw
        (
          full,
          inside,
          framer.waits (overwrite s.read_buf s.n (b ∷ bytes)) (s.n + length (b ∷ bytes)) out h,
        )
        refl

  -- Two pieces are read like one.
  turn-joined :
      (ys zs : List ℕ) (s : Listener)
      → 0 < length zs
      → listen_turn (turn zs) (after s ys) ≡ listen_turn (turn (ys ++ zs)) s
  unfolding listen_turn
  turn-joined ys zs s h =
      let full : (length zs == 0) ≡ false = ground arith in
      let still : (length (ys ++ zs) == 0) ≡ false = ground (arith, length-append ys zs) in
      let sum : s.n + length ys + length zs ≡ s.n + length (ys ++ zs) =
        omega (arith, length-append ys zs) in
      rw (full, still)
        (ap
            (λ l.
              handled l (overwrite (overwrite s.read_buf s.n ys) (s.n + length ys) zs)
                (s.n + length ys + length zs))
            (length-overwrite s.read_buf s.n ys)
          ∙ ap (λ b. handled (length s.read_buf) b (s.n + length ys + length zs))
              (overwrite-overwrite s.read_buf s.n ys zs)
          ∙ ap (handled (length s.read_buf) (overwrite s.read_buf s.n (ys ++ zs))) sum)
    where
      handled : ℕ → List ℕ → ℕ → Option (Listener × List StoreCall)
      handled l b k = assert (leb k l) >> handle (some codec) out b k

  listen-joined :
      (ys zs : List ℕ) (s : Listener)
      → 0 < length zs
      → listen (turn zs ∷ []) (after s ys) ≡ listen (turn (ys ++ zs) ∷ []) s
  unfolding listen
  listen-joined ys zs s h = ap (λ o. o >>= λ one. some (one.0, one.1 ++ [])) (turn-joined ys zs s h)

  no_calls : (o : Option (Listener × List StoreCall)) → (o >>= λ r. some (r.0, [] ++ r.1)) ≡ o
  no_calls none = refl
  no_calls (some r) = refl

  -- A frame that arrives in pieces, of which none before the last makes it long enough for the
  -- codec, is handled as if `read` had given it at once, with the same calls and the same state
  -- behind it. A `read` that gives nothing in between does not matter.
  pub listen-pieces :
      (pieces : List (List ℕ)) (last : List ℕ) (s : Listener)
      → length s.read_buf ≡ 256
      → s.n + length (joined pieces) < w
      → 0 < length last
      → listen (turns codec out (pieces ++ (last ∷ []))) s
        ≡ listen (turns codec out ((joined pieces ++ last) ∷ [])) s
  unfolding listen
  listen-pieces [] last s room h full = refl
  listen-pieces (bytes ∷ pieces) last s room h full =
      rw (turn-short bytes s room (omega (arith, size))) (
        no_calls (listen (turns codec out (pieces ++ (last ∷ []))) (after s bytes))
        ∙ listen-pieces pieces last (after s bytes) (length-overwrite s.read_buf s.n bytes ∙ room)
            (omega (arith, size)) full
        ∙ listen-joined bytes (joined pieces ++ last) s
            (omega (arith, length-append (joined pieces) last))
        ∙ ap (λ t. listen (turns codec out (t ∷ [])) s)
            (sym (append_assoc bytes (joined pieces) last)))
    where
      size : length (bytes ++ joined pieces) ≡ length bytes + length (joined pieces)
      size = length-append bytes (joined pieces)
