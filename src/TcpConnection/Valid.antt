-- ===== src/TcpConnection/Valid.antt =====
-- What holds of a connection between the calls, and what it means that bytes are delivered.
use dbdky_gcc.Common.{
  ℕ, ◌≤◌, ◌≡◌, refl, sym, Option, some, List, [], ◌∷◌, ◌++◌, length, Bool, true, false, ◌==◌, ltb,
  arith,
}
use mathlib.Core.List.{append-nil}
use dbdky_gcc.Buffer.{Buffer, readable_bytes, content}
use dbdky_gcc.Buffer.Bounds as Bounds
use dbdky_gcc.Buffer.Bounds.{Fits, length-content}
use dbdky_gcc.Channel.{no_interest}
use dbdky_gcc.TcpConnection.{Connection, Written, wrote, failed, epipe, is_disconnected}

-- Where the connection is open, the poller is asked to write exactly while bytes wait in the buffer, and
-- where the socket is shut for writing, none waits.
pub record IsValid (c : Connection) : Type 0 where
  pub input : Bounds.IsValid c.input
  pub output : Bounds.IsValid c.output
  pub waits :
      is_disconnected c.state ≡ false → c.interest.writing ≡ ltb 0 (length (content c.output))
  pub closed : is_disconnected c.state ≡ true → c.interest ≡ no_interest
  pub drained : is_disconnected c.state ≡ false → c.shut ≡ true → content c.output ≡ []

-- Whether `write` found the other end gone.
abbrev pub is_gone : Written → Bool
is_gone (wrote n) = false
is_gone (failed errno) = errno == epipe

-- What `write` may answer: no more bytes than it was given, and EPIPE on a socket that is shut.
abbrev pub IsAnswer : ℕ → Bool → Written → Type 0
IsAnswer len shut (wrote n) = (n ≤ len) × (shut ≡ false)
IsAnswer len shut (failed errno) = shut ≡ true → (errno == epipe) ≡ true

-- The call returns, the invariant holds, and behind the bytes that were taken before stands `text`.
pub record Delivers (r : Option Connection) (c : Connection) (text : List ℕ) : Type 0 where
  pub after : Connection
  pub returns : r ≡ some after
  pub valid : IsValid after
  pub order : after.wire ++ content after.output ≡ (c.wire ++ content c.output) ++ text
  pub state : after.state ≡ c.state

pub readable : (b : Buffer) → Bounds.IsValid b → readable_bytes b ≡ length (content b)
readable b v = omega (arith, length-content b v, Bounds.readable_bytes-eq b v)

pub unchanged : (c : Connection) → IsValid c → Delivers (some c) c []
unchanged c v = record {
  after = c;
  returns = refl;
  valid = v;
  order = sym (append-nil _);
  state = refl;
}

pub not_true : (b : Bool) → (b ≡ true → ⊥) → b ≡ false
not_true true h = absurd (h refl)
not_true false h = refl

pub nil_of_length : (xs : List ℕ) → length xs ≡ 0 → xs ≡ []
nil_of_length [] h = refl
nil_of_length (x ∷ xs) h = absurd (omega (arith, h))
