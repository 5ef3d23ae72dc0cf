-- ===== src/TcpConnection/Writing.antt =====
-- The bytes in a connection's buffer reach the socket in their order.
use dbdky_gcc.Common.{
  ℕ, ◌≤◌, ◌≡◌, refl, ap, [], ◌++◌, length, take, drop, true, false, ◌==◌, arith, inl, inr,
  Bool-cases, length-drop, take-append-drop,
}
use mathlib.Core.List.{append_assoc, append-nil}
use dbdky_gcc.Buffer.{retrieve, readable_bytes, content}
use dbdky_gcc.Buffer.Content.{Holds, retrieve-Holds}
use dbdky_gcc.TcpConnection.{
  Connection, Written, wrote, failed, is_disconnected, after_write, finish_write, handle_write,
}
use dbdky_gcc.TcpConnection.Valid.{IsValid, IsAnswer, Delivers, readable, unchanged, nil_of_length}
use dbdky_gcc.TcpConnection.Delivery.{Delivers-of}

-- `handleWrite` moves bytes from the front of the buffer to the socket.
module _ (c : Connection) (v : IsValid c) (open_state : is_disconnected c.state ≡ false) (n : ℕ)
    (le : n ≤ length (content c.output)) (unshut : c.shut ≡ false) where
  taken : Holds (retrieve c.output n) (drop n (content c.output))
  taken = retrieve-Holds c.output n v.output le

  abbrev moved : Connection
  moved = record c { output = taken.buffer; wire = c.wire ++ take n (content c.output) }

  moved_order : moved.wire ++ content moved.output ≡ (c.wire ++ content c.output) ++ []
  moved_order = simp (taken.shows, append-nil, append_assoc, take-append-drop)

  drained-Delivers :
      (readable_bytes taken.buffer == 0) ≡ true
      → (n == 0) ≡ false
      → Delivers (after_write (wrote n) c) c []
  drained-Delivers e some_taken = record {
    after = finish_write moved;
    returns = rw (some_taken, taken.returns, e) refl;
    valid = record {
      input = v.input;
      output = taken.valid;
      waits = λ o. ground (arith, e, readable taken.buffer taken.valid);
      closed = λ o. absurd (cc (o, open_state));
      drained = λ o t. nil_of_length _ (ground (arith, e, readable taken.buffer taken.valid));
    };
    order = moved_order;
    state = refl;
  }

  partly-Delivers :
      (readable_bytes taken.buffer == 0) ≡ false
      → (n == 0) ≡ false
      → Delivers (after_write (wrote n) c) c []
  partly-Delivers e some_taken = record {
    after = moved;
    returns = rw (some_taken, taken.returns, e) refl;
    valid = record {
      input = v.input;
      output = taken.valid;
      waits = λ o. ground (
        arith,
        e,
        v.waits o,
        readable taken.buffer taken.valid,
        ap length taken.shows,
        length-drop n (content c.output),
      );
      closed = λ o. absurd (cc (o, open_state));
      drained = λ o t. absurd (cc (unshut, t));
    };
    order = moved_order;
    state = refl;
  }

  took-Delivers : Delivers (after_write (wrote n) c) c []
  took-Delivers = elim (Bool-cases (n == 0)) [
    | inl nothing ↦ Delivers-of (rw nothing refl) (unchanged c v)
    | inr some_taken ↦ elim (Bool-cases (readable_bytes taken.buffer == 0)) [
      | inl e ↦ drained-Delivers e some_taken
      | inr e ↦ partly-Delivers e some_taken
    ]
  ]

after_write-Delivers :
    (answer : Written) (c : Connection)
    → IsValid c
    → is_disconnected c.state ≡ false
    → IsAnswer (length (content c.output)) c.shut answer
    → Delivers (after_write answer c) c []
after_write-Delivers (wrote n) c v o le = took-Delivers c v o n le.0 le.1
after_write-Delivers (failed errno) c v o le = unchanged c v

-- `handleWrite` returns, and whatever part of the buffer `write` took, the bytes on the socket and in the
-- buffer stay the same ones in the same order; the poller is asked to write exactly while bytes wait.
pub handle_write-Delivers :
    (answer : Written) (c : Connection)
    → IsValid c
    → IsAnswer (length (content c.output)) c.shut answer
    → Delivers (handle_write answer c) c []
unfolding handle_write
handle_write-Delivers answer c v a = elim (Bool-cases c.interest.writing) [
  | inl busy ↦ elim (Bool-cases (is_disconnected c.state)) [
    | inl closed ↦ absurd (cc (busy, ap (λ i. i.writing) (v.closed closed)))
    | inr o ↦ Delivers-of (rw busy refl) (after_write-Delivers answer c v o a)
  ]
  | inr idle ↦ Delivers-of (rw idle refl) (unchanged c v)
]
