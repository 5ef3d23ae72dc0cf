-- ===== src/TcpConnection/Delivery.antt =====
-- The bytes that a connection takes reach the socket in their order.
use dbdky_gcc.Common.{
  ℕ, ◌≤◌, ◌≡◌, refl, ap, sym, ◌∙◌, Option, some, List, [], ◌++◌, length, drop, true, false, ◌&&◌,
  ◌||◌, not, ◌==◌, ltb, leb, if◌then◌else◌, arith, inl, inr, Bool-cases, size_sub, length-append,
  length-drop, take-append-drop,
}
use mathlib.Core.Path.{subst}
use mathlib.Core.List.{append_assoc, append-nil}
use dbdky_gcc.Buffer.{readable_bytes, content}
use dbdky_gcc.Buffer.Bounds.{Fits}
use dbdky_gcc.Buffer.Content.{append-Holds}
use dbdky_gcc.TcpConnection.{
  Connection, Written, wrote, failed, epipe, is_disconnected, first_write, try_write, keep_rest,
  send_rest, send_in_loop, hold, look_at_mark,
}
use dbdky_gcc.TcpConnection.Valid.{
  IsValid, is_gone, IsAnswer, Delivers, readable, unchanged, not_true, nil_of_length,
}

keep_rest-Delivers :
    (rest : List ℕ) (c : Connection)
    → IsValid c
    → is_disconnected c.state ≡ false
    → c.shut ≡ false
    → Fits c.output (length rest)
    → ltb 0 (length rest) ≡ true
    → Delivers (keep_rest rest (length rest) c) c rest
unfolding keep_rest
keep_rest-Delivers rest c v open_state unshut fits some_rest =
    let h = append-Holds c.output rest v.output fits in
    let more : ltb 0 (length (content h.buffer)) ≡ true =
      ground (arith, ap length h.shows, length-append (content c.output) rest) in
    record {
      after = hold h.buffer (look_at_mark (length rest) c);
      returns = rw h.returns refl;
      valid = record {
        input = v.input;
        output = h.valid;
        waits = λ o. rw more (ground arith);
        closed = λ o. absurd (cc (o, open_state));
        drained = λ o t. absurd (cc (unshut, t));
      };
      order = ap (λ t. c.wire ++ t) h.shows ∙ sym (append_assoc c.wire (content c.output) rest);
      state = refl;
    }

-- What a call of `sendInLoop` adds: nothing on a closed connection, nor where the other end is known to
-- be gone.
abbrev pub accepted : List ℕ → Written → Connection → List ℕ
accepted text answer c =
    if is_disconnected c.state || (not c.interest.writing && is_gone answer) then [] else text

pub Delivers-of :
    {r r' : Option Connection} {c : Connection} {text : List ℕ}
    → r ≡ r'
    → Delivers r' c text
    → Delivers r c text
Delivers-of e d = record {
  after = d.after;
  returns = e ∙ d.returns;
  valid = d.valid;
  order = d.order;
  state = d.state;
}

-- What `write` left goes to the buffer.
send_rest-Delivers :
    (text : List ℕ) (n : ℕ) (c : Connection)
    → IsValid c
    → is_disconnected c.state ≡ false
    → c.shut ≡ false
    → Fits c.output (length text)
    → n ≤ length text
    → Delivers (send_rest text n false c) c (drop n text)
send_rest-Delivers text n c v open_state unshut fits le =
    let remaining : size_sub (length text) n ≡ length (drop n text) =
      omega (arith, length-drop n text) in
    let within : leb (length (drop n text)) (length text) ≡ true =
      ground (arith, length-drop n text) in
    elim (Bool-cases (ltb 0 (length (drop n text)))) [
      | inl more ↦ Delivers-of (rw (remaining, within, more) refl) (
          keep_rest-Delivers (drop n text) c v open_state unshut (omega (arith, length-drop n text))
            more)
      | inr all ↦ Delivers-of (rw (remaining, within, all) refl) (
          subst (λ t. Delivers (some c) c t) (sym (nil_of_length (drop n text) (ground arith)))
            (unchanged c v))
    ]

-- The empty buffer: the bytes go to the socket at once.
module _ (text : List ℕ) (c : Connection) (v : IsValid c)
    (open_state : is_disconnected c.state ≡ false) (fits : Fits c.output (length text)) where
  send_open :
      (answer : Written)
      → send_in_loop text answer c
        ≡ send_rest text
            (try_write text answer c).0
            (try_write text answer c).1
            (try_write text answer c).2
  unfolding send_in_loop
  send_open answer = rw open_state refl

  busy-Delivers :
      (answer : Written)
      → c.shut ≡ false
      → c.interest.writing ≡ true
      → Delivers (send_in_loop text answer c) c text
  busy-Delivers answer unshut busy =
      Delivers-of (send_open answer ∙ rw busy refl)
        (send_rest-Delivers text 0 c v open_state unshut fits (omega arith))

  module _ (idle : c.interest.writing ≡ false) where
    no_bytes : content c.output ≡ []
    no_bytes = nil_of_length (content c.output) (ground (arith, v.waits open_state))

    at_once : (answer : Written) → try_write text answer c ≡ first_write text answer c
    at_once answer =
        let none_waits : (readable_bytes c.output == 0) ≡ true =
          ground (arith, readable c.output v.output, ap length no_bytes) in
        rw (idle, none_waits) refl

    failed-Delivers :
        (errno : ℕ)
        → c.shut ≡ false
        → (errno == epipe) ≡ false
        → Delivers (send_in_loop text (failed errno) c) c text
    failed-Delivers errno unshut e =
        Delivers-of (send_open (failed errno) ∙ rw (at_once (failed errno), e) refl)
          (send_rest-Delivers text 0 c v open_state unshut fits (omega arith))

    gone-Delivers :
        (errno : ℕ) → (errno == epipe) ≡ true → Delivers (send_in_loop text (failed errno) c) c []
    gone-Delivers errno e =
        let within : leb (size_sub (length text) 0) (length text) ≡ true = ground (arith, fits) in
        Delivers-of (send_open (failed errno) ∙ rw (at_once (failed errno), e, within) refl)
          (unchanged c v)

    wrote-Delivers :
        (n : ℕ) → c.shut ≡ false → n ≤ length text → Delivers (send_in_loop text (wrote n) c) c text
    wrote-Delivers n unshut le =
        let c' = (first_write text (wrote n) c).2 in
        let v' : IsValid c' = record {
          input = v.input;
          output = v.output;
          waits = v.waits;
          closed = v.closed;
          drained = v.drained;
        } in
        let d = send_rest-Delivers text n c' v' open_state unshut fits le in
        record {
          after = d.after;
          returns = send_open (wrote n) ∙ rw (at_once (wrote n)) d.returns;
          valid = d.valid;
          order = d.order ∙ simp (no_bytes, append-nil, append_assoc, take-append-drop);
          state = d.state;
        }

-- While bytes wait, the socket is not shut.
waiting_unshut :
    (c : Connection)
    → IsValid c
    → is_disconnected c.state ≡ false
    → c.interest.writing ≡ true
    → c.shut ≡ false
waiting_unshut c v o busy =
    not_true c.shut (λ t. ground (arith, v.waits o, ap length (v.drained o t), busy))

closed-Delivers :
    (text : List ℕ) (answer : Written) (c : Connection)
    → IsValid c
    → is_disconnected c.state ≡ true
    → Delivers (send_in_loop text answer c) c []
unfolding send_in_loop
closed-Delivers text answer c v closed = Delivers-of (rw closed refl) (unchanged c v)

as_text :
    {r : Option Connection} {c : Connection} {t t' : List ℕ}
    → t ≡ t'
    → Delivers r c t
    → Delivers r c t'
as_text {r} {c} e d = subst (Delivers r c) e d

-- On an open connection whose buffer has room, `sendInLoop` returns, and the bytes on the socket and in
-- the buffer are those before the call with the given ones behind them, whatever part of them `write`
-- took; they are dropped only when `write` reports that the other end is gone. On a closed connection
-- nothing changes. The poller is asked to write exactly while bytes wait.
pub send_in_loop-Delivers :
    (text : List ℕ) (answer : Written) (c : Connection)
    → IsValid c
    → Fits c.output (length text)
    → IsAnswer (length text) c.shut answer
    → Delivers (send_in_loop text answer c) c (accepted text answer c)
send_in_loop-Delivers text answer c v fits a = elim (Bool-cases (is_disconnected c.state)) [
  | inl closed ↦ as_text (rw closed refl) (closed-Delivers text answer c v closed)
  | inr open_state ↦ elim (Bool-cases c.interest.writing) [
    | inl busy ↦
        as_text (rw (open_state, busy) refl)
          (busy-Delivers text c v open_state fits answer (waiting_unshut c v open_state busy) busy)
    | inr idle ↦ go answer a open_state idle
  ]
]
  where
    go :
        (w : Written)
        → IsAnswer (length text) c.shut w
        → is_disconnected c.state ≡ false
        → c.interest.writing ≡ false
        → Delivers (send_in_loop text w c) c (accepted text w c)
    go (wrote n) le o idle =
        as_text (rw (o, idle) refl) (wrote-Delivers text c v o fits idle n le.1 le.0)
    go (failed errno) le o idle = elim (Bool-cases (errno == epipe)) [
      | inl gone ↦ as_text (rw (o, idle, gone) refl) (gone-Delivers text c v o fits idle errno gone)
      | inr other ↦ as_text (rw (o, idle, other) refl) (
          failed-Delivers text c v o fits idle errno (not_true c.shut (λ t. cc (le t, other)))
            other)
    ]
