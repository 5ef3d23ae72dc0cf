-- ===== src/TcpConnection/Closing.antt =====
-- What a read and the end of a connection leave.
use dbdky_gcc.Common.{
  ℕ, ◌≡◌, refl, ◌∙◌, Option, none, some, List, [], ◌∷◌, length, Bool, true, false, ◌||◌,
}
use mathlib.Core.Option
use mathlib.Core.Path.{subst}
use dbdky_gcc.Buffer.{Buffer, ReadV, read_fd, readable_bytes}
use dbdky_gcc.Buffer.Bounds as Bounds
use dbdky_gcc.Buffer.Bounds.{Fits}
use dbdky_gcc.Buffer.Content.{Holds, read_fd-Holds}
use dbdky_gcc.TcpConnection.{
  Connection, is_connected, is_disconnecting, disconnect, handle_close, handle_read, after_read,
  Call, call, closed, connection_down, message,
}
use dbdky_gcc.TcpConnection.Valid.{IsValid, Delivers}

-- The call returns within the invariant.
pub record Steps (r : Option Connection) : Type 0 where
  pub after : Connection
  pub returns : r ≡ some after
  pub valid : IsValid after

pub Steps-of : {r r' : Option Connection} → r ≡ r' → Steps r' → Steps r
Steps-of e s = record { after = s.after; returns = e ∙ s.returns; valid = s.valid }

pub stays : (c : Connection) → IsValid c → Steps (some c)
stays c v = record { after = c; returns = refl; valid = v }

pub delivered :
    {r : Option Connection} {c : Connection} {text : List ℕ} → Delivers r c text → Steps r
delivered d = record { after = d.after; returns = d.returns; valid = d.valid }

abbrev pub is_open : Connection → Bool
is_open c = is_connected c.state || is_disconnecting c.state

pub disconnect-IsValid : (c : Connection) → IsValid c → IsValid (disconnect c)
disconnect-IsValid c v = record {
  input = v.input;
  output = v.output;
  waits = λ o. absurd (cc o);
  closed = λ o. refl;
  drained = λ o. absurd (cc o);
}

-- The calls of the client are recorded only.
pub call-IsValid : (k : Call) (c : Connection) → IsValid c → IsValid (call k c)
call-IsValid k c v = record {
  input = v.input;
  output = v.output;
  waits = v.waits;
  closed = v.closed;
  drained = v.drained;
}

-- Whether the call returns is told by the test.
abbrev pub StepsWhere : Bool → Option Connection → Type 0
StepsWhere true r = Steps r
StepsWhere false r = r ≡ none

-- The call returns within the invariant and leaves the bytes to be written alone.
pub record Quiet (r : Option Connection) (c : Connection) : Type 0 where
  pub after : Connection
  pub returns : r ≡ some after
  pub valid : IsValid after
  pub output : after.output ≡ c.output
  pub shut : after.shut ≡ c.shut

-- What `handleClose` leaves.
abbrev pub closed_down : Connection → Connection
closed_down c = call closed (call connection_down (disconnect c))

pub handle_close-closed_down :
    (c : Connection) → is_open c ≡ true → handle_close c ≡ some (closed_down c)
unfolding handle_close
handle_close-closed_down c o = rw o refl

pub closed_down-IsValid : (c : Connection) → IsValid c → IsValid (closed_down c)
closed_down-IsValid c v =
    call-IsValid closed _ (call-IsValid connection_down _ (disconnect-IsValid c v))

handle_close-Quiet : (c : Connection) → IsValid c → is_open c ≡ true → Quiet (handle_close c) c
unfolding handle_close
handle_close-Quiet c v o = record {
  after = call closed (call connection_down (disconnect c));
  returns = rw o refl;
  valid = call-IsValid closed _ (call-IsValid connection_down _ (disconnect-IsValid c v));
  output = refl;
  shut = refl;
}

-- Whether a read finds the end of the text.
abbrev pub is_end : ReadV → Bool
is_end (ReadV.failed errno) = false
is_end (ReadV.got []) = true
is_end (ReadV.got (x ∷ text)) = false

-- What `readv` may store: bytes that the buffer has room for.
abbrev pub CanStore : ReadV → Connection → Type 0
CanStore (ReadV.failed errno) c = Unit {0}
CanStore (ReadV.got text) c = Fits c.input (length text)

pub closed_down-CanStore :
    (answer : ReadV) (c : Connection) → CanStore answer c → CanStore answer (closed_down c)
closed_down-CanStore (ReadV.failed errno) c store = tt
closed_down-CanStore (ReadV.got text) c store = store

after_read-Quiet :
    (answer : ReadV) (c : Connection)
    → IsValid c
    → (is_end answer ≡ true → is_open c ≡ true)
    → Quiet (after_read answer c) c
after_read-Quiet (ReadV.failed errno) c v o = record {
  after = c;
  returns = refl;
  valid = v;
  output = refl;
  shut = refl;
}
after_read-Quiet (ReadV.got []) c v o = handle_close-Quiet c v (o refl)
after_read-Quiet (ReadV.got (x ∷ text)) c v o = record {
  after = call (message (readable_bytes c.input)) c;
  returns = refl;
  valid = call-IsValid (message (readable_bytes c.input)) c v;
  output = refl;
  shut = refl;
}

-- The buffer behind `readFd`.
abbrev Stores : Option (Option ℕ × Buffer) → Type 0
Stores x = (r : Option ℕ × Buffer) × (x ≡ some r) × Bounds.IsValid r.1

pub stored :
    (x : Option (Option ℕ × Buffer)) (text : List ℕ)
    → Holds (Option.map (λ r. r.1) x) text
    → Stores x
stored none text h = absurd (cc (h.returns))
stored (some r) text h =
    let is : h.buffer ≡ r.1 = cc (h.returns) in (r, refl, subst Bounds.IsValid is h.valid)

pub read_fd-Stores :
    (answer : ReadV) (c : Connection)
    → IsValid c
    → CanStore answer c
    → Stores (read_fd c.input answer)
unfolding read_fd
read_fd-Stores (ReadV.failed errno) c v can = ((some errno, c.input), refl, v.input)
read_fd-Stores (ReadV.got text) c v can = stored _ _ (read_fd-Holds c.input text v.input can)

pub handle_read-Quiet :
    (answer : ReadV) (c : Connection)
    → IsValid c
    → CanStore answer c
    → (is_end answer ≡ true → is_open c ≡ true)
    → Quiet (handle_read answer c) c
unfolding handle_read
handle_read-Quiet answer c v can o =
    let (r, returns, valid) = read_fd-Stores answer c v can in
    let q =
      after_read-Quiet answer (record c { input = r.1 })
        (record {
          input = valid;
          output = v.output;
          waits = v.waits;
          closed = v.closed;
          drained = v.drained;
        })
        o in
    record {
      after = q.after;
      returns = rw returns q.returns;
      valid = q.valid;
      output = q.output;
      shut = q.shut;
    }
