-- ===== src/TcpConnection/Reacting.antt =====
-- The events of the socket, handed to the connection.
use dbdky_gcc.Common.{
  ℕ, ◌≡◌, refl, ap, sym, ◌∙◌, Option, none, List, [], ◌∷◌, ◌++◌, length, Bool, true, false, ◌&&◌,
  ◌||◌, not, Bool-cases, inl, inr,
}
use mathlib.Core.Path.{subst}
use dbdky_gcc.Buffer.{ReadV, content}
use dbdky_gcc.Channel.{
  Callback, on_close, on_error, on_read, on_write, has, pollin, pollpri, pollhup, pollrdhup,
  handle_event, handle_event_with_guard, when,
}
use dbdky_gcc.TcpConnection.{
  Connection, Written, handle_close, handle_read, run_callback, run_callbacks, react,
}
use dbdky_gcc.TcpConnection.Valid.{IsValid, IsAnswer}
use dbdky_gcc.TcpConnection.Writing.{handle_write-Delivers}
use dbdky_gcc.TcpConnection.Closing.{
  Steps, Steps-of, stays, is_open, StepsWhere, Quiet, closed_down, handle_close-closed_down,
  closed_down-IsValid, is_end, CanStore, closed_down-CanStore, read_fd-Stores, handle_read-Quiet,
}

-- What `write` may answer in a state that the callbacks before it may have changed.
abbrev pub CanWrite : Written → Connection → Type 0
CanWrite answer c = IsAnswer (length (content c.output)) c.shut answer

-- A read of the end on a connection that is closed stops at the assertion.
end_fails :
    (reading : ReadV) (writing : Written) (l : List Callback) (c : Connection)
    → IsValid c
    → is_open c ≡ false
    → CanStore reading c
    → is_end reading ≡ true
    → run_callbacks reading writing (on_read ∷ l) c ≡ none
unfolding run_callbacks handle_read handle_close
end_fails (ReadV.failed errno) writing l c v shut store end = absurd (cc end)
end_fails (ReadV.got (x ∷ text)) writing l c v shut store end = absurd (cc end)
end_fails (ReadV.got []) writing l c v shut store end =
    let (r, returns, valid) = read_fd-Stores (ReadV.got []) c v store in rw (returns, shut) refl

module _ (reading : ReadV) (writing : Written) where
  write_part :
      (b : Bool) (c : Connection)
      → IsValid c
      → CanWrite writing c
      → Steps (run_callbacks reading writing (when b on_write) c)
  unfolding run_callbacks
  write_part true c v can =
      let d = handle_write-Delivers writing c v can in
      record { after = d.after; returns = rw d.returns refl; valid = d.valid }
  write_part false c v can = stays c v

  error_part :
      (b : Bool) (l : List Callback) (c : Connection)
      → run_callbacks reading writing (when b on_error ++ l) c ≡ run_callbacks reading writing l c
  unfolding run_callbacks
  error_part true l c = refl
  error_part false l c = refl

  -- What follows a call that leaves the bytes to be written alone.
  behind_part :
      (k : Callback) (l : List Callback) (c : Connection)
      → (q : Quiet (run_callback reading writing k c) c)
      → Steps (run_callbacks reading writing l q.after)
      → Steps (run_callbacks reading writing (k ∷ l) c)
  unfolding run_callbacks
  behind_part k l c q s = Steps-of (rw q.returns refl) s

  still_can :
      (c : Connection) {r : Option Connection} (q : Quiet r c)
      → CanWrite writing c
      → CanWrite writing q.after
  still_can c q can =
      subst (λ n. IsAnswer n q.after.shut writing) (ap (λ b. length (content b)) (sym q.output))
        (subst (λ b. IsAnswer (length (content c.output)) b writing) (sym q.shut) can)

  -- The four tests of the reported events, where the connection is not closed before it is read.
  open_parts :
      (error read write : Bool) (c : Connection)
      → IsValid c
      → (is_end reading ≡ true → is_open c ≡ true)
      → CanStore reading c
      → CanWrite writing c
      → Steps (
          run_callbacks reading writing
            (when error on_error ++ (when read on_read ++ when write on_write))
            c)
  open_parts error true write c v o store can =
      let q = handle_read-Quiet reading c v store o in
      Steps-of (error_part error _ c)
        (behind_part on_read _ c q (write_part write q.after q.valid (still_can c q can)))
  open_parts error false write c v o store can =
      Steps-of (error_part error _ c) (write_part write c v can)

  unread_parts :
      (error write : Bool) (c : Connection)
      → IsValid c
      → CanWrite writing c
      → Steps (run_callbacks reading writing (when error on_error ++ when write on_write) c)
  unread_parts error write c v can = Steps-of (error_part error _ c) (write_part write c v can)

  close_part :
      (l : List Callback) (c : Connection)
      → is_open c ≡ true
      → run_callbacks reading writing (on_close ∷ l) c
        ≡ run_callbacks reading writing l (closed_down c)
  unfolding run_callbacks
  close_part l c o = rw (handle_close-closed_down c o) refl

  -- A closed connection is closed again.
  closed_twice :
      (error : Bool) (l : List Callback) (c : Connection)
      → IsValid c
      → is_open c ≡ true
      → CanStore reading c
      → is_end reading ≡ true
      → run_callbacks reading writing (on_close ∷ (when error on_error ++ (on_read ∷ l))) c ≡ none
  closed_twice error l c v o store end =
      close_part _ c o
      ∙ error_part error _ (closed_down c)
      ∙ end_fails reading writing l (closed_down c) (closed_down-IsValid c v) refl
          (closed_down-CanStore reading c store) end

  parts :
      (close error read write : Bool) (c : Connection)
      → IsValid c
      → is_open c ≡ true
      → CanStore reading c
      → CanWrite writing c
      → StepsWhere (not (close && (read && is_end reading))) (
          run_callbacks reading writing
            (when close on_close
              ++ (when error on_error ++ (when read on_read ++ when write on_write)))
            c)
  parts false error read write c v o store can = open_parts error read write c v (λ e. o) store can
  parts true error false write c v o store can =
      Steps-of (close_part _ c o)
        (unread_parts error write (closed_down c) (closed_down-IsValid c v) can)
  parts true error true write c v o store can = elim (Bool-cases (is_end reading)) [
    | inl end ↦ rw end (closed_twice error (when write on_write) c v o store end)
    | inr more ↦ rw more (
        Steps-of (close_part _ c o) (
          open_parts error true write (closed_down c) (closed_down-IsValid c v)
            (λ e. absurd (cc (e, more))) (closed_down-CanStore reading c store) can))
  ]

abbrev pub CanReact : ReadV → Written → Connection → Type 0
CanReact reading writing c = (is_open c ≡ true) × CanStore reading c × CanWrite writing c

-- A hang-up without the normal data closes the connection, and a read of its end does.
abbrev pub closes_once : ℕ → ReadV → Bool
closes_once revents reading = not (
    (has revents pollhup && not (has revents pollin))
    && ((has revents pollin || (has revents pollpri || has revents pollrdhup)) && is_end reading))

pub react-Steps :
    (revents : ℕ) (reading : ReadV) (writing : Written) (c : Connection)
    → IsValid c
    → CanReact reading writing c
    → StepsWhere (closes_once revents reading) (react revents reading writing c)
unfolding react handle_event handle_event_with_guard
react-Steps revents reading writing c v (o, store, write) =
    parts reading writing _ _ _ _ c v o store write
