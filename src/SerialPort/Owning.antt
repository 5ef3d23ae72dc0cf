-- ===== src/SerialPort/Owning.antt =====
-- What a port owns, and the calls that change it.
use mathlib.Core.Path.{subst}
use mathlib.Core.List.{append_assoc, append-nil}
use Prim.Native.String.{String}
use dbdky_gcc.Common.{
  ℕ, ◌+◌, ◌≡◌, refl, sym, ap, ◌∙◌, Option, none, some, List, [], ◌∷◌, ◌++◌, map, Bool, true, false,
  ◌==◌, if◌then◌else◌, Bool-cases, inl, inr, arith,
}
use dbdky_gcc.Common.Int.{ℤ, pos, negsuc}
use dbdky_gcc.SerialPort.Life.{
  SerialPort, Answers, close_fd, configure, open_device, init_from, cancel_each, cancel_timers,
  run_every, fire, repeats,
}
use dbdky_gcc.ThreadPool.{System}

-- The descriptors that belong to `fd_`.
unfoldable pub owned : ℤ → List ℕ
owned (pos d) = d ∷ []
owned (negsuc n) = []

unfoldable pub is_some : Option System → Bool
is_some none = false
is_some (some s) = true

abbrev pub what : ℕ × ℤ × String → ℤ × String
what t = (t.1, t.2)

-- The timers that run again and again: those with a positive interval.
unfoldable pub lasting : List (ℤ × String) → List (ℤ × String)
lasting [] = []
lasting (t ∷ l) = let rest = lasting l in if repeats t.0 then t ∷ rest else rest

lasting-append : (l m : List (ℤ × String)) → lasting (l ++ m) ≡ lasting l ++ lasting m
unfolding lasting
lasting-append [] m = refl
lasting-append (t ∷ l) m = elim (Bool-cases (repeats t.0)) [
  | inl e ↦ rw e (ap (λ r. t ∷ r) (lasting-append l m))
  | inr e ↦ rw e (lasting-append l m)
]

-- Running a timer changes nothing about those that repeat.
pub fire-lasting :
    (id : ℕ) (l : List (ℕ × ℤ × String)) → lasting (map what (fire id l)) ≡ lasting (map what l)
unfolding lasting fire
fire-lasting id [] = refl
fire-lasting id (t ∷ l) = elim (Bool-cases (repeats t.1)) [
  | inl e ↦ elim (Bool-cases (t.0 == id)) [
    | inl same ↦ rw (same, e) (rw e (ap (λ r. what t ∷ r) (fire-lasting id l)))
    | inr other ↦ rw other (rw e (ap (λ r. what t ∷ r) (fire-lasting id l)))
  ]
  | inr e ↦ elim (Bool-cases (t.0 == id)) [
    | inl same ↦ rw (same, e) (fire-lasting id l)
    | inr other ↦ rw other (rw e (fire-lasting id l))
  ]
]

-- Nothing that was opened is lost, the threads run exactly where the port was started, and the timers of
-- the loop that repeat are those of `asked`; `timers_` knows none.
pub record Holds (asked : List (ℤ × String)) (p : SerialPort) : Type 0 where
  pub device : p.open_fds ≡ owned p.fd
  pub minus_one : (n : ℕ) → p.fd ≡ negsuc n → n ≡ 0
  pub threads : is_some p.pool ≡ p.started
  pub unknown : p.timers ≡ []
  pub asked_for : lasting (map what p.running_timers) ≡ lasting asked

pub close_fd_same : (d : ℕ) (l : List ℕ) → close_fd d (d ∷ l) ≡ l
unfolding close_fd
close_fd_same d l = let same : (d == d) ≡ true = ground arith in rw same refl

-- The answer of init is the descriptor, and the rest of the port stays as it is.
pub record Inits (asked : List (ℤ × String)) (p : SerialPort) (r : ℤ × SerialPort) : Type 0 where
  pub answer : r.0 ≡ r.1.fd
  pub holds : Holds asked r.1
  pub started : r.1.started ≡ p.started

module _ (asked : List (ℤ × String)) (p : SerialPort) (h : Holds asked p) where
  -- Without a device, also after a failure.
  without :
      (fds : List ℕ)
      → fds ≡ []
      → Inits asked p (negsuc 0, record p { fd = negsuc 0; open_fds = fds })
  unfolding owned
  without fds e = record {
    answer = refl;
    holds = record {
      device = e;
      minus_one = λ n q. ground (arith, q);
      threads = h.threads;
      unknown = h.unknown;
      asked_for = h.asked_for;
    };
    started = refl;
  }

  with_device :
      (d : ℕ)
      → p.open_fds ≡ []
      → Inits asked p (pos d, record p { fd = pos d; open_fds = d ∷ p.open_fds })
  unfolding owned
  with_device d e = record {
    answer = refl;
    holds = record {
      device = ap (λ l. d ∷ l) e;
      minus_one = λ n q. absurd (cc q);
      threads = h.threads;
      unknown = h.unknown;
      asked_for = h.asked_for;
    };
    started = refl;
  }

  if-Inits :
      (b : Bool) (r t : ℤ × SerialPort)
      → Inits asked p r
      → Inits asked p t
      → Inits asked p (if b then r else t)
  if-Inits true r t x y = x
  if-Inits false r t x y = y

  open_device-Inits :
      (o : Option ℕ) (a : Answers) → p.open_fds ≡ [] → Inits asked p (open_device o a p)
  unfolding open_device configure
  open_device-Inits none a e = without p.open_fds e
  open_device-Inits (some d) a e =
      let closed = close_fd_same d p.open_fds ∙ e in
      if-Inits a.first_set _ _
        (if-Inits a.second_set _ _ (with_device d e) (without (close_fd d (d ∷ p.open_fds)) closed))
        (without (close_fd d (d ∷ p.open_fds)) closed)

  pub init_from-Inits : (fd : ℤ) (a : Answers) → p.fd ≡ fd → Inits asked p (init_from fd a p)
  unfolding init_from owned
  init_from-Inits (pos d) a e = record { answer = sym e; holds = h; started = refl }
  init_from-Inits (negsuc n) a e = open_device-Inits a.opened a (h.device ∙ ap owned e)

map-what-append :
    (l : List (ℕ × ℤ × String)) (t : ℕ × ℤ × String)
    → map what (l ++ t ∷ []) ≡ map what l ++ what t ∷ []
map-what-append [] t = refl
map-what-append (u ∷ l) t = ap (λ r. what u ∷ r) (map-what-append l t)

-- The loop was asked for one timer more.
one_more :
    (t : ℤ × String) (asked : List (ℤ × String)) (p : SerialPort)
    → Holds asked p
    → Holds (asked ++ t ∷ []) (record p {
      running_timers = p.running_timers ++ (p.next_id, t.0, t.1) ∷ [];
      next_id = p.next_id + 1;
    })
one_more t asked p h = record {
  device = h.device;
  minus_one = h.minus_one;
  threads = h.threads;
  unknown = h.unknown;
  asked_for =
      ap lasting (map-what-append p.running_timers (p.next_id, t.0, t.1))
      ∙ lasting-append (map what p.running_timers) (t ∷ [])
      ∙ ap (λ l. l ++ lasting (t ∷ [])) h.asked_for
      ∙ sym (lasting-append asked (t ∷ []));
}

pub run_every-Holds :
    (l asked : List (ℤ × String)) (p : SerialPort)
    → Holds asked p
    → Holds (asked ++ l) (run_every l p) × ((run_every l p).started ≡ p.started)
unfolding run_every
run_every-Holds [] asked p h = (subst (λ a. Holds a p) (sym (append-nil asked)) h, refl)
run_every-Holds (t ∷ l) asked p h =
    let rest = run_every-Holds l (asked ++ t ∷ []) _ (one_more t asked p h) in
    (subst (λ a. Holds a (run_every (t ∷ l) p)) (append_assoc asked (t ∷ []) l) rest.0, rest.1)

pub cancel_timers-Holds :
    (asked : List (ℤ × String)) (p : SerialPort) → Holds asked p → Holds asked (cancel_timers p)
unfolding cancel_timers cancel_each
cancel_timers-Holds asked p h = record {
  device = h.device;
  minus_one = h.minus_one;
  threads = h.threads;
  unknown = refl;
  asked_for =
      ap (λ ids. lasting (map what (cancel_each ids p.running_timers))) h.unknown ∙ h.asked_for;
}

pub none_of : (o : Option System) → is_some o ≡ false → o ≡ none
unfolding is_some
none_of none h = refl
none_of (some s) h = absurd (cc h)
