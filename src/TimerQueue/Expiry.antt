-- ===== src/TimerQueue/Expiry.antt =====
-- What `getExpired` takes out of the two sets.
use dbdky_gcc.Common.{
  ℕ, ◌+◌, ◌<◌, ◌≤◌, ◌≡◌, refl, sym, Option, some, List, [], ◌∷◌, ◌++◌, length, Bool, true, ◌&&◌,
  not, ◌==◌, ltb, arith, inl, inr, Bool-cases,
}
use dbdky_gcc.Common.Pairs.{
  Pair, contains, erase, before, IsAscending, erase-IsAscending, contains-erase, length-erase,
}
use dbdky_gcc.Common.Pairs.Split.{
  front, rest, front-append-rest, front-IsAscending, rest-IsAscending, contains-front,
  contains-rest, length-front-add-rest,
}
use dbdky_gcc.TimerQueue.{Timer, TimerQueue, uintptr_max, erase_active, is_later, get_expired}
use dbdky_gcc.TimerQueue.Invariant.{expires_at, has_sequence, IsValid}
use dbdky_gcc.TimerQueue.Entries.{
  occurs, All, IsDistinct, IsAlive, All-of_contains, contains-of_occurs, occurs-of_contains,
  IsDistinct-of_ascending,
}

is_later-rest :
    (now : ℕ) (l : List Pair)
    → All (λ x. x.1 < uintptr_max) l
    → is_later now (rest (now, uintptr_max) l) ≡ true
unfolding rest
is_later-rest now [] h = refl
is_later-rest now (x ∷ l) h = ground (arith, h.0, is_later-rest now l h.1)

-- What is left of the active timers.
record Erases (l : List Pair) (heap : ℕ → Option Timer) (active : List Pair) : Type 0 where
  left : List Pair
  returns : erase_active l heap active ≡ some left
  ascending : IsAscending left
  holds : (a s : ℕ) → contains (a, s) left ≡ (not (occurs a l) && contains (a, s) active)
  sizes : length active ≡ length l + length left

erase_active-Erases :
    (q : TimerQueue) (member : ℕ → Bool) (l active : List Pair)
    → IsAscending active
    → IsDistinct l
    → All (IsAlive q) l
    → All (λ x. member x.1 ≡ true) l
    → ((a s : ℕ)
        → occurs a l ≡ true
        → contains (a, s) active ≡ (member a && has_sequence (q.heap a) s))
    → Erases l q.heap active
unfolding erase_active occurs
erase_active-Erases q member [] active asc d al m h = record {
  left = active;
  returns = refl;
  ascending = asc;
  holds = λ a s. refl;
  sizes = omega arith;
}
erase_active-Erases q member (x ∷ l) active asc d al m h =
    let (t, there, time, low) = al.0 in
    let here : contains (x.1, t.sequence) active ≡ true =
      ground (arith, there, m.0, h x.1 t.sequence) in
    let r =
      erase_active-Erases q member l (erase (x.1, t.sequence) active) (erase-IsAscending _ _ asc)
        d.1 al.1 m.1
        (λ a s o.
          ground (arith, o, d.0, h a s, contains-erase (x.1, t.sequence) (a, s) active asc)) in
    record {
      left = r.left;
      returns = rw (there, here) r.returns;
      ascending = r.ascending;
      holds = λ a s. ground (
        arith,
        there,
        m.0,
        h a s,
        r.holds a s,
        contains-erase (x.1, t.sequence) (a, s) active asc,
      );
      sizes = omega (arith, r.sizes, length-erase (x.1, t.sequence) active here);
    }

-- The call takes out the timers whose time has come, in their order, and leaves the others.
pub record Expires (now : ℕ) (q : TimerQueue) (member : ℕ → Bool) : Type 0 where
  pub expired : List Pair
  pub after : TimerQueue
  pub returns : get_expired now q ≡ some (expired, after)
  pub parts : q.timers ≡ expired ++ after.timers
  pub due : All (λ x. (x.0 ≤ now) × (member x.1 ≡ true) × IsAlive q x) expired
  pub later : All (λ x. now < x.0) after.timers
  pub exactly :
      (a : ℕ) (t : Timer)
      → q.heap a ≡ some t
      → member a ≡ true
      → occurs a expired ≡ not (ltb now t.expiration)
  pub distinct : IsDistinct expired
  pub valid : IsValid after (λ a. not (occurs a expired) && member a)
  pub unchanged : after ≡ record q { timers = after.timers; active_timers = after.active_timers }

module _ (q : TimerQueue) (member : ℕ → Bool) (ok : IsValid q member) (now : ℕ) where
  abbrev sentry : Pair
  sentry = (now, uintptr_max)

  abbrev expired : List Pair
  expired = front sentry q.timers

  abbrev remaining : List Pair
  remaining = rest sentry q.timers

  alive : (x : Pair) → contains x q.timers ≡ true → (member x.1 ≡ true) × IsAlive q x
  alive x c =
      let both : (member x.1 && expires_at (q.heap x.1) x.0) ≡ true = cc (c, ok.by_time x.0 x.1) in
      let queued : member x.1 ≡ true = ground arith in
      let (t, there, low) = ok.live x.1 queued in (queued, (t, there, ground arith, low))

  is_due : (x : Pair) → contains x expired ≡ true → (x.0 ≤ now) × (member x.1 ≡ true) × IsAlive q x
  is_due x c =
      let both : (before x sentry && contains x q.timers) ≡ true =
        cc (c, contains-front sentry x q.timers ok.ascending) in
      let (queued, live) = alive x (ground arith) in (ground arith, queued, live)

  is_left : (x : Pair) → contains x remaining ≡ true → (now < x.0) × (x.1 < uintptr_max)
  is_left x c =
      let both : (not (before x sentry) && contains x q.timers) ≡ true =
        cc (c, contains-rest sentry x q.timers ok.ascending) in
      let (queued, live) = alive x (ground arith) in
      let (t, there, time, low) = live in (ground arith, low)

  distinct : IsDistinct expired
  distinct =
      IsDistinct-of_ascending q expired (front-IsAscending sentry q.timers ok.ascending)
        (All-of_contains (IsAlive q) expired (λ x c. (is_due x c).2))

  erases : Erases expired q.heap q.active_timers
  erases =
      erase_active-Erases q member expired q.active_timers ok.ascending_active distinct
        (All-of_contains (IsAlive q) expired (λ x c. (is_due x c).2))
        (All-of_contains (λ x. member x.1 ≡ true) expired (λ x c. (is_due x c).1))
        (λ a s o. ok.by_sequence a s)

  abbrev after : TimerQueue
  after = record q { timers = remaining; active_timers = erases.left }

  sizes_after : length remaining ≡ length erases.left
  sizes_after = omega (arith, ok.sizes, erases.sizes, length-front-add-rest sentry q.timers)

  by_time :
      (w a : ℕ)
      → contains (w, a) remaining
        ≡ ((not (occurs a expired) && member a) && expires_at (q.heap a) w)
  by_time w a = elim (Bool-cases (occurs a expired)) [
    | inl o ↦
        let (v, c) = contains-of_occurs a expired o in
        let (early, queued, live) = is_due (v, a) c in
        let (t, there, time, low) = live in
        ground (arith, o, contains-rest sentry (w, a) q.timers ok.ascending, ok.by_time w a)
    | inr o ↦ ground (
      arith,
      contains-rest sentry (w, a) q.timers ok.ascending,
      contains-front sentry (w, a) q.timers ok.ascending,
      occurs-of_contains w a expired,
      ok.by_time w a,
    )
  ]

  exactly :
      (a : ℕ) (t : Timer)
      → q.heap a ≡ some t
      → member a ≡ true
      → occurs a expired ≡ not (ltb now t.expiration)
  exactly a t there queued = elim (Bool-cases (occurs a expired)) [
    | inl o ↦
        let (v, c) = contains-of_occurs a expired o in
        let (early, queued', live) = is_due (v, a) c in
        let (u, there', time, low) = live in ground (arith, o)
    | inr o ↦
        let (u, there', low) = ok.live a queued in
        ground (
          arith,
          contains-front sentry (t.expiration, a) q.timers ok.ascending,
          occurs-of_contains t.expiration a expired,
          ok.by_time t.expiration a,
        )
  ]

  pub get_expired-Expires : Expires now q member
  unfolding get_expired
  get_expired-Expires = record {
    expired = expired;
    after = after;
    returns =
        let sizes : (length q.timers == length q.active_timers) ≡ true = ground (arith, ok.sizes) in
        let sizes' : (length remaining == length erases.left) ≡ true =
          ground (arith, sizes_after) in
        let later = is_later-rest now q.timers (
          All-of_contains (λ x. x.1 < uintptr_max) q.timers
            (λ x c. let (t, there, time, low) = (alive x c).1 in low)) in
        rw (sizes, later, erases.returns, sizes') refl;
    parts = sym (front-append-rest sentry q.timers);
    due = All-of_contains _ expired is_due;
    later = All-of_contains _ remaining (λ x c. (is_left x c).0);
    exactly = exactly;
    distinct = distinct;
    valid = record {
      ascending = rest-IsAscending sentry q.timers ok.ascending;
      ascending_active = erases.ascending;
      sizes = sizes_after;
      by_time = by_time;
      by_sequence = λ a s. ground (arith, ok.by_sequence a s, erases.holds a s);
      live = λ a h. ok.live a (ground (arith, h));
    };
    unchanged = refl;
  }
