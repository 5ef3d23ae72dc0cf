-- ===== src/EPollPoller/Watching.antt =====
-- The kernel watches what the channels ask for.
use dbdky_gcc.Common.{
  put, put_at, put_off, ℕ, ◌≡◌, ◌≢◌, refl, ap, sym, ◌∙◌, Option, none, some, Bool, true, false, not,
  ◌==◌, arith, inl, inr, Bool-cases, if◌then◌else◌,
}
use dbdky_gcc.EPollPoller.{
  Index, k_new, k_added, k_deleted, Channel, ctl_add, ctl_mod, ctl_del, Epoll, EPollPoller,
}

-- What `epoll_ctl` does: it registers a descriptor that is not registered, and changes or deletes the
-- registration of one that is.
pub record IsEpoll (e : Epoll) : Type 0 where
  pub adds :
      (fd events c : ℕ) (k : e.K)
      → e.interest k fd ≡ none
      → (k' : e.K) × (e.ctl ctl_add fd events c k ≡ some k')
        × ((j : ℕ) → e.interest k' j ≡ put fd (some (events, c)) (e.interest k) j)
  pub mods :
      (fd events c : ℕ) (k : e.K) (x : ℕ × ℕ)
      → e.interest k fd ≡ some x
      → (k' : e.K) × (e.ctl ctl_mod fd events c k ≡ some k')
        × ((j : ℕ) → e.interest k' j ≡ put fd (some (events, c)) (e.interest k) j)
  pub dels :
      (fd events c : ℕ) (k : e.K) (x : ℕ × ℕ)
      → e.interest k fd ≡ some x
      → (k' : e.K) × (e.ctl ctl_del fd events c k ≡ some k')
        × ((j : ℕ) → e.interest k' j ≡ put fd none (e.interest k) j)

abbrev pub is_new : Index → Bool
is_new k_new = true
is_new k_added = false
is_new k_deleted = false

abbrev pub is_added : Index → Bool
is_added k_new = false
is_added k_added = true
is_added k_deleted = false

-- What is registered for a descriptor, by the channel that the poller has for it.
abbrev pub wanted : (ℕ → Channel) → Option ℕ → Option (ℕ × ℕ)
wanted store none = none
wanted store (some c) = if is_added (store c).index then some ((store c).events, c) else none

not_here : {j k : ℕ} → (j ≢ k) → (j == k) ≡ false
not_here n = ground (arith, n)

module _ (e : Epoll) where
  -- The kernel has exactly the channels that are marked as added, with the events they ask for, and the
  -- map of the poller has exactly the channels that are not new, each under its descriptor.
  pub record IsConsistent (p : EPollPoller e) : Type 0 where
    pub watched : (fd : ℕ) → e.interest p.kernel fd ≡ wanted p.store (p.channels fd)
    pub owned :
        (fd c : ℕ)
        → p.channels fd ≡ some c
        → ((p.store c).fd ≡ fd) × (is_new (p.store c).index ≡ false)
    pub listed : (c : ℕ) → is_new (p.store c).index ≡ false → p.channels (p.store c).fd ≡ some c

  -- A channel gets a new mark, and its descriptor a new registration.
  module _ (p q : EPollPoller e) (ok : IsConsistent p) (c : ℕ) (new : Channel) (member : Bool)
      (channels : (j : ℕ)
        → q.channels j ≡ put new.fd (if member then some c else none) p.channels j)
      (store : (d : ℕ) → q.store d ≡ put c new p.store d)
      (interest : (j : ℕ)
        → e.interest q.kernel j
          ≡ put new.fd (wanted q.store (if member then some c else none)) (e.interest p.kernel) j)
      (same_fd : new.fd ≡ (p.store c).fd) (mark : is_new new.index ≡ not member)
      (mine : (d : ℕ) → p.channels new.fd ≡ some d → d ≡ c) where
    other_store : (d : ℕ) → d ≢ c → q.store d ≡ p.store d
    other_store d n = ground (arith, store d, n)

    own_store : q.store c ≡ new
    own_store = ground (arith, store c)

    others :
        (j : ℕ) (x : Option ℕ)
        → (j == new.fd) ≡ false
        → p.channels j ≡ x
        → wanted p.store x ≡ wanted q.store x
    others j none away h = refl
    others j (some d) away h =
        let n : d ≢ c = λ is. ground (arith, (ok.owned j d h).0, is, same_fd) in
        ap (λ ch. if is_added ch.index then some (ch.events, d) else none) (sym (other_store d n))

    watched : (j : ℕ) → e.interest q.kernel j ≡ wanted q.store (q.channels j)
    watched j = elim (Bool-cases (j == new.fd)) [
      | inl here ↦
          interest j
          ∙ put_at new.fd _ (e.interest p.kernel) j here
          ∙ ap (wanted q.store) (sym (channels j ∙ put_at new.fd _ p.channels j here))
      | inr away ↦
          interest j
          ∙ put_off new.fd _ (e.interest p.kernel) j away
          ∙ ok.watched j
          ∙ others j (p.channels j) away refl
          ∙ ap (wanted q.store) (sym (channels j ∙ put_off new.fd _ p.channels j away))
    ]

    owned_here :
        (j d : ℕ)
        → (j == new.fd) ≡ true
        → q.channels j ≡ some d
        → ((q.store d).fd ≡ j) × (is_new (q.store d).index ≡ false)
    owned_here j d here h =
        let is_member : member ≡ true = ground (arith, channels j, here, h) in
        let is : d ≡ c = ground (arith, channels j, here, h) in
        let at : q.store d ≡ new = ap q.store is ∙ own_store in
        (ground (arith, ap (λ ch. ch.fd) at, here), ground (arith, ap (λ ch. ch.index) at, mark))

    owned_away :
        (j d : ℕ)
        → (j == new.fd) ≡ false
        → q.channels j ≡ some d
        → ((q.store d).fd ≡ j) × (is_new (q.store d).index ≡ false)
    owned_away j d away h =
        let old : p.channels j ≡ some d =
          sym (channels j ∙ put_off new.fd _ p.channels j away) ∙ h in
        let (f, g) = ok.owned j d old in
        let n : d ≢ c = λ is. ground (arith, f, is, same_fd) in
        (ap (λ ch. ch.fd) (other_store d n) ∙ f, ap (λ ch. is_new ch.index) (other_store d n) ∙ g)

    listed_away :
        (d : ℕ) → d ≢ c → is_new (q.store d).index ≡ false → q.channels (q.store d).fd ≡ some d
    listed_away d n h =
        let old : p.channels (p.store d).fd ≡ some d =
          ok.listed d (sym (ap (λ ch. is_new ch.index) (other_store d n)) ∙ h) in
        let away : ((p.store d).fd == new.fd) ≡ false =
          not_here (λ is. n (mine d (ap p.channels (sym is) ∙ old))) in
        ap (λ ch. q.channels ch.fd) (other_store d n)
        ∙ channels (p.store d).fd
        ∙ put_off new.fd _ p.channels (p.store d).fd away
        ∙ old

    listed_here : is_new (q.store c).index ≡ false → q.channels (q.store c).fd ≡ some c
    listed_here h =
        let is_member : member ≡ true = ground (arith, ap (λ ch. ch.index) own_store, mark, h) in
        ap (λ ch. q.channels ch.fd) own_store ∙ ground (arith, channels new.fd, is_member)

    listed : (d : ℕ) → is_new (q.store d).index ≡ false → q.channels (q.store d).fd ≡ some d
    listed d h = elim (Bool-cases (d == c)) [
      | inl here ↦
          let is : d ≡ c = ground (arith, here) in
          ap (λ x. q.channels (q.store x).fd) is
          ∙ listed_here (sym (ap (λ x. is_new (q.store x).index) is) ∙ h)
          ∙ ap some (sym is)
      | inr away ↦ listed_away d (ground (arith, away)) h
    ]

    pub changed-IsConsistent : IsConsistent q
    changed-IsConsistent = record {
      watched = watched;
      owned = λ j d h. elim (Bool-cases (j == new.fd)) [
        | inl here ↦ owned_here j d here h
        | inr away ↦ owned_away j d away h
      ];
      listed = listed;
    }
