-- ===== src/EPollPoller/Changing.antt =====
-- `updateChannel` and `removeChannel` on channels that are new or registered.
use dbdky_gcc.Common.{
  put, ℕ, ◌≡◌, ◌≢◌, refl, ap, sym, ◌∙◌, Option, none, some, true, false, ◌&&◌, ◌==◌, arith, inl,
  inr, Bool-cases, if◌then◌else◌,
}
use dbdky_gcc.EPollPoller.{
  Index, ctl_add, ctl_mod, ctl_del, k_new, k_added, k_deleted, Channel, Epoll, EPollPoller, update,
  update_by, update_channel, remove_by, remove_channel, change,
}
use dbdky_gcc.EPollPoller.Watching.{
  IsEpoll, is_new, is_added, wanted, IsConsistent, changed-IsConsistent,
}

-- The call returns, the kernel and the poller agree, and the kernel watches for the channel's
-- descriptor what is wanted, and for the others what it did.
pub record Changes (e : Epoll) (p : EPollPoller e) (r : Option (EPollPoller e)) (fd : ℕ)
    (x : Option (ℕ × ℕ)) : Type 0 where
  pub after : EPollPoller e
  pub returns : r ≡ some after
  pub consistent : IsConsistent e after
  pub watches : e.interest after.kernel fd ≡ x
  pub others : (j : ℕ) → j ≢ fd → e.interest after.kernel j ≡ e.interest p.kernel j

module _ (e : Epoll) (laws : IsEpoll e) (p : EPollPoller e) (ok : IsConsistent e p) (c : ℕ) where
  abbrev fd : ℕ
  fd = (p.store c).fd

  self : (c == c) ≡ true
  self = ground arith

  same : (fd == fd) ≡ true
  same = ground arith

  mine : p.channels fd ≡ some c → (d : ℕ) → p.channels fd ≡ some d → d ≡ c
  mine h d h' = cc (h, h')

  module _ (events : ℕ) where
    abbrev asked : EPollPoller e
    asked = record p { store = put c (record (p.store c) { events = events }) p.store }

    abbrev marked : Index → Channel
    marked i = record (p.store c) { events = events; index = i }

    -- The new state, with what the kernel answered.
    module _ (k : e.K) (i : Index) (channels : ℕ → Option ℕ) where
      abbrev reached : EPollPoller e
      reached = record {
        kernel = k;
        event_list_size = p.event_list_size;
        channels = channels;
        store = put c (record (asked.store c) { index = i }) asked.store;
      }

    new_with :
        (k : e.K)
        → e.ctl ctl_add fd events c p.kernel ≡ some k
        → ((j : ℕ) → e.interest k j ≡ put fd (some (events, c)) (e.interest p.kernel) j)
        → (p.store c).index ≡ k_new
        → p.channels fd ≡ none
        → Changes e p (change e c events p) fd (some (events, c))
    unfolding change update_channel update_by update
    new_with k returns registers i free = record {
      after = reached k k_added (put fd (some c) p.channels);
      returns = rw (self, i, update_by, self, free, returns) refl;
      consistent =
          changed-IsConsistent e p (reached k k_added (put fd (some c) p.channels)) ok c
            (marked k_added) true (λ j. refl) (λ d. ground arith) (λ j. registers j ∙ rw self refl)
            refl refl (λ d h. absurd (cc (h, free)));
      watches = registers fd ∙ rw same refl;
      others = λ j n. ground (arith, registers j, n);
    }

    deleted_with :
        (k : e.K)
        → e.ctl ctl_add fd events c p.kernel ≡ some k
        → ((j : ℕ) → e.interest k j ≡ put fd (some (events, c)) (e.interest p.kernel) j)
        → (p.store c).index ≡ k_deleted
        → p.channels fd ≡ some c
        → Changes e p (change e c events p) fd (some (events, c))
    unfolding change update_channel update_by update
    deleted_with k returns registers i mapped = record {
      after = reached k k_added p.channels;
      returns = rw (self, i, update_by, self, mapped, self, returns) refl;
      consistent =
          changed-IsConsistent e p (reached k k_added p.channels) ok c (marked k_added) true
            (λ j. ground (arith, mapped)) (λ d. ground arith) (λ j. registers j ∙ rw self refl) refl
            refl (mine mapped);
      watches = registers fd ∙ rw same refl;
      others = λ j n. ground (arith, registers j, n);
    }

    emptied_with :
        (k : e.K)
        → e.ctl ctl_del fd events c p.kernel ≡ some k
        → ((j : ℕ) → e.interest k j ≡ put fd none (e.interest p.kernel) j)
        → (p.store c).index ≡ k_added
        → p.channels fd ≡ some c
        → (events == 0) ≡ true
        → Changes e p (change e c events p) fd none
    unfolding change update_channel update_by update
    emptied_with k returns registers i mapped none_asked = record {
      after = reached k k_deleted p.channels;
      returns = rw (self, i, update_by, self, mapped, self, none_asked, returns, self) refl;
      consistent =
          changed-IsConsistent e p (reached k k_deleted p.channels) ok c (marked k_deleted) true
            (λ j. ground (arith, mapped)) (λ d. ground arith) (λ j. registers j ∙ rw self refl) refl
            refl (mine mapped);
      watches = registers fd ∙ rw same refl;
      others = λ j n. ground (arith, registers j, n);
    }

    abbrev modified : e.K → EPollPoller e
    modified k = record asked { kernel = k }

    modified_with :
        (k : e.K)
        → e.ctl ctl_mod fd events c p.kernel ≡ some k
        → ((j : ℕ) → e.interest k j ≡ put fd (some (events, c)) (e.interest p.kernel) j)
        → (p.store c).index ≡ k_added
        → p.channels fd ≡ some c
        → (events == 0) ≡ false
        → Changes e p (change e c events p) fd (some (events, c))
    unfolding change update_channel update_by update
    modified_with k returns registers i mapped some_asked = record {
      after = modified k;
      returns = rw (self, i, update_by, self, mapped, self, some_asked, returns) refl;
      consistent =
          changed-IsConsistent e p (modified k) ok c (marked k_added) true
            (λ j. ground (arith, mapped)) (λ d. ground (arith, i))
            (λ j. registers j ∙ rw (self, i) refl) refl refl (mine mapped);
      watches = registers fd ∙ rw same refl;
      others = λ j n. ground (arith, registers j, n);
    }

    -- A channel that is new has a free descriptor; another one is registered.
    abbrev pub expected : Index → Option (ℕ × ℕ)
    expected i = if is_added i && (events == 0) then none else some (events, c)

    -- Whatever a channel asks for, the call returns, and the kernel watches its descriptor for just
    -- that, also where the channel was disabled before. Only a registered channel that asks for
    -- nothing any more is not watched. All other descriptors stay watched as they were.
    pub change-Changes :
        (is_new (p.store c).index ≡ true → p.channels fd ≡ none)
        → Changes e p (change e c events p) fd (expected (p.store c).index)
    change-Changes free = go (p.store c).index refl
      where
        as_wanted : wanted p.store (p.channels fd) ≡ e.interest p.kernel fd
        as_wanted = sym (ok.watched fd)

        go : (i : Index) → (p.store c).index ≡ i → Changes e p (change e c events p) fd (expected i)
        go k_new i =
            let nothing = free (ap is_new i) in
            let (k, returns, registers) =
              laws.adds fd events c p.kernel (ok.watched fd ∙ ap (wanted p.store) nothing) in
            new_with k returns registers i nothing
        go k_deleted i =
            let mapped = ok.listed c (ap is_new i) in
            let (k, returns, registers) =
              laws.adds fd events c p.kernel
                (ok.watched fd ∙ ap (wanted p.store) mapped ∙ rw i refl) in
            deleted_with k returns registers i mapped
        go k_added i =
            let mapped = ok.listed c (ap is_new i) in
            let there : e.interest p.kernel fd ≡ some ((p.store c).events, c) =
              ok.watched fd ∙ ap (wanted p.store) mapped ∙ rw i refl in
            elim (Bool-cases (events == 0)) [
              | inl none_asked ↦
                  let (k, returns, registers) = laws.dels fd events c p.kernel _ there in
                  rw none_asked (emptied_with k returns registers i mapped none_asked)
              | inr some_asked ↦
                  let (k, returns, registers) = laws.mods fd events c p.kernel _ there in
                  rw some_asked (modified_with k returns registers i mapped some_asked)
            ]

  abbrev removed : e.K → EPollPoller e
  removed k = record {
    kernel = k;
    event_list_size = p.event_list_size;
    channels = put fd none p.channels;
    store = put c (record (p.store c) { index = k_new }) p.store;
  }

  removed_with :
      (k : e.K)
      → ((j : ℕ) → e.interest k j ≡ put fd none (e.interest p.kernel) j)
      → p.channels fd ≡ some c
      → remove_channel e c p ≡ some (removed k)
      → Changes e p (remove_channel e c p) fd none
  removed_with k registers mapped returns = record {
    after = removed k;
    returns = returns;
    consistent =
        changed-IsConsistent e p (removed k) ok c (record (p.store c) { index = k_new }) false
          (λ j. refl) (λ d. refl) registers refl refl (mine mapped);
    watches = registers fd ∙ rw same refl;
    others = λ j n. ground (arith, registers j, n);
  }

  -- The end of the call, behind the assertions.
  checked :
      (i : Index)
      → p.channels fd ≡ some c
      → (p.store c).events ≡ 0
      → (p.store c).index ≡ i
      → remove_channel e c p ≡ remove_by e i c p
  unfolding remove_channel
  checked i mapped idle is =
      let none_asked : ((p.store c).events == 0) ≡ true = ground (arith, idle) in
      let asserted : remove_channel e c p ≡ remove_by e (p.store c).index c p =
        rw (mapped, self, none_asked) refl in
      asserted ∙ ap (λ x. remove_by e x c p) is

  added_removed :
      (k : e.K)
      → e.ctl ctl_del fd (p.store c).events c p.kernel ≡ some k
      → remove_by e k_added c p ≡ some (removed k)
  unfolding remove_by update
  added_removed k returns = rw returns refl

  deleted_removed : remove_by e k_deleted c p ≡ some (removed p.kernel)
  unfolding remove_by
  deleted_removed = refl

  -- A registered channel that asks for nothing is removed: the call returns, and the kernel does not
  -- watch its descriptor, whether it did before or not.
  pub remove_channel-Changes :
      p.channels fd ≡ some c → (p.store c).events ≡ 0 → Changes e p (remove_channel e c p) fd none
  remove_channel-Changes mapped idle = go (p.store c).index refl
    where
      unwatched :
          (p.store c).index ≡ k_deleted
          → (j : ℕ) → e.interest p.kernel j ≡ put fd none (e.interest p.kernel) j
      unwatched i j =
          let here : e.interest p.kernel fd ≡ none =
            ok.watched fd ∙ ap (wanted p.store) mapped ∙ rw i refl in
          ground (arith, here)

      go : (i : Index) → (p.store c).index ≡ i → Changes e p (remove_channel e c p) fd none
      go k_new i = absurd (cc (i, (ok.owned fd c mapped).1))
      go k_added i =
          let there : e.interest p.kernel fd ≡ some ((p.store c).events, c) =
            ok.watched fd ∙ ap (wanted p.store) mapped ∙ rw i refl in
          let (k, returns, registers) = laws.dels fd (p.store c).events c p.kernel _ there in
          removed_with k registers mapped (checked k_added mapped idle i ∙ added_removed k returns)
      go k_deleted i =
          removed_with p.kernel (unwatched i) mapped
            (checked k_deleted mapped idle i ∙ deleted_removed)
