-- ===== src/PollPoller/Consistent.antt =====
-- The poller's entries, its map and the indices of the channels agree.
use dbdky_gcc.Common.{
  put, put_same, put_other, ℕ, ◌≡◌, ◌≢◌, ap, sym, ◌∙◌, none, some, [], ◌∷◌, ◌++◌, length, get_elem?,
  set, ◌==◌, arith, inl, inr, Bool-cases,
}
use dbdky_gcc.Common.Positions.{
  get_elem?-last, get_elem?-snoc, get_elem?-front, get_elem?-set, get_elem?-set_same,
  get_elem?-set_other,
}
use dbdky_gcc.Common.Int.{ℤ, pos, negsuc}
use dbdky_gcc.PollPoller.{PollFd, PollPoller}

-- The descriptor of an entry, hidden or not.
abbrev pub descriptor : ℤ → ℕ
descriptor (pos n) = n
descriptor (negsuc n) = n

-- An entry belongs to the channel that the map has for its descriptor and that points back to it.
pub record IsEntry (p : PollPoller) (i : ℕ) (e : PollFd) (c : ℕ) : Type 0 where
  pub mapped : p.channels (descriptor e.fd) ≡ some c
  pub same : (p.store c).fd ≡ descriptor e.fd
  pub back : (p.store c).index ≡ pos i

-- A registered channel has an entry at its index.
pub record IsRegistered (p : PollPoller) (fd c i : ℕ) (e : PollFd) : Type 0 where
  pub own : (p.store c).fd ≡ fd
  pub back : (p.store c).index ≡ pos i
  pub entry : get_elem? p.pollfds i ≡ some e
  pub shown : descriptor e.fd ≡ fd

pub record IsConsistent (p : PollPoller) : Type 0 where
  pub entries : (i : ℕ) (e : PollFd) → get_elem? p.pollfds i ≡ some e → (c : ℕ) × IsEntry p i e c
  pub registered :
      (fd c : ℕ) → p.channels fd ≡ some c → (i : ℕ) × (e : PollFd) × IsRegistered p fd c i e

-- The entry of a registered channel is replaced by one of the same descriptor.
module _ (p : PollPoller) (c idx : ℕ) (pfd new : PollFd) (ok : IsConsistent p)
    (there : get_elem? p.pollfds idx ≡ some pfd) (mapped : p.channels (p.store c).fd ≡ some c)
    (old_fd : descriptor pfd.fd ≡ (p.store c).fd) (new_fd : descriptor new.fd ≡ (p.store c).fd)
    (back : (p.store c).index ≡ pos idx) where
  abbrev pub replaced : PollPoller
  replaced = record p { pollfds = set p.pollfds idx new }

  pub replaced-IsConsistent : IsConsistent replaced
  replaced-IsConsistent = record { entries = entries; registered = registered }
    where
      entries :
          (i : ℕ) (e : PollFd)
          → get_elem? replaced.pollfds i ≡ some e
          → (d : ℕ) × IsEntry replaced i e d
      entries i e h = elim (get_elem?-set p.pollfds idx new e i h) [
        | inl (at, is) ↦ (
          c,
          record {
            mapped =
                ap (λ t. p.channels (descriptor t.fd)) (sym is) ∙ ap p.channels new_fd ∙ mapped;
            same = sym new_fd ∙ ap (λ t. descriptor t.fd) is;
            back = back ∙ ap pos (sym at);
          },
        )
        | inr (off, old) ↦
            let (d, q) = ok.entries i e old in
            (d, record { mapped = q.mapped; same = q.same; back = q.back })
      ]

      registered :
          (fd d : ℕ)
          → p.channels fd ≡ some d
          → (i : ℕ) × (e : PollFd) × IsRegistered replaced fd d i e
      registered fd d h =
          let (i, e, q) = ok.registered fd d h in
          elim (Bool-cases (i == idx)) [
            | inl at ↦
                let here : i ≡ idx = ground (arith, at) in
                let same_entry : pfd ≡ e = cc (there, q.entry, here) in
                (
                  i,
                  new,
                  record {
                    own = q.own;
                    back = q.back;
                    entry =
                        ap (get_elem? (set p.pollfds idx new)) here
                        ∙ get_elem?-set_same p.pollfds idx new pfd there;
                    shown = new_fd ∙ sym old_fd ∙ ap (λ t. descriptor t.fd) same_entry ∙ q.shown;
                  },
                )
            | inr off ↦
                let away : i ≢ idx = ground (arith, off) in
                (
                  i,
                  e,
                  record {
                    own = q.own;
                    back = q.back;
                    entry = get_elem?-set_other p.pollfds idx new e i away q.entry;
                    shown = q.shown;
                  },
                )
          ]

-- A new channel gets the entry behind the others.
module _ (p : PollPoller) (c n : ℕ) (new : PollFd) (ok : IsConsistent p)
    (free : p.channels (p.store c).fd ≡ none) (new_fd : descriptor new.fd ≡ (p.store c).fd)
    (fresh : (p.store c).index ≡ negsuc n) where
  abbrev pub added : PollPoller
  added = record {
    pollfds = p.pollfds ++ (new ∷ []);
    channels = put (p.store c).fd (some c) p.channels;
    store = put c (record (p.store c) { index = pos (length p.pollfds) }) p.store;
  }

  kept : (d i : ℕ) → (p.store d).index ≡ pos i → added.store d ≡ p.store d
  kept d i back = put_other c d _ p.store (λ e. absurd (cc (back, fresh, e)))

  kept_map : (fd d : ℕ) → p.channels fd ≡ some d → added.channels fd ≡ some d
  kept_map fd d h =
      put_other (p.store c).fd fd (some c) p.channels (λ e. absurd (cc (h, free, e))) ∙ h

  own_store : added.store c ≡ record (p.store c) { index = pos (length p.pollfds) }
  own_store = put_same c _ p.store

  pub added-IsConsistent : IsConsistent added
  added-IsConsistent = record { entries = entries; registered = registered }
    where
      entries :
          (i : ℕ) (e : PollFd) → get_elem? added.pollfds i ≡ some e → (d : ℕ) × IsEntry added i e d
      entries i e h = elim (get_elem?-snoc p.pollfds new e i h) [
        | inl (at, is) ↦ (
          c,
          record {
            mapped =
                ap (λ t. added.channels (descriptor t.fd)) (sym is)
                ∙ ap added.channels new_fd
                ∙ put_same (p.store c).fd (some c) p.channels;
            same = ap (λ t. t.fd) own_store ∙ sym new_fd ∙ ap (λ t. descriptor t.fd) is;
            back = ap (λ t. t.index) own_store ∙ ap pos (sym at);
          },
        )
        | inr old ↦
            let (d, q) = ok.entries i e old in
            (
              d,
              record {
                mapped = kept_map (descriptor e.fd) d q.mapped;
                same = ap (λ t. t.fd) (kept d i q.back) ∙ q.same;
                back = ap (λ t. t.index) (kept d i q.back) ∙ q.back;
              },
            )
      ]

      registered :
          (fd d : ℕ)
          → added.channels fd ≡ some d
          → (i : ℕ) × (e : PollFd) × IsRegistered added fd d i e
      registered fd d h = elim (Bool-cases (fd == (p.store c).fd)) [
        | inl at ↦
            let here : fd ≡ (p.store c).fd = ground (arith, at) in
            let is : c ≡ d = cc (
              sym (put_same (p.store c).fd (some c) p.channels)
              ∙ ap added.channels (sym here)
              ∙ h) in
            (
              length p.pollfds,
              new,
              record {
                own = ap (λ t. (added.store t).fd) (sym is) ∙ ap (λ t. t.fd) own_store ∙ sym here;
                back = ap (λ t. (added.store t).index) (sym is) ∙ ap (λ t. t.index) own_store;
                entry = get_elem?-last p.pollfds new;
                shown = new_fd ∙ sym here;
              },
            )
        | inr off ↦
            let away : fd ≢ (p.store c).fd = ground (arith, off) in
            let (i, e, q) =
              ok.registered fd d (sym (put_other (p.store c).fd fd (some c) p.channels away) ∙ h) in
            (
              i,
              e,
              record {
                own = ap (λ t. t.fd) (kept d i q.back) ∙ q.own;
                back = ap (λ t. t.index) (kept d i q.back) ∙ q.back;
                entry = get_elem?-front p.pollfds new e i q.entry;
                shown = q.shown;
              },
            )
      ]
