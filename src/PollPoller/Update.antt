-- ===== src/PollPoller/Update.antt =====
-- `updateChannel` on channels that are new or registered.
use dbdky_gcc.Common.{
  put_same, ℕ, ◌≡◌, refl, ap, ◌∙◌, none, some, get_elem?, set, true, ◌==◌, if◌then◌else◌, arith,
  ◌⊎◌, inl, inr, Bool-cases,
}
use dbdky_gcc.Common.Positions.{get_elem?-set_same}
use dbdky_gcc.Common.Int.{ℤ, pos, negsuc}
use dbdky_gcc.PollPoller.{PollFd, Channel, PollPoller, is_fd, update_channel}
use dbdky_gcc.PollPoller.Consistent.{
  descriptor, IsRegistered, IsConsistent, replaced-IsConsistent, added, added-IsConsistent,
}

-- A channel that has no index yet and whose descriptor is free.
pub record IsFresh (p : PollPoller) (c : ℕ) : Type 0 where
  pub n : ℕ
  pub fresh : (p.store c).index ≡ negsuc n
  pub free : p.channels (p.store c).fd ≡ none

-- The call returns, the entries, the map and the indices still agree, and the channel is registered.
pub record Updates (p : PollPoller) (c : ℕ) : Type 0 where
  pub after : PollPoller
  pub returns : update_channel c p ≡ some after
  pub consistent : IsConsistent after
  pub registered : after.channels (p.store c).fd ≡ some c

is_fd-descriptor : (z : ℤ) (fd : ℕ) → descriptor z ≡ fd → is_fd z fd ≡ true
is_fd-descriptor (pos n) fd h = ground (arith, h)
is_fd-descriptor (negsuc n) fd h = ground (arith, h)

-- The entry that a registered channel has after the call.
abbrev renewed : Channel → PollFd → PollFd
renewed ch pfd = record {
  fd = if ch.events == 0 then negsuc ch.fd else pfd.fd;
  events = ch.events;
  revents = 0;
}

renewed_fd :
    (ch : Channel) (pfd : PollFd)
    → descriptor pfd.fd ≡ ch.fd
    → descriptor (renewed ch pfd).fd ≡ ch.fd
renewed_fd ch pfd h = elim (Bool-cases (ch.events == 0)) [ inl e ↦ rw e refl | inr e ↦ rw e h ]

fresh-Updates : (p : PollPoller) (c : ℕ) → IsConsistent p → IsFresh p c → Updates p c
unfolding update_channel
fresh-Updates p c ok f = record {
  after = added p c f.n new ok f.free refl f.fresh;
  returns = rw (f.fresh, f.free, update_channel) refl;
  consistent = added-IsConsistent p c f.n new ok f.free refl f.fresh;
  registered = put_same (p.store c).fd (some c) p.channels;
}
  where
    new : PollFd
    new = record { fd = pos (p.store c).fd; events = (p.store c).events; revents = 0 }

module _ (p : PollPoller) (c : ℕ) (ok : IsConsistent p)
    (mapped : p.channels (p.store c).fd ≡ some c) (i : ℕ) (e : PollFd)
    (q : IsRegistered p (p.store c).fd c i e) where
  update_registered :
      update_channel c p ≡ some (record p { pollfds = set p.pollfds i (renewed (p.store c) e) })
  unfolding update_channel
  update_registered =
      let same : (c == c) ≡ true = ground arith in
      rw
        (
          q.back,
          update_channel,
          mapped,
          same,
          q.entry,
          is_fd-descriptor e.fd (p.store c).fd q.shown,
        )
        refl

  registered-Updates : Updates p c
  registered-Updates = record {
    after = record p { pollfds = set p.pollfds i (renewed (p.store c) e) };
    returns = update_registered;
    consistent =
        replaced-IsConsistent p c i e (renewed (p.store c) e) ok q.entry mapped q.shown
          (renewed_fd (p.store c) e q.shown) q.back;
    registered = mapped;
  }

-- For a channel that is new, or registered already, `updateChannel` returns without a failed
-- assertion, registers the channel, and keeps the entries, the map and the indices in agreement.
pub update_channel-Updates :
    (p : PollPoller) (c : ℕ)
    → IsConsistent p
    → (IsFresh p c) ⊎ (p.channels (p.store c).fd ≡ some c)
    → Updates p c
update_channel-Updates p c ok (inl f) = fresh-Updates p c ok f
update_channel-Updates p c ok (inr mapped) =
    let (i, e, q) = ok.registered (p.store c).fd c mapped in registered-Updates p c ok mapped i e q

-- The entry of a registered channel that was hidden when it had no events stays hidden by
-- `updateChannel`, whatever events the channel asks for now.
pub update_channel-hidden :
    (p : PollPoller) (c i : ℕ) (e : PollFd)
    → IsConsistent p
    → p.channels (p.store c).fd ≡ some c
    → IsRegistered p (p.store c).fd c i e
    → e.fd ≡ negsuc (p.store c).fd
    → (q : PollPoller) × (update_channel c p ≡ some q)
      × (get_elem? q.pollfds i
          ≡ some (record { fd = negsuc (p.store c).fd; events = (p.store c).events; revents = 0 }))
update_channel-hidden p c i e ok mapped q hidden = (
  record p { pollfds = set p.pollfds i (renewed (p.store c) e) },
  update_registered p c ok mapped i e q,
  get_elem?-set_same p.pollfds i (renewed (p.store c) e) e q.entry
      ∙ ap (λ z. some (record { fd = z; events = (p.store c).events; revents = 0 })) still,
)
  where
    still :
        (if (p.store c).events == 0 then negsuc (p.store c).fd else e.fd) ≡ negsuc (p.store c).fd
    still = elim (Bool-cases ((p.store c).events == 0)) [
      | inl none_asked ↦ rw none_asked refl
      | inr asked ↦ rw asked hidden
    ]
