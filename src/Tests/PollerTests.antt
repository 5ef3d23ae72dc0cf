-- ===== src/Tests/PollerTests.antt =====
-- A poller without channels, and one whose only channel is hidden.
use dbdky_gcc.Common.{
  ℕ, zero, suc, ◌≡◌, refl, ap, sym, none, some, [], ◌∷◌, get_elem?, inl, inr, ◌==◌, if◌then◌else◌,
  Bool-cases, arith,
}
use dbdky_gcc.Common.Int.{pos, negsuc}
use dbdky_gcc.PollPoller.{PollFd, PollPoller, update_channel}
use dbdky_gcc.PollPoller.Consistent.{IsEntry, IsRegistered, IsConsistent}
use dbdky_gcc.PollPoller.Update.{Updates, update_channel-Updates, update_channel-hidden}

abbrev idle : PollPoller
idle = record {
  pollfds = [];
  channels = λ fd. none;
  store = λ c. record { fd = 3; events = 1; revents = 0; index = negsuc 0 };
}

idle-IsConsistent : IsConsistent idle
idle-IsConsistent = record {
  entries = λ i e h. absurd (cc h);
  registered = λ fd c h. absurd (cc h);
}

update_channel-Updates_example : Updates idle 0
update_channel-Updates_example =
    update_channel-Updates idle 0 idle-IsConsistent
      (inl (record { n = 0; fresh = refl; free = refl }))

-- The channel 0 asks for the event 1 again.
abbrev hidden_entry : PollFd
hidden_entry = record { fd = negsuc 3; events = 0; revents = 0 }

abbrev hidden : PollPoller
hidden = record {
  pollfds = hidden_entry ∷ [];
  channels = λ fd. if fd == 3 then some 0 else none;
  store = λ c. record { fd = 3; events = 1; revents = 0; index = pos 0 };
}

hidden-IsConsistent : IsConsistent hidden
hidden-IsConsistent = record { entries = entries; registered = registered }
  where
    entries :
        (i : ℕ) (e : PollFd) → get_elem? hidden.pollfds i ≡ some e → (c : ℕ) × IsEntry hidden i e c
    entries zero e h =
        let is : hidden_entry ≡ e = cc h in
        (
          0,
          record {
            mapped =
                ap (λ t. hidden.channels (elim t.fd as (λ z. ℕ) [ pos n ↦ n | negsuc n ↦ n ]))
                  (sym is);
            same = ap (λ t. elim t.fd as (λ z. ℕ) [ pos n ↦ n | negsuc n ↦ n ]) is;
            back = refl;
          },
        )
    entries (suc i) e h = absurd (cc h)

    registered :
        (fd c : ℕ)
        → hidden.channels fd ≡ some c
        → (i : ℕ) × (e : PollFd) × IsRegistered hidden fd c i e
    registered fd c h = elim (Bool-cases (fd == 3)) [
      | inl at ↦
          let is : 3 ≡ fd = ground (arith, at) in
          (0, hidden_entry, record { own = is; back = refl; entry = refl; shown = is })
      | inr off ↦ absurd (cc (rw off at h))
    ]

update_channel-hidden_example :
    (q : PollPoller) × (update_channel 0 hidden ≡ some q)
    × (get_elem? q.pollfds 0 ≡ some (record { fd = negsuc 3; events = 1; revents = 0 }))
update_channel-hidden_example =
    update_channel-hidden hidden 0 0 hidden_entry hidden-IsConsistent refl
      (record { own = refl; back = refl; entry = refl; shown = refl }) refl
