-- ===== src/PollPoller.antt =====
-- src/port/PollPoller.cpp: the poller over `poll`. A channel is an address in a store, which the
-- poller shares with the owners of the channels. The events of a channel fit the `short` of a pollfd.
pub mod Consistent
pub mod Update
use dbdky_gcc.Common.{
  ℕ, put, zero, suc, ◌+◌, ◌-◌, Option, none, some, List, [], ◌∷◌, ◌++◌, length, get_elem?, set,
  take, Bool, true, false, ◌&&◌, ◌||◌, not, ◌==◌, ltb, leb, if◌then◌else◌, ◌>>=◌, ◌>>◌, assert,
}
use dbdky_gcc.Common.Int.{ℤ, pos, negsuc}

-- `struct pollfd`.
pub record PollFd : Type 0 where
  pub fd : ℤ
  pub events : ℕ
  pub revents : ℕ

-- The members of a Channel that a poller reads and sets; `index` is -1 in a new one.
pub record Channel : Type 0 where
  pub fd : ℕ
  pub events : ℕ
  pub revents : ℕ
  pub index : ℤ

pub record PollPoller : Type 0 where
  pub pollfds : List PollFd
  pub channels : ℕ → Option ℕ
  pub store : ℕ → Channel

abbrev pub is_none : Option ℕ → Bool
is_none none = true
is_none (some c) = false

abbrev pub is_some : Option ℕ → ℕ → Bool
is_some none c = false
is_some (some d) c = d == c

-- `-fd - 1` is the negative number after `fd` others.
abbrev pub is_fd : ℤ → ℕ → Bool
is_fd (pos n) fd = n == fd
is_fd (negsuc n) fd = n == fd

abbrev pub is_hidden : ℤ → ℕ → Bool
is_hidden (pos n) fd = false
is_hidden (negsuc n) fd = n == fd

-- `none` is an `assert` that fails.
unfoldable pub update_channel : ℕ → PollPoller → Option PollPoller
update_channel c p = elim (p.store c).index [
  | negsuc n ↦ do
    assert (is_none (p.channels (p.store c).fd))
    some (record {
      pollfds =
          p.pollfds
          ++ (record { fd = pos (p.store c).fd; events = (p.store c).events; revents = 0 } ∷ []);
      channels = put (p.store c).fd (some c) p.channels;
      store = put c (record (p.store c) { index = pos (length p.pollfds) }) p.store;
    })
  | pos idx ↦ do
    assert (is_some (p.channels (p.store c).fd) c)
    pfd ← get_elem? p.pollfds idx
    assert (is_fd pfd.fd (p.store c).fd)
    some (record p {
      pollfds = set p.pollfds idx (record {
        fd = if (p.store c).events == 0 then negsuc (p.store c).fd else pfd.fd;
        events = (p.store c).events;
        revents = 0;
      });
    })
]

-- The channel of the last entry takes the place of the removed one.
unfoldable pub remove_channel : ℕ → PollPoller → Option PollPoller
remove_channel c p = elim (p.store c).index [
  | negsuc n ↦ none
  | pos idx ↦ do
    assert (is_some (p.channels (p.store c).fd) c)
    assert ((p.store c).events == 0)
    pfd ← get_elem? p.pollfds idx
    assert (is_hidden pfd.fd (p.store c).fd && (pfd.events == (p.store c).events))
    let channels = put (p.store c).fd none p.channels
    let rest = take (length p.pollfds - 1) p.pollfds
    if idx == length p.pollfds - 1
        then some (record p { pollfds = rest; channels = channels })
        else do
          last ← get_elem? p.pollfds (length p.pollfds - 1)
          moved ← channels (elim last.fd [ pos n ↦ n | negsuc n ↦ n ])
          some (record {
            pollfds = set rest idx last;
            channels = channels;
            store = put moved (record (p.store moved) { index = pos idx }) p.store;
          })
]

-- `fillActiveChannels`: the channels in their order, with what `poll` reported.
unfoldable pub fill_active_channels :
    ℕ → List PollFd → (ℕ → Option ℕ) → (ℕ → Channel) → Option (List ℕ × (ℕ → Channel))
fill_active_channels zero fds channels store = some ([], store)
fill_active_channels (suc k) [] channels store = some ([], store)
fill_active_channels (suc k) (pfd ∷ fds) channels store =
    if ltb 0 pfd.events
    then elim pfd.fd [
      | negsuc n ↦ none
      | pos fd ↦ do
        c ← channels fd
        assert ((store c).fd == fd)
        r ←
            fill_active_channels k fds channels
              (put c (record (store c) { revents = pfd.revents }) store)
        some (c ∷ r.0, r.1)
    ]
    else fill_active_channels (suc k) fds channels store

-- `poll`, with the system call as a parameter: the count, negative for an error, and the entries.
unfoldable pub poll : (List PollFd → ℤ × List PollFd) → PollPoller → Option (PollPoller × List ℕ)
unfolding fill_active_channels
poll system p = elim (system p.pollfds).0 [
  | pos num_events ↦ do
    r ← fill_active_channels num_events (system p.pollfds).1 p.channels p.store
    some (record p { pollfds = (system p.pollfds).1; store = r.1 }, r.0)
  | negsuc n ↦ some (record p { pollfds = (system p.pollfds).1 }, [])
]
