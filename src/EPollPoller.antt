-- ===== src/EPollPoller.antt =====
-- src/port/EPollPoller.cpp: the poller over `epoll`. The kernel's part is a parameter. A channel is an
-- address in a store; a failed `assert` and a fatal log entry are `none`.
pub mod Changing
pub mod Watching
use dbdky_gcc.Common.{
  ℕ, put, ◌*◌, Option, none, some, List, [], ◌∷◌, length, Bool, true, false, ◌==◌, leb,
  if◌then◌else◌, ◌>>=◌, ◌>>◌, assert,
}

-- `kNew`, `kAdded` and `kDeleted`, the only values that an index has.
pub data Index : Type 0 where
  k_new k_added k_deleted : Index

pub record Channel : Type 0 where
  pub fd : ℕ
  pub events : ℕ
  pub revents : ℕ
  pub index : Index

pub data Operation : Type 0 where
  ctl_add ctl_mod ctl_del : Operation

-- `epoll_ctl` with its operation, descriptor, events and pointer; `none` is -1. `interest` is what the
-- kernel has registered for a descriptor.
pub record Epoll : Type 1 where
  pub K : Type 0
  pub ctl : Operation → ℕ → ℕ → ℕ → K → Option K
  pub interest : K → ℕ → Option (ℕ × ℕ)

abbrev pub holds : Option ℕ → ℕ → Bool
holds none c = false
holds (some d) c = d == c

abbrev pub is_free : Option ℕ → Bool
is_free none = true
is_free (some c) = false

module _ (e : Epoll) where
  pub record EPollPoller : Type 0 where
    pub kernel : e.K
    pub event_list_size : ℕ
    pub channels : ℕ → Option ℕ
    pub store : ℕ → Channel

  -- A failed EPOLL_CTL_DEL is logged, any other failure is fatal.
  abbrev pub after_ctl : Operation → Option e.K → EPollPoller → Option EPollPoller
  after_ctl op (some k) p = some (record p { kernel = k })
  after_ctl ctl_del none p = some p
  after_ctl op none p = none

  unfoldable pub update : Operation → ℕ → EPollPoller → Option EPollPoller
  update op c p = after_ctl op (e.ctl op (p.store c).fd (p.store c).events c p.kernel) p

  abbrev pub set_index : ℕ → Index → EPollPoller → EPollPoller
  set_index c i p = record p { store = put c (record (p.store c) { index = i }) p.store }

  unfoldable pub update_by : Index → ℕ → EPollPoller → Option EPollPoller
  update_by k_new c p = do
    assert (is_free (p.channels (p.store c).fd))
    update ctl_add c
        (set_index c k_added (record p { channels = put (p.store c).fd (some c) p.channels }))
  update_by k_deleted c p = do
    assert (holds (p.channels (p.store c).fd) c)
    update ctl_add c (set_index c k_added p)
  update_by k_added c p = do
    assert (holds (p.channels (p.store c).fd) c)
    if (p.store c).events == 0
        then (update ctl_del c p >>= λ q. some (set_index c k_deleted q))
        else update ctl_mod c p

  unfoldable pub update_channel : ℕ → EPollPoller → Option EPollPoller
  update_channel c p = update_by (p.store c).index c p

  -- The end of `removeChannel`, by the index that the channel had.
  unfoldable pub remove_by : Index → ℕ → EPollPoller → Option EPollPoller
  remove_by k_new c p = none
  remove_by k_added c p = do
    q ← update ctl_del c (record p { channels = put (p.store c).fd none p.channels })
    some (set_index c k_new q)
  remove_by k_deleted c p =
      some (set_index c k_new (record p { channels = put (p.store c).fd none p.channels }))

  unfoldable pub remove_channel : ℕ → EPollPoller → Option EPollPoller
  remove_channel c p = do
    assert (holds (p.channels (p.store c).fd) c)
    assert ((p.store c).events == 0)
    remove_by (p.store c).index c p

  -- The reported events and pointers, in their order.
  unfoldable pub fill_active_channels : List (ℕ × ℕ) → EPollPoller → Option (List ℕ × EPollPoller)
  fill_active_channels [] p = some ([], p)
  fill_active_channels ((revents, c) ∷ l) p = do
    assert (holds (p.channels (p.store c).fd) c)
    r ←
        fill_active_channels l
          (record p { store = put c (record (p.store c) { revents = revents }) p.store })
    some (c ∷ r.0, r.1)

  -- `poll` with the answer of `epoll_wait`, which `none` lets fail; the list is doubled when it was full.
  unfoldable pub poll : Option (List (ℕ × ℕ)) → EPollPoller → Option (List ℕ × EPollPoller)
  poll none p = some ([], p)
  poll (some []) p = some ([], p)
  poll (some (x ∷ l)) p = do
    assert (leb (length (x ∷ l)) p.event_list_size)
    r ← fill_active_channels (x ∷ l) p
    some (
      r.0,
      if length (x ∷ l) == p.event_list_size
          then record r.1 { event_list_size = p.event_list_size * 2 }
          else r.1,
    )

  -- `enableReading` and the like: the events are set, and the poller is told.
  pub change : ℕ → ℕ → EPollPoller → Option EPollPoller
  change c events p =
      update_channel c (record p { store = put c (record (p.store c) { events = events }) p.store })
