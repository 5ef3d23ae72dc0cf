-- ===== src/Channel.antt =====
-- src/port/Channel.h and src/port/Channel.cpp: what a channel asks the poller for, and the callbacks
-- that it makes of the events that are reported.
use dbdky_gcc.Common.{
  ℕ, ◌+◌, ◌/◌, ◌%◌, List, [], ◌∷◌, ◌++◌, Bool, true, false, ◌&&◌, ◌||◌, not, ◌==◌, if◌then◌else◌,
}

-- `events_`, which has only the bits of `kReadEvent` and of `kWriteEvent`.
pub record Interest : Type 0 where
  pub reading : Bool
  pub writing : Bool

abbrev pub k_none_event : ℕ
k_none_event = 0

abbrev pub k_read_event : ℕ
k_read_event = 3

abbrev pub k_write_event : ℕ
k_write_event = 4

-- The number that the poller gets.
abbrev pub events : Interest → ℕ
events i =
    (if i.reading then k_read_event else k_none_event)
    + (if i.writing then k_write_event else k_none_event)

abbrev pub no_interest : Interest
no_interest = record { reading = false; writing = false }

abbrev pub enable_reading : Interest → Interest
enable_reading i = record i { reading = true }

abbrev pub enable_writing : Interest → Interest
enable_writing i = record i { writing = true }

abbrev pub disable_writing : Interest → Interest
disable_writing i = record i { writing = false }

abbrev pub disable_all : Interest → Interest
disable_all i = no_interest

abbrev pub is_none_event : Interest → Bool
is_none_event i = events i == k_none_event

-- The bits of `revents_`, as <poll.h> has them.
abbrev pub has : ℕ → ℕ → Bool
has revents bit = (revents / bit) % 2 == 1

abbrev pub pollin : ℕ
pollin = 1

abbrev pub pollpri : ℕ
pollpri = 2

abbrev pub pollout : ℕ
pollout = 4

abbrev pub pollerr : ℕ
pollerr = 8

abbrev pub pollhup : ℕ
pollhup = 16

abbrev pub pollnval : ℕ
pollnval = 32

abbrev pub pollrdhup : ℕ
pollrdhup = 0x2000

pub data Callback : Type 0 where
  on_close on_error on_read on_write : Callback

abbrev pub when : Bool → Callback → List Callback
when true c = c ∷ []
when false c = []

-- The callbacks in the order of the calls, for a channel that has all four.
unfoldable pub handle_event_with_guard : ℕ → List Callback
handle_event_with_guard revents =
    when (has revents pollhup && not (has revents pollin)) on_close
    ++ (when (has revents pollerr || has revents pollnval) on_error
        ++ (when (has revents pollin || (has revents pollpri || has revents pollrdhup)) on_read
            ++ when (has revents pollout) on_write))

-- A channel that is tied to an owner makes no calls once the owner is gone.
unfoldable pub handle_event : Bool → Bool → ℕ → List Callback
handle_event tied alive revents = if tied && not alive then [] else handle_event_with_guard revents
