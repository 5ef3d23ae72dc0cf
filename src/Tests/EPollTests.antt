-- ===== src/Tests/EPollTests.antt =====
-- A kernel that keeps its registrations in a function, and a poller without channels.
use dbdky_gcc.Common.{put, ℕ, refl, Option, none, some, ◌==◌, if◌then◌else◌, arith}
use dbdky_gcc.EPollPoller.{
  k_new, k_added, Operation, ctl_add, ctl_mod, ctl_del, Epoll, EPollPoller, change,
}
use dbdky_gcc.EPollPoller.Watching.{IsEpoll, IsConsistent}
use dbdky_gcc.EPollPoller.Changing.{Changes, change-Changes}

abbrev Registrations : Type 0
Registrations = ℕ → Option (ℕ × ℕ)

-- What a call makes of the registration that is there.
abbrev control : Operation → ℕ → ℕ → ℕ → Registrations → Option (ℕ × ℕ) → Option Registrations
control ctl_add fd events c k none = some (put fd (some (events, c)) k)
control ctl_add fd events c k (some x) = none
control ctl_mod fd events c k none = none
control ctl_mod fd events c k (some x) = some (put fd (some (events, c)) k)
control ctl_del fd events c k none = none
control ctl_del fd events c k (some x) = some (put fd none k)

abbrev kernel : Epoll
kernel = record {
  K = Registrations;
  ctl = λ op fd events c k. control op fd events c k (k fd);
  interest = λ k fd. k fd;
}

kernel-IsEpoll : IsEpoll kernel
kernel-IsEpoll = record {
  adds = λ fd events c k h. (put fd (some (events, c)) k, rw h refl, λ j. refl);
  mods = λ fd events c k x h. (put fd (some (events, c)) k, rw h refl, λ j. refl);
  dels = λ fd events c k x h. (put fd none k, rw h refl, λ j. refl);
}

abbrev quiet : EPollPoller kernel
quiet = record {
  kernel = λ fd. none;
  event_list_size = 16;
  channels = λ fd. none;
  store = λ c. record { fd = 3; events = 0; revents = 0; index = k_new };
}

quiet-IsConsistent : IsConsistent kernel quiet
quiet-IsConsistent = record {
  watched = λ fd. refl;
  owned = λ fd c h. absurd (cc h);
  listed = λ c h. absurd (cc h);
}

change-Changes_example : Changes kernel quiet (change kernel 0 5 quiet) 3 (some (5, 0))
change-Changes_example =
    change-Changes kernel kernel-IsEpoll quiet quiet-IsConsistent 0 5 (λ h. refl)

-- The channel 0 is registered for nothing.
abbrev idle : EPollPoller kernel
idle = record {
  kernel = λ fd. if fd == 3 then some (0, 0) else none;
  event_list_size = 16;
  channels = λ fd. if fd == 3 then some 0 else none;
  store =
      λ c. record { fd = 3; events = 0; revents = 0; index = if c == 0 then k_added else k_new };
}

idle-IsConsistent : IsConsistent kernel idle
idle-IsConsistent = record {
  watched = λ fd. ground arith;
  owned = λ fd c h. ground arith;
  listed = λ c h. ground arith;
}
