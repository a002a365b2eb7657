-- ===== src/Poller/Tests.antt =====
-- The theorems on the pollers at two channels, and a kernel that does what epoll_ctl(2) documents.
use chtho.Prelude.{
  ℕ, ◌≡◌, refl, List, [], ◌∷◌, none, some, ok, inl, inr, ◌==◌, if◌then◌else◌, get_elem?, pos,
  negsuc, update, arith, Bool-cases, zero, suc,
}
use chtho.Poller.{Channels}
use chtho.Poller.Poll.{PollFd, Poll, update_channel, remove_channel, fill_active}
use chtho.Poller.Poll.Registered.{IsRegistered, Placed, Mapped, with_events, update-IsRegistered}
use chtho.Poller.Poll.Active.{AllKnown, HaveRevents, count_ready, ready_channels, fill_active-ready}
use chtho.Poller.Poll.Removal.{remove-IsRegistered}

-- Channel 1 reads descriptor 7, channel 2 has no events at descriptor 9, the others are new.
abbrev channels : Channels
channels p =
    if p == 1
    then record { fd = 7; events = 3; revents = 0; idx = pos 0 }
    else if p == 2
    then record { fd = 9; events = 0; revents = 0; idx = pos 1 }
    else record { fd = 11; events = 0; revents = 0; idx = negsuc 0 }

abbrev two : Poll
two = record {
  pollfds =
      record { fd = pos 7; events = 3; revents = 0 }
      ∷ record { fd = negsuc 9; events = 0; revents = 0 }
      ∷ [];
  map = λ fd. if fd == 7 then some 1 else if fd == 9 then some 2 else none;
  channels = channels;
}

two-Placed : (fd p : ℕ) → two.map fd ≡ some p → Placed two fd p
two-Placed fd p m = elim (Bool-cases (fd == 7)) [
  | inl e ↦ (
    0,
    record { fd = pos 7; events = 3; revents = 0 },
    ground arith,
    ground arith,
    refl,
    ground arith,
  )
  | inr e ↦ (
    1,
    record { fd = negsuc 9; events = 0; revents = 0 },
    ground arith,
    ground arith,
    refl,
    ground arith,
  )
]

two-Mapped : (i : ℕ) (x : PollFd) → get_elem? two.pollfds i ≡ some x → Mapped two i x
two-Mapped zero x g = (1, ground arith, refl)
two-Mapped (suc zero) x g = (2, ground arith, refl)
two-Mapped (suc (suc i)) x g = cc

two-IsRegistered : IsRegistered two
two-IsRegistered = record { placed = two-Placed; mapped = two-Mapped }

update-IsRegistered_example :
    (w' : Poll) × (update_channel (with_events two 3 4) 3 ≡ ok w')
    × IsRegistered w'
    × ((fd : ℕ) → w'.map fd ≡ update two.map 11 (some 3) fd)
    × ((w'.channels 3).events ≡ 4)
update-IsRegistered_example =
    update-IsRegistered two two-IsRegistered 3 4 (omega arith) (inr (0, refl, refl, omega arith))

remove-IsRegistered_example :
    (w' : Poll) × (remove_channel two 2 ≡ ok w')
    × IsRegistered w'
    × ((fd : ℕ) → w'.map fd ≡ update two.map 9 none fd)
remove-IsRegistered_example = remove-IsRegistered two 2 two-IsRegistered refl refl

-- Descriptor 7 is readable.
abbrev readable : List PollFd
readable =
    record { fd = pos 7; events = 3; revents = 1 }
    ∷ record { fd = negsuc 9; events = 0; revents = 0 }
    ∷ []

readable-AllKnown : AllKnown two.map channels readable
readable-AllKnown = ((λ h. (7, 1, refl, ground arith, ground arith)), ((λ h. cc), tt))

fill_active-ready_example :
    (cs' : Channels) × (fill_active two.map channels readable (count_ready readable)
      ≡ ok (ready_channels two.map readable, cs'))
    × HaveRevents two.map readable channels cs'
fill_active-ready_example = fill_active-ready two.map channels readable readable-AllKnown
