-- ===== src/Poller/Poll.antt =====
-- chtho/net/poller/Poll.cpp: the vector that `poll(2)` is given.
pub mod Registered
pub mod Removal
pub mod Active
use chtho.Prelude.{
  ℕ, zero, suc, ◌+◌, ◌-◌, ◌%◌, ◌^◌, ◌<◌, ◌≡◌, Bool, true, false, not, ◌&&◌, List, [], ◌∷◌, ◌++◌,
  Option, none, some, Result, ok, fail, Fault, ◌>>=◌, ◌>>◌, guard, require, ltb, ◌==◌,
  if◌then◌else◌, length, get_elem?, set, take, ℤ, pos, negsuc, update,
}
use chtho.Poller.{Channel, Channels, ChannelMap, is_none_event, set_idx, set_revents}

pub record PollFd : Type 0 where
  pub fd : ℤ
  pub events : ℕ
  pub revents : ℕ

pub record Poll : Type 0 where
  pub pollfds : List PollFd
  pub map : ChannelMap
  pub channels : Channels

-- -x - 1
abbrev pub flip : ℤ → ℤ
flip (pos n) = negsuc n
flip (negsuc n) = pos n

-- The same number, as a descriptor where it is not negative.
abbrev is_key : ℤ → ℤ → Bool
is_key (pos m) (pos n) = m == n
is_key (negsuc m) (negsuc n) = m == n
is_key _ _ = false

abbrev pub is_mapped : ChannelMap → ℕ → ℕ → Bool
is_mapped m fd p = elim (m fd) [ none ↦ false | some q ↦ q == p ]

-- `static_cast<short>`, as a bit pattern.
abbrev to_short : ℕ → ℕ
to_short n = n % 2 ^ 16

-- The branch for a new channel.
add_channel : Poll → ℕ → Result Poll
add_channel w p = do
  let c = w.channels p
  guard (elim (w.map c.fd) [ none ↦ true | some q ↦ false ])
  let pollfds = w.pollfds ++ record { fd = pos c.fd; events = to_short c.events; revents = 0 } ∷ []
  ok (record {
    pollfds = pollfds;
    map = update w.map c.fd (some p);
    channels = set_idx w.channels p (pos (length pollfds - 1));
  })

-- The branch for an existing one, at its index.
change_channel : Poll → ℕ → ℕ → Result Poll
change_channel w p i = do
  let c = w.channels p
  guard (is_mapped w.map c.fd p)
  guard (ltb i (length w.pollfds))
  ok (record w {
    pollfds = set w.pollfds i (record {
      fd = if is_none_event c then flip (pos c.fd) else pos c.fd;
      events = to_short c.events;
      revents = 0;
    });
  })

pub update_channel : Poll → ℕ → Result Poll
unfolding add_channel change_channel
update_channel w p = elim (w.channels p).idx [
  | negsuc n ↦ add_channel w p
  | pos i ↦ change_channel w p i
]

-- `std::iter_swap(begin() + i, end() - 1)` and then `pop_back()`.
abbrev pub swap_last : List PollFd → ℕ → PollFd → PollFd → List PollFd
swap_last xs i a b = set (set xs i b) (length xs - 1) a

abbrev pub pop_back : List PollFd → List PollFd
pop_back xs = take (length xs - 1) xs

abbrev pub at : List PollFd → ℕ → Result PollFd
at xs i = elim (get_elem? xs i) [ none ↦ fail Fault.out_of_bounds | some x ↦ ok x ]

-- `channelEnd`, once it is not negative.
abbrev pub key_of : ℤ → ℕ
key_of (pos n) = n
key_of (negsuc n) = n

-- The `else` branch: the last entry takes the place at `i`, and its channel learns so.
pub move_last : Poll → ℕ → PollFd → Result Poll
move_last w i pfd = do
  back ← at w.pollfds (length w.pollfds - 1)
  elim (w.map (key_of back.fd)) [
    | none ↦ fail Fault.null_pointer
    | some q ↦ ok (record w {
      pollfds = pop_back (swap_last w.pollfds i pfd back);
      channels = set_idx w.channels q (pos i);
    })
  ]

remove_at : Poll → ℕ → ℕ → Result Poll
unfolding move_last
remove_at w p i = do
  let c = w.channels p
  guard (is_mapped w.map c.fd p)
  guard (is_none_event c)
  guard (ltb i (length w.pollfds))
  pfd ← at w.pollfds i
  guard (is_key pfd.fd (flip (pos c.fd)) && pfd.events == c.events)
  let w' = record w { map = update w.map c.fd none }
  if i == length w.pollfds - 1
      then ok (record w' { pollfds = pop_back w.pollfds })
      else move_last w' i pfd

-- An index below 0 fails `assert(0 <= idx ...)`, as the other assertions do.
pub remove_channel : Poll → ℕ → Result Poll
unfolding remove_at
remove_channel w p = elim (w.channels p).idx [
  | negsuc n ↦ fail Fault.assertion
  | pos i ↦ remove_at w p i
]

-- The loop of `fillActiveChannels`, over what `poll(2)` has written to `revents`.
pub fill_active : ChannelMap → Channels → List PollFd → ℕ → Result (List ℕ × Channels)
fill_active m cs [] n = ok ([], cs)
fill_active m cs (pfd ∷ rest) zero = ok ([], cs)
fill_active m cs (pfd ∷ rest) (suc n) =
    let skip = fill_active m cs rest (suc n) in
    if ltb 0 pfd.revents
    then elim pfd.fd [
      | negsuc k ↦ fail Fault.assertion
      | pos fd ↦ elim (m fd) [
        | none ↦ fail Fault.assertion
        | some p ↦ do
          guard ((cs p).fd == fd)
          (active, cs') ← fill_active m (set_revents cs p pfd.revents) rest n
          ok (p ∷ active, cs')
      ]
    ]
    else skip

-- What `poll(2)` does to the vector and returns: the number of entries that have events with the
-- `revents` of each, or -1 with an errno.
pub data Polled : Type 0 where
  ready : ℕ → List ℕ → Polled
  failed : ℕ → Polled

-- `revents` as the kernel has written them.
write_revents : List PollFd → List ℕ → List PollFd
write_revents [] rs = []
write_revents (x ∷ xs) [] = x ∷ xs
write_revents (x ∷ xs) (r ∷ rs) = record x { revents = r } ∷ write_revents xs rs

-- `Poll::poll`: an error leaves `activeChannels` empty, and is logged unless it is EINTR.
pub poll : Poll → Polled → Result (List ℕ × Poll)
unfolding fill_active write_revents
poll w (failed errno) = ok ([], w)
poll w (ready n rs) = do
  let w' = record w { pollfds = write_revents w.pollfds rs }
  if ltb 0 n
      then (do
        (active, cs) ← fill_active w'.map w'.channels w'.pollfds n
        ok (active, record w' { channels = cs }))
      else ok ([], w')
