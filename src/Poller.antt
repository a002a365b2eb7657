-- ===== src/Poller.antt =====
-- chtho/net/poller and the part of Channel.h that it works on: a channel's descriptor, its events
-- and its index in the poller. Channels are addressed by pointers, which are numbers.
pub mod Poll
pub mod EPoll
mod Tests
use chtho.Prelude.{ℕ, ◌≡◌, Bool, Option, none, some, ◌==◌, ℤ, pos, negsuc, update}

-- A descriptor comes from the kernel, so it is not negative.
pub record Channel : Type 0 where
  pub fd : ℕ
  pub events : ℕ
  pub revents : ℕ
  pub idx : ℤ

-- `Channel::isNoneEvent`
abbrev pub is_none_event : Channel → Bool
is_none_event c = c.events == 0

-- The channels by address.
abbrev pub Channels : Type 0
Channels = ℕ → Channel

abbrev pub set_idx : Channels → ℕ → ℤ → Channels
set_idx cs p i = update cs p (record (cs p) { idx = i })

abbrev pub set_revents : Channels → ℕ → ℕ → Channels
set_revents cs p r = update cs p (record (cs p) { revents = r })

-- `ChannelMap`, with the descriptor as key.
abbrev pub ChannelMap : Type 0
ChannelMap = ℕ → Option ℕ
