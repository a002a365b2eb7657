-- ===== src/Channel.antt =====
-- chtho/net/Channel.h and Channel.cpp as its owner sees it: the events that it asks for and the
-- callbacks that `handleEventWithGuard` makes.
use chtho.Prelude.{
  ℕ, ◌+◌, ◌/◌, ◌%◌, ◌^◌, Bool, true, false, not, ◌&&◌, ◌||◌, List, [], ◌∷◌, ◌++◌, ◌==◌,
  if◌then◌else◌,
}

-- `events_` is made of `kReadEvent` and `kWriteEvent` alone: whether it has each of them.
-- `added` is `addedToLoop_`, `tied` is `tied_`.
pub record Channel : Type 0 where
  pub reading : Bool
  pub writing : Bool
  pub added : Bool
  pub tied : Bool

-- The constructor.
abbrev pub fresh : Channel
fresh = record { reading = false; writing = false; added = false; tied = false }

-- `update` after the new events; the poller is told through the event loop.
abbrev pub enable_read : Channel → Channel
enable_read c = record c { reading = true; added = true }

abbrev disable_read : Channel → Channel
disable_read c = record c { reading = false; added = true }

abbrev pub enable_write : Channel → Channel
enable_write c = record c { writing = true; added = true }

abbrev pub disable_write : Channel → Channel
disable_write c = record c { writing = false; added = true }

abbrev pub disable_all : Channel → Channel
disable_all c = record c { reading = false; writing = false; added = true }

abbrev pub is_none_event : Channel → Bool
is_none_event c = not c.reading && not c.writing

-- `POLLIN|POLLPRI` is 3, and `POLLOUT` is 4.
abbrev pub events : Channel → ℕ
events c = (if c.reading then 3 else 0) + (if c.writing then 4 else 0)

-- The bits of poll(2) by their place.
abbrev pub pollin : ℕ
pollin = 0

abbrev pub pollpri : ℕ
pollpri = 1

abbrev pub pollout : ℕ
pollout = 2

abbrev pub pollerr : ℕ
pollerr = 3

abbrev pub pollhup : ℕ
pollhup = 4

abbrev pub pollnval : ℕ
pollnval = 5

abbrev pub pollrdhup : ℕ
pollrdhup = 13

abbrev pub has : ℕ → ℕ → Bool
has revents k = revents / 2 ^ k % 2 == 1

pub data Callback : Type 0 where
  close error read write : Callback

-- Which callbacks are set.
pub record Callbacks : Type 0 where
  pub close_cb : Bool
  pub error_cb : Bool
  pub read_cb : Bool
  pub write_cb : Bool

abbrev pub call : Bool → Callback → List Callback
call b f = if b then f ∷ [] else []

-- The callbacks that `handleEventWithGuard` makes, in their order. A callback that changes the
-- events of the channel does not change `revents_`.
unfoldable pub handle_event_with_guard : Callbacks → ℕ → List Callback
handle_event_with_guard cb revents =
    call (has revents pollhup && not (has revents pollin) && cb.close_cb) close
    ++ call ((has revents pollerr || has revents pollnval) && cb.error_cb) error
    ++ call ((has revents pollin || has revents pollpri || has revents pollrdhup) && cb.read_cb)
        read
    ++ call (has revents pollout && cb.write_cb) write

-- `handleEvent`: a channel whose owner is gone does nothing.
unfoldable pub handle_event : Channel → Bool → Callbacks → ℕ → List Callback
unfolding handle_event_with_guard
handle_event c owner_alive cb revents =
    if c.tied
    then (if owner_alive then handle_event_with_guard cb revents else [])
    else handle_event_with_guard cb revents
