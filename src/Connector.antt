-- ===== src/Connector.antt =====
-- chtho/net/Connector.h and Connector.cpp: the client's attempts to connect.
pub mod Backoff
pub mod Stop
pub mod Attempt
mod Tests
use chtho.Prelude.{
  ℕ, ◌+◌, ◌*◌, Bool, true, false, not, ◌&&◌, ◌||◌, List, [], ◌∷◌, ◌++◌, Option, none, some, Result,
  ok, fail, Fault, ◌>>=◌, ◌>>◌, guard, ltb, leb, ◌==◌, if◌then◌else◌, min,
}

pub data State : Type 0 where
  disconnected connecting connected : State

-- The functions that are queued in the event loop.
pub data Functor : Type 0 where
  reset_channel start_in_loop stop_in_loop : Functor

-- The channel by its descriptor: in the loop, or taken out of it and not freed yet.
pub data Chan : Type 0 where
  in_loop removed : ℕ → Chan

-- `closed` are the descriptors given to close(2), `handed`
-- those given to `newConnCB_`, `timers` the delays of the timers that call `startInLoop`.
-- `again` is what happens where a channel is taken out of the loop that was taken out of it before:
-- EPoll ends the program if the descriptor is closed, Poll fails an assertion; none means that the
-- descriptor was opened anew, so that EPoll can watch it again, and then no longer.
pub record Connector : Type 0 where
  pub connect : Bool
  pub state : State
  pub channel : Option Chan
  pub retry_delay_ms : ℕ
  pub closed : List ℕ
  pub handed : List ℕ
  pub timers : List ℕ
  pub queue : List Functor
  pub again : Option Fault

abbrev pub max_retry_delay_ms : ℕ
max_retry_delay_ms = 30 * 1000

abbrev pub init_retry_delay_ms : ℕ
init_retry_delay_ms = 500

unfoldable pub init : Option Fault → Connector
init again = record {
  connect = false;
  state = State.disconnected;
  channel = none;
  retry_delay_ms = init_retry_delay_ms;
  closed = [];
  handed = [];
  timers = [];
  queue = [];
  again = again;
}

pub retry : Connector → ℕ → Connector
retry c sockfd =
    let c₁ = record c { closed = c.closed ++ sockfd ∷ []; state = State.disconnected } in
    if c.connect
    then record c₁ {
      timers = c.timers ++ c.retry_delay_ms ∷ [];
      retry_delay_ms = min (c.retry_delay_ms * 2) max_retry_delay_ms;
    }
    else c₁

pub begin_connecting : Connector → ℕ → Result Connector
begin_connecting c sockfd = do
  guard (elim c.channel [ none ↦ true | some _ ↦ false ])
  ok (record c { state = State.connecting; channel = some (in_loop sockfd) })

-- 0, `EINPROGRESS`, `EINTR` and `EISCONN`
abbrev pub under_way : ℕ → Bool
under_way e = e == 0 || e == 115 || e == 4 || e == 106

-- `EAGAIN`, `EADDRINUSE`, `EADDRNOTAVAIL`, `ECONNREFUSED` and `ENETUNREACH`
abbrev may_retry : ℕ → Bool
may_retry e = e == 11 || e == 98 || e == 99 || e == 111 || e == 101

-- `connect`, with the descriptor that socket(2) has made and `savedErrno` of connect(2).
pub connect_to : Connector → ℕ → ℕ → Result Connector
unfolding retry begin_connecting
connect_to c sockfd errno =
    if under_way errno
    then begin_connecting c sockfd
    else if may_retry errno
    then ok (retry c sockfd)
    else ok (record c { closed = c.closed ++ sockfd ∷ [] })

abbrev pub is_disconnected : State → Bool
is_disconnected State.disconnected = true
is_disconnected _ = false

abbrev pub is_connecting : State → Bool
is_connecting State.connecting = true
is_connecting _ = false

-- `startInLoop`
pub start_now : Connector → ℕ → ℕ → Result Connector
start_now c sockfd errno = do
  guard (is_disconnected c.state)
  if c.connect then connect_to c sockfd errno else ok c

pub start : Connector → ℕ → ℕ → Result Connector
unfolding start_now
start c sockfd errno = start_now (record c { connect = true }) sockfd errno

pub restart : Connector → ℕ → ℕ → Result Connector
unfolding start_now
restart c sockfd errno =
    start_now
      (record c {
        state = State.disconnected;
        retry_delay_ms = init_retry_delay_ms;
        connect = true;
      })
      sockfd errno

pub stop : Connector → Connector
stop c = record c { connect = false; queue = c.queue ++ stop_in_loop ∷ [] }

-- `disableAll` and `remove` of the channel.
abbrev take_out : Connector → Chan → Result ℕ
take_out c (in_loop fd) = ok fd
take_out c (removed fd) = elim c.again [ none ↦ ok fd | some e ↦ fail e ]

-- The descriptor, and the channel out of the loop; it is freed by a queued function.
pub remove_and_reset_channel : Connector → Result (ℕ × Connector)
remove_and_reset_channel c = elim c.channel [
  | none ↦ fail Fault.null_pointer
  | some channel ↦ take_out c channel >>= λ fd.
      ok (fd, record c { channel = some (removed fd); queue = c.queue ++ reset_channel ∷ [] })
]

-- `resetChannel`
reset_now : Connector → Connector
reset_now c = record c { channel = none }

-- `stopInLoop`
pub stop_now : Connector → Result Connector
unfolding remove_and_reset_channel retry
stop_now c =
    if is_disconnected c.state
    then (do
      (sockfd, c₁) ← remove_and_reset_channel (record c { state = State.disconnected })
      ok (retry c₁ sockfd))
    else ok c

-- The socket has an error, is connected to itself, or is up.
pub handle_write : Connector → ℕ → Bool → Result Connector
unfolding remove_and_reset_channel
handle_write c err self =
    if is_connecting c.state
    then (do
      (sockfd, c₁) ← remove_and_reset_channel c
      if ltb 0 err || self
          then ok (retry c₁ sockfd)
          else if c₁.connect
          then ok (record c₁ { state = State.connected; handed = c₁.handed ++ sockfd ∷ [] })
          else ok (record c₁ { state = State.connected; closed = c₁.closed ++ sockfd ∷ [] }))
    else (do guard (is_disconnected c.state); ok c)

handle_error : Connector → Result Connector
unfolding remove_and_reset_channel retry
handle_error c =
    if is_connecting c.state
    then (do (sockfd, c₁) ← remove_and_reset_channel c; ok (retry c₁ sockfd))
    else ok c
