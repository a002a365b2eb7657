-- ===== src/TcpConnection/Close.antt =====
-- The end of a connection: a connection that is down has no events left, and can be destroyed.
use chtho.Prelude.{
  ℕ, ◌≡◌, refl, Bool, true, false, ◌&&◌, ◌||◌, Result, ok, fail, Fault, ◌>>=◌, List, ◌++◌, arith,
  ◌⊎◌, inl, inr, some, none, ltb, Bool-cases, min, length, take, sub_size, ◌==◌,
}
use chtho.Channel.{disable_all, enable_read, is_none_event}
use chtho.Buffer.ReadFd.{Readv, ReadOut, read_fd}
use chtho.TcpConnection.{
  State, Conn, Callbacks, is_connected, is_disconnecting, is_disconnected, after_read, handle_close,
  handle_read, force_close, force_close_now, conn_established, conn_destroyed, shutdown,
  shutdown_now, send, send_now, send_or_keep, keep, write_direct, handle_write, write_output,
  after_write, Write, room, error, queue_if, write_complete,
}

-- Without events, once it is down.
abbrev pub IsQuiet : Conn → Type 0
IsQuiet c = is_disconnected c.state ≡ true → is_none_event c.channel ≡ true

abbrev pub Keeps : (Conn → Result Conn) → Type 0
Keeps f = (c c' : Conn) → IsQuiet c → f c ≡ ok c' → IsQuiet c'

keep-state : (c c' : Conn) (msg : List ℕ) (n r : ℕ) → keep c msg n r ≡ ok c' → c'.state ≡ c.state
unfolding keep
keep-state c c' msg n r e = ground (arith, e)

send_or_keep-state :
    (c c' : Conn) (w : Write) (msg : List ℕ) → send_or_keep c w msg ≡ ok c' → c'.state ≡ c.state
unfolding send_or_keep write_direct
send_or_keep-state c c' (room k) msg e =
    let n = min k (length msg) in
    let r = sub_size (length msg) n in
    ground (
      arith,
      e,
      keep-state c c' msg 0 (length msg),
      keep-state
          (queue_if (r == 0 && c.has_write_complete) write_complete
            (record c { wire = c.wire ++ take n msg }))
          c' msg n r,
    )
send_or_keep-state c c' (error x) msg e = ground (arith, e, keep-state c c' msg 0 (length msg))

send_now-Keeps : (w : Write) (msg : List ℕ) → Keeps (λ c. send_now c w msg)
unfolding send_now
send_now-Keeps w msg c c' q e d = ground (arith, e, q, d, send_or_keep-state c c' w msg)

handle_write-Keeps : (w : Write) → Keeps (λ c. handle_write c w)
unfolding handle_write write_output after_write shutdown_now
handle_write-Keeps (room k) c c' q e d = ground (arith, e, q, d)
handle_write-Keeps (error x) c c' q e d = ground (arith, e, q, d)

shutdown_now-Keeps : Keeps (λ c. ok (shutdown_now c))
unfolding shutdown_now
shutdown_now-Keeps c c' q e d = ground (arith, e, q, d)

handle_close-Keeps : (cb : Callbacks) → Keeps cb.close_cb → Keeps (handle_close cb)
unfolding handle_close
handle_close-Keeps cb k c c' q e =
    k (record c { state = State.disconnected; channel = disable_all c.channel }) c' (λ d. refl)
      (ground (arith, e))

after_read-Keeps :
    (cb : Callbacks)
    → Keeps cb.msg_cb
    → Keeps cb.close_cb
    → (out : ReadOut) → Keeps (λ c. after_read cb c out)
unfolding after_read
after_read-Keeps cb k k' (input, none, x) c c' q e = λ d. ground (arith, e, q, d)
after_read-Keeps cb k k' (input, some n, x) c c' q e = elim (Bool-cases (ltb 0 n)) [
  | inl h ↦ k (record c { input = input }) c' q (ground (arith, e, h))
  | inr h ↦ handle_close-Keeps cb k' (record c { input = input }) c' q (ground (arith, e, h))
]

handle_read-Keeps :
    (cb : Callbacks)
    → Keeps cb.msg_cb
    → Keeps cb.close_cb
    → (r : Readv) → Keeps (λ c. handle_read cb c r)
unfolding handle_read
handle_read-Keeps cb k k' r c c' q e = go (read_fd c.input r) e
  where
    go : (x : Result ReadOut) → (x >>= after_read cb c) ≡ ok c' → IsQuiet c'
    go (fail f) e = cc
    go (ok out) e = after_read-Keeps cb k k' out c c' q e

conn_established-Keeps : (cb : Callbacks) → Keeps cb.conn_cb → Keeps (conn_established cb)
unfolding conn_established
conn_established-Keeps cb k c c' q e =
    k
      (record c {
        state = State.connected;
        channel = enable_read (record c.channel { tied = true });
      })
      c' (λ d. cc) (ground (arith, e))

force_close-Keeps : Keeps (λ c. ok (force_close c))
unfolding force_close
force_close-Keeps c c' q e d = ground (arith, e, q, d)

force_close_now-Keeps : (cb : Callbacks) → Keeps cb.close_cb → Keeps (force_close_now cb)
unfolding force_close_now
force_close_now-Keeps cb k c c' q e =
    elim (Bool-cases (is_connected c.state || is_disconnecting c.state)) [
      | inl h ↦ handle_close-Keeps cb k c c' q (ground (arith, e, h))
      | inr h ↦ λ d. ground (arith, e, h, q, d)
    ]

shutdown-Keeps : (b : Bool) → Keeps (λ c. ok (shutdown c b))
unfolding shutdown shutdown_now
shutdown-Keeps b c c' q e d = ground (arith, e, q, d)

send-Keeps : (b : Bool) (w : Write) (msg : List ℕ) → Keeps (λ c. send c b w msg)
unfolding send
send-Keeps b w msg c c' q e d = ground (arith, e, q, d, send_now-Keeps w msg c c' q)

-- What may happen to a connection after `connEstablished`, in any order: what its users call, the
-- events of its channel, and the functions that were queued.
pub data Event : Type 0 where
  sent : Bool → Write → List ℕ → Event
  sent_now : Write → List ℕ → Event
  shut_down : Bool → Event
  shut_down_now forced forced_now : Event
  readable : Readv → Event
  writable : Write → Event

unfoldable pub event : Callbacks → Event → Conn → Result Conn
event cb (sent b w msg) c = send c b w msg
event cb (sent_now w msg) c = send_now c w msg
event cb (shut_down b) c = ok (shutdown c b)
event cb shut_down_now c = ok (shutdown_now c)
event cb forced c = ok (force_close c)
event cb forced_now c = force_close_now cb c
event cb (readable r) c = handle_read cb c r
event cb (writable w) c = handle_write c w

pub data Reaches (cb : Callbacks) : Conn → Conn → Type 0 where
  here : (c : Conn) → Reaches cb c c
  step : (a b c : Conn) (x : Event) → event cb x a ≡ ok b → Reaches cb b c → Reaches cb a c

event-Keeps :
    (cb : Callbacks) → Keeps cb.msg_cb → Keeps cb.close_cb → (x : Event) → Keeps (event cb x)
unfolding event
event-Keeps cb k k' (sent b w msg) = send-Keeps b w msg
event-Keeps cb k k' (sent_now w msg) = send_now-Keeps w msg
event-Keeps cb k k' (shut_down b) = shutdown-Keeps b
event-Keeps cb k k' shut_down_now = shutdown_now-Keeps
event-Keeps cb k k' forced = force_close-Keeps
event-Keeps cb k k' forced_now = force_close_now-Keeps cb k'
event-Keeps cb k k' (readable r) = handle_read-Keeps cb k k' r
event-Keeps cb k k' (writable w) = handle_write-Keeps w

reached-IsQuiet :
    (cb : Callbacks) (c c' : Conn)
    → Keeps cb.msg_cb
    → Keeps cb.close_cb
    → IsQuiet c
    → Reaches cb c c'
    → IsQuiet c'
reached-IsQuiet cb c c' k k' q (here _) = q
reached-IsQuiet cb c c' k k' q (step _ b _ x e r) =
    reached-IsQuiet cb b c' k k' (event-Keeps cb k k' x c b q e) r

destroyed_up :
    (c : Conn)
    → is_connected c.state ≡ true
    → conn_destroyed c
      ≡ ok (record c {
        state = State.disconnected;
        channel = record (disable_all c.channel) { added = false };
      })
unfolding conn_destroyed
destroyed_up c u = ground (arith, u)

destroyed_down :
    (c : Conn)
    → is_disconnected c.state ≡ true
    → is_none_event c.channel ≡ true
    → conn_destroyed c ≡ ok (record c { channel = record c.channel { added = false } })
unfolding conn_destroyed
destroyed_down c d q = ground (arith, d, q)

-- Whatever calls, events and queued functions a connection has seen in whatever order, if its
-- callbacks leave a connection that is down without events: when it is up or down, it can be
-- destroyed, which leaves it down, without events and out of the loop.
pub conn_destroyed-reached :
    (cb : Callbacks) (c c' : Conn)
    → Keeps cb.msg_cb
    → Keeps cb.close_cb
    → IsQuiet c
    → Reaches cb c c'
    → (is_connected c'.state ≡ true) ⊎ (is_disconnected c'.state ≡ true)
    → (d : Conn) × (conn_destroyed c' ≡ ok d)
      × (is_disconnected d.state ≡ true)
      × (d.channel.added ≡ false)
      × (is_none_event d.channel ≡ true)
conn_destroyed-reached cb c c' k k' q r (inl u) = (_, destroyed_up c' u, refl, refl, refl)
conn_destroyed-reached cb c c' k k' q r (inr d) =
    let e = reached-IsQuiet cb c c' k k' q r d in (_, destroyed_down c' d e, d, refl, e)

-- A connection that is shutting down and still reads cannot be destroyed: `connDestroyed` leaves
-- its events, so that the assertion of `Channel::remove` fails.
conn_destroyed-disconnecting :
    (c : Conn)
    → is_disconnecting c.state ≡ true
    → c.channel.reading ≡ true
    → conn_destroyed c ≡ fail Fault.assertion
unfolding conn_destroyed
conn_destroyed-disconnecting c d r = ground (arith, d, r)
