-- ===== src/TcpConnection/Dispatch.antt =====
-- The events of a connection as poll(2) finds them: `Channel::handleEvent` with the callbacks that
-- the constructor of the connection sets.
pub mod Sequence
use chtho.Prelude.{
  ℕ, ◌+◌, ◌≤◌, ◌≡◌, refl, ap, ◌∙◌, Bool, true, false, not, ◌&&◌, ◌||◌, List, [], ◌∷◌, ◌++◌, ◌⊎◌,
  Result, ok, ◌>>=◌, ltb, length, arith, Bool-cases, inl, inr, append_assoc,
}
use chtho.Buffer.{k_pre, max_size}
use chtho.Buffer.Valid
use chtho.Buffer.ReadFd.{Readv, got, iov_capacity, read_fd_fails, read_fd-contents}
use chtho.Channel.{
  Channel, Callback, call, has, handle_event, handle_event_with_guard, pollin, pollpri, pollhup,
  pollrdhup, pollerr, pollnval, pollout, is_none_event,
}
use chtho.Channel
use chtho.TcpConnection.{
  State, Conn, Callbacks, Write, is_connected, is_disconnecting, is_disconnected, after_read,
  handle_close, handle_read, handle_write, write_output, after_write, shutdown_now,
}
use chtho.TcpConnection.Stream.{IsValid}
use chtho.TcpConnection.Writable.{handle_write-Flushes, idle_turn}

-- A callback of the channel; `handleError` only logs.
pub callback : Callbacks → Readv → Write → Callback → Conn → Result Conn
callback cb r w Callback.close c = handle_close cb c
callback cb r w Callback.error c = ok c
callback cb r w Callback.read c = handle_read cb c r
callback cb r w Callback.write c = handle_write c w

pub calls : Callbacks → Readv → Write → List Callback → Conn → Result Conn
calls cb r w [] c = ok c
calls cb r w (f ∷ fs) c = callback cb r w f c >>= calls cb r w fs

-- The constructor sets all four.
abbrev pub all_set : chtho.Channel.Callbacks
all_set = record { close_cb = true; error_cb = true; read_cb = true; write_cb = true }

-- `handleEvent` of the channel of a connection; `alive` tells whether the connection is still owned.
pub on_events : Callbacks → Bool → Readv → Write → ℕ → Conn → Result Conn
on_events cb alive r w revents c = calls cb r w (handle_event c.channel alive all_set revents) c

-- A connection that is up, with both buffers valid; one that is down, without events.
abbrev pub Open : Conn → Type 0
Open c =
    (is_connected c.state || is_disconnecting c.state ≡ true)
    × IsValid c max_size
    × chtho.Buffer.Valid.IsValid c.input

abbrev pub Down : Conn → Type 0
Down c = (is_disconnected c.state ≡ true) × (is_none_event c.channel ≡ true)

abbrev pub Safe : Conn → Type 0
Safe c = Open c ⊎ Down c

-- The call succeeds, and leaves a connection of which `P` holds.
abbrev pub Leaves : (Conn → Type 0) → Result Conn → Type 0
Leaves P r = (c' : Conn) × (r ≡ ok c') × P c'

pub then_Leaves :
    {P Q : Conn → Type 0} (r : Result Conn) (f : Conn → Result Conn)
    → Leaves P r
    → ((c : Conn) → P c → Leaves Q (f c))
    → Leaves Q (r >>= f)
then_Leaves r f (c, e, p) k = let (c', e', q) = k c p in (c', ap (λ x. x >>= f) e ∙ e', q)

-- What readv(2) stored has room in the buffer.
abbrev pub Fits : Conn → Readv → Type 0
Fits c (Readv.error e) = Unit {0}
Fits c (got xs) = (c.input.writer + length xs ≤ max_size) × (length xs ≤ iov_capacity c.input)

-- A connection that is down where `E` holds.
abbrev pub Left : Type 0 → Conn → Type 0
Left E c = Safe c × (E → Down c)

-- readv(2) found the end of the stream.
abbrev pub at_end : Readv → Bool
at_end (got []) = true
at_end _ = false

at_end-length : (xs : List ℕ) → at_end (got xs) ≡ true → length xs ≡ 0
at_end-length [] h = refl
at_end-length (x ∷ xs) h = cc

handle_write-input : (c c' : Conn) (w : Write) → handle_write c w ≡ ok c' → c'.input ≡ c.input
unfolding handle_write write_output after_write shutdown_now
handle_write-input c c' (Write.room k) e = ground (arith, e)
handle_write-input c c' (Write.error x) e = ground (arith, e)

write-Open : (c : Conn) (w : Write) → Open c → Leaves Open (handle_write c w)
write-Open c w (up, v, b) =
    let (c', e, v', _, same, _, _) = handle_write-Flushes c max_size v (omega arith) w in
    (c', e, (rw same up, v', rw (handle_write-input c c' w e) b))

write-Down : (c : Conn) (w : Write) → Down c → Leaves Down (handle_write c w)
write-Down c w (d, q) = (c, idle_turn c w (ground (arith, q)), (d, q))

module _ (cb : Callbacks) (close_safe : (c : Conn) → Down c → Leaves Down (cb.close_cb c)) where
  pub close-Open : (c : Conn) → Open c → Leaves Down (handle_close cb c)
  unfolding handle_close
  close-Open c (up, v, b) =
      let (c', e, d) =
        close_safe
          (record c { state = State.disconnected; channel = chtho.Channel.disable_all c.channel })
          (refl, refl) in
      (c', rw up e, d)

  module _ (msg_safe : (c : Conn) → Open c → Leaves Safe (cb.msg_cb c)) where
    read-Open :
        (c : Conn) (r : Readv)
        → Open c
        → Fits c r
        → Leaves (Left (at_end r ≡ true)) (handle_read cb c r)
    unfolding handle_read after_read
    read-Open c (Readv.error e) o f = (c, rw (read_fd_fails c.input e) refl, (inl o, λ h. cc))
    read-Open c (got xs) (up, v, b) f =
        let (b', e, v', same) = read_fd-contents c.input xs b f.0 f.1 in
        let o : Open (record c { input = b' }) = (
          up,
          record {
            output_ok = v.output_ok;
            bounded = v.bounded;
            waits = v.waits;
            flushed = v.flushed;
          },
          v',
        ) in
        elim (Bool-cases (ltb 0 (length xs))) [
          | inl h ↦
              let (c', e', s) = msg_safe (record c { input = b' }) o in
              (c', rw e (rw h e'), (s, λ k. ground (arith, h, at_end-length xs k)))
          | inr h ↦
              let (c', e', d) = close-Open (record c { input = b' }) o in
              (c', rw e (rw h e'), (inr d, λ k. d))
        ]

pub up_or_down :
    (s : State) → is_connected s || is_disconnecting s ≡ true → is_disconnected s ≡ true → ⊥
up_or_down State.connected h d = cc
up_or_down State.disconnecting h d = cc
up_or_down State.disconnected h d = cc
up_or_down State.connecting h d = cc

pub write-Left : (E : Type 0) (c : Conn) (w : Write) → Left E c → Leaves (Left E) (handle_write c w)
write-Left E c w (inl o, k) =
    let (c', e, o') = write-Open c w o in
    (c', e, (inl o', λ h. absurd (up_or_down c.state o.0 (k h).0)))
write-Left E c w (inr d, k) = let (c', e, d') = write-Down c w d in (c', e, (inr d', λ h. d'))

-- The peer is gone, with nothing to read; there is something to read.
abbrev pub hung_up : ℕ → Bool
hung_up revents = has revents pollhup && not (has revents pollin)

abbrev pub readable : ℕ → Bool
readable revents = has revents pollin || has revents pollpri || has revents pollrdhup

-- The connection still has an owner, and its end shows in the events or in what readv(2) returns.
abbrev pub IsEnd : Bool → ℕ → Readv → Type 0
IsEnd alive revents r =
    (alive ≡ true) × ((hung_up revents ≡ true) ⊎ ((readable revents ≡ true) × (at_end r ≡ true)))
