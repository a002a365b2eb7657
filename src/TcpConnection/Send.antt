-- ===== src/TcpConnection/Send.antt =====
-- `send` and `shutdown` as the user calls them in the loop thread.
use chtho.Prelude.{
  ℕ, ◌+◌, ◌≤◌, ◌≡◌, refl, sym, ◌∙◌, true, false, List, ◌++◌, ok, length, arith, if◌then◌else◌,
  take_all,
}
use chtho.Buffer.{Buffer, max_size, contents, retrieve_all}
use chtho.TcpConnection.{State, Conn, Write, send, send_buffer, send_now, shutdown, shutdown_now}
use chtho.TcpConnection.Stream.{IsValid, Streams, stream, is_reset, send_now-Streams}

send_open :
    (c : Conn) (w : Write) (msg : List ℕ)
    → c.state ≡ State.connected
    → send c true w msg ≡ send_now c w msg
unfolding send
send_open c w msg h = ground (arith, h)

-- The connection after `shutdown`.
abbrev pub half_closed : Conn → Conn
half_closed c = record c {
  state = State.disconnecting;
  shut = if c.channel.writing then c.shut else true;
}

pub shutdown_open : (c : Conn) → c.state ≡ State.connected → shutdown c true ≡ half_closed c
unfolding shutdown shutdown_now
shutdown_open c h = ground (arith, h)

pub half_closed-IsValid :
    (c : Conn) (m : ℕ) → IsValid c m → c.shut ≡ false → IsValid (half_closed c) m
half_closed-IsValid c m v opened = record {
  output_ok = v.output_ok;
  bounded = v.bounded;
  waits = v.waits;
  flushed = λ h. (sym (take_all 0 (contents c.output) (ground (arith, h, opened, v.waits))), refl);
}

module _ (c : Conn) (m : ℕ) (v : IsValid c m) (s : c.state ≡ State.connected)
    (opened : c.shut ≡ false) (w : Write) (alive : is_reset w ≡ false) where
  pub send-Streams :
      (msg : List ℕ)
      → m + length msg ≤ max_size
      → Streams (send c true w msg) (m + length msg) c (stream c ++ msg)
  send-Streams msg small =
      rw (send_open c w msg s) (send_now-Streams m msg small c v opened w alive (ground (arith, s)))

  -- What the buffer shows is sent, and then the buffer is empty.
  pub send_buffer-Streams :
      (address : ℕ) (buf : Buffer)
      → m + length (contents buf) ≤ max_size
      → (c' : Conn) × (send_buffer c true w address buf ≡ ok (c', retrieve_all buf))
        × IsValid c' (m + length (contents buf))
        × (stream c' ≡ stream c ++ contents buf)
        × (c'.state ≡ State.connected)
        × (c'.shut ≡ false)
  unfolding send_buffer
  send_buffer-Streams address buf small =
      let (c', e, v', st, k, h) =
        send_now-Streams m (contents buf) small c v opened w alive (ground (arith, s)) in
      (c', ground (arith, s, e), v', st, k ∙ s, h ∙ opened)
