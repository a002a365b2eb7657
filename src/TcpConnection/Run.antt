-- ===== src/TcpConnection/Run.antt =====
-- Whole runs of a connection in its loop thread: sends, turns of `handleWrite` and a shutdown.
use chtho.Prelude.{
  ℕ, ◌+◌, ◌≤◌, ◌≡◌, refl, sym, ap, ◌∙◌, subst, Bool, true, false, not, ◌&&◌, List, [], ◌∷◌, ◌++◌,
  ◌⊎◌, inl, inr, Result, ok, ◌>>=◌, length, arith, Bool-cases, append-nil, append_assoc,
}
use chtho.Buffer.{k_pre, max_size}
use chtho.TcpConnection.{
  State, Conn, Write, is_disconnecting, send, send_now, shutdown, shutdown_now, handle_write,
}
use chtho.TcpConnection.Stream.{IsValid, stream, is_reset, send_now-Streams}
use chtho.TcpConnection.Send.{half_closed, shutdown_open, half_closed-IsValid}
use chtho.TcpConnection.Writable.{handle_write-Flushes}

-- A turn of the loop: the user sends a message, write(2) may be called again, the user shuts down.
pub data Turn : Type 0 where
  sends : List ℕ → Write → Turn
  writable : Write → Turn
  shuts : Turn

pub turn : Conn → Turn → Result Conn
turn c (sends msg w) = send c true w msg
turn c (writable w) = handle_write c w
turn c shuts = ok (shutdown c true)

pub run : Conn → List Turn → Result Conn
run c [] = ok c
run c (t ∷ ts) = do c' ← turn c t; run c' ts

-- The messages up to the shutdown.
abbrev pub accepted : List Turn → List ℕ
accepted [] = []
accepted (sends msg w ∷ ts) = msg ++ accepted ts
accepted (writable w ∷ ts) = accepted ts
accepted (shuts ∷ ts) = []

-- The bytes of all messages.
abbrev volume : List Turn → ℕ
volume [] = 0
volume (sends msg w ∷ ts) = length msg + volume ts
volume (writable w ∷ ts) = volume ts
volume (shuts ∷ ts) = volume ts

-- No write finds the peer gone.
abbrev no_reset : List Turn → Bool
no_reset [] = true
no_reset (sends msg w ∷ ts) = not (is_reset w) && no_reset ts
no_reset (writable w ∷ ts) = no_reset ts
no_reset (shuts ∷ ts) = no_reset ts

-- The run succeeds in a valid connection with these bytes.
abbrev pub Runs : Result Conn → ℕ → List ℕ → Type 0
Runs r m xs = (c' : Conn) × (r ≡ ok c') × IsValid c' m × (stream c' ≡ xs)

weaken : (c : Conn) (m n : ℕ) → m ≤ n → IsValid c m → IsValid c n
weaken c m n h v = record {
  output_ok = v.output_ok;
  bounded = omega (arith, v.bounded);
  waits = v.waits;
  flushed = v.flushed;
}

run_step : (c c' : Conn) (t : Turn) (ts : List Turn) → turn c t ≡ ok c' → run c (t ∷ ts) ≡ run c' ts
unfolding run turn
run_step c c' t ts e = rw e

open_send :
    (c : Conn) (msg : List ℕ) (w : Write)
    → c.state ≡ State.connected
    → turn c (sends msg w) ≡ send_now c w msg
unfolding turn send
open_send c msg w h = ground (arith, h)

closed_send :
    (c : Conn) (msg : List ℕ) (w : Write)
    → c.state ≡ State.disconnecting
    → turn c (sends msg w) ≡ ok c
unfolding turn send
closed_send c msg w h = ground (arith, h)

closed_shutdown : (c : Conn) → c.state ≡ State.disconnecting → turn c shuts ≡ ok c
unfolding turn shutdown
closed_shutdown c h = ground (arith, h)

open_shutdown : (c : Conn) → c.state ≡ State.connected → turn c shuts ≡ ok (half_closed c)
unfolding turn shutdown shutdown_now
open_shutdown c h = ap ok (shutdown_open c h)

-- After a shutdown nothing more is accepted, and what waits still goes out.
run_closed :
    (ts : List Turn) (c : Conn) (m : ℕ)
    → IsValid c m
    → k_pre ≤ m
    → c.state ≡ State.disconnecting
    → Runs (run c ts) m (stream c)
unfolding run turn
run_closed [] c m v base s = (c, refl, v, refl)
run_closed (sends msg w ∷ ts) c m v base s =
    subst (λ r. Runs r m (stream c)) (sym (run_step c c (sends msg w) ts (closed_send c msg w s)))
      (run_closed ts c m v base s)
run_closed (shuts ∷ ts) c m v base s =
    subst (λ r. Runs r m (stream c)) (sym (run_step c c shuts ts (closed_shutdown c s)))
      (run_closed ts c m v base s)
run_closed (writable w ∷ ts) c m v base s =
    let (c₁, e₁, v₁, s₁, st, _, _) = handle_write-Flushes c m v base w in
    let (c', e, v', s') = run_closed ts c₁ m v₁ base (st ∙ s) in
    (c', run_step c c₁ (writable w) ts e₁ ∙ e, v', s' ∙ s₁)

run_open :
    (ts : List Turn) (c : Conn) (m : ℕ)
    → IsValid c m
    → k_pre ≤ m
    → c.state ≡ State.connected
    → c.shut ≡ false
    → no_reset ts ≡ true
    → m + volume ts ≤ max_size
    → Runs (run c ts) (m + volume ts) (stream c ++ accepted ts)
unfolding run turn
run_open [] c m v base s opened r small =
    (c, refl, weaken c m _ (omega arith) v, sym (append-nil (stream c)))
run_open (sends msg w ∷ ts) c m v base s opened r small =
    let (c₁, e₁, v₁, s₁, st, sh) =
      send_now-Streams m msg (omega (arith, small)) c v opened w (ground (arith, r))
        (ground (arith, s)) in
    let (c', e, v', s') =
      run_open ts c₁ (m + length msg) v₁ (omega (arith, base)) (st ∙ s) (sh ∙ opened)
        (ground (arith, r)) (omega (arith, small)) in
    (
      c',
      run_step c c₁ (sends msg w) ts (open_send c msg w s ∙ e₁) ∙ e,
      weaken c' _ _ (omega arith) v',
      s' ∙ ap (λ xs. xs ++ accepted ts) s₁ ∙ append_assoc (stream c) msg (accepted ts),
    )
run_open (writable w ∷ ts) c m v base s opened r small =
    let (c₁, e₁, v₁, s₁, st, _, sh) = handle_write-Flushes c m v base w in
    let (c', e, v', s') = run_open ts c₁ m v₁ base (st ∙ s) (still_open c₁ sh) r small in
    (c', run_step c c₁ (writable w) ts e₁ ∙ e, v', s' ∙ ap (λ xs. xs ++ accepted ts) s₁)
  where
    still_open :
        (c₁ : Conn)
        → (c₁.shut ≡ true → (c.shut ≡ true) ⊎ (is_disconnecting c.state ≡ true))
        → c₁.shut ≡ false
    still_open c₁ sh = elim (Bool-cases c₁.shut) [
      | inr h ↦ h
      | inl h ↦ ground (arith, sh h, opened, s)
    ]
run_open (shuts ∷ ts) c m v base s opened r small =
    let (c', e, v', s') =
      run_closed ts (half_closed c) m (half_closed-IsValid c m v opened) base refl in
    (
      c',
      run_step c (half_closed c) shuts ts (open_shutdown c s) ∙ e,
      weaken c' m _ (omega arith) v',
      s' ∙ sym (append-nil (stream c)),
    )

-- In every run of sends, turns of `handleWrite` and shutdowns from an open connection, where
-- no write finds the peer gone and the vector may hold all messages, no assertion fails, the wire
-- and the output buffer have exactly the messages up to the shutdown behind what was sent before,
-- and once the socket is shut for writing all of it is on the wire.
pub run-stream :
    (ts : List Turn) (c : Conn) (m : ℕ)
    → IsValid c m
    → k_pre ≤ m
    → c.state ≡ State.connected
    → c.shut ≡ false
    → no_reset ts ≡ true
    → m + volume ts ≤ max_size
    → (c' : Conn) × (run c ts ≡ ok c')
      × (stream c' ≡ stream c ++ accepted ts)
      × (c'.shut ≡ true → c'.wire ≡ stream c ++ accepted ts)
run-stream ts c m v base s opened r small =
    let (c', e, v', s') = run_open ts c m v base s opened r small in
    (
      c',
      e,
      s',
      λ h. sym (append-nil c'.wire) ∙ ap (λ xs. c'.wire ++ xs) (sym (v'.flushed h).0) ∙ s',
    )
