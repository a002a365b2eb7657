-- ===== src/TcpConnection/Dispatch/Sequence.antt =====
-- The callbacks of one event, in the order of the channel: no assertion fails.
use chtho.Prelude.{
  ℕ, ◌≡◌, refl, ◌∙◌, Bool, true, false, not, ◌&&◌, ◌||◌, List, [], ◌++◌, ◌⊎◌, arith, Bool-cases,
  inl, inr, append_assoc,
}
use chtho.Buffer.ReadFd.{Readv}
use chtho.Channel.{
  Channel, Callback, call, has, handle_event, handle_event_with_guard, pollin, pollhup, pollerr,
  pollnval, pollout,
}
use chtho.TcpConnection.{Conn, Callbacks, Write, handle_close, handle_read}
use chtho.TcpConnection.Dispatch.{
  callback, calls, all_set, on_events, Open, Down, Safe, Leaves, then_Leaves, Fits, Left, at_end,
  close-Open, read-Open, write-Left, hung_up, readable, IsEnd,
}

module _ (cb : Callbacks) (r : Readv) (w : Write) where
  last_call :
      {P : Conn → Type 0} (b : Bool) (f : Callback) (c : Conn)
      → P c
      → Leaves P (callback cb r w f c)
      → Leaves P (calls cb r w (call b f) c)
  unfolding calls
  last_call true f c p l =
      then_Leaves (callback cb r w f c) (calls cb r w []) l (λ c' p'. (c', refl, p'))
  last_call false f c p l = (c, refl, p)

  next_call :
      {P Q : Conn → Type 0} (b : Bool) (f : Callback) (fs : List Callback) (c : Conn)
      → (b ≡ true → Leaves P (callback cb r w f c))
      → (b ≡ false → P c)
      → ((c' : Conn) → P c' → Leaves Q (calls cb r w fs c'))
      → Leaves Q (calls cb r w (call b f ++ fs) c)
  unfolding calls
  next_call true f fs c l p k = then_Leaves (callback cb r w f c) (calls cb r w fs) (l refl) k
  next_call false f fs c l p k = k c (p refl)

-- The channel calls back: the close, then the error, then the read and then the write.
module _ (cb : Callbacks) (r : Readv) (w : Write)
    (close_safe : (c : Conn) → Down c → Leaves Down (cb.close_cb c))
    (msg_safe : (c : Conn) → Open c → Leaves Safe (cb.msg_cb c)) (h e rd wr : Bool)
    (one : h ≡ true → rd ≡ false) where
  abbrev Ends : Type 0
  Ends = (h ≡ true) ⊎ ((rd ≡ true) × (at_end r ≡ true))

  -- Before the read.
  abbrev Before : Conn → Type 0
  Before c = ((h ≡ true) × Down c) ⊎ ((h ≡ false) × (Open c × Fits c r))

  close_Before : (c : Conn) → Open c → h ≡ true → Leaves Before (handle_close cb c)
  close_Before c o t = let (c', e', d) = close-Open cb close_safe c o in (c', e', inl (t, d))

  read_Left : (c : Conn) → Before c → rd ≡ true → Leaves (Left Ends) (handle_read cb c r)
  read_Left c (inl (t, d)) p = absurd (ground (arith, t, p, one))
  read_Left c (inr (f, (o, fits))) p =
      let (c', e', (s, k)) = read-Open cb close_safe msg_safe c r o fits in
      (c', e', (s, λ x. elim x [ inl t ↦ cc | inr (_, q) ↦ k q ]))

  unread_Left : (c : Conn) → Before c → rd ≡ false → Left Ends c
  unread_Left c (inl (t, d)) p = (inr d, λ x. d)
  unread_Left c (inr (f, (o, fits))) p = (inl o, λ x. elim x [ inl t ↦ cc | inr (t, q) ↦ cc ])

  calls-Left :
      (c : Conn)
      → Open c
      → Fits c r
      → Leaves (Left Ends) (
          calls cb r w
            (call h Callback.close
              ++ (call e Callback.error ++ (call rd Callback.read ++ call wr Callback.write)))
            c)
  unfolding callback
  calls-Left c o fits =
      next_call cb r w h Callback.close _ c (close_Before c o) (λ f. inr (f, (o, fits)))
        (λ c₁ p.
          next_call cb r w e Callback.error _ c₁ (λ t. (c₁, refl, p)) (λ f. p)
            (λ c₂ q.
              next_call cb r w rd Callback.read _ c₂ (read_Left c₂ q) (unread_Left c₂ q)
                (λ c₃ l. last_call cb r w wr Callback.write c₃ l (write-Left Ends c₃ w l))))

and_true : (b : Bool) → b && true ≡ b
and_true true = refl
and_true false = refl

flat_calls :
    (x y e rd wr : Bool)
    → call (x && y && true) Callback.close
        ++ call (e && true) Callback.error
        ++ call (rd && true) Callback.read
        ++ call (wr && true) Callback.write
      ≡ call (x && y) Callback.close
        ++ (call e Callback.error ++ (call rd Callback.read ++ call wr Callback.write))
flat_calls x y e rd wr =
    rw (and_true (x && y), and_true e, and_true rd, and_true wr)
      (append_assoc (call (x && y) Callback.close ++ call e Callback.error) (call rd Callback.read)
          (call wr Callback.write)
        ∙ append_assoc (call (x && y) Callback.close) (call e Callback.error)
            (call rd Callback.read ++ call wr Callback.write))

guarded_calls :
    (revents : ℕ)
    → handle_event_with_guard all_set revents
      ≡ call (hung_up revents) Callback.close
        ++ (call (has revents pollerr || has revents pollnval) Callback.error
            ++ (call (readable revents) Callback.read ++ call (has revents pollout) Callback.write))
unfolding handle_event_with_guard
guarded_calls revents =
    flat_calls (has revents pollhup) (not (has revents pollin))
      (has revents pollerr || has revents pollnval) (readable revents) (has revents pollout)

no_owner :
    (ch : Channel) (alive : Bool) (revents : ℕ)
    → ch.tied && not alive ≡ true
    → handle_event ch alive all_set revents ≡ []
unfolding handle_event
no_owner ch true revents h = ground (arith, h)
no_owner ch false revents h = ground (arith, h)

owned :
    (ch : Channel) (alive : Bool) (revents : ℕ)
    → ch.tied && not alive ≡ false
    → handle_event ch alive all_set revents ≡ handle_event_with_guard all_set revents
unfolding handle_event
owned ch alive revents h = ground (arith, h)

-- The events of a connection that is up and whose buffers are valid, where the close callback leaves
-- a connection that is down as it is, the message callback leaves one that is up valid, or down
-- and without events, what readv(2) stored has room, and no hangup without data comes with urgent data or
-- a peer that shut its side: no assertion of the callbacks of the channel fails, whatever the events, and
-- the connection is left up and valid, or down and without events; it is down if the events or
-- readv(2) show its end.
pub on_events-Safe :
    (cb : Callbacks) (c : Conn) (alive : Bool) (r : Readv) (w : Write) (revents : ℕ)
    → ((c₁ : Conn) → Down c₁ → Leaves Down (cb.close_cb c₁))
    → ((c₁ : Conn) → Open c₁ → Leaves Safe (cb.msg_cb c₁))
    → Open c
    → Fits c r
    → (hung_up revents ≡ true → readable revents ≡ false)
    → Leaves (λ c'. Safe c' × (IsEnd alive revents r → Down c')) (on_events cb alive r w revents c)
unfolding on_events calls
on_events-Safe cb c alive r w revents close_safe msg_safe o fits one =
    elim (Bool-cases (c.channel.tied && not alive)) [
      | inl h ↦ (
        c,
        rw (no_owner c.channel alive revents h) refl,
        (inl o, λ x. absurd (ground (arith, h, x.0))),
      )
      | inr h ↦
          let (c', e, (s, k)) =
            calls-Left cb r w close_safe msg_safe (hung_up revents)
              (has revents pollerr || has revents pollnval) (readable revents) (has revents pollout)
              one c o fits in
          (c', rw (owned c.channel alive revents h, guarded_calls revents) e, (s, λ x. k x.1))
    ]
