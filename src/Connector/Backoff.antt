-- ===== src/Connector/Backoff.antt =====
-- The delays of the attempts, and what becomes of the sockets.
use native.Mathlib.Nat.{pow-suc}
use chtho.Prelude.{
  ℕ, suc, ◌*◌, ◌^◌, ◌≡◌, refl, sym, ap, ◌∙◌, Bool, true, false, ◌||◌, List, [], ◌∷◌, ◌++◌, ◌⊎◌, inl,
  inr, some, ok, ltb, min, arith, Bool-cases, append-nil, append_assoc,
}
use chtho.Connector.{
  State, Connector, in_loop, removed, reset_channel, max_retry_delay_ms, retry, handle_write,
  is_connecting, remove_and_reset_channel,
}

-- `retry` for each of the descriptors.
pub retries : Connector → List ℕ → Connector
retries c [] = c
retries c (fd ∷ fds) = retries (retry c fd) fds

-- The delay of the attempt `n`: doubled each time, and at most 30 seconds.
unfoldable pub delay : ℕ → ℕ
delay n = min (500 * 2 ^ n) 30000

pub delays_from : ℕ → List ℕ → List ℕ
delays_from n [] = []
delays_from n (fd ∷ fds) = delay n ∷ delays_from (suc n) fds

retry_connect :
    (c : Connector) (fd : ℕ)
    → c.connect ≡ true
    → retry c fd ≡ record c {
      closed = c.closed ++ fd ∷ [];
      state = State.disconnected;
      timers = c.timers ++ c.retry_delay_ms ∷ [];
      retry_delay_ms = min (c.retry_delay_ms * 2) max_retry_delay_ms;
    }
unfolding retry
retry_connect c fd h = rw h refl

delay_next : (n : ℕ) → min (delay n * 2) max_retry_delay_ms ≡ delay (suc n)
unfolding delay
delay_next n = omega (arith, pow-suc 2 n)

-- The state behind these attempts, if there was one.
abbrev pub state_after : State → List ℕ → State
state_after s [] = s
state_after s (fd ∷ fds) = State.disconnected

stays_disconnected : (fds : List ℕ) → state_after State.disconnected fds ≡ State.disconnected
stays_disconnected [] = refl
stays_disconnected (fd ∷ fds) = refl

-- While the connector is to connect, and its delay is half a second doubled some times, up to
-- thirty seconds: `retry` closes each socket and starts a timer for each, the delays of which go on
-- doubling from there, up to thirty seconds; behind the last one the connector is disconnected.
pub retries-delays :
    (fds : List ℕ) (n : ℕ) (c : Connector)
    → c.connect ≡ true
    → c.retry_delay_ms ≡ delay n
    → ((retries c fds).timers ≡ c.timers ++ delays_from n fds)
      × ((retries c fds).closed ≡ c.closed ++ fds)
      × ((retries c fds).state ≡ state_after c.state fds)
unfolding retries delays_from
retries-delays [] n c h e = (sym (append-nil c.timers), sym (append-nil c.closed), refl)
retries-delays (fd ∷ fds) n c h e =
    let (t, s, k) =
      retries-delays fds (suc n) _ h (ap (λ d. min (d * 2) max_retry_delay_ms) e ∙ delay_next n) in
    (
      ap (λ r. (retries r fds).timers) (retry_connect c fd h)
          ∙ t
          ∙ append_assoc c.timers (c.retry_delay_ms ∷ []) _
          ∙ ap (λ d. c.timers ++ d ∷ delays_from (suc n) fds) e,
      ap (λ r. (retries r fds).closed) (retry_connect c fd h)
          ∙ s
          ∙ append_assoc c.closed (fd ∷ []) fds,
      ap (λ r. (retries r fds).state) (retry_connect c fd h) ∙ k ∙ stays_disconnected fds,
    )

-- The socket of an attempt that was under way is closed or handed to the user, not both and not
-- twice, and the channel is to be freed.
abbrev pub IsSettled : Connector → ℕ → Connector → Type 0
IsSettled c fd c' =
    (((c'.closed ≡ c.closed ++ fd ∷ []) × (c'.handed ≡ c.handed))
      ⊎ ((c'.closed ≡ c.closed) × (c'.handed ≡ c.handed ++ fd ∷ [])))
    × (c'.queue ≡ c.queue ++ reset_channel ∷ [])
    × (is_connecting c'.state ≡ false)

abbrev pub freeing : Connector → ℕ → Connector
freeing c fd = record c { channel = some (removed fd); queue = c.queue ++ reset_channel ∷ [] }

pub retry-IsSettled : (c : Connector) (fd : ℕ) → IsSettled c fd (retry (freeing c fd) fd)
unfolding retry
retry-IsSettled c fd = elim (Bool-cases c.connect) [
  | inl h ↦ (inl (ground (arith, h), ground (arith, h)), ground (arith, h), ground (arith, h))
  | inr h ↦ (inl (ground (arith, h), ground (arith, h)), ground (arith, h), ground (arith, h))
]

retry-closed : (c : Connector) (fd : ℕ) → (retry (freeing c fd) fd).closed ≡ c.closed ++ fd ∷ []
unfolding retry
retry-closed c fd = elim (Bool-cases c.connect) [
  | inl h ↦ ground (arith, h)
  | inr h ↦ ground (arith, h)
]

module _ (c : Connector) (fd err : ℕ) (self : Bool) (s : is_connecting c.state ≡ true)
    (e : c.channel ≡ some (in_loop fd)) where
  write_failed : (ltb 0 err || self) ≡ true → handle_write c err self ≡ ok (retry (freeing c fd) fd)
  unfolding handle_write remove_and_reset_channel
  write_failed h = ground (arith, s, e, h)

  write_up :
      (ltb 0 err || self) ≡ false
      → c.connect ≡ true
      → handle_write c err self
        ≡ ok (record (freeing c fd) { state = State.connected; handed = c.handed ++ fd ∷ [] })
  unfolding handle_write remove_and_reset_channel
  write_up h k = ground (arith, s, e, h, k)

  write_stopped :
      (ltb 0 err || self) ≡ false
      → c.connect ≡ false
      → handle_write c err self
        ≡ ok (record (freeing c fd) { state = State.connected; closed = c.closed ++ fd ∷ [] })
  unfolding handle_write remove_and_reset_channel
  write_stopped h k = ground (arith, s, e, h, k)

-- When an attempt is under way, with its channel in the loop, and its socket becomes writable,
-- `handleWrite` succeeds and settles the socket: it is handed over if it has no error, is not
-- connected to itself and the user still wants to connect, and is closed otherwise.
pub handle_write-IsSettled :
    (c : Connector) (fd err : ℕ) (self : Bool)
    → is_connecting c.state ≡ true
    → c.channel ≡ some (in_loop fd)
    → (c' : Connector) × (handle_write c err self ≡ ok c')
      × IsSettled c fd c'
      × (((ltb 0 err || self) ≡ false) × (c.connect ≡ true) → c'.handed ≡ c.handed ++ fd ∷ [])
      × (((ltb 0 err || self) ≡ true) ⊎ (c.connect ≡ false) → c'.closed ≡ c.closed ++ fd ∷ [])
handle_write-IsSettled c fd err self s e = elim (Bool-cases (ltb 0 err || self)) [
  | inl h ↦ (
    retry (freeing c fd) fd,
    write_failed c fd err self s e h,
    retry-IsSettled c fd,
    (λ x. ground (arith, h, x.0)),
    λ x. retry-closed c fd,
  )
  | inr h ↦ elim (Bool-cases c.connect) [
    | inl k ↦ (
      _,
      write_up c fd err self s e h k,
      (inr (refl, refl), refl, refl),
      (λ x. refl),
      λ x. ground (arith, x, h, k),
    )
    | inr k ↦ (
      _,
      write_stopped c fd err self s e h k,
      (inl (refl, refl), refl, refl),
      (λ x. ground (arith, k, x.1)),
      λ x. refl,
    )
  ]
]
