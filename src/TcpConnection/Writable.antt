-- ===== src/TcpConnection/Writable.antt =====
-- `handleWrite` and the shutdown of the writing side.
use chtho.Prelude.{
  ℕ, ◌≤◌, ◌<◌, ◌≡◌, refl, sym, ap, true, false, [], ◌++◌, ◌⊎◌, Result, ok, ltb, ◌==◌, if◌then◌else◌,
  length, take, drop, min, arith, Bool-cases, inl, inr, append_assoc, take-append-drop, take_all,
}
use chtho.Buffer.{Buffer, k_pre, readable_bytes, retrieve, contents}
use chtho.Buffer.Contents.{contents-retrieve, retrieve_bounded, readable_bytes-length}
use chtho.Channel.{disable_write}
use chtho.TcpConnection.{
  State, Conn, Write, room, error, is_connected, is_disconnecting, after_write, write_output,
  handle_write, shutdown_now, queue_if, write_complete,
}
use chtho.TcpConnection.Stream.{IsValid, stream}
use chtho.Buffer.Valid

-- The call succeeds in a valid connection with the same bytes and state. If the state is
-- `Disconnecting` and the output buffer is empty after a write, the socket is shut for writing.
abbrev pub Flushes : Result Conn → ℕ → Conn → Type 0
Flushes r m c =
    (c' : Conn) × (r ≡ ok c')
    × IsValid c' m
    × (stream c' ≡ stream c)
    × (c'.state ≡ c.state)
    × (c.channel.writing ≡ true
        → contents c'.output ≡ []
        → is_disconnecting c.state ≡ true
        → c'.shut ≡ true)
    × (c'.shut ≡ true → (c.shut ≡ true) ⊎ (is_disconnecting c.state ≡ true))

abbrev drained : Conn → Conn
drained c =
    let c₁ =
      queue_if c.has_write_complete write_complete
        (record c { channel = disable_write c.channel }) in
    record c₁ { shut = if is_disconnecting c.state then true else c.shut }

after_write-drained : (c : Conn) → readable_bytes c.output ≡ 0 → after_write c ≡ drained c
unfolding after_write shutdown_now
after_write-drained c h = ground (arith, h)

after_write_more : (c : Conn) → 0 < readable_bytes c.output → after_write c ≡ c
unfolding after_write
after_write_more c h = ground (arith, h)

write_some :
    (c : Conn) (k : ℕ) (output : Buffer)
    → 0 < min k (readable_bytes c.output)
    → retrieve c.output (min k (readable_bytes c.output)) ≡ ok output
    → write_output c (room k)
      ≡ ok (
          after_write (record c {
            output = output;
            wire = c.wire ++ take (min k (readable_bytes c.output)) (contents c.output);
          }))
unfolding write_output
write_some c k output some d = ground (arith, d)

write_none :
    (c : Conn) (k : ℕ) → min k (readable_bytes c.output) ≡ 0 → write_output c (room k) ≡ ok c
unfolding write_output
write_none c k e = ground (arith, e)

not_both : (s : State) → is_disconnecting s ≡ true → is_connected s ≡ false
not_both State.disconnected h = refl
not_both State.connecting h = refl
not_both State.connected h = cc
not_both State.disconnecting h = refl

write_error : (c : Conn) (e : ℕ) → write_output c (error e) ≡ ok c
unfolding write_output
write_error c e = refl

writing_turn :
    (c : Conn) (w : Write) → c.channel.writing ≡ true → handle_write c w ≡ write_output c w
unfolding handle_write
writing_turn c w h = ground (arith, h)

pub idle_turn : (c : Conn) (w : Write) → c.channel.writing ≡ false → handle_write c w ≡ ok c
unfolding handle_write
idle_turn c w h = ground (arith, h)

module _ (c : Conn) (m : ℕ) (v : IsValid c m) (base : k_pre ≤ m) where
  same-Flushes :
      (r : Result Conn)
      → r ≡ ok c
      → 0 < length (contents c.output) ⊎ (c.channel.writing ≡ false)
      → Flushes r m c
  same-Flushes r e some =
      (c, e, v, refl, refl, (λ w empty d. ground (arith, some, w, empty)), λ h. inl h)

  -- `n` bytes have gone to the wire.
  abbrev moved : ℕ → Buffer → Conn
  moved n output = record c { output = output; wire = c.wire ++ take n (contents c.output) }

  moved-stream :
      (n : ℕ) (output : Buffer)
      → contents output ≡ drop n (contents c.output)
      → stream (moved n output) ≡ stream c
  moved-stream n output same =
      rw
        (
          same,
          append_assoc c.wire (take n (contents c.output)) (drop n (contents c.output)),
          take-append-drop n (contents c.output),
        )
        refl

  -- The rest of a write that took `n` bytes.
  after_write-Flushes :
      (n : ℕ) (output : Buffer)
      → chtho.Buffer.Valid.IsValid output
      → output.writer ≤ m
      → contents output ≡ drop n (contents c.output)
      → c.channel.writing ≡ true
      → Flushes (ok (after_write (moved n output))) m c
  after_write-Flushes n output v' low same w = elim (Bool-cases (readable_bytes output == 0)) [
    | inl h ↦
        let empty : contents output ≡ [] =
          sym (take_all 0 (contents output) (ground (arith, h, count))) in
        (
          drained (moved n output),
          ap ok (after_write-drained (moved n output) (ground (arith, h))),
          record {
            output_ok = v';
            bounded = low;
            waits = rw empty refl;
            flushed = λ t. (empty, closed t);
          },
          moved-stream n output same,
          refl,
          (λ w' e d. rw d refl),
          either,
        )
    | inr h ↦ (
      moved n output,
      ap ok (after_write_more (moved n output) (ground (arith, h))),
      record {
        output_ok = v';
        bounded = low;
        waits = ground (arith, w, h, count);
        flushed = λ t. ground (arith, v.flushed t, v.waits, w);
      },
      moved-stream n output same,
      refl,
      (λ w' e d. ground (arith, h, count, e)),
      (λ t. inl t),
    )
  ]
    where
      count : readable_bytes output ≡ length (contents output)
      count = readable_bytes-length output v'

      either :
          (drained (moved n output)).shut ≡ true
          → (c.shut ≡ true) ⊎ (is_disconnecting c.state ≡ true)
      either t = elim (Bool-cases (is_disconnecting c.state)) [
        | inl d ↦ inr d
        | inr d ↦ inl (ground (arith, t, d))
      ]

      closed : (drained (moved n output)).shut ≡ true → is_connected c.state ≡ false
      closed t = elim (either t) [ inl h ↦ (v.flushed h).1 | inr d ↦ not_both c.state d ]

  write_output-Flushes : (w : Write) → c.channel.writing ≡ true → Flushes (write_output c w) m c
  write_output-Flushes (error e) w =
      same-Flushes (write_output c (error e)) (write_error c e) (inl (ground (arith, v.waits, w)))
  write_output-Flushes (room k) w = elim (Bool-cases (ltb 0 (min k (readable_bytes c.output)))) [
    | inr h ↦
        same-Flushes (write_output c (room k)) (write_none c k (ground (arith, h)))
          (inl (ground (arith, v.waits, w)))
    | inl h ↦
        let n = min k (readable_bytes c.output) in
        let (output, d, v', same) =
          contents-retrieve c.output n v.output_ok
            (omega (arith, readable_bytes-length c.output v.output_ok)) in
        rw (write_some c k output (ground (arith, h)) d) (
          after_write-Flushes n output v'
            (retrieve_bounded c.output output n m v.output_ok d v.bounded base) same w)
  ]

  -- A turn of `handleWrite` on a valid connection moves bytes from the output buffer to the wire,
  -- whatever write(2) takes or fails with, and keeps the invariant and the state; once none wait
  -- after it wrote, a connection that is shutting down is shut for writing, and no other is.
  pub handle_write-Flushes : (w : Write) → Flushes (handle_write c w) m c
  handle_write-Flushes w = elim (Bool-cases c.channel.writing) [
    | inl h ↦ rw (writing_turn c w h) (write_output-Flushes w h)
    | inr h ↦ rw (idle_turn c w h) (same-Flushes (ok c) refl (inr h))
  ]
