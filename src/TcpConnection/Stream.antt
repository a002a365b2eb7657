-- ===== src/TcpConnection/Stream.antt =====
-- The bytes of a connection: what `send` is given goes to write(2) once and in order, directly or
-- through the output buffer.
use chtho.Prelude.{
  ℕ, ◌+◌, ◌-◌, ◌≤◌, ◌<◌, ◌≡◌, refl, sym, ap, ◌∙◌, Bool, true, false, not, ◌&&◌, ◌||◌, List, [],
  ◌++◌, Result, ok, ltb, leb, ◌==◌, if◌then◌else◌, length, take, drop, min, add_size, sub_size,
  arith, Bool-cases, inl, inr, append-nil, append_assoc, take_all, take-append-drop, length-drop,
  length-append, ap₂, subst,
}
use chtho.Buffer.{Buffer, k_pre, max_size, readable_bytes, append, retrieve, contents}
use chtho.Buffer.Valid
use chtho.Buffer.Contents.{append_bounded, readable_bytes-length}
use chtho.Channel.{enable_write}
use chtho.TcpConnection.{
  Conn, Write, room, error, ewouldblock, epipe, econnreset, is_connected, is_disconnected,
  write_direct, keep, high_water, write_complete, send_or_keep, send_now, queue_if,
}

-- What was sent: the bytes on the wire, and then those that wait.
abbrev pub stream : Conn → List ℕ
stream c = c.wire ++ contents c.output

-- write(2) failed since the peer is gone.
abbrev pub is_reset : Write → Bool
is_reset (room k) = false
is_reset (error e) = not (e == ewouldblock) && (e == epipe || e == econnreset)

-- The channel asks for `POLLOUT` exactly while bytes wait, none wait once the socket is shut for
-- writing, and the writer of the output buffer is at most `m`.
pub record IsValid (c : Conn) (m : ℕ) : Type 0 where
  pub output_ok : chtho.Buffer.Valid.IsValid c.output
  pub bounded : c.output.writer ≤ m
  pub waits : c.channel.writing ≡ ltb 0 (length (contents c.output))
  pub flushed : c.shut ≡ true → (contents c.output ≡ []) × (is_connected c.state ≡ false)

-- The call succeeds in a valid connection with these bytes, and the state and `shut` are the same.
abbrev pub Streams : Result Conn → ℕ → Conn → List ℕ → Type 0
Streams r m c xs =
    (c' : Conn) × (r ≡ ok c')
    × IsValid c' m
    × (stream c' ≡ xs)
    × (c'.state ≡ c.state)
    × (c'.shut ≡ c.shut)

-- `keep` puts the bytes behind those that wait, and asks for `POLLOUT`.
abbrev Kept : Conn → Conn → List ℕ → Type 0
Kept c c' xs =
    chtho.Buffer.Valid.IsValid c'.output
    × (contents c'.output ≡ contents c.output ++ xs)
    × (c'.output.writer ≤ c.output.writer + length xs)
    × (c'.channel.writing ≡ true)
    × (c'.wire ≡ c.wire)
    × (c'.state ≡ c.state)
    × (c'.shut ≡ c.shut)

abbrev kept : Conn → ℕ → Buffer → Conn
kept c r output =
    let full = add_size (readable_bytes c.output) r in
    record (queue_if
      (leb c.high_water_mark full
        && ltb (readable_bytes c.output) c.high_water_mark
        && c.has_high_water)
      (high_water full) c) {
        output = output;
        channel = if c.channel.writing then c.channel else enable_write c.channel;
      }

keep-kept :
    (c : Conn) (msg : List ℕ) (n r : ℕ) (output : Buffer)
    → append c.output (take r (drop n msg)) ≡ ok output
    → keep c msg n r ≡ ok (kept c r output)
unfolding keep
keep-kept c msg n r output d = rw d

keep-Kept :
    (c : Conn) (msg : List ℕ) (n r : ℕ) (xs : List ℕ)
    → take r (drop n msg) ≡ xs
    → chtho.Buffer.Valid.IsValid c.output
    → c.output.writer + length xs ≤ max_size
    → (c' : Conn) × (keep c msg n r ≡ ok c') × Kept c c' xs
keep-Kept c msg n r xs e v small =
    let (output, d, v', same, low) = append_bounded c.output xs v small in
    (
      kept c r output,
      keep-kept c msg n r output (ap (append c.output) e ∙ d),
      (
        v',
        same,
        low,
        (elim (Bool-cases c.channel.writing) [
          | inl h ↦ ground (arith, h)
          | inr h ↦ ground (arith, h)
        ]),
        refl,
        refl,
        refl,
      ),
    )

module _ (m : ℕ) (msg : List ℕ) (small : m + length msg ≤ max_size) where
  -- Some bytes that were not written wait behind the others.
  keep-Streams :
      (c c₀ : Conn) (n r : ℕ) (xs : List ℕ)
      → chtho.Buffer.Valid.IsValid c.output
      → c.output.writer ≤ m
      → c.shut ≡ false
      → take r (drop n msg) ≡ xs
      → 0 < length xs
      → length xs ≤ length msg
      → c.state ≡ c₀.state
      → c.shut ≡ c₀.shut
      → Streams (keep c msg n r) (m + length msg) c₀ (stream c ++ xs)
  keep-Streams c c₀ n r xs v low opened e some fits st sh =
      let (c', d, (v', same, low', w, wire, state, shut)) =
        keep-Kept c msg n r xs e v (omega arith) in
      let size : length (contents c'.output) ≡ length (contents c.output) + length xs =
        rw same (length-append (contents c.output) xs) in
      (
        c',
        d,
        record {
          output_ok = v';
          bounded = omega arith;
          waits = ground (arith, w, size, some);
          flushed = λ h. ground (arith, h, shut, opened);
        },
        ap₂ (λ a b. a ++ b) wire same ∙ sym (append_assoc c.wire (contents c.output) xs),
        state ∙ st,
        shut ∙ sh,
      )

  module _ (c : Conn) (v : IsValid c m) (opened : c.shut ≡ false) where
    -- A connection with nothing left to write.
    same-Streams :
        (c' : Conn) (xs : List ℕ) (r : Result Conn)
        → r ≡ ok c'
        → c'.output ≡ c.output
        → c'.channel.writing ≡ c.channel.writing
        → stream c' ≡ xs
        → c'.state ≡ c.state
        → c'.shut ≡ c.shut
        → Streams r (m + length msg) c xs
    same-Streams c' xs r e o w s st sh = (
      c',
      e,
      record {
        output_ok = subst chtho.Buffer.Valid.IsValid (sym o) v.output_ok;
        bounded = rw o (omega (arith, v.bounded));
        waits = rw (o, w) v.waits;
        flushed = λ h. ground (arith, h, sh, opened);
      },
      s,
      st,
      sh,
    )

    -- The branch of `sendInLoop` that keeps the whole message.
    keep_all :
        Streams
          (if ltb 0 (length msg) then keep c msg 0 (length msg) else ok c)
          (m + length msg)
          c
          (stream c ++ msg)
    keep_all = elim (Bool-cases (ltb 0 (length msg))) [
      | inl h ↦ rw h (
          keep-Streams c c 0 (length msg) msg v.output_ok v.bounded opened
            (take_all (length msg) msg (omega arith)) (ground (arith, h)) (omega arith) refl refl)
      | inr h ↦ rw h (
          same-Streams c (stream c ++ msg) (ok c) refl refl refl
            (sym (append-nil (stream c))
              ∙ ap (λ xs. stream c ++ xs) (take_all 0 msg (ground (arith, h))))
            refl refl)
    ]

    not_direct :
        (w : Write)
        → (not c.channel.writing && readable_bytes c.output == 0) ≡ false
        → send_or_keep c w msg ≡ (if ltb 0 (length msg) then keep c msg 0 (length msg) else ok c)
    unfolding send_or_keep
    not_direct w h = ground (arith, h)

    direct_error :
        (e : ℕ)
        → (not c.channel.writing && readable_bytes c.output == 0) ≡ true
        → is_reset (error e) ≡ false
        → send_or_keep c (error e) msg
          ≡ (if ltb 0 (length msg) then keep c msg 0 (length msg) else ok c)
    unfolding send_or_keep write_direct
    direct_error e h r = ground (arith, h, r)

    abbrev wrote : ℕ → Conn
    wrote n =
        queue_if (sub_size (length msg) n == 0 && c.has_write_complete) write_complete
          (record c { wire = c.wire ++ take n msg })

    remaining_lem : (k : ℕ) → sub_size (length msg) (min k (length msg)) ≡ length msg - k
    remaining_lem k = omega arith

    direct_room :
        (k : ℕ)
        → (not c.channel.writing && readable_bytes c.output == 0) ≡ true
        → send_or_keep c (room k) msg ≡ (
            if ltb 0 (length msg - k)
            then keep (wrote (min k (length msg))) msg (min k (length msg)) (length msg - k)
            else ok (wrote (min k (length msg))))
    unfolding send_or_keep write_direct
    direct_room k h = rw (h, remaining_lem k) (ground arith)

    -- Nothing waits where the message is written directly.
    none_waits :
        (not c.channel.writing && readable_bytes c.output == 0) ≡ true → contents c.output ≡ []
    none_waits h = sym (
        take_all 0 (contents c.output)
          (ground (arith, h, readable_bytes-length c.output v.output_ok)))

    wrote-stream :
        (k : ℕ) (xs : List ℕ)
        → contents c.output ≡ []
        → take (min k (length msg)) msg ++ xs ≡ msg
        → stream (wrote (min k (length msg))) ++ xs ≡ stream c ++ msg
    wrote-stream k xs e f =
        let t = take (min k (length msg)) msg in
        rw (e, append-nil (c.wire ++ t), append-nil c.wire, append_assoc c.wire t xs, f) refl

    room-Streams :
        (k : ℕ)
        → contents c.output ≡ []
        → Streams
            (if ltb 0 (length msg - k)
              then keep (wrote (min k (length msg))) msg (min k (length msg)) (length msg - k)
              else ok (wrote (min k (length msg))))
            (m + length msg)
            c
            (stream c ++ msg)
    room-Streams k e =
        let n = min k (length msg) in
        elim (Bool-cases (ltb 0 (length msg - k))) [
          | inl h ↦
              let size : length (drop n msg) ≡ length msg - k = omega (arith, length-drop n msg) in
              rw h (
                subst (Streams (keep (wrote n) msg n (length msg - k)) (m + length msg) c)
                  (wrote-stream k (drop n msg) e (take-append-drop n msg))
                  (keep-Streams (wrote n) c n (length msg - k) (drop n msg) v.output_ok v.bounded
                    opened (take_all (length msg - k) (drop n msg) (omega (arith, size)))
                    (ground (arith, h, size)) (omega (arith, size)) refl refl))
          | inr h ↦ rw h (
              same-Streams (wrote n) (stream c ++ msg) (ok (wrote n)) refl refl refl
                (sym (append-nil (stream (wrote n)))
                  ∙ wrote-stream k [] e
                      (append-nil (take n msg) ∙ take_all n msg (ground (arith, h))))
                refl refl)
        ]

    -- Where write(2) does not find the peer gone and the buffer may hold the message, `sendInLoop`
    -- succeeds on a valid connection that is not down nor shut for writing, keeps its invariant,
    -- and puts the message behind all that was sent before.
    pub send_now-Streams :
        (w : Write)
        → is_reset w ≡ false
        → is_disconnected c.state ≡ false
        → Streams (send_now c w msg) (m + length msg) c (stream c ++ msg)
    unfolding send_now
    send_now-Streams w r alive =
        rw alive (elim (Bool-cases (not c.channel.writing && readable_bytes c.output == 0)) [
          | inr h ↦ rw (not_direct w h) keep_all
          | inl h ↦ direct w r h
        ])
      where
        direct :
            (w : Write)
            → is_reset w ≡ false
            → (not c.channel.writing && readable_bytes c.output == 0) ≡ true
            → Streams (send_or_keep c w msg) (m + length msg) c (stream c ++ msg)
        direct (error e) r h = rw (direct_error e h r) keep_all
        direct (room k) r h = rw (direct_room k h) (room-Streams k (none_waits h))
