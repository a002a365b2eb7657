-- ===== src/AsyncLogging/Lossless.antt =====
-- No line is lost while the writing thread keeps up, and it always has two empty buffers.
use chtho.Prelude.{
  ℕ, ◌+◌, ◌≤◌, ◌<◌, ◌≡◌, refl, sym, ap, ◌∙◌, List, [], ◌∷◌, ◌++◌, Option, none, some, Result, ok,
  ltb, length, take, arith, append-nil, append_assoc, length-append, Bool-cases, Option-cases, inl,
  inr, length-take, ◌⊎◌,
}
use chtho.FixedBuffer.{Buf, k_large, empty, avail, buf_append}
use chtho.AsyncLogging.{Front, next_buf, append, Back, collect, concat, write_all, recycle, round}

-- What is logged and not yet written.
abbrev pub pending : Front → List ℕ
pending s = concat s.bufs ++ elim s.cur [ none ↦ [] | some b ↦ b.data_ ]

-- A current buffer, a spare one that is empty, or none once a buffer is full.
abbrev pub IsFront : Front → Type 0
IsFront s =
    ((b : Buf) × (s.cur ≡ some b))
    × ((n : Buf) → s.nxt ≡ some n → n ≡ empty)
    × (s.nxt ≡ none → 0 < length s.bufs)

concat-append : (xs ys : List Buf) → concat (xs ++ ys) ≡ concat xs ++ concat ys
concat-append [] ys = refl
concat-append (b ∷ xs) ys =
    ap (λ r. b.data_ ++ r) (concat-append xs ys)
    ∙ sym (append_assoc b.data_ (concat xs) (concat ys))

concat-push : (xs : List Buf) (b : Buf) → concat (xs ++ b ∷ []) ≡ concat xs ++ b.data_
concat-push xs b = concat-append xs (b ∷ []) ∙ ap (λ r. concat xs ++ r) (append-nil b.data_)

length-push : (xs : List Buf) (b : Buf) → length (xs ++ b ∷ []) ≡ length xs + 1
length-push xs b = length-append xs (b ∷ [])

pending_some : (s : Front) (b : Buf) → s.cur ≡ some b → pending s ≡ concat s.bufs ++ b.data_
pending_some s b e = rw e refl

fresh_append :
    (line : List ℕ)
    → length line < k_large
    → buf_append k_large empty line ≡ record { data_ = line }
unfolding buf_append avail
fresh_append line short = ground (arith, short)

module _ (s : Front) (line : List ℕ) (short : length line < k_large) where
  append_fits :
      (b : Buf)
      → s.cur ≡ some b
      → length line < avail k_large b
      → append s line ≡ ok (record s { cur = some (record { data_ = b.data_ ++ line }) })
  unfolding append buf_append
  append_fits b e h = ground (arith, e, h)

  append_full :
      (b : Buf)
      → s.cur ≡ some b
      → avail k_large b ≤ length line
      → ((n : Buf) → s.nxt ≡ some n → n ≡ empty)
      → append s line
        ≡ ok (record { cur = some (record { data_ = line }); nxt = none; bufs = s.bufs ++ b ∷ [] })
  unfolding append next_buf
  append_full b e h q = elim (Option-cases s.nxt) [
    | inl f ↦ ground (arith, e, h, f, fresh_append line short)
    | inr (n, f) ↦ ground (arith, e, h, f, q n f, fresh_append line short)
  ]

  -- A line that is shorter than a buffer is logged behind all others.
  pub append-pending :
      IsFront s
      → (s' : Front) × (append s line ≡ ok s') × IsFront s' × (pending s' ≡ pending s ++ line)
  append-pending ((b, e), q, r) = elim (Bool-cases (ltb (length line) (avail k_large b))) [
    | inl h ↦ (
      _,
      append_fits b e (ground (arith, h)),
      ((_, refl), q, r),
      (sym (append_assoc (concat s.bufs) b.data_ line)
          ∙ ap (λ xs. xs ++ line) (sym (pending_some s b e))),
    )
    | inr h ↦ (
      _,
      append_full b e (ground (arith, h)) q,
      ((_, refl), (λ n f. cc), λ f. omega (arith, length-push s.bufs b)),
      (ap (λ xs. xs ++ line) (concat-push s.bufs b ∙ sym (pending_some s b e))),
    )
  ]

-- The thread has two empty buffers.
abbrev pub IsBack : Back → Type 0
IsBack t = (t.buf1 ≡ some empty) × (t.buf2 ≡ some empty)

recycle_last :
    (b : Buf) (bufs : List Buf)
    → (rest : List Buf) × (recycle none (b ∷ bufs) ≡ ok (some empty, rest))
      × (length rest ≡ length bufs)
unfolding recycle
recycle_last b [] = ([], refl, refl)
recycle_last b (c ∷ bufs) = (_, refl, omega (arith, length-take (length (c ∷ bufs)) (b ∷ c ∷ bufs)))

recycle_both :
    (bufs : List Buf) (buf2 : Option Buf)
    → 0 < length bufs
    → (buf2 ≡ some empty) ⊎ ((buf2 ≡ none) × (1 < length bufs))
    → (rest rest' : List Buf) × (recycle none (take 2 bufs) ≡ ok (some empty, rest))
      × (recycle buf2 rest ≡ ok (some empty, rest'))
unfolding recycle
recycle_both [] buf2 h c = ([], [], ground (arith, h), ground (arith, h))
recycle_both (x ∷ []) buf2 h (inl e) = ([], [], refl, rw e refl)
recycle_both (x ∷ []) buf2 h (inr (e, g)) = ([], [], ground (arith, g), ground (arith, g))
recycle_both (x ∷ y ∷ bufs) buf2 h (inl e) = (x ∷ [], x ∷ [], refl, rw e refl)
recycle_both (x ∷ y ∷ bufs) buf2 h (inr (e, g)) = (x ∷ [], [], refl, rw e refl)

write_few :
    (output note : List ℕ) (bufs : List Buf)
    → length bufs ≤ 25
    → write_all output note bufs ≡ (output ++ concat bufs, take 2 bufs)
unfolding write_all
write_few output note bufs h = ground (arith, h)

round_steps :
    (s s' : Front) (t : Back) (note : List ℕ) (bufs rest rest' : List Buf) (buf2 : Option Buf)
    → IsBack t
    → collect s (some empty) (some empty) ≡ ok (s', bufs, buf2)
    → 0 < length bufs
    → length bufs ≤ 25
    → recycle none (take 2 bufs) ≡ ok (some empty, rest)
    → recycle buf2 rest ≡ ok (some empty, rest')
    → round s t note
      ≡ ok (s', record { buf1 = some empty; buf2 = some empty; output = t.output ++ concat bufs })
unfolding round
round_steps s s' t note bufs rest rest' buf2 v e some_bufs few r r' =
    rw (v.0, v.1, e, write_few t.output note bufs few, r, r') (ground (arith, some_bufs))

collect_spare :
    (s : Front) (b n : Buf)
    → s.cur ≡ some b
    → s.nxt ≡ some n
    → collect s (some empty) (some empty)
      ≡ ok (record { cur = some empty; nxt = some n; bufs = [] }, s.bufs ++ b ∷ [], some empty)
unfolding collect
collect_spare s b n e f = rw (e, f) refl

collect-none :
    (s : Front) (b : Buf)
    → s.cur ≡ some b
    → s.nxt ≡ none
    → collect s (some empty) (some empty)
      ≡ ok (record { cur = some empty; nxt = some empty; bufs = [] }, s.bufs ++ b ∷ [], none)
unfolding collect
collect-none s b e f = rw (e, f) refl

-- The turn writes this, and leaves nothing to write.
abbrev pub Writes : Result (Front × Back) → List ℕ → Type 0
Writes r xs =
    (s' : Front) × (t' : Back) × (r ≡ ok (s', t'))
    × IsFront s'
    × IsBack t'
    × (pending s' ≡ [])
    × (t'.output ≡ xs)

-- With fewer than 25 full buffers, a turn of the thread fails no assertion, writes all that was
-- logged behind what it has written, in order, leaves nothing to write, and has two empty buffers
-- again.
round-pending :
    (s : Front) (t : Back) (note : List ℕ)
    → IsFront s
    → IsBack t
    → length s.bufs < 25
    → Writes (round s t note) (t.output ++ pending s)
round-pending s t note ((b, e), q, r) v few = elim (Option-cases s.nxt) [
  | inl f ↦
      let (rest, rest', d, d') =
        recycle_both (s.bufs ++ b ∷ []) none (omega (arith, n))
          (inr (refl, omega (arith, n, r f))) in
      (
        _,
        _,
        round_steps s (record { cur = some empty; nxt = some empty; bufs = [] }) t note
            (s.bufs ++ b ∷ []) rest rest' none v (collect-none s b e f) (omega (arith, n))
            (omega (arith, n)) d d',
        ((_, refl), (λ x g. ground (arith, g)), λ g. cc),
        (refl, refl),
        refl,
        same,
      )
  | inr (x, f) ↦
      let (rest, rest', d, d') =
        recycle_both (s.bufs ++ b ∷ []) (some empty) (omega (arith, n)) (inl refl) in
      (
        _,
        _,
        round_steps s (record { cur = some empty; nxt = some x; bufs = [] }) t note
            (s.bufs ++ b ∷ []) rest rest' (some empty) v (collect_spare s b x e f)
            (omega (arith, n)) (omega (arith, n)) d d',
        ((_, refl), (λ y g. q y (f ∙ g)), λ g. cc),
        (refl, refl),
        refl,
        same,
      )
]
  where
    n : length (s.bufs ++ b ∷ []) ≡ length s.bufs + 1
    n = length-push s.bufs b

    same : t.output ++ concat (s.bufs ++ b ∷ []) ≡ t.output ++ pending s
    same = ap (λ xs. t.output ++ xs) (concat-push s.bufs b ∙ sym (pending_some s b e))
