-- ===== src/Poller/Poll/Active.antt =====
-- `Poll::fillActiveChannels` finds every channel whose descriptor has an event.
use chtho.Prelude.{
  ℕ, suc, zero, ◌≡◌, refl, sym, ap, ◌∙◌, true, false, List, [], ◌∷◌, none, some, ok, ltb, ◌==◌,
  ◌&&◌, if◌then◌else◌, pos, arith, Bool-cases, inl, inr,
}
use chtho.Poller.{Channels, ChannelMap, set_revents}
use chtho.Poller.Poll.{PollFd, key_of, is_mapped, fill_active}

-- How many entries have events.
pub count_ready : List PollFd → ℕ
count_ready [] = 0
count_ready (x ∷ xs) = if ltb 0 x.revents then suc (count_ready xs) else count_ready xs

-- The channels of those entries, in their order.
pub ready_channels : ChannelMap → List PollFd → List ℕ
ready_channels m [] = []
ready_channels m (x ∷ xs) =
    let rest = ready_channels m xs in
    if ltb 0 x.revents then elim (m (key_of x.fd)) [ none ↦ rest | some p ↦ p ∷ rest ] else rest

-- An entry with events is not ignored, and its channel is mapped.
abbrev pub AllKnown : ChannelMap → Channels → List PollFd → Type 0
AllKnown m cs [] = Unit {0}
AllKnown m cs (x ∷ xs) =
    (ltb 0 x.revents ≡ true → (fd p : ℕ) × (x.fd ≡ pos fd) × (m fd ≡ some p) × ((cs p).fd ≡ fd))
    × AllKnown m cs xs

AllKnown-set_revents :
    (m : ChannelMap) (cs : Channels) (q r : ℕ) (xs : List PollFd)
    → AllKnown m cs xs
    → AllKnown m (set_revents cs q r) xs
AllKnown-set_revents m cs q r [] a = tt
AllKnown-set_revents m cs q r (x ∷ xs) a = (
  (λ h. let (fd, p, e, k, f) = a.0 h in (fd, p, e, k, ground (arith, f))),
  AllKnown-set_revents m cs q r xs a.1,
)

-- The `revents` of a channel, from those it had: the ones of the last entry with events that has
-- its descriptor.
pub latest : ChannelMap → List PollFd → ℕ → ℕ → ℕ
latest m [] p old = old
latest m (x ∷ xs) p old =
    latest m xs p (if ltb 0 x.revents && is_mapped m (key_of x.fd) p then x.revents else old)

-- Each channel has the `revents` of its entry, and is otherwise as it was.
abbrev pub HaveRevents : ChannelMap → List PollFd → Channels → Channels → Type 0
HaveRevents m xs cs cs' = (p : ℕ) → cs' p ≡ record (cs p) { revents = latest m xs p (cs p).revents }

is_mapped-some : (m : ChannelMap) (fd p q : ℕ) → m fd ≡ some q → is_mapped m fd p ≡ (q == p)
is_mapped-some m fd p q known = ap (λ r. elim r [ none ↦ false | some q ↦ q == p ]) known

latest-step :
    (m : ChannelMap) (x : PollFd) (xs : List PollFd) (fd p q old : ℕ)
    → ltb 0 x.revents ≡ true
    → x.fd ≡ pos fd
    → m fd ≡ some q
    → latest m (x ∷ xs) p old ≡ latest m xs p (if q == p then x.revents else old)
unfolding latest
latest-step m x xs fd p q old e x_fd known =
    ap (latest m xs p) (rw (e, x_fd, is_mapped-some m fd p q known) refl)

HaveRevents-step :
    (m : ChannelMap) (x : PollFd) (xs : List PollFd) (cs cs' : Channels) (fd q : ℕ)
    → ltb 0 x.revents ≡ true
    → x.fd ≡ pos fd
    → m fd ≡ some q
    → HaveRevents m xs (set_revents cs q x.revents) cs'
    → HaveRevents m (x ∷ xs) cs cs'
HaveRevents-step m x xs cs cs' fd q e x_fd known s p =
    let step = latest-step m x xs fd p q (cs p).revents e x_fd known in
    elim (Bool-cases (q == p)) [
      | inl same ↦ ground (arith, s p, step, same)
      | inr other ↦ ground (arith, s p, step, other)
    ]

HaveRevents-skip :
    (m : ChannelMap) (x : PollFd) (xs : List PollFd) (cs cs' : Channels)
    → ltb 0 x.revents ≡ false
    → HaveRevents m xs cs cs'
    → HaveRevents m (x ∷ xs) cs cs'
unfolding latest
HaveRevents-skip m x xs cs cs' e s p = s p ∙ rw e refl

fill_active_zero :
    (m : ChannelMap) (cs : Channels) (xs : List PollFd) → fill_active m cs xs 0 ≡ ok ([], cs)
unfolding fill_active
fill_active_zero m cs [] = refl
fill_active_zero m cs (x ∷ xs) = refl

fill_active_step :
    (m : ChannelMap) (cs cs' : Channels) (x : PollFd) (xs : List PollFd) (n fd p : ℕ) (l : List ℕ)
    → ltb 0 x.revents ≡ true
    → x.fd ≡ pos fd
    → m fd ≡ some p
    → (cs p).fd ≡ fd
    → fill_active m (set_revents cs p x.revents) xs n ≡ ok (l, cs')
    → fill_active m cs (x ∷ xs) (suc n) ≡ ok (p ∷ l, cs')
unfolding fill_active
fill_active_step m cs cs' x xs n fd p l e x_fd known f r = ground arith

fill_active_skip :
    (m : ChannelMap) (cs : Channels) (x : PollFd) (xs : List PollFd) (n : ℕ)
    → ltb 0 x.revents ≡ false
    → fill_active m cs (x ∷ xs) n ≡ fill_active m cs xs n
unfolding fill_active
fill_active_skip m cs x xs zero e = sym (fill_active_zero m cs xs)
fill_active_skip m cs x xs (suc n) e = rw e

-- If each entry with events has a mapped channel with its descriptor, and the kernel says how many
-- there are, the loop fails no assertion, returns exactly their channels in the order of the
-- vector, gives each channel the `revents` of the last such entry with its descriptor, and changes
-- nothing else.
pub fill_active-ready :
    (m : ChannelMap) (cs : Channels) (xs : List PollFd)
    → AllKnown m cs xs
    → (cs' : Channels) × (fill_active m cs xs (count_ready xs) ≡ ok (ready_channels m xs, cs'))
      × HaveRevents m xs cs cs'
unfolding count_ready ready_channels latest
fill_active-ready m cs [] a = (cs, fill_active_zero m cs [], λ p. refl)
fill_active-ready m cs (x ∷ xs) a = elim (Bool-cases (ltb 0 x.revents)) [
  | inl e ↦
      let (fd, p, x_fd, known, f) = a.0 e in
      let (cs', r, s) =
        fill_active-ready m (set_revents cs p x.revents) xs
          (AllKnown-set_revents m cs p x.revents xs a.1) in
      (
        cs',
        ground (
          arith,
          fill_active_step m cs cs' x xs (count_ready xs) fd p (ready_channels m xs) e x_fd known f
              r,
        ),
        HaveRevents-step m x xs cs cs' fd p e x_fd known s,
      )
  | inr e ↦
      let (cs', r, s) = fill_active-ready m cs xs a.1 in
      (
        cs',
        ground (arith, fill_active_skip m cs x xs (count_ready xs) e, r),
        HaveRevents-skip m x xs cs cs' e s,
      )
]
