-- ===== src/Poller/Poll/Registered.antt =====
-- The invariant of `Poll`: the map from descriptors to channels, the index of each channel and the
-- vector of `pollfd` agree.
use chtho.Prelude.{
  ℕ, ◌^◌, ◌<◌, ◌≡◌, ◌≢◌, ◌↔◌, refl, ap, [], ◌∷◌, ◌++◌, Option, none, some, ok, ◌==◌, if◌then◌else◌,
  length, get_elem?, set, ℤ, pos, negsuc, update, arith, Bool-cases, inl, inr, ◌⊎◌, get_elem?-bound,
  get_elem?-push, get_elem?-set, length-append,
}
use chtho.Poller.{Channel, is_none_event}
use chtho.Poller.Poll.{PollFd, Poll, flip, key_of, update_channel}

-- The entry of a channel: a descriptor with no events is made negative, so that `poll(2)` ignores it.
abbrev pub Matches : PollFd → Channel → Type 0
Matches x c =
    (x.fd ≡ (if is_none_event c then flip (pos c.fd) else pos c.fd)) × (x.events ≡ c.events)

-- A mapped channel stands in the vector at its index.
abbrev pub Placed : Poll → ℕ → ℕ → Type 0
Placed w fd p =
    (i : ℕ) × (x : PollFd) × ((w.channels p).idx ≡ pos i)
    × ((w.channels p).fd ≡ fd)
    × (get_elem? w.pollfds i ≡ some x)
    × Matches x (w.channels p)

-- The channel of an entry is mapped, and has this index.
abbrev pub Mapped : Poll → ℕ → PollFd → Type 0
Mapped w i x = (p : ℕ) × (w.map (key_of x.fd) ≡ some p) × ((w.channels p).idx ≡ pos i)

pub record IsRegistered (w : Poll) : Type 0 where
  pub placed : (fd p : ℕ) → w.map fd ≡ some p → Placed w fd p
  pub mapped : (i : ℕ) (x : PollFd) → get_elem? w.pollfds i ≡ some x → Mapped w i x

-- The channel has new events, as `enableRead` and its like set them before `update`.
abbrev pub with_events : Poll → ℕ → ℕ → Poll
with_events w p ev = record w {
  channels = update w.channels p (record (w.channels p) { events = ev });
}

module _ (w : Poll) (v : IsRegistered w) (p ev : ℕ) (small : ev < 2 ^ 16) where
  abbrev c : Channel
  c = w.channels p

  abbrev entry : ℤ → PollFd
  entry fd = record { fd = fd; events = ev; revents = 0 }

  abbrev added : Poll
  added = record {
    pollfds = w.pollfds ++ entry (pos c.fd) ∷ [];
    map = update w.map c.fd (some p);
    channels = update w.channels p (record c { events = ev; idx = pos (length w.pollfds) });
  }

  abbrev changed : ℕ → Poll
  changed i = record {
    pollfds = set w.pollfds i (entry (if ev == 0 then flip (pos c.fd) else pos c.fd));
    map = w.map;
    channels = update w.channels p (record c { events = ev });
  }

  added-IsRegistered : (n : ℕ) → c.idx ≡ negsuc n → w.map c.fd ≡ none → ev ≢ 0 → IsRegistered added
  added-IsRegistered n new out some_event = record { placed = place; mapped = mapping }
    where
      place : (fd q : ℕ) → added.map fd ≡ some q → Placed added fd q
      place fd q m = elim (Bool-cases (c.fd == fd)) [
        | inl e ↦ (
          length w.pollfds,
          entry (pos c.fd),
          ground arith,
          ground arith,
          ground (arith, get_elem?-push w.pollfds (entry (pos c.fd)) (length w.pollfds)),
          ground arith,
        )
        | inr e ↦
            let (i, x, a, b, g, h) = v.placed fd q (ground arith) in
            (
              i,
              x,
              ground arith,
              ground arith,
              ground (
                arith,
                g,
                get_elem?-push w.pollfds (entry (pos c.fd)) i,
                get_elem?-bound w.pollfds i g,
              ),
              ground arith,
            )
      ]

      mapping : (i : ℕ) (x : PollFd) → get_elem? added.pollfds i ≡ some x → Mapped added i x
      mapping i x g = elim (Bool-cases (i == length w.pollfds)) [
        | inl e ↦ (p, ground (arith, get_elem?-push w.pollfds (entry (pos c.fd)) i), ground (arith))
        | inr e ↦
            let (q, m, a) =
              v.mapped i x (ground (arith, get_elem?-push w.pollfds (entry (pos c.fd)) i)) in
            (q, ground arith, ground arith)
      ]

  changed-IsRegistered :
      (i : ℕ) (x : PollFd)
      → c.idx ≡ pos i
      → w.map c.fd ≡ some p
      → get_elem? w.pollfds i ≡ some x
      → key_of x.fd ≡ c.fd
      → IsRegistered (changed i)
  changed-IsRegistered i x at_i there g k = record { placed = place; mapped = mapping }
    where
      new : PollFd
      new = entry (if ev == 0 then flip (pos c.fd) else pos c.fd)

      place : (fd q : ℕ) → w.map fd ≡ some q → Placed (changed i) fd q
      place fd q m =
          let (j, y, a, b, gj, h) = v.placed fd q m in
          elim (Bool-cases (p == q)) [
            | inl e ↦ (
              i,
              new,
              ground arith,
              ground arith,
              ground (arith, get_elem?-set w.pollfds i new i, get_elem?-bound w.pollfds i g),
              ground arith,
            )
            | inr e ↦ (
              j,
              y,
              ground arith,
              ground arith,
              ground (
                arith,
                gj,
                a,
                b,
                m,
                there,
                get_elem?-set w.pollfds i new j,
                v.mapped i x g,
                v.mapped j y gj,
                k,
              ),
              ground arith,
            )
          ]

      mapping :
          (j : ℕ) (y : PollFd) → get_elem? (changed i).pollfds j ≡ some y → Mapped (changed i) j y
      mapping j y gj = elim (Bool-cases (j == i)) [
        | inl e ↦ (p, ground (arith, get_elem?-set w.pollfds i new j), ground arith)
        | inr e ↦
            let (q, m, a) = v.mapped j y (ground (arith, get_elem?-set w.pollfds i new j)) in
            (q, ground arith, ground arith)
      ]

-- The poller knows the channel, or does not and it may be added.
abbrev pub CanUpdate : Poll → ℕ → ℕ → Type 0
CanUpdate w p ev =
    (w.map (w.channels p).fd ≡ some p)
    ⊎ ((n : ℕ) × ((w.channels p).idx ≡ negsuc n) × (w.map (w.channels p).fd ≡ none) × (ev ≢ 0))

module _ (w : Poll) (v : IsRegistered w) (p ev : ℕ) (small : ev < 2 ^ 16) where
  update_known :
      w.map (w.channels p).fd ≡ some p
      → (w' : Poll) × (update_channel (with_events w p ev) p ≡ ok w')
        × IsRegistered w'
        × (w'.map ≡ w.map)
        × ((w'.channels p).events ≡ ev)
  unfolding update_channel
  update_known m =
      let (i, x, a, b, g, h) = v.placed (w.channels p).fd p m in
      let (q, k, e) = v.mapped i x g in
      (
        changed w v p ev small i,
        ground (arith, get_elem?-bound w.pollfds i g),
        changed-IsRegistered w v p ev small i x a m g (ground arith),
        refl,
        ground arith,
      )

  update_new :
      (n : ℕ)
      → (w.channels p).idx ≡ negsuc n
      → w.map (w.channels p).fd ≡ none
      → ev ≢ 0
      → (w' : Poll) × (update_channel (with_events w p ev) p ≡ ok w')
        × IsRegistered w'
        × (w'.map ≡ update w.map (w.channels p).fd (some p))
        × ((w'.channels p).events ≡ ev)
  unfolding update_channel
  update_new n a m some_event = (
    added w v p ev small,
    ground (arith, length-append w.pollfds (entry w v p ev small (pos (w.channels p).fd) ∷ [])),
    added-IsRegistered w v p ev small n a m some_event,
    refl,
    ground arith,
  )

  -- What `update` leaves: the poller knows the channel with its new events, and the same others.
  pub update-IsRegistered :
      CanUpdate w p ev
      → (w' : Poll) × (update_channel (with_events w p ev) p ≡ ok w')
        × IsRegistered w'
        × ((fd : ℕ) → w'.map fd ≡ update w.map (w.channels p).fd (some p) fd)
        × ((w'.channels p).events ≡ ev)
  update-IsRegistered (inl m) =
      let (w', e, r, k, f) = update_known m in
      (w', e, r, (λ fd. ground (arith, ap (λ (g : ℕ → Option ℕ). g fd) k, m)), f)
  update-IsRegistered (inr (n, a, m, some_event)) =
      let (w', e, r, k, f) = update_new n a m some_event in
      (w', e, r, (λ fd. ap (λ (g : ℕ → Option ℕ). g fd) k), f)

-- `poll(2)` is asked for these events of the descriptor.
abbrev pub Asks : Poll → ℕ → ℕ → Type 0
Asks w fd ev =
    (i : ℕ) × (x : PollFd) × (get_elem? w.pollfds i ≡ some x) × (x.fd ≡ pos fd) × (x.events ≡ ev)

-- Where the indices agree with the vector, `poll(2)` is asked for exactly the events of the
-- channels that the poller knows, and ignores those that have none.
Asks-iff :
    (w : Poll) (fd ev : ℕ)
    → IsRegistered w
    → Asks w fd ev ↔ ((p : ℕ) × (w.map fd ≡ some p) × ((w.channels p).events ≡ ev) × (ev ≢ 0))
Asks-iff w fd ev v = (to, back)
  where
    to : Asks w fd ev → (p : ℕ) × (w.map fd ≡ some p) × ((w.channels p).events ≡ ev) × (ev ≢ 0)
    to (i, x, g, a, b) =
        let (p, m, c) = v.mapped i x g in
        let (j, y, d, e, h, k) = v.placed (key_of x.fd) p m in
        (
          p,
          ground (arith, m, a),
          ground (arith, g, h, c, d, k, b),
          ground (arith, g, h, c, d, e, k, a, b),
        )

    back : (p : ℕ) × (w.map fd ≡ some p) × ((w.channels p).events ≡ ev) × (ev ≢ 0) → Asks w fd ev
    back (p, m, e, n) =
        let (j, y, d, f, h, k) = v.placed fd p m in
        (j, y, h, ground (arith, k, f, e, n), ground (arith, k, e))
