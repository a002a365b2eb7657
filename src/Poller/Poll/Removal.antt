-- ===== src/Poller/Poll/Removal.antt =====
-- `Poll::removeChannel`: the last entry takes the place of the one that goes.
use chtho.Prelude.{
  ℕ, ◌-◌, ◌<◌, ◌≡◌, refl, List, none, some, ok, ltb, ◌==◌, if◌then◌else◌, length, get_elem?, set,
  pos, update, arith, Bool-cases, inl, inr, get_elem?-bound, get_elem?-some, get_elem?-set,
  get_elem?-take, length-set,
}
use chtho.Poller.{set_idx}
use chtho.Poller.Poll.{PollFd, Poll, key_of, remove_channel, move_last, pop_back, swap_last}
use chtho.Poller.Poll.Registered.{IsRegistered, Placed, Mapped}

get_elem?-swap_last :
    (xs : List PollFd) (i : ℕ) (a b : PollFd) (j : ℕ)
    → i < length xs - 1
    → get_elem? (pop_back (swap_last xs i a b)) j
      ≡ (if ltb j (length xs - 1) then (if j == i then some b else get_elem? xs j) else none)
get_elem?-swap_last xs i a b j h = ground (
  arith,
  length-set (set xs i b) (length xs - 1) a,
  length-set xs i b,
  get_elem?-take (length (swap_last xs i a b) - 1) (swap_last xs i a b) j,
  get_elem?-set (set xs i b) (length xs - 1) a j,
  get_elem?-set xs i b j,
)

module _ (w : Poll) (v : IsRegistered w) (p i : ℕ) (x : PollFd) (at_i : (w.channels p).idx ≡ pos i)
    (there : w.map (w.channels p).fd ≡ some p) (g : get_elem? w.pollfds i ≡ some x)
    (k : key_of x.fd ≡ (w.channels p).fd) where
  abbrev fd : ℕ
  fd = (w.channels p).fd

  abbrev last : ℕ
  last = length w.pollfds - 1

  abbrev popped : Poll
  popped = record w { pollfds = pop_back w.pollfds; map = update w.map fd none }

  popped-IsRegistered : i ≡ last → IsRegistered popped
  popped-IsRegistered e = record { placed = place; mapped = mapping }
    where
      place : (f q : ℕ) → popped.map f ≡ some q → Placed popped f q
      place f q m =
          let (j, y, a, b, gj, h) = v.placed f q (ground arith) in
          (
            j,
            y,
            a,
            b,
            ground (
              arith,
              m,
              gj,
              g,
              k,
              at_i,
              a,
              b,
              get_elem?-bound w.pollfds j gj,
              get_elem?-take last w.pollfds j,
              v.mapped j y gj,
              v.mapped i x g,
            ),
            h,
          )

      mapping : (j : ℕ) (y : PollFd) → get_elem? popped.pollfds j ≡ some y → Mapped popped j y
      mapping j y gj =
          let (q, m, a) = v.mapped j y (ground (arith, gj, get_elem?-take last w.pollfds j)) in
          (q, ground (arith, m, a, at_i, there, k, gj, get_elem?-take last w.pollfds j), a)

  module _ (back : PollFd) (q : ℕ) (gb : get_elem? w.pollfds last ≡ some back)
      (mb : w.map (key_of back.fd) ≡ some q) (ab : (w.channels q).idx ≡ pos last)
      (inner : i < last) where
    abbrev moved : Poll
    moved = record {
      pollfds = pop_back (swap_last w.pollfds i x back);
      map = update w.map fd none;
      channels = set_idx w.channels q (pos i);
    }

    moved-IsRegistered : IsRegistered moved
    moved-IsRegistered = record { placed = place; mapped = mapping }
      where
        place : (f r : ℕ) → moved.map f ≡ some r → Placed moved f r
        place f r m =
            let (j, y, a, b, gj, h) = v.placed f r (ground arith) in
            elim (Bool-cases (q == r)) [
              | inl e ↦ (
                i,
                y,
                ground arith,
                ground (arith, b),
                ground (arith, get_elem?-swap_last w.pollfds i x back i inner, gj, gb, a, ab),
                ground (arith, h),
              )
              | inr e ↦ (
                j,
                y,
                ground (arith, a),
                ground (arith, b),
                ground (
                  arith,
                  get_elem?-swap_last w.pollfds i x back j inner,
                  gj,
                  gb,
                  g,
                  k,
                  m,
                  mb,
                  h,
                  b,
                  get_elem?-bound w.pollfds j gj,
                ),
                ground (arith, h),
              )
            ]

        mapping : (j : ℕ) (y : PollFd) → get_elem? moved.pollfds j ≡ some y → Mapped moved j y
        mapping j y gj = elim (Bool-cases (j == i)) [
          | inl e ↦ (
            q,
            ground (
              arith,
              get_elem?-swap_last w.pollfds i x back j inner,
              gj,
              gb,
              mb,
              ab,
              at_i,
              there,
              k,
            ),
            ground (arith, ab),
          )
          | inr e ↦
              let (r, m, a) =
                v.mapped j y (ground (arith, get_elem?-swap_last w.pollfds i x back j inner, gj)) in
              (
                r,
                ground
                    (arith, m, a, there, at_i, get_elem?-swap_last w.pollfds i x back j inner, gj),
                ground (arith, a, ab, get_elem?-swap_last w.pollfds i x back j inner, gj),
              )
        ]

-- A channel that the poller knows, and that has no events, can be removed: no assertion fails, the
-- poller no longer knows it and knows the same others, and the indices agree with the vector.
pub remove-IsRegistered :
    (w : Poll) (p : ℕ)
    → IsRegistered w
    → w.map (w.channels p).fd ≡ some p
    → (w.channels p).events ≡ 0
    → (w' : Poll) × (remove_channel w p ≡ ok w')
      × IsRegistered w'
      × ((fd : ℕ) → w'.map fd ≡ update w.map (w.channels p).fd none fd)
unfolding remove_channel move_last
remove-IsRegistered w p v m quiet =
    let (i, x, a, b, g, h) = v.placed (w.channels p).fd p m in
    let k : key_of x.fd ≡ (w.channels p).fd = ground (arith, h, quiet) in
    elim (Bool-cases (i == length w.pollfds - 1)) [
      | inl e ↦ (
        popped w v p i x a m g k,
        ground (arith, a, m, quiet, g, h, get_elem?-bound w.pollfds i g),
        popped-IsRegistered w v p i x a m g k (ground (arith, e)),
        λ fd. refl,
      )
      | inr e ↦
          let n = get_elem?-bound w.pollfds i g in
          let (back, gb) = get_elem?-some w.pollfds (length w.pollfds - 1) (omega (arith, n)) in
          let (q, mb, ab) = v.mapped (length w.pollfds - 1) back gb in
          (
            moved w v p i x a m g k back q gb mb ab (ground (arith, n)),
            ground (arith, a, m, quiet, g, h, n, gb, mb, ab),
            moved-IsRegistered w v p i x a m g k back q gb mb ab (ground (arith, n)),
            λ fd. refl,
          )
    ]
