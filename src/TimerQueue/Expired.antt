-- ===== src/TimerQueue/Expired.antt =====
-- `getExpired`: what it returns, and what it leaves.
use chtho.Prelude.{
  ℕ, ◌≤◌, ◌<◌, ◌≡◌, ◌≢◌, ◌↔◌, refl, subst, true, false, List, [], ◌∷◌, ◌++◌, some, ok, arith,
  length, ==_iff,
}
use chtho.OrderedSet.{
  Pair, member, erase, before, from, IsSorted, member-erase, member-before, member-from,
  before-append-from,
}
use chtho.TimerQueue.{Timer, Heap, TimerQueue, deref, load, max_ptr, erase_active, get_expired}
use chtho.TimerQueue.Linked.{Linked, Inactive, erase-Linked, Linked-not_timer}

-- No entry has this address.
abbrev pub NotIn : ℕ → List Pair → Type 0
NotIn p [] = Unit {0}
NotIn p ((t, q) ∷ rest) = (p ≢ q) × NotIn p rest

-- The timer of each entry is alive and not active, and no two entries have one address.
abbrev pub Pending : Heap → List Pair → List Pair → Type 0
Pending h active [] = Unit {0}
Pending h active ((t, p) ∷ rest) =
    ((tm : Timer) × (deref p h ≡ some tm))
    × Inactive p active
    × (p < max_ptr)
    × NotIn p rest
    × Pending h active rest

NotIn-of_member :
    (p : ℕ) (es rest : List Pair) → ((t : ℕ) → member (t, p) (es ++ rest) ≡ false) → NotIn p es
unfolding member
NotIn-of_member p [] rest h = tt
NotIn-of_member p ((t, q) ∷ es) rest h =
    (ground (arith, h t), NotIn-of_member p es rest (λ u. ground (arith, h u)))

-- Nothing becomes active.
abbrev Shrinks : List Pair → List Pair → Type 0
Shrinks active active' = (x : Pair) → member x active ≡ false → member x active' ≡ false

member_head : (x : Pair) (s : List Pair) → member x (x ∷ s) ≡ true
unfolding member
member_head (a, b) s = ground arith

erase_head : (e t p : ℕ) (s : List Pair) → e ≡ t → erase (e, p) ((t, p) ∷ s) ≡ s
unfolding erase
erase_head e t p s h = ground arith

erase_less :
    (x y : Pair) (s : List Pair) → IsSorted s → member y s ≡ false → member y (erase x s) ≡ false
erase_less (a, b) (c, d) s h m = ground (arith, member-erase (a, b) (c, d) s h)

erase_active_step :
    (h : Heap) (t p : ℕ) (es active active' : List Pair) (tm : Timer)
    → deref p h ≡ some tm
    → member (p, tm.seq) active ≡ true
    → erase_active h es (erase (p, tm.seq) active) ≡ ok active'
    → erase_active h ((t, p) ∷ es) active ≡ ok active'
unfolding erase_active load
erase_active_step h t p es active active' tm d a r = rw (d, load, a) r

erase_active-Linked :
    (h : Heap) (es rest active : List Pair)
    → Linked h (es ++ rest) active
    → (active' : List Pair) × (erase_active h es active ≡ ok active')
      × Linked h rest active'
      × Pending h active' es
      × Shrinks active active'
unfolding erase_active
erase_active-Linked h [] rest active l = (active, refl, l, tt, λ x m. m)
erase_active-Linked h ((t, p) ∷ es) rest active l =
    let (tm, d, e, a, small) = l.owned t p (member_head (t, p) (es ++ rest)) in
    let (l₀, gone) = erase-Linked h ((t, p) ∷ (es ++ rest)) active l p tm d a in
    let l₁ : Linked h (es ++ rest) (erase (p, tm.seq) active) =
      subst (λ (xs : List Pair). Linked h xs (erase (p, tm.seq) active))
        (erase_head tm.expir t p (es ++ rest) e) l₀ in
    let (active', r, l₂, pending, less) =
      erase_active-Linked h es rest (erase (p, tm.seq) active) l₁ in
    (
      active',
      erase_active_step h t p es active active' tm d a r,
      l₂,
      (
        (tm, d),
        (λ s. less (p, s) (gone s)),
        small,
        NotIn-of_member p es rest
            (λ u. Linked-not_timer h (es ++ rest) (erase (p, tm.seq) active) l₁ p u gone),
        pending,
      ),
      λ x m. less x (erase_less (p, tm.seq) x active l.active_sorted m),
    )

get_expired_steps :
    (q : TimerQueue) (now : ℕ) (active' : List Pair)
    → length q.timers ≡ length q.active
    → erase_active q.heap (before (now, max_ptr) q.timers) q.active ≡ ok active'
    → length (from (now, max_ptr) q.timers) ≡ length active'
    → get_expired q now
      ≡ ok (
        before (now, max_ptr) q.timers,
        record q { timers = from (now, max_ptr) q.timers; active = active' },
      )
unfolding get_expired
get_expired_steps q now active' e r e' =
    rw ((==_iff _ _).1 e, r, get_expired) (rw ((==_iff _ _).1 e'))

-- With its sets and its heap in step `getExpired` fails no assertion. It returns the timers that
-- are due, each alive and no longer active, and leaves the others, with their sets in step.
pub get_expired-Linked :
    (q : TimerQueue) (now : ℕ)
    → Linked q.heap q.timers q.active
    → (active' : List Pair) × (get_expired q now
        ≡ ok (
          before (now, max_ptr) q.timers,
          record q { timers = from (now, max_ptr) q.timers; active = active' },
        ))
      × Linked q.heap (from (now, max_ptr) q.timers) active'
      × Pending q.heap active' (before (now, max_ptr) q.timers)
get_expired-Linked q now l =
    let (active', r, l', pending, less) = erase_active-Linked q.heap due rest q.active l₁ in
    (active', get_expired_steps q now active' l.same_size r l'.same_size, l', pending)
  where
    due : List Pair
    due = before (now, max_ptr) q.timers

    rest : List Pair
    rest = from (now, max_ptr) q.timers

    l₁ : Linked q.heap (due ++ rest) q.active
    l₁ = rw (before-append-from (now, max_ptr) q.timers) l

-- Exactly the timers that are due are returned, and exactly the others stay.
pub get_expired-due :
    (q : TimerQueue) (now : ℕ)
    → Linked q.heap q.timers q.active
    → (expired : List Pair) × (q' : TimerQueue) × (get_expired q now ≡ ok (expired, q'))
      × Linked q'.heap q'.timers q'.active
      × ((t p : ℕ) → (member (t, p) expired ≡ true) ↔ ((member (t, p) q.timers ≡ true) × (t ≤ now)))
      × ((t p : ℕ)
          → (member (t, p) q'.timers ≡ true) ↔ ((member (t, p) q.timers ≡ true) × (now < t)))
get_expired-due q now l =
    let (active', r, l', _) = get_expired-Linked q now l in
    (
      before (now, max_ptr) q.timers,
      record q { timers = from (now, max_ptr) q.timers; active = active' },
      r,
      l',
      due,
      late,
    )
  where
    due :
        (t p : ℕ)
        → (member (t, p) (before (now, max_ptr) q.timers) ≡ true)
          ↔ ((member (t, p) q.timers ≡ true) × (t ≤ now))
    due t p = (
      λ m. ground (arith, member-before (now, max_ptr) (t, p) q.timers l.timers_sorted),
      λ m.
          let o = l.owned t p m.0 in
          ground (arith, o.4, member-before (now, max_ptr) (t, p) q.timers l.timers_sorted),
    )

    late :
        (t p : ℕ)
        → (member (t, p) (from (now, max_ptr) q.timers) ≡ true)
          ↔ ((member (t, p) q.timers ≡ true) × (now < t))
    late t p = (
      λ m.
          let e = member-from (now, max_ptr) (t, p) q.timers l.timers_sorted in
          let there : member (t, p) q.timers ≡ true = ground (arith, e) in
          let o = l.owned t p there in ground (arith, o.4, e),
      λ m. ground (arith, member-from (now, max_ptr) (t, p) q.timers l.timers_sorted),
    )
