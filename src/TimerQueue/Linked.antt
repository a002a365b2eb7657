-- ===== src/TimerQueue/Linked.antt =====
-- The two sets of `TimerQueue` and the heap belong together: each entry of the one has its entry
-- in the other, under the number and the time of the timer that both point to.
use chtho.Prelude.{
  ℕ, ◌<◌, ◌≡◌, refl, true, false, List, [], ◌∷◌, none, some, arith, Bool-cases, inl, inr, ◌==◌,
  if◌then◌else◌, length,
}
use chtho.OrderedSet.{
  Pair, member, insert, erase, IsSorted, insert-IsSorted, erase-IsSorted, member-insert,
  member-erase, length-insert, length-erase,
}
use chtho.TimerQueue.{Timer, Heap, deref, store, free, max_ptr}

pub deref-store :
    (p : ℕ) (t : Timer) (h : Heap) (j : ℕ)
    → deref j (store p t h) ≡ (if p == j then some t else deref j h)
unfolding deref store
deref-store p t [] j = refl
deref-store p t ((q, u) ∷ h) j = ground (arith, deref-store p t h j)

pub deref-free :
    (p : ℕ) (h : Heap) (j : ℕ) → deref j (free p h) ≡ (if p == j then none else deref j h)
unfolding deref free
deref-free p [] j = ground arith
deref-free p ((q, u) ∷ h) j = ground (arith, deref-free p h j)

-- What an entry of `timers_` points to, and its entry among the active timers.
abbrev pub Owned : Heap → List Pair → ℕ → ℕ → Type 0
Owned h active t p =
    (tm : Timer) × (deref p h ≡ some tm)
    × (tm.expir ≡ t)
    × (member (p, tm.seq) active ≡ true)
    × (p < max_ptr)

-- What an entry of `activeTimers_` points to, and its entry among the timers.
abbrev pub Known : Heap → List Pair → ℕ → ℕ → Type 0
Known h timers p s =
    (tm : Timer) × (deref p h ≡ some tm) × (tm.seq ≡ s) × (member (tm.expir, p) timers ≡ true)

pub record Linked (h : Heap) (timers active : List Pair) : Type 0 where
  pub owned : (t p : ℕ) → member (t, p) timers ≡ true → Owned h active t p
  pub known : (p s : ℕ) → member (p, s) active ≡ true → Known h timers p s
  pub same_size : length timers ≡ length active
  pub timers_sorted : IsSorted timers
  pub active_sorted : IsSorted active

-- No active timer stands at this address.
abbrev pub Inactive : ℕ → List Pair → Type 0
Inactive p active = (s : ℕ) → member (p, s) active ≡ false

module _ (h : Heap) (timers active : List Pair) (l : Linked h timers active) where
  pub Linked-free_address : (p : ℕ) → deref p h ≡ none → Inactive p active
  Linked-free_address p e s = elim (Bool-cases (member (p, s) active)) [
    | inl m ↦ let k = l.known p s m in cc (k.1)
    | inr m ↦ m
  ]

  pub Linked-not_timer : (p t : ℕ) → Inactive p active → member (t, p) timers ≡ false
  Linked-not_timer p t i = elim (Bool-cases (member (t, p) timers)) [
    | inl m ↦ let o = l.owned t p m in cc (o.3, i o.0.seq)
    | inr m ↦ m
  ]

  -- A timer whose address is not active can be written, and put into both sets.
  pub insert-Linked :
      (p : ℕ) (tm : Timer)
      → Inactive p active
      → p < max_ptr
      → Linked (store p tm h) (insert (tm.expir, p) timers) (insert (p, tm.seq) active)
  insert-Linked p tm i small = record {
    owned = own;
    known = know;
    same_size = omega (
      arith,
      length-insert (tm.expir, p) timers l.timers_sorted (Linked-not_timer p tm.expir i),
      length-insert (p, tm.seq) active l.active_sorted (i tm.seq),
      l.same_size,
    );
    timers_sorted = insert-IsSorted (tm.expir, p) timers l.timers_sorted;
    active_sorted = insert-IsSorted (p, tm.seq) active l.active_sorted;
  }
    where
      own :
          (t q : ℕ)
          → member (t, q) (insert (tm.expir, p) timers) ≡ true
          → Owned (store p tm h) (insert (p, tm.seq) active) t q
      own t q m = elim (Bool-cases (p == q)) [
        | inl e ↦ (
          tm,
          ground (arith, deref-store p tm h q),
          ground (arith, member-insert (tm.expir, p) (t, q) timers, Linked-not_timer p t i),
          ground (arith, member-insert (p, tm.seq) (q, tm.seq) active),
          ground arith,
        )
        | inr e ↦
            let o = l.owned t q (ground (arith, member-insert (tm.expir, p) (t, q) timers)) in
            (
              o.0,
              ground (arith, deref-store p tm h q, o),
              o.2,
              ground (arith, member-insert (p, tm.seq) (q, o.0.seq) active, o),
              o.4,
            )
      ]

      know :
          (q s : ℕ)
          → member (q, s) (insert (p, tm.seq) active) ≡ true
          → Known (store p tm h) (insert (tm.expir, p) timers) q s
      know q s m = elim (Bool-cases (p == q)) [
        | inl e ↦ (
          tm,
          ground (arith, deref-store p tm h q),
          ground (arith, member-insert (p, tm.seq) (q, s) active, i s),
          ground (arith, member-insert (tm.expir, p) (tm.expir, q) timers),
        )
        | inr e ↦
            let k = l.known q s (ground (arith, member-insert (p, tm.seq) (q, s) active)) in
            (
              k.0,
              ground (arith, deref-store p tm h q, k),
              k.2,
              ground (arith, member-insert (tm.expir, p) (k.0.expir, q) timers, k),
            )
      ]

  -- An active timer can be taken out of both sets.
  pub erase-Linked :
      (p : ℕ) (tm : Timer)
      → deref p h ≡ some tm
      → member (p, tm.seq) active ≡ true
      → Linked h (erase (tm.expir, p) timers) (erase (p, tm.seq) active)
        × Inactive p (erase (p, tm.seq) active)
  erase-Linked p tm d a = (
    record {
      owned = own;
      known = know;
      same_size = omega (
        arith,
        length-erase (tm.expir, p) timers there,
        length-erase (p, tm.seq) active a,
        l.same_size,
      );
      timers_sorted = erase-IsSorted (tm.expir, p) timers l.timers_sorted;
      active_sorted = erase-IsSorted (p, tm.seq) active l.active_sorted;
    },
    gone,
  )
    where
      there : member (tm.expir, p) timers ≡ true
      there = let k = l.known p tm.seq a in ground (arith, k, d)

      own :
          (t q : ℕ)
          → member (t, q) (erase (tm.expir, p) timers) ≡ true
          → Owned h (erase (p, tm.seq) active) t q
      own t q m =
          let o =
            l.owned t q
              (ground (arith, member-erase (tm.expir, p) (t, q) timers l.timers_sorted)) in
          (
            o.0,
            o.1,
            o.2,
            ground (
              arith,
              d,
              o,
              member-erase (p, tm.seq) (q, o.0.seq) active l.active_sorted,
              member-erase (tm.expir, p) (t, q) timers l.timers_sorted,
            ),
            o.4,
          )

      know :
          (q s : ℕ)
          → member (q, s) (erase (p, tm.seq) active) ≡ true
          → Known h (erase (tm.expir, p) timers) q s
      know q s m =
          let k =
            l.known q s (ground (arith, member-erase (p, tm.seq) (q, s) active l.active_sorted)) in
          (
            k.0,
            k.1,
            k.2,
            ground (
              arith,
              d,
              k,
              member-erase (p, tm.seq) (q, s) active l.active_sorted,
              member-erase (tm.expir, p) (k.0.expir, q) timers l.timers_sorted,
            ),
          )

      gone : Inactive p (erase (p, tm.seq) active)
      gone s = elim (Bool-cases (member (p, s) active)) [
        | inl m ↦
            let k = l.known p s m in
            ground (arith, d, k, member-erase (p, tm.seq) (p, s) active l.active_sorted)
        | inr m ↦ ground (arith, member-erase (p, tm.seq) (p, s) active l.active_sorted)
      ]

  -- A timer that is not active can be deleted.
  pub free-Linked : (p : ℕ) → Inactive p active → Linked (free p h) timers active
  free-Linked p i = record {
    owned = own;
    known = know;
    same_size = l.same_size;
    timers_sorted = l.timers_sorted;
    active_sorted = l.active_sorted;
  }
    where
      own : (t q : ℕ) → member (t, q) timers ≡ true → Owned (free p h) active t q
      own t q m =
          let o = l.owned t q m in
          (o.0, ground (arith, o, deref-free p h q, i o.0.seq), o.2, o.3, o.4)

      know : (q s : ℕ) → member (q, s) active ≡ true → Known (free p h) timers q s
      know q s m =
          let k = l.known q s m in (k.0, ground (arith, k, deref-free p h q, i s), k.2, k.3)
