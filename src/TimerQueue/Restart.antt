-- ===== src/TimerQueue/Restart.antt =====
-- `reset`: which expired timers come back, and when.
use chtho.Prelude.{
  ℕ, ◌+◌, ◌≡◌, ◌≢◌, refl, sym, ◌∙◌, subst, Bool, true, false, not, ◌&&◌, List, [], ◌∷◌, none, some,
  ok, arith, Bool-cases, inl, inr, if◌then◌else◌,
}
use chtho.OrderedSet.{Pair, member, member-insert}
use chtho.TimerQueue.{
  Timer, TimerQueue, deref, store, free, restart, insert_timer, reset_one, reset_all,
}
use chtho.TimerQueue.Linked.{Linked, deref-store, deref-free}
use chtho.TimerQueue.Expired.{NotIn}
use chtho.TimerQueue.Serve.{Serving, reset_one-Serving, reset_all-Serving}

-- What becomes of the timer `tm` at `p`: put back for its next time, or deleted.
abbrev pub Restarted : TimerQueue → ℕ → Timer → ℕ → Bool → Type 0
Restarted q p tm now true =
    (deref p q.heap ≡ some (restart tm now))
    × (member (now + tm.interval.micros, p) q.timers ≡ true)
    × (member (p, tm.seq) q.active ≡ true)
Restarted q p tm now false = deref p q.heap ≡ none

-- Whether it repeats and no callback cancelled it.
abbrev comes_back : TimerQueue → ℕ → Timer → Bool
comes_back q p tm = tm.repeat && not (member (p, tm.seq) q.cancels)

-- The address `j` looks the same in both.
record SameAt (j : ℕ) (q q' : TimerQueue) : Type 0 where
  heap_same : deref j q'.heap ≡ deref j q.heap
  cancels_same : q'.cancels ≡ q.cancels
  timers_same : (t : ℕ) → member (t, j) q'.timers ≡ member (t, j) q.timers
  active_same : (s : ℕ) → member (j, s) q'.active ≡ member (j, s) q.active

after_one : TimerQueue → ℕ → Timer → ℕ → TimerQueue
after_one q p tm now =
    if comes_back q p tm
    then (insert_timer (record q { heap = store p (restart tm now) q.heap }) p (restart tm now)).1
    else record q { heap = free p q.heap }

reset_one-after_one :
    (q : TimerQueue) (p now : ℕ) (tm : Timer)
    → deref p q.heap ≡ some tm
    → reset_one q p now ≡ ok (after_one q p tm now)
unfolding reset_one after_one
reset_one-after_one q p now tm d = ground (arith, d)

after_one-SameAt :
    (q : TimerQueue) (p now j : ℕ) (tm : Timer) → j ≢ p → SameAt j q (after_one q p tm now)
unfolding after_one insert_timer restart
after_one-SameAt q p now j tm ne = elim (Bool-cases (comes_back q p tm)) [
  | inl e ↦ rw e (record {
    heap_same = ground (arith, deref-store p (restart tm now) q.heap j);
    cancels_same = refl;
    timers_same = λ t. ground (arith, member-insert ((restart tm now).expir, p) (t, j) q.timers);
    active_same = λ s. ground (arith, member-insert (p, tm.seq) (j, s) q.active);
  })
  | inr e ↦ rw e (record {
    heap_same = ground (arith, deref-free p q.heap j);
    cancels_same = refl;
    timers_same = λ t. refl;
    active_same = λ s. refl;
  })
]

after_one-Restarted :
    (q : TimerQueue) (p now : ℕ) (tm : Timer)
    → Restarted (after_one q p tm now) p tm now (comes_back q p tm)
unfolding after_one insert_timer restart
after_one-Restarted q p now tm = elim (Bool-cases (comes_back q p tm)) [
  | inl e ↦ rw e (
    ground (arith, deref-store p (restart tm now) q.heap p),
    ground (
      arith,
      e,
      member-insert ((restart tm now).expir, p) (now + tm.interval.micros, p) q.timers,
    ),
    ground (arith, member-insert (p, tm.seq) (p, tm.seq) q.active),
  )
  | inr e ↦ rw e (ground (arith, deref-free p q.heap p))
]

-- What `reset` makes of each expired timer.
abbrev pub Settled : TimerQueue → TimerQueue → ℕ → List Pair → Type 0
Settled q q' now [] = Unit {0}
Settled q q' now ((t, p) ∷ es) =
    ((tm : Timer) → deref p q.heap ≡ some tm → Restarted q' p tm now (comes_back q p tm))
    × Settled q q' now es

SameAt-trans : (j : ℕ) (q₁ q₂ q₃ : TimerQueue) → SameAt j q₁ q₂ → SameAt j q₂ q₃ → SameAt j q₁ q₃
SameAt-trans j q₁ q₂ q₃ a b = record {
  heap_same = b.heap_same ∙ a.heap_same;
  cancels_same = b.cancels_same ∙ a.cancels_same;
  timers_same = λ t. b.timers_same t ∙ a.timers_same t;
  active_same = λ s. b.active_same s ∙ a.active_same s;
}

Restarted-SameAt :
    (q q' : TimerQueue) (p : ℕ) (tm : Timer) (now : ℕ) (b : Bool)
    → SameAt p q q'
    → Restarted q p tm now b
    → Restarted q' p tm now b
Restarted-SameAt q q' p tm now true s (a, b, c) =
    (s.heap_same ∙ a, s.timers_same _ ∙ b, s.active_same _ ∙ c)
Restarted-SameAt q q' p tm now false s a = s.heap_same ∙ a

Settled-after_one :
    (q q' : TimerQueue) (p now : ℕ) (tm : Timer) (es : List Pair)
    → NotIn p es
    → Settled (after_one q p tm now) q' now es
    → Settled q q' now es
Settled-after_one q q' p now tm [] n s = tt
Settled-after_one q q' p now tm ((t, j) ∷ es) n s = (
  (λ u d.
      let same = after_one-SameAt q p now j tm (λ e. n.0 (sym e)) in
      subst (λ (c : List Pair). Restarted q' j u now (u.repeat && not (member (j, u.seq) c)))
        same.cancels_same (s.0 u (same.heap_same ∙ d))),
  Settled-after_one q q' p now tm es n.1 s.1,
)

module _ (now : ℕ) where
  reset_all-Settled :
      (es : List Pair) (q : TimerQueue)
      → Serving es q
      → (q' : TimerQueue) × (reset_all q es now ≡ ok q')
        × Settled q q' now es
        × ((j : ℕ) → NotIn j es → SameAt j q q')
  unfolding reset_all
  reset_all-Settled [] q v = (
    q,
    refl,
    tt,
    λ j n. record {
      heap_same = refl;
      cancels_same = refl;
      timers_same = λ t. refl;
      active_same = λ s. refl;
    },
  )
  reset_all-Settled ((t, p) ∷ es) q v =
      let ((tm, d), _, _, out, _) = v.pending in
      let (q₁, r₁, v₁) = reset_one-Serving t p es q now v in
      let same : q₁ ≡ after_one q p tm now = ground (arith, r₁, reset_one-after_one q p now tm d) in
      let (q', r, s, frame) =
        reset_all-Settled es (after_one q p tm now) (subst (Serving es) same v₁) in
      (
        q',
        rw (reset_one-after_one q p now tm d) r,
        (
          (λ u d'.
              let e : tm ≡ u = cc in
              subst (λ w. Restarted q' p w now (comes_back q p w)) e
                (Restarted-SameAt (after_one q p tm now) q' p tm now (comes_back q p tm)
                  (frame p out) (after_one-Restarted q p now tm))),
          Settled-after_one q q' p now tm es out s,
        ),
        λ j n.
            SameAt-trans j q (after_one q p tm now) q' (after_one-SameAt q p now j tm (λ e. n.0 e))
              (frame j n.1),
      )

-- After the callbacks have run, with the sets and the heap in step and each expired timer alive,
-- not active and at an address of its own, the loop of `reset` fails in nothing. Each expired
-- timer that repeats and was not cancelled is active again and due its interval after `now`; every
-- other one is deleted.
pub reset_all-restarts :
    (now : ℕ) (expired : List Pair) (q : TimerQueue)
    → Serving expired q
    → (q' : TimerQueue) × (reset_all q expired now ≡ ok q')
      × Linked q'.heap q'.timers q'.active
      × Settled q q' now expired
reset_all-restarts now expired q v =
    let (q', r, s, _) = reset_all-Settled now expired q v in
    let (q'', r', v') = reset_all-Serving expired q now v in
    let e : q'' ≡ q' = cc in
    (q', r, subst (λ (w : TimerQueue). Linked w.heap w.timers w.active) e v'.linked, s)
