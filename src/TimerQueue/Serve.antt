-- ===== src/TimerQueue/Serve.antt =====
-- The calls on `TimerQueue` that change it, while expired timers wait to be run and reset.
use chtho.Prelude.{
  ℕ, ◌+◌, ◌<◌, ◌≡◌, refl, true, false, not, ◌&&◌, List, [], ◌∷◌, Option, none, some, ok, arith,
  Bool-cases, Option-cases, inl, inr, ◌==◌, ltb, if◌then◌else◌,
}
use chtho.OrderedSet.{Pair, member, insert, erase, before, from, member-erase, member-insert}
use chtho.TimerQueue.{
  Timer, Heap, TimerQueue, Interval, Action, add, cancel, Allocator, Outcome, done, bad_alloc,
  fault, deref, store, free, load, max_ptr, restart, make_timer, insert_timer, add_timer_in_loop,
  rm_timer_in_loop, reset_one, reset_all, rearm, reset, add_timer, act, act_all, run_all,
  handle_read, lift, then_do,
}
use chtho.TimerQueue.Linked.{
  Linked, Owned, erase-Linked, insert-Linked, free-Linked, Linked-free_address, deref-store,
  deref-free,
}
use chtho.TimerQueue.Expired.{Pending, NotIn, get_expired-Linked}

-- The sets and the heap are in step, and these expired timers wait.
pub record Serving (expired : List Pair) (q : TimerQueue) : Type 0 where
  pub linked : Linked q.heap q.timers q.active
  pub pending : Pending q.heap q.active expired

Pending-NotIn :
    (p : ℕ) (h : Heap) (active es : List Pair) → deref p h ≡ none → Pending h active es → NotIn p es
Pending-NotIn p h active [] e w = tt
Pending-NotIn p h active ((t, q) ∷ es) e ((tm, d), i, s, n, w) =
    (ground (arith, e, d), Pending-NotIn p h active es e w)

Pending-active :
    (p s : ℕ) (h : Heap) (active es : List Pair)
    → member (p, s) active ≡ true
    → Pending h active es
    → NotIn p es
Pending-active p s h active [] m w = tt
Pending-active p s h active ((t, q) ∷ es) m (_, i, _, n, w) =
    (ground (arith, i s), Pending-active p s h active es m w)

Pending-store :
    (p : ℕ) (tm : Timer) (h : Heap) (active es : List Pair)
    → NotIn p es
    → Pending h active es
    → Pending (store p tm h) (insert (p, tm.seq) active) es
Pending-store p tm h active [] out w = tt
Pending-store p tm h active ((t, q) ∷ es) out ((u, d), i, s, n, w) = (
  (u, ground (arith, out, d, deref-store p tm h q)),
  (λ k. ground (arith, out, i k, member-insert (p, tm.seq) (q, k) active)),
  s,
  n,
  Pending-store p tm h active es out.1 w,
)

Pending-free :
    (p : ℕ) (h : Heap) (active es : List Pair)
    → NotIn p es
    → Pending h active es
    → Pending (free p h) active es
Pending-free p h active [] out w = tt
Pending-free p h active ((t, q) ∷ es) out ((u, d), i, s, n, w) =
    ((u, ground (arith, out, d, deref-free p h q)), i, s, n, Pending-free p h active es out.1 w)

Pending-erase :
    (x : Pair) (h : Heap) (active es : List Pair)
    → ((y : Pair) → member y active ≡ false → member y (erase x active) ≡ false)
    → Pending h active es
    → Pending h (erase x active) es
Pending-erase x h active [] less w = tt
Pending-erase x h active ((t, q) ∷ es) less (u, i, s, n, w) =
    (u, (λ k. less (q, k) (i k)), s, n, Pending-erase x h active es less w)

-- A timer at a new address.
add_timer_in_loop-Serving :
    (es : List Pair) (q : TimerQueue) (p : ℕ) (tm : Timer) (created : ℕ)
    → deref p q.heap ≡ none
    → p < max_ptr
    → Serving es q
    → Serving es (add_timer_in_loop (record q { heap = store p tm q.heap; created = created }) p tm)
unfolding add_timer_in_loop
add_timer_in_loop-Serving es q p tm created e small v = ground (arith, l, w)
  where
    l : Linked (store p tm q.heap) (insert (tm.expir, p) q.timers) (insert (p, tm.seq) q.active)
    l =
        insert-Linked q.heap q.timers q.active v.linked p tm
          (Linked-free_address q.heap q.timers q.active v.linked p e) small

    w : Pending (store p tm q.heap) (insert (p, tm.seq) q.active) es
    w =
        Pending-store p tm q.heap q.active es (Pending-NotIn p q.heap q.active es e v.pending)
          v.pending

-- A call that fails no assertion and reads through no dangling pointer: it returns a queue that
-- satisfies `P`, or memory runs out.
abbrev pub Ends : (TimerQueue → Type 0) → Outcome → Type 0
Ends P (done q) = P q
Ends P bad_alloc = Unit {0}
Ends P (fault e) = ⊥

then_do-Ends :
    (P Q : TimerQueue → Type 0) (m : Outcome) (k : TimerQueue → Outcome)
    → Ends P m
    → ((q : TimerQueue) → P q → Ends Q (k q))
    → Ends Q (then_do m k)
then_do-Ends P Q (done q) k h f = f q h
then_do-Ends P Q bad_alloc k h f = tt
then_do-Ends P Q (fault e) k h f = absurd h

-- `rmTimerInLoop` of an active timer takes it from both sets and deletes it.
abbrev pub removed : TimerQueue → ℕ → Timer → TimerQueue
removed q p tm = record q {
  timers = erase (tm.expir, p) q.timers;
  active = erase (p, tm.seq) q.active;
  heap = free p q.heap;
}

rm_timer_active :
    (q : TimerQueue) (p : ℕ) (tm : Timer)
    → Linked q.heap q.timers q.active
    → deref p q.heap ≡ some tm
    → member (p, tm.seq) q.active ≡ true
    → (rm_timer_in_loop q p tm.seq ≡ ok (removed q p tm))
      × Linked (removed q p tm).heap (removed q p tm).timers (removed q p tm).active
unfolding rm_timer_in_loop
rm_timer_active q p tm l d m =
    let (l', gone) = erase-Linked q.heap q.timers q.active l p tm d m in
    let k = l.known p tm.seq m in
    (
      ground (arith, l.same_size, l'.same_size, k),
      free-Linked q.heap (erase (tm.expir, p) q.timers) (erase (p, tm.seq) q.active) l' p gone,
    )

-- Of one that is not active it takes note while expired timers are run, and does nothing otherwise.
rm_timer_inactive :
    (q : TimerQueue) (p s : ℕ)
    → Linked q.heap q.timers q.active
    → member (p, s) q.active ≡ false
    → rm_timer_in_loop q p s
      ≡ ok (if q.calling then record q { cancels = insert (p, s) q.cancels } else q)
unfolding rm_timer_in_loop
rm_timer_inactive q p s l m = ground (arith, l.same_size)

rm_timer-Serving :
    (es : List Pair) (q : TimerQueue) (p s : ℕ)
    → Serving es q
    → Ends (Serving es) (lift (rm_timer_in_loop q p s) done)
rm_timer-Serving es q p s v = elim (Bool-cases (member (p, s) q.active)) [
  | inl m ↦
      let (tm, d, e, _) = v.linked.known p s m in
      let m' : member (p, tm.seq) q.active ≡ true = rw e m in
      let (r, l) = rm_timer_active q p tm v.linked d m' in
      rw (← e) (
        rw (r, lift)
          (record {
            linked = l;
            pending =
                Pending-free p q.heap (erase (p, tm.seq) q.active) es
                  (Pending-active p s q.heap q.active es m v.pending)
                  (Pending-erase (p, tm.seq) q.heap q.active es
                    (λ y n.
                      ground (arith, n, member-erase (p, tm.seq) y q.active v.linked.active_sorted))
                    v.pending);
          }))
  | inr m ↦ rw (rm_timer_inactive q p s v.linked m) (ground arith)
]

Pending-alive :
    (t p : ℕ) (h : Heap) (active es : List Pair)
    → member (t, p) es ≡ true
    → Pending h active es
    → (tm : Timer) × (deref p h ≡ some tm)
unfolding member
Pending-alive t p h active [] m w = cc
Pending-alive t p h active ((u, q) ∷ es) m (alive, _, _, _, w) = elim (Bool-cases (q == p)) [
  | inl e ↦ (alive.0, ground (arith, alive.1))
  | inr e ↦ Pending-alive t p h active es (ground arith) w
]

-- The entries of the one list are among those of the other.
abbrev Within : List Pair → List Pair → Type 0
Within rs es = (e : Pair) → member e rs ≡ true → member e es ≡ true

Within-tail : (x : Pair) (rs es : List Pair) → Within (x ∷ rs) es → Within rs es
unfolding member
Within-tail (a, b) rs es w (c, d) m = w (c, d) (ground arith)

Within-head : (x : Pair) (rs es : List Pair) → Within (x ∷ rs) es → member x es ≡ true
unfolding member
Within-head (a, b) rs es w = w (a, b) (ground arith)

rearm_first :
    (q : TimerQueue) (ts : List Pair)
    → ((t p : ℕ) → member (t, p) ts ≡ true → Owned q.heap q.active t p)
    → (armed : Option ℕ) × (rearm q ts ≡ ok (record q { armed = armed }))
unfolding rearm member
rearm_first q [] f = (q.armed, refl)
rearm_first q ((t, p) ∷ rest) f =
    let (tm, d, _, _, _) = f t p (ground arith) in
    (if ltb 0 tm.expir then some tm.expir else q.armed, ground (arith, d))

-- One round of the loop of `reset`: a timer that repeats and is not cancelled is set to its next
-- time and put back, any other is deleted.
pub reset_one-Serving :
    (t p : ℕ) (es : List Pair) (q : TimerQueue) (now : ℕ)
    → Serving ((t, p) ∷ es) q
    → (q' : TimerQueue) × (reset_one q p now ≡ ok q') × Serving es q'
unfolding reset_one
reset_one-Serving t p es q now v =
    let ((tm, d), i, small, out, w) = v.pending in
    elim (Bool-cases (tm.repeat && not (member (p, tm.seq) q.cancels))) [
      | inl again ↦
          let tm' = restart tm now in
          (
            (insert_timer (record q { heap = store p tm' q.heap }) p tm').1,
            ground (arith, d),
            record {
              linked = insert-Linked q.heap q.timers q.active v.linked p tm' i small;
              pending = Pending-store p tm' q.heap q.active es out w;
            },
          )
      | inr never ↦ (
        record q { heap = free p q.heap },
        ground (arith, d),
        record {
          linked = free-Linked q.heap q.timers q.active v.linked p i;
          pending = Pending-free p q.heap q.active es out w;
        },
      )
    ]

pub reset_all-Serving :
    (es : List Pair) (q : TimerQueue) (now : ℕ)
    → Serving es q
    → (q' : TimerQueue) × (reset_all q es now ≡ ok q') × Serving [] q'
unfolding reset_all
reset_all-Serving [] q now v = (q, refl, v)
reset_all-Serving ((t, p) ∷ es) q now v =
    let (q₁, r₁, v₁) = reset_one-Serving t p es q now v in
    let (q₂, r₂, v₂) = reset_all-Serving es q₁ now v₁ in (q₂, rw r₁ r₂, v₂)

reset-Linked :
    (es : List Pair) (q : TimerQueue) (now : ℕ)
    → Serving es q
    → Ends (λ q'. Linked q'.heap q'.timers q'.active) (lift (reset q es now) done)
unfolding reset
reset-Linked es q now v =
    let (q₁, r, v₁) = reset_all-Serving es q now v in rw (r, reset, lift) (reset_rearm q₁ v₁)
  where
    reset_rearm :
        (q₁ : TimerQueue)
        → Serving [] q₁
        → Ends (λ q'. Linked q'.heap q'.timers q'.active) (lift (rearm q₁ q₁.timers) done)
    reset_rearm q₁ v₁ =
        let (armed, e) = rearm_first q₁ q₁.timers v₁.linked.owned in rw (e, lift) v₁.linked

load_alive : (p : ℕ) (tm : Timer) (h : Heap) → deref p h ≡ some tm → load p h ≡ ok tm
unfolding load
load_alive p tm h d = rw (d, load)

module _ (allocator : Allocator) (callback : ℕ → List Action) where
  add_timer-Serving :
      (es : List Pair) (q : TimerQueue) (cb t : ℕ) (i : Interval)
      → Serving es q
      → Ends (Serving es) (add_timer allocator callback q cb t i)
  unfolding add_timer
  add_timer-Serving es q cb t i v = elim (Option-cases (allocator.malloc q.heap)) [
    | inl e ↦ rw (e, add_timer) tt
    | inr (p, e) ↦
        rw (e, add_timer)
          (add_timer_in_loop-Serving es q p (make_timer cb t i q.created) (q.created + 1)
            (allocator.fresh q.heap p e) (allocator.below q.heap p e) v)
  ]

  act-Serving :
      (es : List Pair) (q : TimerQueue) (a : Action)
      → Serving es q
      → Ends (Serving es) (act allocator callback q a)
  unfolding act
  act-Serving es q (add cb t i) v = add_timer-Serving es q cb t i v
  act-Serving es q (cancel p s) v = rm_timer-Serving es q p s v

  act_all-Serving :
      (es : List Pair) (q : TimerQueue) (actions : List Action)
      → Serving es q
      → Ends (Serving es) (act_all allocator callback q actions)
  unfolding act_all
  act_all-Serving es q [] v = v
  act_all-Serving es q (a ∷ rest) v =
      then_do-Ends (Serving es) (Serving es) (act allocator callback q a)
        (λ q'. act_all allocator callback q' rest) (act-Serving es q a v)
        (λ q' v'. act_all-Serving es q' rest v')

  run_all-Serving :
      (es rs : List Pair) (q : TimerQueue)
      → Within rs es
      → Serving es q
      → Ends (Serving es) (run_all allocator callback q rs)
  unfolding run_all
  run_all-Serving es [] q w v = v
  run_all-Serving es ((t, p) ∷ rs) q w v =
      let (tm, d) = Pending-alive t p q.heap q.active es (Within-head (t, p) rs es w) v.pending in
      rw (load_alive p tm q.heap d, run_all, lift)
        (then_do-Ends (Serving es) (Serving es) (act_all allocator callback q (callback tm.cb))
          (λ q'. run_all allocator callback q' rs) (act_all-Serving es q (callback tm.cb) v)
          (λ q' v'. run_all-Serving es rs q' (Within-tail (t, p) rs es w) v'))

  -- With its sets and its heap in step, `handleRead` keeps them so, whatever the callbacks add and
  -- cancel: it fails no assertion and reads through no dangling pointer, and ends, or memory runs out.
  pub handle_read-Linked :
      (q : TimerQueue) (now : ℕ)
      → Linked q.heap q.timers q.active
      → Ends (λ q'. Linked q'.heap q'.timers q'.active) (handle_read allocator callback q now)
  unfolding handle_read
  handle_read-Linked q now l =
      let (active', r, l₁, w) = get_expired-Linked q now l in
      let es : List Pair = before (now, max_ptr) q.timers in
      let start : TimerQueue = record q {
        timers = from (now, max_ptr) q.timers;
        active = active';
        calling = true;
        cancels = [];
      } in
      rw (r, handle_read, lift)
        (then_do-Ends (Serving es) (λ q'. Linked q'.heap q'.timers q'.active)
          (run_all allocator callback start es)
          (λ q₂. lift (reset (record q₂ { calling = false }) es now) done)
          (run_all-Serving es es start (λ e m. m) (record { linked = l₁; pending = w }))
          (λ q₂ v.
            reset-Linked es (record q₂ { calling = false }) now
              (record { linked = v.linked; pending = v.pending })))
