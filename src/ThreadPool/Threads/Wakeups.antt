-- ===== src/ThreadPool/Threads/Wakeups.antt =====
-- No wakeup of the threads and the callers is lost, and a pool that was stopped comes to its end.
use chtho.Prelude.{
  ℕ, zero, suc, ◌+◌, ◌-◌, ◌*◌, ◌<◌, ◌≤◌, ◌≡◌, ◌⊎◌, refl, ap, ◌∙◌, true, false, List, [], ◌∷◌, ltb,
  length, length-append, arith, Bool-cases, inl, inr,
}
use chtho.ThreadPool.{
  Pool, make, start, stop, run, queued, waits, gives_up, take, sleeps, nothing, first,
}
use chtho.ThreadPool.Threads.{
  Crew, begin, after_take, Step, Reach, calls, runs, blocks, gives_way, stops, takes, finds_nothing,
  falls_asleep, wakes, caller_wakes, tests, here, next,
}

-- No thread sleeps while tasks wait that the threads that are awake will not take, and no caller
-- waits while there is room that the callers that are awake will not fill.
record IsSound (max n : ℕ) (s : Crew) : Type 0 where
  all : s.awake + s.asleep + s.busy + s.ended ≡ n
  served : 0 < s.asleep → length s.pool.queue ≤ s.awake
  filled : 0 < s.blocked → s.pool.max_queue_sz ≤ length s.pool.queue + s.offering
  woken : s.pool.running ≡ false → (s.asleep ≡ 0) × (s.blocked ≡ 0)
  kept_on : s.pool.running ≡ true → s.ended ≡ 0
  unbounded : s.pool.max_queue_sz ≡ 0 → s.blocked ≡ 0
  bound : s.pool.max_queue_sz ≡ max

-- What `run` and `take` do to the pool.
run-queued :
    (w p : Pool) (task : ℕ)
    → run w task ≡ queued p
    → (length p.queue ≡ length w.queue + 1)
      × (p.running ≡ true)
      × (w.running ≡ true)
      × (p.max_queue_sz ≡ w.max_queue_sz)
unfolding run
run-queued w p task e = ground (arith, e, length-append w.queue (task ∷ []))

run-waits :
    (w : Pool) (task : ℕ)
    → run w task ≡ waits
    → (w.max_queue_sz ≤ length w.queue) × (0 < w.max_queue_sz) × (w.running ≡ true)
unfolding run
run-waits w task e = ground (arith, e)

run-gives_up : (w : Pool) (task : ℕ) → run w task ≡ gives_up → w.running ≡ false
unfolding run
run-gives_up w task e = ground (arith, e)

take-first :
    (w p : Pool) (task : ℕ)
    → take w ≡ first task p
    → (length w.queue ≡ length p.queue + 1)
      × (p.running ≡ w.running)
      × (p.max_queue_sz ≡ w.max_queue_sz)
unfolding take
take-first w p task e = go w.queue refl
  where
    go :
        (q : List ℕ)
        → w.queue ≡ q
        → (length w.queue ≡ length p.queue + 1)
          × (p.running ≡ w.running)
          × (p.max_queue_sz ≡ w.max_queue_sz)
    go [] h = ground (arith, e, h)
    go (t ∷ ts) h = ground (arith, e, h)

take-sleeps : (w : Pool) → take w ≡ sleeps → (length w.queue ≡ 0) × (w.running ≡ true)
unfolding take
take-sleeps w e = go w.queue refl
  where
    go : (q : List ℕ) → w.queue ≡ q → (length w.queue ≡ 0) × (w.running ≡ true)
    go [] h = ground (arith, e, h)
    go (t ∷ ts) h = ground (arith, e, h)

take-nothing : (w : Pool) → take w ≡ nothing → length w.queue ≡ 0
unfolding take
take-nothing w e = go w.queue refl
  where
    go : (q : List ℕ) → w.queue ≡ q → length w.queue ≡ 0
    go [] h = ground (arith, h)
    go (t ∷ ts) h = ground (arith, e, h)

Step-IsSound : (max n : ℕ) (s s' : Crew) → Step s s' → IsSound max n s → IsSound max n s'
unfolding stop
Step-IsSound max n s s' (calls h) v = ground (arith, h, v)
Step-IsSound max n s s' (runs task p any e h) v =
    ground (arith, any, h, v, run-queued s.pool p task e)
Step-IsSound max n s s' (blocks task any e h) v = ground (arith, any, h, v, run-waits s.pool task e)
Step-IsSound max n s s' (gives_way task any e h) v =
    ground (arith, any, h, v, run-gives_up s.pool task e)
Step-IsSound max n s s' (caller_wakes any h) v = ground (arith, any, h, v)
Step-IsSound max n s s' (stops h) v = ground (arith, h, v)
Step-IsSound max n s s' (takes task p any e h) v =
    ground (arith, any, h, v, take-first s.pool p task e)
Step-IsSound max n s s' (finds_nothing any e h) v = ground (arith, any, h, v, take-nothing s.pool e)
Step-IsSound max n s s' (falls_asleep any e h) v = ground (arith, any, h, v, take-sleeps s.pool e)
Step-IsSound max n s s' (wakes any h) v = ground (arith, any, h, v)
Step-IsSound max n s s' (tests any h) v = ground (arith, any, h, v)

begin-IsSound : (max n : ℕ) → IsSound max n (begin max n)
unfolding start make
begin-IsSound max n = ground arith

Reach-IsSound : (max n : ℕ) (s s' : Crew) → IsSound max n s → Reach s s' → IsSound max n s'
Reach-IsSound max n s _ v here = v
Reach-IsSound max n s s' v (next s₁ _ r d) =
    Step-IsSound max n s₁ s' d (Reach-IsSound max n s s₁ v r)

-- A thread that looks at the queue of a pool that was stopped does not sleep.
take_stopped :
    (w : Pool)
    → w.running ≡ false
    → (take w ≡ nothing) ⊎ ((task : ℕ) × (p : Pool) × (take w ≡ first task p) × (p.running ≡ false))
unfolding take
take_stopped w stopped = go w.queue refl
  where
    go :
        (q : List ℕ)
        → w.queue ≡ q
        → (take w ≡ nothing)
          ⊎ ((task : ℕ) × (p : Pool) × (take w ≡ first task p) × (p.running ≡ false))
    go [] h = inl (rw (h, stopped) refl)
    go (t ∷ ts) h = inr (t, record w { queue = ts }, rw h refl, stopped)

after_take_threads :
    (s : Crew)
    → ((after_take s).pool ≡ s.pool)
      × ((after_take s).awake ≡ s.awake)
      × ((after_take s).busy ≡ s.busy)
after_take_threads s = elim (Bool-cases (ltb 0 s.pool.max_queue_sz)) [
  | inl h ↦ (rw h refl, rw h refl, rw h refl)
  | inr h ↦ (rw h refl, rw h refl, rw h refl)
]

-- The threads can go on until all have ended.
abbrev pub Ends : ℕ → Crew → Type 0
Ends n s = (s' : Crew) × Reach s s' × (s'.ended ≡ n)

module _ (max n : ℕ) (s : Crew) where
  abbrev Later : Crew → Type 0
  Later s₁ = Reach s s₁ × IsSound max n s₁ × (s₁.pool.running ≡ false)

  later : (s₁ s₂ : Crew) → Later s₁ → s₂.pool.running ≡ false → Step s₁ s₂ → Later s₂
  later s₁ s₂ (r, v, stopped) still d = (next s₁ s₂ r d, Step-IsSound max n s₁ s₂ d v, still)

  end_all : (m : ℕ) (s₁ : Crew) → Later s₁ → 2 * s₁.awake + s₁.busy ≤ m → Ends n s
  end_all zero s₁ (r, v, stopped) few = (s₁, r, ground (arith, few, v, stopped))
  end_all (suc m) s₁ l few = elim (Bool-cases (ltb 0 s₁.awake)) [
    | inl h ↦ elim (take_stopped s₁.pool l.2) [
      | inl e ↦
          let s₂ = record s₁ { awake = s₁.awake - 1; busy = s₁.busy + 1 } in
          end_all m s₂ (later s₁ s₂ l l.2 (finds_nothing (ground (arith, h)) e refl))
            (ground (arith, h, few))
      | inr (task, p, e, still) ↦
          let s₂ = record s₁ { pool = p; awake = s₁.awake - 1; busy = s₁.busy + 1 } in
          let (same, awake, busy) = after_take_threads s₂ in
          end_all m (after_take s₂)
            (later s₁ (after_take s₂) l (ap (λ w. w.running) same ∙ still)
              (takes task p (ground (arith, h)) e refl))
            (ground (arith, h, few, awake, busy))
    ]
    | inr h ↦ elim (Bool-cases (ltb 0 s₁.busy)) [
      | inl k ↦
          let s₂ = record s₁ { busy = s₁.busy - 1; ended = s₁.ended + 1 } in
          end_all m s₂ (later s₁ s₂ l l.2 (tests (ground (arith, k)) (rw l.2 refl)))
            (ground (arith, k, few))
      | inr k ↦ (s₁, l.0, ground (arith, h, k, l.1, l.2))
    ]
  ]

-- Of a pool that was started with `n` threads and a bound of the queue, 0 for none, whatever its
-- callers and threads have done since, and whatever threads woke up for no reason: no thread sleeps
-- while more tasks wait than there are threads about to look at the queue; no caller waits for room
-- unless the queue with the callers about to look at it reaches the bound; while the pool runs no thread
-- has ended; and once it was stopped no thread sleeps and no caller waits, and the threads can go on
-- until all `n` have ended, as `stop` waits for.
pub Reach-Ends :
    (max n : ℕ) (s : Crew)
    → Reach (begin max n) s
    → (0 < s.asleep → length s.pool.queue ≤ s.awake)
      × (0 < s.blocked → max ≤ length s.pool.queue + s.offering)
      × (s.pool.running ≡ true → s.ended ≡ 0)
      × (s.pool.running ≡ false → (s.asleep ≡ 0) × (s.blocked ≡ 0) × Ends n s)
Reach-Ends max n s r =
    let v = Reach-IsSound max n (begin max n) s (begin-IsSound max n) r in
    (
      v.served,
      λ h. omega (arith, v.filled h, v.bound),
      v.kept_on,
      λ stopped.
          let (asleep, blocked) = v.woken stopped in
          (
            asleep,
            blocked,
            end_all max n s (2 * s.awake + s.busy) s (here, v, stopped) (omega arith),
          ),
    )
