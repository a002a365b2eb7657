-- ===== src/EventLoopThreadPool/RoundRobin.antt =====
-- `getNextLoop` takes the loops in turn.
use native.Mathlib.Nat.{add-mod_left, mod-lt, mod-eq_of_lt}
use chtho.Prelude.{
  ℕ, zero, suc, ◌+◌, ◌%◌, ◌<◌, ◌≡◌, refl, sym, ap, ◌∙◌, List, [], ◌∷◌, true, some, Result, ok,
  ◌>>=◌, leb, if◌then◌else◌, length, get_elem?, ◌==◌, Option, get_elem?-some, arith, Bool-cases,
  inl, inr,
}
use chtho.EventLoopThreadPool.{Pool, get_next_loop, get_loop_for_hash}
use chtho.EventLoopThreadPool.Ready.{IsReady}

-- A pool that was started, with loops.
abbrev IsTurning : Pool → Type 0
IsTurning w = (w.started ≡ true) × (w.nxt < length w.loops)

-- The loops that as many calls return.
unfoldable pub next_loops : Pool → ℕ → Result (List ℕ)
next_loops w zero = ok []
next_loops w (suc n) = do (loop, w') ← get_next_loop w; rest ← next_loops w' n; ok (loop ∷ rest)

abbrev pub after : Pool → Pool
after w = record w { nxt = if leb (length w.loops) (w.nxt + 1) then 0 else w.nxt + 1 }

next_step :
    (w : Pool) (x : ℕ)
    → IsTurning w
    → get_elem? w.loops w.nxt ≡ some x
    → get_next_loop w ≡ ok (x, after w)
unfolding get_next_loop
next_step w x v g = ground (arith, v.0, v.1, g)

after-IsTurning : (w : Pool) → IsTurning w → IsTurning (after w)
after-IsTurning w v = (v.0, ground (arith, v.1))

after-index :
    (w : Pool) (i : ℕ)
    → IsTurning w
    → ((after w).nxt + i) % length w.loops ≡ (w.nxt + suc i) % length w.loops
after-index w i v = elim (Bool-cases (leb (length w.loops) (w.nxt + 1))) [
  | inl h ↦
      let wrapped : w.nxt + suc i ≡ length w.loops + i = ground (arith, h, v.1) in
      let reset : (after w).nxt + i ≡ i = ground (arith, h) in
      ap (λ k. k % length w.loops) reset
      ∙ sym (add-mod_left (length w.loops) i)
      ∙ sym (ap (λ k. k % length w.loops) wrapped)
  | inr h ↦
      let stepped : (after w).nxt + i ≡ w.nxt + suc i = ground (arith, h) in
      ap (λ k. k % length w.loops) stepped
]

-- A vector with loops is gone through in turn.
in_turn :
    (n : ℕ) (w : Pool)
    → IsTurning w
    → (xs : List ℕ) × (next_loops w n ≡ ok xs)
      × ((i : ℕ) → i < n → get_elem? xs i ≡ get_elem? w.loops ((w.nxt + i) % length w.loops))
unfolding next_loops
in_turn zero w v = ([], refl, λ i h. ground (arith, h))
in_turn (suc n) w v =
    let (x, g) = get_elem?-some w.loops w.nxt v.1 in
    let (xs, e, f) = in_turn n (after w) (after-IsTurning w v) in
    (x ∷ xs, rw (next_step w x v g, e) refl, at_index x xs g f)
  where
    at_index :
        (x : ℕ) (xs : List ℕ)
        → get_elem? w.loops w.nxt ≡ some x
        → ((i : ℕ)
            → i < n
            → get_elem? xs i ≡ get_elem? w.loops (((after w).nxt + i) % length w.loops))
        → (i : ℕ) → i < suc n
        → get_elem? (x ∷ xs) i ≡ get_elem? w.loops ((w.nxt + i) % length w.loops)
    at_index x xs g f zero h =
        let plain : w.nxt + 0 ≡ w.nxt = omega arith in
        let same : (w.nxt + 0) % length w.loops ≡ w.nxt =
          ap (λ k. k % length w.loops) plain ∙ mod-eq_of_lt v.1 in
        sym g ∙ sym (ap (get_elem? w.loops) same)
    at_index x xs g f (suc i) h =
        f i (omega (arith, h)) ∙ ap (get_elem? w.loops) (after-index w i v)

-- The loops in turn, or the base loop where there are no others.
abbrev pub turn : Pool → ℕ → Option ℕ
turn w i =
    if length w.loops == 0 then some w.base else get_elem? w.loops ((w.nxt + i) % length w.loops)

base_step : (w : Pool) → w.started ≡ true → length w.loops ≡ 0 → get_next_loop w ≡ ok (w.base, w)
unfolding get_next_loop
base_step w s e = ground (arith, s, e)

base_loops :
    (n : ℕ) (w : Pool)
    → w.started ≡ true
    → length w.loops ≡ 0
    → (xs : List ℕ) × (next_loops w n ≡ ok xs) × ((i : ℕ) → i < n → get_elem? xs i ≡ some w.base)
unfolding next_loops
base_loops zero w s e = ([], refl, λ i h. ground (arith, h))
base_loops (suc n) w s e =
    let (xs, d, f) = base_loops n w s e in
    (w.base ∷ xs, rw (base_step w s e, d) refl, at_index xs f)
  where
    at_index :
        (xs : List ℕ)
        → ((i : ℕ) → i < n → get_elem? xs i ≡ some w.base)
        → (i : ℕ) → i < suc n
        → get_elem? (w.base ∷ xs) i ≡ some w.base
    at_index xs f zero h = refl
    at_index xs f (suc i) h = f i (omega (arith, h))

-- From a pool that was started, whose next index is in the vector if that has loops, any number of
-- calls of `getNextLoop` succeeds, and the call `i` of them returns the loop at `i` places behind
-- the next one, around the end of the vector, or the base loop if the vector is empty.
pub next_loops-round_robin :
    (n : ℕ) (w : Pool)
    → IsReady w
    → (xs : List ℕ) × (next_loops w n ≡ ok xs) × ((i : ℕ) → i < n → get_elem? xs i ≡ turn w i)
next_loops-round_robin n w (s, range) = elim (Bool-cases (length w.loops == 0)) [
  | inl e ↦
      let (xs, d, f) = base_loops n w s (ground (arith, e)) in
      (xs, d, λ i h. f i h ∙ sym (rw e refl))
  | inr e ↦
      let (xs, d, f) = in_turn n w (s, range (ground (arith, e))) in
      (xs, d, λ i h. f i h ∙ sym (rw e refl))
]

-- With a loop for each thread, a hash selects the loop at the hash modulo their number, and no
-- access is outside the vector.
get_loop_for_hash-loops :
    (w : Pool) (hash : ℕ)
    → IsTurning w
    → w.num_threads ≡ length w.loops
    → (x : ℕ) × (get_elem? w.loops (hash % length w.loops) ≡ some x)
      × (get_loop_for_hash w hash ≡ ok x)
unfolding get_loop_for_hash
get_loop_for_hash-loops w hash v threads =
    let (x, g) =
      get_elem?-some w.loops (hash % length w.loops) (mod-lt hash (omega (arith, v.1))) in
    (x, g, rw threads (ground (arith, g, v.1)))
