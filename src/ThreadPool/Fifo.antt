-- ===== src/ThreadPool/Fifo.antt =====
-- The tasks come out of the queue in the order in which they went in, and the queue keeps its bound.
use chtho.Prelude.{
  ℕ, ◌≤◌, ◌<◌, ◌≡◌, sym, ap, ◌∙◌, false, List, [], ◌∷◌, ◌++◌, length, length-append, append_assoc,
  append-nil, arith,
}
use chtho.ThreadPool.{Pool, is_full, queued, run, first, take, stop}

-- The calls that were not waiting, in the order in which they had the mutex, with the tasks that
-- went into the queue and those that came out.
pub data Runs : Pool → List ℕ → List ℕ → Pool → Type 0 where
  done : (w : Pool) → Runs w [] [] w
  ran :
      (w w₁ w₂ : Pool) (t : ℕ) (i o : List ℕ)
      → run w t ≡ queued w₁
      → Runs w₁ i o w₂
      → Runs w (t ∷ i) o w₂
  took :
      (w w₁ w₂ : Pool) (t : ℕ) (i o : List ℕ)
      → take w ≡ first t w₁
      → Runs w₁ i o w₂
      → Runs w i (t ∷ o) w₂
  stopped : (w w₂ : Pool) (i o : List ℕ) → Runs (stop w) i o w₂ → Runs w i o w₂

run-queue :
    (w w₁ : Pool) (t : ℕ)
    → run w t ≡ queued w₁
    → (w₁.queue ≡ w.queue ++ t ∷ []) × (w₁.max_queue_sz ≡ w.max_queue_sz) × (is_full w ≡ false)
unfolding run
run-queue w w₁ t e = (ground (arith, e), ground (arith, e), ground (arith, e))

take-queue :
    (w w₁ : Pool) (t : ℕ)
    → take w ≡ first t w₁
    → (w.queue ≡ t ∷ w₁.queue) × (w₁.max_queue_sz ≡ w.max_queue_sz)
unfolding take
take-queue w w₁ t e = (ground (arith, e), ground (arith, e))

-- Within the bound, where there is one.
abbrev pub IsBounded : Pool → Type 0
IsBounded w = 0 < w.max_queue_sz → length w.queue ≤ w.max_queue_sz

run-IsBounded : (w w₁ : Pool) (t : ℕ) → run w t ≡ queued w₁ → IsBounded w → IsBounded w₁
run-IsBounded w w₁ t e b h =
    let (q, m, f) = run-queue w w₁ t e in
    ground (arith, q, m, f, b, length-append w.queue (t ∷ []), h)

-- In every run of `run`, `take` and `stop` of the threads, the tasks taken out and those still in
-- the queue are those that were there and those put in, in order; and a queue within its bound
-- stays so.
pub Runs-queue :
    (w w' : Pool) (i o : List ℕ)
    → Runs w i o w'
    → (w.queue ++ i ≡ o ++ w'.queue) × (IsBounded w → IsBounded w')
unfolding stop
Runs-queue w w' i o (done _) = (append-nil w.queue, λ b. b)
Runs-queue w w' i o (ran _ w₁ _ t i' _ e r) =
    let (q, m, f) = run-queue w w₁ t e in
    let (s, b) = Runs-queue w₁ w' i' o r in
    (
      sym (append_assoc w.queue (t ∷ []) i') ∙ ap (λ xs. xs ++ i') (sym q) ∙ s,
      λ h. b (run-IsBounded w w₁ t e h),
    )
Runs-queue w w' i o (took _ w₁ _ t _ o' e r) =
    let (q, m) = take-queue w w₁ t e in
    let (s, b) = Runs-queue w₁ w' i o' r in
    (ap (λ xs. xs ++ i) q ∙ ap (λ xs. t ∷ xs) s, λ h. b (λ k. ground (arith, q, m, k, h)))
Runs-queue w w' i o (stopped _ _ _ _ r) = Runs-queue (stop w) w' i o r
