-- ===== src/ThreadPool/Tests.antt =====
-- The theorems at a pool of one thread with room for two tasks, and at one with room for five.
use chtho.ThreadPool.Threads.{Crew, begin, loop_test, Reach, here, next, tests, falls_asleep}
use chtho.ThreadPool.Threads.Wakeups.{Ends, Reach-Ends}
use chtho.Prelude.{ℕ, ◌+◌, ◌<◌, ◌≤◌, ◌≡◌, refl, true, false, length, arith, List, [], ◌∷◌, ◌++◌}
use chtho.ThreadPool.{Pool, make, start, run, take}
use chtho.ThreadPool.Fifo.{Runs, done, ran, took, IsBounded, Runs-queue}

abbrev pool : List ℕ → Pool
pool q = record { queue = q; max_queue_sz = 2; running = true; threads = 1 }

sequence : Runs (pool []) (4 ∷ 5 ∷ []) (4 ∷ []) (pool (5 ∷ []))
unfolding run take
sequence = ran (pool []) (pool (4 ∷ [])) _ 4 (5 ∷ []) (4 ∷ []) refl (
    ran (pool (4 ∷ [])) (pool (4 ∷ 5 ∷ [])) _ 5 [] (4 ∷ []) refl
      (took (pool (4 ∷ 5 ∷ [])) (pool (5 ∷ [])) _ 4 [] [] refl (done (pool (5 ∷ [])))))

Runs-queue_example :
    ((pool []).queue ++ 4 ∷ 5 ∷ [] ≡ (4 ∷ []) ++ (pool (5 ∷ [])).queue)
    × (IsBounded (pool []) → IsBounded (pool (5 ∷ [])))
Runs-queue_example = Runs-queue (pool []) (pool (5 ∷ [])) (4 ∷ 5 ∷ []) (4 ∷ []) sequence

-- The one thread tests the loop and looks at the queue, where there is nothing.
abbrev waiting : Crew
waiting = record (begin 5 1) { busy = 0; asleep = 1 }

is_waiting : Reach (begin 5 1) waiting
unfolding start take make
is_waiting =
    next (loop_test (begin 5 1)) waiting (next (begin 5 1) _ here (tests (ground arith) refl))
      (falls_asleep (ground arith) refl refl)

Reach-Ends_example :
    (0 < waiting.asleep → length waiting.pool.queue ≤ waiting.awake)
    × (0 < waiting.blocked → 5 ≤ length waiting.pool.queue + waiting.offering)
    × (waiting.pool.running ≡ true → waiting.ended ≡ 0)
    × (waiting.pool.running ≡ false → (waiting.asleep ≡ 0) × (waiting.blocked ≡ 0) × Ends 1 waiting)
Reach-Ends_example = Reach-Ends 5 1 waiting is_waiting
