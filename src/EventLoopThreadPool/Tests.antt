-- ===== src/EventLoopThreadPool/Tests.antt =====
-- The theorem on a pool with three loops, and on one without threads.
use chtho.Prelude.{ℕ, ◌<◌, ◌≡◌, refl, true, List, [], ◌∷◌, ok, get_elem?, arith}
use chtho.EventLoopThreadPool.{Pool, get_next_loop}
use chtho.EventLoopThreadPool.RoundRobin.{next_loops, turn, next_loops-round_robin}

abbrev three : Pool
three = record { base = 1; started = true; num_threads = 3; nxt = 2; loops = 10 ∷ 20 ∷ 30 ∷ [] }

abbrev without_threads : Pool
without_threads = record { base = 1; started = true; num_threads = 0; nxt = 0; loops = [] }

base_again : next_loops without_threads 2 ≡ ok (1 ∷ 1 ∷ [])
unfolding next_loops get_next_loop
base_again = refl

next_loops-round_robin_example :
    (xs : List ℕ) × (next_loops three 5 ≡ ok xs) × ((i : ℕ) → i < 5 → get_elem? xs i ≡ turn three i)
next_loops-round_robin_example = next_loops-round_robin 5 three (refl, λ h. omega arith)
