-- ===== src/TcpServer/Tests.antt =====
-- A server with one thread accepts a connection, which is established and closed.
use chtho.Prelude.{ℕ, ◌≡◌, refl, List, [], ◌∷◌, ok, fail, true, arith}
use chtho.EventLoopThreadPool.{Pool, get_next_loop}
use chtho.TcpConnection.{conn_established}
use chtho.TcpServer.{
  Server, Event, accepted, ran, make, apply, new_conn, run_func, establish_conn, take_first,
}
use chtho.TcpServer.Stages.{IsSound}
use chtho.TcpServer.Life.{Allowed, here, next, Runs-IsSound}

abbrev number : ℕ → List ℕ
number n = n ∷ []

-- The main loop is 0, and the thread has the loop 5.
abbrev one_thread : Pool
one_thread = record { base = 0; started = true; num_threads = 1; nxt = 0; loops = 5 ∷ [] }

abbrev begun : Server
begun = make (115 ∷ []) one_thread

-- The state after an event.
abbrev after : Server → Event → Server
after s e = elim (apply number ok s e) [ ok s' ↦ s' | fail f ↦ s ]

abbrev with_one : Server
with_one = after begun accepted

accepts : apply number ok begun accepted ≡ ok with_one
unfolding apply new_conn get_next_loop
accepts = refl

establishes : apply number ok with_one (ran 5) ≡ ok (after with_one (ran 5))
unfolding apply new_conn get_next_loop take_first run_func establish_conn conn_established
establishes = refl

Runs-IsSound_example :
    IsSound number (after with_one (ran 5))
    × ((e : Event)
        → Allowed (after with_one (ran 5)) e
        → (s' : Server) × (apply number ok (after with_one (ran 5)) e ≡ ok s'))
Runs-IsSound_example =
    Runs-IsSound number (λ a b in_a in_b e. cc) ok (λ c up. (c, refl, ground (arith, up)))
      (115 ∷ []) one_thread (after with_one (ran 5)) (refl, λ h. omega arith)
      (next with_one _ (ran 5) (next begun _ accepted here (omega arith) accepts) tt establishes)
