-- ===== src/EventLoopThreadPool.antt =====
-- chtho/net/EventLoopThreadPool.cpp: how connections are spread over the loops.
pub mod RoundRobin
pub mod Ready
mod Tests
use chtho.Prelude.{
  ℕ, zero, suc, ◌+◌, ◌-◌, ◌*◌, ◌%◌, ◌<◌, ◌≡◌, refl, sym, ap, ◌∙◌, Bool, true, false, List, [], ◌∷◌,
  Option, none, some, Result, ok, fail, Fault, ◌>>=◌, ◌>>◌, guard, ltb, leb, ◌==◌, if◌then◌else◌,
  length, get_elem?, arith, get_elem?-some, Bool-cases, inl, inr, ◌⊎◌,
}

-- Loops are known by their addresses.
pub record Pool : Type 0 where
  pub base : ℕ
  pub started : Bool
  pub num_threads : ℕ
  pub nxt : ℕ
  pub loops : List ℕ

pub make : ℕ → ℕ → Pool
make base n = record { base = base; started = false; num_threads = n; nxt = 0; loops = [] }

-- `started` are the loops that the new threads return, one for each thread.
pub start : Pool → List ℕ → Result Pool
start w new = do
  guard (if w.started then false else true)
  ok (record w { started = true; loops = new })

abbrev pub at : List ℕ → ℕ → Result ℕ
at xs i = elim (get_elem? xs i) [ none ↦ fail Fault.out_of_bounds | some x ↦ ok x ]

unfoldable pub get_next_loop : Pool → Result (ℕ × Pool)
get_next_loop w = do
  guard w.started
  if ltb 0 (length w.loops)
      then (do
        loop ← at w.loops w.nxt
        ok (loop, record w { nxt = if leb (length w.loops) (w.nxt + 1) then 0 else w.nxt + 1 }))
      else ok (w.base, w)

pub get_loop_for_hash : Pool → ℕ → Result ℕ
get_loop_for_hash w hash =
    if ltb 0 (length w.loops) then at w.loops (hash % w.num_threads) else ok w.base

get_all_loops : Pool → Result (List ℕ)
get_all_loops w = do guard w.started; ok (if length w.loops == 0 then w.base ∷ [] else w.loops)
