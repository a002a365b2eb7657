-- ===== src/EventLoopThreadPool/Ready.antt =====
-- `getNextLoop` of a pool that was started, with threads or without.
use chtho.Prelude.{
  ℕ, ◌+◌, ◌<◌, ◌≡◌, refl, true, ok, if◌then◌else◌, ltb, leb, length, get_elem?-some, arith,
  Bool-cases, inl, inr,
}
use chtho.EventLoopThreadPool.{Pool, get_next_loop}

-- `getNextLoop` can be called.
abbrev pub IsReady : Pool → Type 0
IsReady w = (w.started ≡ true) × (0 < length w.loops → w.nxt < length w.loops)

-- The call succeeds, and can be repeated.
pub get_next_loop-IsReady :
    (w : Pool)
    → IsReady w
    → (io : ℕ) × (w' : Pool) × (get_next_loop w ≡ ok (io, w')) × IsReady w' × (w'.base ≡ w.base)
unfolding get_next_loop
get_next_loop-IsReady w (started, range) = elim (Bool-cases (ltb 0 (length w.loops))) [
  | inl some_loops ↦
      let (x, g) = get_elem?-some w.loops w.nxt (range (ground arith)) in
      (
        x,
        record w { nxt = if leb (length w.loops) (w.nxt + 1) then 0 else w.nxt + 1 },
        ground (arith, g),
        (started, λ h. ground (arith, h)),
        refl,
      )
  | inr no_loop ↦ (w.base, w, ground arith, (started, range), refl)
]
