-- ===== src/EventLoop/Fifo.antt =====
-- The functions of the queue run once each, in the order in which they were queued.
use chtho.Prelude.{
  ℕ, ◌<◌, ◌≡◌, refl, sym, ap, ◌∙◌, true, false, List, [], ◌∷◌, ◌++◌, not, if◌then◌else◌, arith,
  append_assoc, append-nil,
}
use chtho.EventLoop.{
  Phase, Loop, wakeup, handle_read, queue_in_loop, queue_elsewhere, wakeup_elsewhere, quit,
  quit_elsewhere, poll_returns, swap_pending, run_func, end_turn, Step, other_queues, other_quits,
  other_wakes, own_queues, own_quits, polled, reads, swaps, runs, ends, queued_by, Reach, here,
  next,
}

-- Taken from the queue, and not yet run.
abbrev pub taken : Phase → List ℕ
taken (Phase.draining fs) = fs
taken _ = []

-- Run, taken, and in the queue.
abbrev pub history : Loop → List ℕ
history l = l.ran ++ (taken l.phase ++ l.pending)

queued-history :
    (xs ys zs : List ℕ) (f : ℕ) → xs ++ (ys ++ (zs ++ f ∷ [])) ≡ (xs ++ (ys ++ zs)) ++ f ∷ []
queued-history xs ys zs f = simp append_assoc

Step-history : (l l' : Loop) (s : Step l l') → history l' ≡ history l ++ queued_by s
unfolding wakeup handle_read queue_in_loop queue_elsewhere wakeup_elsewhere quit quit_elsewhere
    poll_returns swap_pending run_func end_turn
Step-history l l' (other_queues f e) =
    ground (arith, queued-history l.ran (taken l.phase) l.pending f)
Step-history l l' (other_quits e) = ground (arith, append-nil (history l))
Step-history l l' (other_wakes h e) = ground (arith, append-nil (history l))
Step-history l l' (own_queues f h e) =
    ground (arith, queued-history l.ran (taken l.phase) l.pending f)
Step-history l l' (own_quits h e) = ground (arith, append-nil (history l))
Step-history l l' (polled w h k e) = ground (arith, append-nil (history l))
Step-history l l' (reads h e) = ground (arith, append-nil (history l))
Step-history l l' (swaps h e) = ground (arith, append-nil (history l), append-nil l.pending)
Step-history l l' (runs f fs h e) =
    ground (arith, append-nil (history l), append_assoc l.ran (f ∷ []) (fs ++ l.pending))
Step-history l l' (ends h e) = ground (arith, append-nil (history l))

-- Over all steps of all threads, from a state of the loop, the functions that were run, those that
-- `doPendingFuncs` has still to run and those in the queue are, in this order, those of before and
-- then those that were queued, each as often and in the order in which they were.
pub Reach-history : (l l' : Loop) (i : List ℕ) → Reach l i l' → history l' ≡ history l ++ i
Reach-history l l' i here = sym (append-nil (history l))
Reach-history l l' i (next j _ l₁ _ r s e) =
    Step-history l₁ l' s
    ∙ ap (λ xs. xs ++ queued_by s) (Reach-history l l₁ j r)
    ∙ append_assoc (history l) j (queued_by s)
    ∙ ap (λ xs. history l ++ xs) (sym e)

-- `doPendingFuncs` runs the functions that it took, one after the other.
runs_all :
    (fs : List ℕ) (l₀ l : Loop) (i : List ℕ)
    → Reach l₀ i l
    → l.phase ≡ Phase.draining fs
    → (l' : Loop) × Reach l₀ i l'
      × (l'.phase ≡ Phase.draining [])
      × (l'.ran ≡ l.ran ++ fs)
      × (l'.quit_flag ≡ l.quit_flag)
unfolding run_func
runs_all [] l₀ l i r p = (l, r, p, sym (append-nil l.ran), refl)
runs_all (f ∷ fs) l₀ l i r p =
    let (l', r', p', h, q) =
      runs_all fs l₀ (run_func l f fs) i (next i i l _ r (runs f fs p refl) (sym (append-nil i)))
        refl in
    (l', r', p', h ∙ append_assoc l.ran (f ∷ []) fs, q)

-- From `poll` with the eventfd readable, and with nothing in the queue but what is there, the loop
-- can go on by itself to the end of its turn: by then it has run all functions of the queue in
-- order, and it polls again, or has left `loop` if it was told to quit.
pub turn_runs :
    (l : Loop)
    → l.phase ≡ Phase.polling
    → 0 < l.wake
    → (l' : Loop) × Reach l [] l'
      × (l'.ran ≡ l.ran ++ l.pending)
      × (l'.phase ≡ (if l.quit_flag then Phase.outside else Phase.polling))
      × (l'.looping ≡ not l.quit_flag)
unfolding poll_returns handle_read swap_pending end_turn
turn_runs l p h =
    let l₁ = poll_returns l true in
    let l₂ = record (handle_read l₁) { phase = Phase.handling false } in
    let l₃ = swap_pending l₂ in
    let r₁ = next [] [] l l₁ here (polled true p (λ e. h) refl) refl in
    let r₂ = next [] [] l₁ l₂ r₁ (reads refl refl) refl in
    let r₃ = next [] [] l₂ l₃ r₂ (swaps refl refl) refl in
    let (l₄, r₄, p₄, e, q) = runs_all l.pending l l₃ [] r₃ refl in
    (
      end_turn l₄,
      next [] [] l₄ (end_turn l₄) r₄ (ends p₄ refl) refl,
      e,
      ap (λ b. if b then Phase.outside else Phase.polling) q,
      ap not q,
    )
