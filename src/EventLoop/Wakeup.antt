-- ===== src/EventLoop/Wakeup.antt =====
-- No wakeup is lost: `poll` does not wait while there is something to do.
use chtho.Prelude.{
  ℕ, ◌+◌, ◌<◌, ◌≡◌, Bool, true, false, ◌||◌, List, [], ◌∷◌, ok, length, arith, length-append, ◌⊎◌,
  inl, inr,
}
use chtho.EventLoop.{
  Phase, Loop, wakeup, handle_read, queue_in_loop, queue_elsewhere, wakeup_elsewhere, quit,
  quit_elsewhere, begin_loop, poll_returns, swap_pending, run_func, end_turn, Step, other_queues,
  other_quits, other_wakes, own_queues, own_quits, polled, reads, swaps, runs, ends, Reach, here,
  next,
}

abbrev is_polling : Phase → Bool
is_polling Phase.polling = true
is_polling _ = false

abbrev is_draining : Phase → Bool
is_draining (Phase.draining fs) = true
is_draining _ = false

-- A flag in flight counts, since the write to the eventfd follows.
pub record IsAwake (l : Loop) : Type 0 where
  pub calls : is_draining l.phase ≡ true → l.calling ≡ true
  pub for_pending :
      is_draining l.phase || is_polling l.phase ≡ true
      → 0 < length l.pending
      → 0 < l.wake + l.in_flight
  pub for_quit : is_polling l.phase ≡ true → l.quit_flag ≡ true → 0 < l.wake + l.in_flight

Step-IsAwake : (l l' : Loop) → Step l l' → IsAwake l → IsAwake l'
unfolding wakeup handle_read queue_in_loop queue_elsewhere wakeup_elsewhere quit quit_elsewhere
    poll_returns swap_pending run_func end_turn
Step-IsAwake l l' (other_queues f e) a = ground (arith, length-append l.pending (f ∷ []))
Step-IsAwake l l' (other_quits e) a = ground arith
Step-IsAwake l l' (other_wakes h e) a = ground arith
Step-IsAwake l l' (own_queues f h e) a = ground (arith, length-append l.pending (f ∷ []))
Step-IsAwake l l' (own_quits h e) a = ground arith
Step-IsAwake l l' (polled w h k e) a = ground arith
Step-IsAwake l l' (reads h e) a = ground arith
Step-IsAwake l l' (swaps h e) a = ground arith
Step-IsAwake l l' (runs f fs h e) a = ground arith
Step-IsAwake l l' (ends h e) a = ground arith

Reach-IsAwake : (l : Loop) (i : List ℕ) (l' : Loop) → IsAwake l → Reach l i l' → IsAwake l'
Reach-IsAwake l i l' a here = a
Reach-IsAwake l i l' a (next j _ l₁ _ r s e) = Step-IsAwake l₁ l' s (Reach-IsAwake l j l₁ a r)

begin_loop-IsAwake :
    (l l' : Loop)
    → begin_loop l ≡ ok l'
    → (0 < length l.pending → 0 < l.wake + l.in_flight)
    → IsAwake l'
unfolding begin_loop
begin_loop-IsAwake l l' e h = ground (arith, e, h)

-- Once `loop` has begun, with nothing in the queue or a wakeup on its way, and whatever its thread
-- and others have done since: when the loop is in `poll`, and there are functions in the queue or it
-- was told to quit, then the eventfd is readable, or another thread is about to write to it.
pub poll-wakes :
    (l₀ l₁ l : Loop) (i : List ℕ)
    → begin_loop l₀ ≡ ok l₁
    → (0 < length l₀.pending → 0 < l₀.wake + l₀.in_flight)
    → Reach l₁ i l
    → is_polling l.phase ≡ true
    → (0 < length l.pending) ⊎ (l.quit_flag ≡ true)
    → 0 < l.wake + l.in_flight
poll-wakes l₀ l₁ l i e h r p (inl some_pending) =
    (Reach-IsAwake l₁ i l (begin_loop-IsAwake l₀ l₁ e h) r).for_pending (ground (arith, p))
      some_pending
poll-wakes l₀ l₁ l i e h r p (inr told) =
    (Reach-IsAwake l₁ i l (begin_loop-IsAwake l₀ l₁ e h) r).for_quit p told
