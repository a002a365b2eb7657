-- ===== src/EventLoop.antt =====
-- chtho/net/EventLoop.cpp: the queue of functions that the thread of the loop runs, and the wakeups
-- of its poll. A function is known by a number.
pub mod Wakeup
pub mod Fifo
mod Tests
use chtho.Prelude.{
  ℕ, zero, suc, ◌+◌, ◌-◌, ◌^◌, ◌<◌, ◌≡◌, Bool, true, false, not, ◌&&◌, ◌||◌, List, [], ◌∷◌, ◌++◌,
  Option, none, some, Result, ok, fail, Fault, ◌>>=◌, ◌>>◌, guard, if◌then◌else◌, min, ltb, ◌==◌,
}

-- Where the thread of the loop is: not in `loop`, in `poll` or about to call it, handling events, of
-- which the wakeup may be one, or in `doPendingFuncs` with these functions left.
pub data Phase : Type 0 where
  outside polling : Phase
  handling : Bool → Phase
  draining : List ℕ → Phase

-- `wake` is the counter of the eventfd, `in_flight` how many other threads have still to write to
-- it, and `ran` the functions of the queue that were run.
pub record Loop : Type 0 where
  pub phase : Phase
  pub looping : Bool
  pub quit_flag : Bool
  pub calling : Bool
  pub pending : List ℕ
  pub wake : ℕ
  pub in_flight : ℕ
  pub ran : List ℕ

pub init : Loop
init = record {
  phase = Phase.outside;
  looping = false;
  quit_flag = false;
  calling = false;
  pending = [];
  wake = 0;
  in_flight = 0;
  ran = [];
}

-- A write to the eventfd adds 1, unless the counter is at its maximum.
pub wakeup : Loop → Loop
wakeup l = record l { wake = min (l.wake + 1) (2 ^ 64 - 2) }

-- `handleRead`: the read sets the counter to 0.
pub handle_read : Loop → Loop
handle_read l = record l { wake = 0 }

-- `queueInLoop` in the thread of the loop.
pub queue_in_loop : Loop → ℕ → Loop
unfolding wakeup
queue_in_loop l f =
    let l' = record l { pending = l.pending ++ f ∷ [] } in if l.calling then wakeup l' else l'

-- `queueInLoop` in another thread: the critical section; the call of `wakeup` comes later.
pub queue_elsewhere : Loop → ℕ → Loop
queue_elsewhere l f = record l { pending = l.pending ++ f ∷ []; in_flight = l.in_flight + 1 }

-- The call of `wakeup` of another thread.
pub wakeup_elsewhere : Loop → Loop
unfolding wakeup
wakeup_elsewhere l = wakeup (record l { in_flight = l.in_flight - 1 })

-- `quit` in the thread of the loop, and in another thread.
pub quit : Loop → Loop
quit l = record l { quit_flag = true }

pub quit_elsewhere : Loop → Loop
quit_elsewhere l = record l { quit_flag = true; in_flight = l.in_flight + 1 }

-- The beginning of `loop`.
pub begin_loop : Loop → Result Loop
begin_loop l = do
  guard (not l.looping)
  ok (record l { looping = true; quit_flag = false; phase = Phase.polling })

-- `poll` returns; `woken` tells whether the eventfd is among the active channels.
pub poll_returns : Loop → Bool → Loop
poll_returns l woken = record l { phase = Phase.handling woken }

-- `doPendingFuncs` up to the swap.
pub swap_pending : Loop → Loop
swap_pending l = record l { phase = Phase.draining l.pending; pending = []; calling = true }

-- Its loop runs a function; what that does to the queue are steps of their own.
pub run_func : Loop → ℕ → List ℕ → Loop
run_func l f fs = record l { phase = Phase.draining fs; ran = l.ran ++ f ∷ [] }

-- Its end, and the test of `while(!quit_)`.
pub end_turn : Loop → Loop
end_turn l = record l {
  calling = false;
  phase = if l.quit_flag then Phase.outside else Phase.polling;
  looping = not l.quit_flag;
}

-- In these phases the thread of the loop runs callbacks and functions.
abbrev is_running : Phase → Bool
is_running (Phase.handling b) = true
is_running (Phase.draining fs) = true
is_running _ = false

-- The steps of all threads while the loop runs.
pub data Step (l : Loop) (l' : Loop) : Type 0 where
  other_queues : (f : ℕ) → l' ≡ queue_elsewhere l f → Step l l'
  other_quits : l' ≡ quit_elsewhere l → Step l l'
  other_wakes : 0 < l.in_flight → l' ≡ wakeup_elsewhere l → Step l l'
  own_queues : (f : ℕ) → is_running l.phase ≡ true → l' ≡ queue_in_loop l f → Step l l'
  own_quits : is_running l.phase ≡ true → l' ≡ quit l → Step l l'
  polled :
      (woken : Bool)
      → l.phase ≡ Phase.polling
      → (woken ≡ true → 0 < l.wake)
      → l' ≡ poll_returns l woken
      → Step l l'
  reads :
      l.phase ≡ Phase.handling true
      → l' ≡ record (handle_read l) { phase = Phase.handling false }
      → Step l l'
  swaps : l.phase ≡ Phase.handling false → l' ≡ swap_pending l → Step l l'
  runs :
      (f : ℕ) (fs : List ℕ) → l.phase ≡ Phase.draining (f ∷ fs) → l' ≡ run_func l f fs → Step l l'
  ends : l.phase ≡ Phase.draining [] → l' ≡ end_turn l → Step l l'

-- The function that a step puts into the queue.
abbrev pub queued_by : {l l' : Loop} → Step l l' → List ℕ
queued_by (other_queues f e) = f ∷ []
queued_by (own_queues f h e) = f ∷ []
queued_by _ = []

-- The steps that were taken, with the functions that they put into the queue, in order.
pub data Reach (l : Loop) : List ℕ → Loop → Type 0 where
  here : Reach l [] l
  next :
      (i j : List ℕ) (l₁ l₂ : Loop)
      → Reach l i l₁
      → (s : Step l₁ l₂) → j ≡ i ++ queued_by s
      → Reach l j l₂
