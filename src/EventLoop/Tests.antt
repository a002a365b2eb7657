-- ===== src/EventLoop/Tests.antt =====
-- The theorems on the event loop after another thread has queued a function.
use chtho.Prelude.{
  ◌+◌, ◌<◌, ◌≡◌, refl, inl, false, true, not, [], ◌∷◌, ◌++◌, ok, if◌then◌else◌, arith, length,
}
use chtho.EventLoop.{
  Phase, Loop, init, queue_elsewhere, begin_loop, Step, other_queues, queued_by, Reach, here, next,
}
use chtho.EventLoop.Wakeup.{poll-wakes}
use chtho.EventLoop.Fifo.{history, Reach-history, turn_runs}

abbrev started : Loop
started = record {
  phase = Phase.polling;
  looping = true;
  quit_flag = false;
  calling = false;
  pending = [];
  wake = 0;
  in_flight = 0;
  ran = [];
}

began : begin_loop init ≡ ok started
unfolding begin_loop init
began = refl

nothing_pending : 0 < length init.pending → 0 < init.wake + init.in_flight
unfolding init
nothing_pending h = absurd (omega arith)

abbrev asked : Loop
asked = record started { pending = 5 ∷ []; in_flight = 1 }

asks : Step started asked
unfolding queue_elsewhere
asks = other_queues 5 refl

asked_by : queued_by asks ≡ 5 ∷ []
unfolding asks
asked_by = refl

asked_reached : Reach started (5 ∷ []) asked
unfolding asks
asked_reached = next [] (5 ∷ []) started asked here asks refl

poll-wakes_example : 0 < asked.wake + asked.in_flight
poll-wakes_example =
    poll-wakes init started asked (5 ∷ []) began nothing_pending asked_reached refl
      (inl (omega arith))

Reach-history_example : history asked ≡ history started ++ 5 ∷ []
Reach-history_example = Reach-history started asked (5 ∷ []) asked_reached

abbrev woken : Loop
woken = record asked { wake = 1; in_flight = 0 }

turn_runs_example :
    (l' : Loop) × Reach woken [] l'
    × (l'.ran ≡ [] ++ 5 ∷ [])
    × (l'.phase ≡ (if false then Phase.outside else Phase.polling))
    × (l'.looping ≡ not false)
turn_runs_example = turn_runs woken refl (omega arith)
