-- ===== src/ThreadPool/Threads.antt =====
-- The threads of the pool by what they do: how many are about to look at the queue in `take`, how many
-- sleep there, how many are out of `take` and about to test `running_`, and how many have ended; and
-- the callers of `run`: how many are about to look at the queue, and how many wait there for room.
pub mod Wakeups
use chtho.Prelude.{
  ℕ, zero, suc, ◌+◌, ◌-◌, ◌*◌, ◌<◌, ◌≤◌, ◌≡◌, ◌⊎◌, refl, ap, ◌∙◌, true, false, List, [], ◌∷◌, ltb,
  if◌then◌else◌, length, length-append, min, arith, Bool-cases, inl, inr,
}
use chtho.ThreadPool.{
  Pool, make, start, stop, run, queued, waits, gives_up, take, sleeps, nothing, first,
}

pub record Crew : Type 0 where
  pub pool : Pool
  pub awake : ℕ
  pub asleep : ℕ
  pub busy : ℕ
  pub ended : ℕ
  pub offering : ℕ
  pub blocked : ℕ

-- `start`: each thread begins with the test of the loop in `runInThread`.
abbrev pub begin : ℕ → ℕ → Crew
begin max n = record {
  pool = start (make max) n;
  awake = 0;
  asleep = 0;
  busy = n;
  ended = 0;
  offering = 0;
  blocked = 0;
}

-- `notify` wakes one of the threads that sleep, where there is one.
abbrev pub notify : Crew → Crew
notify s = record s { awake = s.awake + min 1 s.asleep; asleep = s.asleep - 1 }

-- `notifyAll` of both conditions.
abbrev pub notify_all : Crew → Crew
notify_all s = record s {
  awake = s.awake + s.asleep;
  asleep = 0;
  offering = s.offering + s.blocked;
  blocked = 0;
}

-- `notify` wakes one of the callers that wait for room.
abbrev pub notify_caller : Crew → Crew
notify_caller s = record s { offering = s.offering + min 1 s.blocked; blocked = s.blocked - 1 }

-- The end of `take`, where the queue is bounded.
abbrev pub after_take : Crew → Crew
after_take s = if ltb 0 s.pool.max_queue_sz then notify_caller s else s

-- The test of the loop.
abbrev pub loop_test : Crew → Crew
loop_test s =
    if s.pool.running
    then record s { busy = s.busy - 1; awake = s.awake + 1 }
    else record s { busy = s.busy - 1; ended = s.ended + 1 }

-- What a caller of `run` or `stop` does, and what a thread does. A thread may wake for no reason.
pub data Step (s : Crew) (s' : Crew) : Type 0 where
  calls : s' ≡ record s { offering = s.offering + 1 } → Step s s'
  runs :
      (task : ℕ) (p : Pool)
      → 0 < s.offering
      → run s.pool task ≡ queued p
      → s' ≡ notify (record s { pool = p; offering = s.offering - 1 })
      → Step s s'
  blocks :
      (task : ℕ)
      → 0 < s.offering
      → run s.pool task ≡ waits
      → s' ≡ record s { offering = s.offering - 1; blocked = s.blocked + 1 }
      → Step s s'
  gives_way :
      (task : ℕ)
      → 0 < s.offering
      → run s.pool task ≡ gives_up
      → s' ≡ record s { offering = s.offering - 1 }
      → Step s s'
  stops : s' ≡ notify_all (record s { pool = stop s.pool }) → Step s s'
  takes :
      (task : ℕ) (p : Pool)
      → 0 < s.awake
      → take s.pool ≡ first task p
      → s' ≡ after_take (record s { pool = p; awake = s.awake - 1; busy = s.busy + 1 })
      → Step s s'
  finds_nothing :
      0 < s.awake
      → take s.pool ≡ nothing
      → s' ≡ record s { awake = s.awake - 1; busy = s.busy + 1 }
      → Step s s'
  falls_asleep :
      0 < s.awake
      → take s.pool ≡ sleeps
      → s' ≡ record s { awake = s.awake - 1; asleep = s.asleep + 1 }
      → Step s s'
  wakes : 0 < s.asleep → s' ≡ notify s → Step s s'
  caller_wakes : 0 < s.blocked → s' ≡ notify_caller s → Step s s'
  tests : 0 < s.busy → s' ≡ loop_test s → Step s s'

pub data Reach (s : Crew) : Crew → Type 0 where
  here : Reach s s
  next : (s₁ s₂ : Crew) → Reach s s₁ → Step s₁ s₂ → Reach s s₂
