-- ===== src/ThreadPool.antt =====
-- chtho/threads/ThreadPool.cpp: the queue of tasks between the callers of `run` and the threads.
-- What runs under the mutex is one step; a wait on a condition is a step that does not happen yet.
pub mod Fifo
pub mod Threads
mod Tests
use chtho.Prelude.{
  ℕ, ◌+◌, Bool, true, false, not, ◌&&◌, ◌||◌, List, [], ◌∷◌, ◌++◌, Option, none, some, ltb, leb,
  ◌==◌, if◌then◌else◌, length,
}

-- Tasks are known by numbers.
pub record Pool : Type 0 where
  pub queue : List ℕ
  pub max_queue_sz : ℕ
  pub running : Bool
  pub threads : ℕ

pub make : ℕ → Pool
make max = record { queue = []; max_queue_sz = max; running = false; threads = 0 }

pub start : Pool → ℕ → Pool
start w n = record w { running = true; threads = n }

pub stop : Pool → Pool
stop w = record w { running = false }

abbrev pub is_full : Pool → Bool
is_full w = ltb 0 w.max_queue_sz && leb w.max_queue_sz (length w.queue)

-- What `run` does with a task: the caller runs it, waits, gives it up, or leaves it in the queue.
pub data Ran : Type 0 where
  by_caller waits gives_up : Ran
  queued : Pool → Ran

pub run : Pool → ℕ → Ran
run w task =
    if w.threads == 0
    then by_caller
    else if is_full w && w.running
    then waits
    else if not w.running
    then gives_up
    else queued (record w { queue = w.queue ++ task ∷ [] })

-- What `take` returns: it waits, or returns no task, or the first one.
pub data Taken : Type 0 where
  sleeps nothing : Taken
  first : ℕ → Pool → Taken

pub take : Pool → Taken
take w = elim w.queue [
  | [] ↦ if w.running then sleeps else nothing
  | task ∷ rest ↦ first task (record w { queue = rest })
]
