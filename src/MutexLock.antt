-- ===== src/MutexLock.antt =====
-- chtho/threads/MutexLock.h, MutexLockGuard.h, RevokeGuard.h and Condition.h: the holder that a mutex
-- keeps beside the one of pthread, and what threads do with both. A thread is known by its tid.
pub mod Holder
mod Tests
use chtho.Prelude.{ℕ, ◌≡◌, ◌≢◌, Bool, true, false, Option, none, some, ◌==◌, update}

-- `owner` is the thread that has the mutex of pthread, and `holder` is `holder_`, which is 0 for none.
pub record MutexLock : Type 0 where
  pub owner : Option ℕ
  pub holder : ℕ

abbrev pub make : MutexLock
make = record { owner = none; holder = 0 }

unfoldable pub assign_holder : MutexLock → ℕ → MutexLock
assign_holder m tid = record m { holder = tid }

unfoldable pub revoke_holder : MutexLock → MutexLock
revoke_holder m = record m { holder = 0 }

-- `isLockedByThisThread`
unfoldable pub is_locked_by : MutexLock → ℕ → Bool
is_locked_by m tid = m.holder == tid

-- Where a thread is: it has nothing to do with the mutex; it has it from pthread_mutex_lock, or from
-- pthread_cond_wait, and is about to call `assignHolder`; it is between `lock` and `unlock` and not
-- in `Condition::wait`; it has called `revokeHolder` in `unlock`, or in the RevokeGuard of `wait`; it
-- is in pthread_cond_wait.
pub data Place : Type 0 where
  outside locking inside unlocking revoked waiting waking : Place

-- The calls of pthread: a mutex is given to a thread only while no thread has it.
abbrev pub taken : MutexLock → ℕ → MutexLock
taken m tid = record m { owner = some tid }

abbrev pub released : MutexLock → MutexLock
released m = record m { owner = none }

-- What a thread does next.
pub data Move (tid : ℕ) (m : MutexLock) : Place → MutexLock → Place → Type 0 where
  takes : m.owner ≡ none → Move tid m outside (taken m tid) locking
  assigns : Move tid m locking (assign_holder m tid) inside
  revokes : Move tid m inside (revoke_holder m) unlocking
  releases : Move tid m unlocking (released m) outside
  guards : Move tid m inside (revoke_holder m) revoked
  waits : Move tid m revoked (released m) waiting
  wakes : m.owner ≡ none → Move tid m waiting (taken m tid) waking
  assigns_again : Move tid m waking (assign_holder m tid) inside

-- The threads together, from a mutex that is new.
pub data Reach : MutexLock → (ℕ → Place) → Type 0 where
  start : Reach make (λ tid. outside)
  next :
      (m m' : MutexLock) (places : ℕ → Place) (tid : ℕ) (place : Place)
      → Reach m places
      → tid ≢ 0
      → Move tid m (places tid) m' place
      → Reach m' (update places tid place)
