-- ===== src/MutexLock/Tests.antt =====
-- A thread locks a mutex.
use chtho.Prelude.{ℕ, ◌≡◌, ◌≢◌, ◌↔◌, refl, true, some, update, arith}
use chtho.MutexLock.{
  MutexLock, make, assign_holder, is_locked_by, Place, outside, locking, inside, taken, Reach,
  start, next, takes, assigns,
}
use chtho.MutexLock.Holder.{Reach-held}

abbrev locked : MutexLock
locked = record { owner = some 3; holder = 3 }

abbrev one_inside : ℕ → Place
one_inside = update (update (λ t. outside) 3 locking) 3 inside

one_locks : Reach locked one_inside
unfolding assign_holder
one_locks =
    next (taken make 3) _ (update (λ t. outside) 3 locking) 3 inside
      (next make _ (λ t. outside) 3 locking start (ground arith) (takes refl)) (ground arith)
      assigns

Reach-held_example :
    ((is_locked_by locked 3 ≡ true) ↔ (one_inside 3 ≡ inside))
    × (one_inside 3 ≡ inside → locked.owner ≡ some 3)
    × ((u : ℕ) → u ≢ 0 → one_inside 3 ≡ inside → one_inside u ≡ inside → u ≡ 3)
Reach-held_example = Reach-held locked one_inside 3 one_locks (ground arith)
