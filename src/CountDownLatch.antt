-- ===== src/CountDownLatch.antt =====
-- chtho/threads/CountDownLatch.cpp: threads that wait for a number of calls of `countDown`. A
-- critical section is one step.
pub mod Opens
mod Tests
use chtho.Prelude.{
  ℕ, zero, suc, ◌+◌, ◌≡◌, Bool, true, false, ◌==◌, if◌then◌else◌, ℤ, pos, negsuc, update,
}

-- Where a thread is: it has not called `wait`; it is in `cond_.wait()`; it was woken there, or is
-- about to enter `wait`, and looks at the count next; `wait` has returned.
pub data Place : Type 0 where
  outside asleep looking returned : Place

pub record Latch : Type 0 where
  pub count : ℤ
  pub places : ℕ → Place

pub make : ℤ → Latch
make count = record { count = count; places = λ t. outside }

abbrev pub is_positive : ℤ → Bool
is_positive (pos zero) = false
is_positive (pos (suc n)) = true
is_positive (negsuc n) = false

abbrev pub is_zero : ℤ → Bool
is_zero (pos zero) = true
is_zero _ = false

abbrev pub dec : ℤ → ℤ
dec (pos zero) = negsuc zero
dec (pos (suc n)) = pos n
dec (negsuc n) = negsuc (suc n)

-- `notifyAll`, for one thread.
abbrev pub wake : Place → Place
wake asleep = looking
wake p = p

-- The test of the loop in `wait`.
pub look : Latch → ℕ → Latch
look l t = record l {
  places = update l.places t (if is_positive l.count then asleep else returned);
}

pub count_down : Latch → Latch
count_down l =
    let count = dec l.count in
    record { count = count; places = λ t. if is_zero count then wake (l.places t) else l.places t }

pub get_cnt : Latch → ℤ
get_cnt l = l.count

-- What may happen: a thread calls `wait`, it looks at the count, a thread that sleeps wakes up for no
-- reason, and any thread counts down.
pub data Event : Type 0 where
  called looked woken : ℕ → Event
  counted : Event

abbrev pub Allowed : Latch → Event → Type 0
Allowed l (called t) = l.places t ≡ outside
Allowed l (looked t) = l.places t ≡ looking
Allowed l (woken t) = l.places t ≡ asleep
Allowed l counted = Unit {0}

pub apply : Latch → Event → Latch
apply l (called t) = record l { places = update l.places t looking }
apply l (looked t) = look l t
apply l (woken t) = record l { places = update l.places t looking }
apply l counted = count_down l

-- The calls of `countDown`.
abbrev pub calls : Event → ℕ
calls counted = 1
calls _ = 0

-- A latch that was made with `n`, after as many calls of `countDown`.
pub data Reach (n : ℕ) : ℕ → Latch → Type 0 where
  start : Reach n 0 (make (pos n))
  next :
      (k : ℕ) (l : Latch) (e : Event)
      → Reach n k l
      → Allowed l e
      → Reach n (k + calls e) (apply l e)
