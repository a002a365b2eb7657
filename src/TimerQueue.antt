-- ===== src/TimerQueue.antt =====
-- chtho/net/TimerQueue.h and TimerQueue.cpp, with Timer.h, TimerID.h and what they use of
-- Timestamp.h. A time is its microseconds since the epoch. A timer's interval, a `double`, is given
-- by what the program computes of it: whether it is above 0.0, and its microseconds as an integer.
-- A `Timer*` is an address in a heap; `new` is an allocator outside the program, which may fail.
pub mod Linked
pub mod Expired
pub mod Serve
pub mod Restart
mod Tests
use chtho.Prelude.{
  ℕ, ◌+◌, ◌-◌, ◌^◌, ◌<◌, ◌≡◌, Bool, true, false, not, ◌&&◌, List, [], ◌∷◌, Option, none, some,
  Result, ok, fail, Fault, ◌>>=◌, ◌>>◌, guard, ltb, ◌==◌, if◌then◌else◌, length,
}
use chtho.OrderedSet.{Pair, member, insert, erase, before, from}

pub record Interval : Type 0 where
  pub positive : Bool
  pub micros : ℕ

-- `cb` names the callback.
pub record Timer : Type 0 where
  pub cb : ℕ
  pub expir : ℕ
  pub interval : Interval
  pub repeat : Bool
  pub seq : ℕ

-- The live timers, by address.
abbrev pub Heap : Type 0
Heap = List (ℕ × Timer)

unfoldable pub deref : ℕ → Heap → Option Timer
deref p [] = none
deref p ((q, t) ∷ h) = if q == p then some t else deref p h

-- A write through a pointer, or to a new address.
unfoldable pub store : ℕ → Timer → Heap → Heap
store p t [] = (p, t) ∷ []
store p t ((q, u) ∷ h) = if q == p then (p, t) ∷ h else (q, u) ∷ store p t h

unfoldable pub free : ℕ → Heap → Heap
free p [] = []
free p ((q, u) ∷ h) = if q == p then free p h else (q, u) ∷ free p h

-- `UINTPTR_MAX`
abbrev pub max_ptr : ℕ
max_ptr = 2 ^ 64 - 1

-- `operator new`: an address that is free and not the last one, or none.
pub record Allocator : Type 0 where
  pub malloc : Heap → Option ℕ
  pub fresh : (h : Heap) (p : ℕ) → malloc h ≡ some p → deref p h ≡ none
  pub below : (h : Heap) (p : ℕ) → malloc h ≡ some p → p < max_ptr

-- `timers` are (time, address), `active` and `cancels` (address, number). `created` is
-- `Timer::numCreated_`, and `armed` what `timerfd_` was last set to.
pub record TimerQueue : Type 0 where
  pub timers : List Pair
  pub active : List Pair
  pub cancels : List Pair
  pub calling : Bool
  pub heap : Heap
  pub created : ℕ
  pub armed : Option ℕ

-- What a callback does to the queue of its own loop, where `runInLoop` calls at once.
pub data Action : Type 0 where
  add : ℕ → ℕ → Interval → Action
  cancel : ℕ → ℕ → Action

pub data Outcome : Type 0 where
  done : TimerQueue → Outcome
  bad_alloc : Outcome
  fault : Fault → Outcome

abbrev pub lift {ℓ} : {A : Type ℓ} → Result A → (A → Outcome) → Outcome
lift (ok a) k = k a
lift (fail e) k = fault e

abbrev pub then_do : Outcome → (TimerQueue → Outcome) → Outcome
then_do (done q) k = k q
then_do bad_alloc k = bad_alloc
then_do (fault e) k = fault e

-- A read through a pointer.
pub load : ℕ → Heap → Result Timer
unfolding deref
load p h = elim (deref p h) [ none ↦ fail Fault.dangling | some t ↦ ok t ]

-- `Timer::Timer`; `++numCreated_` comes first.
pub make_timer : ℕ → ℕ → Interval → ℕ → Timer
make_timer cb t interval created = record {
  cb = cb;
  expir = t;
  interval = interval;
  repeat = interval.positive;
  seq = created + 1;
}

-- `Timer::restart`
pub restart : Timer → ℕ → Timer
restart t now = record t { expir = if t.repeat then now + t.interval.micros else 0 }

-- The constructor leaves `callingExpiredTimers_` as the memory holds it.
pub init : Bool → TimerQueue
init unset = record {
  timers = [];
  active = [];
  cancels = [];
  calling = unset;
  heap = [];
  created = 0;
  armed = none;
}

-- Whether a timer that expires then comes before all others.
is_earliest : ℕ → List Pair → Bool
is_earliest t [] = true
is_earliest t ((t', p) ∷ rest) = ltb t t'

-- `TimerQueue::insert`, with the timer that `p` points to.
pub insert_timer : TimerQueue → ℕ → Timer → Bool × TimerQueue
insert_timer q p t = (
  is_earliest t.expir q.timers,
  record q { timers = insert (t.expir, p) q.timers; active = insert (p, t.seq) q.active },
)

pub add_timer_in_loop : TimerQueue → ℕ → Timer → TimerQueue
unfolding insert_timer
add_timer_in_loop q p t =
    let (earliest, q') = insert_timer q p t in
    if earliest then record q' { armed = some t.expir } else q'

pub rm_timer_in_loop : TimerQueue → ℕ → ℕ → Result TimerQueue
unfolding load
rm_timer_in_loop q p seq = do
  guard (length q.timers == length q.active)
  q' ←
      if member (p, seq) q.active
      then (do
        t ← load p q.heap
        guard (member (t.expir, p) q.timers)
        ok (record q {
          timers = erase (t.expir, p) q.timers;
          active = erase (p, seq) q.active;
          heap = free p q.heap;
        }))
      else ok (if q.calling then record q { cancels = insert (p, seq) q.cancels } else q)
  guard (length q'.timers == length q'.active)
  ok q'

-- The second loop of `getExpired`: `activeTimers_` without the expired timers.
pub erase_active : Heap → List Pair → List Pair → Result (List Pair)
erase_active h [] active = ok active
erase_active h ((t, p) ∷ rest) active = do
  timer ← load p h
  guard (member (p, timer.seq) active)
  erase_active h rest (erase (p, timer.seq) active)

pub get_expired : TimerQueue → ℕ → Result (List Pair × TimerQueue)
get_expired q now = do
  guard (length q.timers == length q.active)
  let expired = before (now, max_ptr) q.timers
  let timers = from (now, max_ptr) q.timers
  active ← erase_active q.heap expired q.active
  guard (length timers == length active)
  ok (expired, record q { timers = timers; active = active })

-- One round of the loop of `reset`.
pub reset_one : TimerQueue → ℕ → ℕ → Result TimerQueue
unfolding load restart insert_timer
reset_one q p now = do
  t ← load p q.heap
  let t' = restart t now
  ok (
      if t.repeat && not (member (p, t.seq) q.cancels)
      then (insert_timer (record q { heap = store p t' q.heap }) p t').1
      else record q { heap = free p q.heap })

pub reset_all : TimerQueue → List Pair → ℕ → Result TimerQueue
reset_all q [] now = ok q
reset_all q ((t, p) ∷ rest) now = do q' ← reset_one q p now; reset_all q' rest now

-- `timers_.begin()->second->expir()` into `timerfd_`, if there is one and it is a valid time.
pub rearm : TimerQueue → List Pair → Result TimerQueue
unfolding load
rearm q [] = ok q
rearm q ((t, p) ∷ rest) = do
  timer ← load p q.heap
  ok (if ltb 0 timer.expir then record q { armed = some timer.expir } else q)

pub reset : TimerQueue → List Pair → ℕ → Result TimerQueue
reset q expired now = do q' ← reset_all q expired now; rearm q' q'.timers

-- The calls of a running program: `callback` says what the callbacks do.
module _ (allocator : Allocator) (callback : ℕ → List Action) where
  pub add_timer : TimerQueue → ℕ → ℕ → Interval → Outcome
  add_timer q cb t interval = elim (allocator.malloc q.heap) [
    | none ↦ bad_alloc
    | some p ↦
        let timer = make_timer cb t interval q.created in
        done (
          add_timer_in_loop (record q { heap = store p timer q.heap; created = q.created + 1 }) p
            timer)
  ]

  pub act : TimerQueue → Action → Outcome
  act q (add cb t interval) = add_timer q cb t interval
  act q (cancel p seq) = lift (rm_timer_in_loop q p seq) done

  pub act_all : TimerQueue → List Action → Outcome
  act_all q [] = done q
  act_all q (a ∷ rest) = then_do (act q a) (λ q'. act_all q' rest)

  -- `it.second->run()` for each expired timer.
  pub run_all : TimerQueue → List Pair → Outcome
  run_all q [] = done q
  run_all q ((t, p) ∷ rest) =
      lift (load p q.heap)
        (λ timer. then_do (act_all q (callback timer.cb)) (λ q'. run_all q' rest))

  pub handle_read : TimerQueue → ℕ → Outcome
  handle_read q now = lift (get_expired q now) (λ (expired, q₁).
      then_do (run_all (record q₁ { calling = true; cancels = [] }) expired)
        (λ q₂. lift (reset (record q₂ { calling = false }) expired now) done))
