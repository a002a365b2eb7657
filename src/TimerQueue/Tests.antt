-- ===== src/TimerQueue/Tests.antt =====
-- Runs of the timer queue, and its theorems at a queue of two timers.
use chtho.Prelude.{
  ℕ, ◌+◌, ◌≤◌, ◌<◌, ◌≡◌, ◌↔◌, refl, true, false, List, [], ◌∷◌, Option, none, some, ok, arith,
  if◌then◌else◌, ltb, Bool-cases, inl, inr, ◌==◌,
}
use chtho.OrderedSet.{Pair, member}
use chtho.TimerQueue.{
  TimerQueue, Timer, Heap, Allocator, Action, cancel, deref, max_ptr, handle_read, get_expired,
  reset_all,
}
use chtho.TimerQueue.Linked.{Linked, Owned, Known}
use chtho.TimerQueue.Expired.{get_expired-due}
use chtho.TimerQueue.Serve.{Serving, Ends, handle_read-Linked}
use chtho.TimerQueue.Restart.{Settled, reset_all-restarts}

-- The address behind the highest one in use.
next_free : Heap → ℕ
next_free [] = 1
next_free ((p, t) ∷ h) = let r = next_free h in if ltb p r then r else p + 1

deref-above : (h : Heap) (p : ℕ) → next_free h ≤ p → deref p h ≡ none
unfolding deref next_free
deref-above [] p e = refl
deref-above ((q, t) ∷ h) p e = ground (arith, deref-above h p)

bump : Heap → Option ℕ
bump h = if ltb (next_free h) max_ptr then some (next_free h) else none

bump-fresh : (h : Heap) (p : ℕ) → bump h ≡ some p → deref p h ≡ none
unfolding bump
bump-fresh h p e = deref-above h p (ground arith)

bump-below : (h : Heap) (p : ℕ) → bump h ≡ some p → p < max_ptr
unfolding bump
bump-below h p e = ground arith

abbrev heap_end : Allocator
heap_end = record { malloc = bump; fresh = bump-fresh; below = bump-below }

abbrev every_five : Timer
every_five = record {
  cb = 0;
  expir = 10;
  interval = record { positive = true; micros = 5 };
  repeat = true;
  seq = 1;
}

abbrev once : Timer
once = record {
  cb = 1;
  expir = 30;
  interval = record { positive = false; micros = 0 };
  repeat = false;
  seq = 2;
}

abbrev two : TimerQueue
two = record {
  timers = (10, 1) ∷ (30, 2) ∷ [];
  active = (1, 1) ∷ (2, 2) ∷ [];
  cancels = [];
  calling = false;
  heap = (1, every_five) ∷ (2, once) ∷ [];
  created = 2;
  armed = some 10;
}

two-Owned : (t p : ℕ) → member (t, p) two.timers ≡ true → Owned two.heap two.active t p
unfolding member deref
two-Owned t p m = elim (Bool-cases (1 == p)) [
  | inl e ↦ (every_five, ground arith, ground arith, ground arith, ground arith)
  | inr e ↦ (once, ground arith, ground arith, ground arith, ground arith)
]

two-Known : (p s : ℕ) → member (p, s) two.active ≡ true → Known two.heap two.timers p s
unfolding member deref
two-Known p s m = elim (Bool-cases (1 == p)) [
  | inl e ↦ (every_five, ground arith, ground arith, ground arith)
  | inr e ↦ (once, ground arith, ground arith, ground arith)
]

two-Linked : Linked two.heap two.timers two.active
two-Linked = record {
  owned = two-Owned;
  known = two-Known;
  same_size = refl;
  timers_sorted = ((refl, tt), (tt, tt));
  active_sorted = ((refl, tt), (tt, tt));
}

-- The first callback cancels its own timer.
abbrev cancels_itself : ℕ → List Action
cancels_itself cb = if cb == 0 then cancel 1 1 ∷ [] else []

get_expired-due_example :
    (expired : List Pair) × (q' : TimerQueue) × (get_expired two 20 ≡ ok (expired, q'))
    × Linked q'.heap q'.timers q'.active
    × ((t p : ℕ) → (member (t, p) expired ≡ true) ↔ ((member (t, p) two.timers ≡ true) × (t ≤ 20)))
    × ((t p : ℕ)
        → (member (t, p) q'.timers ≡ true) ↔ ((member (t, p) two.timers ≡ true) × (20 < t)))
get_expired-due_example = get_expired-due two 20 two-Linked

handle_read-Linked_example :
    Ends (λ q'. Linked q'.heap q'.timers q'.active) (handle_read heap_end cancels_itself two 20)
handle_read-Linked_example = handle_read-Linked heap_end cancels_itself two 20 two-Linked

-- The first timer has expired, and its callback cancelled it.
abbrev one_due : TimerQueue
one_due = record two { timers = (30, 2) ∷ []; active = (2, 2) ∷ []; cancels = (1, 1) ∷ [] }

one_due-Owned :
    (t p : ℕ) → member (t, p) one_due.timers ≡ true → Owned one_due.heap one_due.active t p
unfolding member deref
one_due-Owned t p m = (once, ground arith, ground arith, ground arith, ground arith)

one_due-Known :
    (p s : ℕ) → member (p, s) one_due.active ≡ true → Known one_due.heap one_due.timers p s
unfolding member deref
one_due-Known p s m = (once, ground arith, ground arith, ground arith)

one_due-Serving : Serving ((10, 1) ∷ []) one_due
unfolding member deref
one_due-Serving = record {
  linked = record {
    owned = one_due-Owned;
    known = one_due-Known;
    same_size = refl;
    timers_sorted = (tt, tt);
    active_sorted = (tt, tt);
  };
  pending = ((every_five, refl), (λ s. ground arith), omega arith, tt, tt);
}

reset_all-restarts_example :
    (q' : TimerQueue) × (reset_all one_due ((10, 1) ∷ []) 20 ≡ ok q')
    × Linked q'.heap q'.timers q'.active
    × Settled one_due q' 20 ((10, 1) ∷ [])
reset_all-restarts_example = reset_all-restarts 20 ((10, 1) ∷ []) one_due one_due-Serving
