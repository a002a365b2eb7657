-- ===== src/EventLoopThread/Starts.antt =====
-- What `startLoop` waits for comes, and it returns a loop that is there.
use chtho.Prelude.{ℕ, ◌<◌, ◌≡◌, ◌⊎◌, Bool, true, false, arith}
use chtho.EventLoopThread.{
  Owner, Child, Thread, start, set_tid, count_down, look_at_latch, store_loop, look_at_loop,
  begin_loop, end_turn, clear_loop, destroy, join, Step, starts, names, counts, looks_at_latch,
  stores, looks_at_loop, wakes_on_latch, wakes_on_loop, begins, turns, clears, destroys, joins,
  Reach, here, next, Onward,
}

-- How far the child is.
abbrev pub rank : Child → ℕ
rank Child.absent = 0
rank Child.begun = 1
rank Child.named = 2
rank Child.calling = 3
rank Child.stored = 4
rank Child.looping = 5
rank Child.left = 6
rank Child.ended = 7

-- What holds while the owner is somewhere.
abbrev pub OwnerFits : Thread → Owner → Type 0
OwnerFits s Owner.fresh = (rank s.child ≡ 0) × (s.started ≡ false) × (s.quit_flag ≡ false)
OwnerFits s (Owner.on_latch b) =
    (0 < rank s.child) × (b ≡ true → 0 < s.count) × (s.quit_flag ≡ false)
OwnerFits s (Owner.on_loop b) =
    (2 < rank s.child) × (b ≡ true → s.has_loop ≡ false) × (s.quit_flag ≡ false)
OwnerFits s Owner.served = (3 < rank s.child) × (rank s.child < 6) × (s.quit_flag ≡ false)
OwnerFits s Owner.joining = 3 < rank s.child
OwnerFits s Owner.gone = Unit {0}

pub record IsSound (s : Thread) : Type 0 where
  pub counted : (0 < s.count → rank s.child < 3) × (rank s.child < 3 → 0 < s.count)
  pub one_count : s.count < 2
  pub has_tid : 1 < rank s.child → 0 < s.tid
  pub pointer :
      ((s.has_loop ≡ true) → (3 < rank s.child) × (rank s.child < 7))
      × ((3 < rank s.child) × (rank s.child < 7) → s.has_loop ≡ true)
  pub told : 5 < rank s.child → (s.owner ≡ Owner.joining) ⊎ (s.owner ≡ Owner.gone)
  pub fits : OwnerFits s s.owner

Step-IsSound : (s s' : Thread) → Step s s' → IsSound s → IsSound s'
unfolding start set_tid count_down look_at_latch store_loop look_at_loop begin_loop end_turn
    clear_loop destroy join
Step-IsSound s s' (starts o e) v = ground (arith, e)
Step-IsSound s s' (names tid h c e) v = ground arith
Step-IsSound s s' (counts c e) v = ground arith
Step-IsSound s s' (looks_at_latch o e) v = ground (arith, e)
Step-IsSound s s' (stores c e) v = ground arith
Step-IsSound s s' (looks_at_loop o e) v = ground arith
Step-IsSound s s' (wakes_on_latch o e) v = ground arith
Step-IsSound s s' (wakes_on_loop o e) v = ground arith
Step-IsSound s s' (begins c e) v = ground arith
Step-IsSound s s' (turns c e) v = ground arith
Step-IsSound s s' (clears c e) v = ground arith
Step-IsSound s s' (destroys o e) v = ground arith
Step-IsSound s s' (joins o c e) v = ground arith

pub Reach-IsSound : (s s' : Thread) → IsSound s → Reach s s' → IsSound s'
Reach-IsSound s _ v here = v
Reach-IsSound s s' v (next s₁ _ r d) = Step-IsSound s₁ s' d (Reach-IsSound s s₁ v r)

-- The owner has called `startLoop`, or is about to, and it has not returned.
abbrev pub is_starting : Owner → Bool
is_starting Owner.fresh = true
is_starting (Owner.on_latch b) = true
is_starting (Owner.on_loop b) = true
is_starting _ = false

-- The threads can go on until `startLoop` has returned, with no wakeup for no reason.
abbrev pub Serves : Thread → Type 0
Serves s = (s' : Thread) × Onward s s' × (s'.owner ≡ Owner.served)

-- From a later state.
module _ (s : Thread) where
  abbrev Later : Thread → Type 0
  Later s₁ = Onward s s₁ × IsSound s₁
