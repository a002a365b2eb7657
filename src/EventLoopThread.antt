-- ===== src/EventLoopThread.antt =====
-- chtho/net/EventLoopThread.cpp with chtho/threads/Thread.cpp and ThreadData.h: a thread that runs a
-- loop, the thread that starts it and later destroys it. A critical section is one step.
pub mod Starts
pub mod Ends
mod Tests
use chtho.Prelude.{
  ℕ, ◌-◌, ◌<◌, ◌≡◌, Bool, true, false, not, Result, ok, fail, Fault, ◌>>=◌, ◌>>◌, guard, ltb, ◌==◌,
  if◌then◌else◌,
}

-- The owner has not called `startLoop`; it waits for the latch in `Thread::start`, asleep or about to
-- look; it waits for the pointer to the loop, likewise; it has the pointer; in the destructor it
-- waits in pthread_join; it has destroyed the object.
pub data Owner : Type 0 where
  fresh served joining gone : Owner
  on_latch on_loop : Bool → Owner

-- The new thread does not exist; it has begun; it has stored its tid; it runs the callback for
-- threads; it has stored the pointer and is about to call `loop`; it is in `loop`; it has left that;
-- it has ended.
pub data Child : Type 0 where
  absent begun named calling stored looping left ended : Child

-- `count` is that of the latch, `has_loop` tells whether `loop_` is not null, `quit_flag` is `quit_` of the
-- loop.
pub record Thread : Type 0 where
  pub owner : Owner
  pub child : Child
  pub started : Bool
  pub joined : Bool
  pub tid : ℕ
  pub count : ℕ
  pub has_loop : Bool
  pub quit_flag : Bool
  pub exiting : Bool

-- The constructors of both.
unfoldable pub make : Thread
make = record {
  owner = Owner.fresh;
  child = Child.absent;
  started = false;
  joined = false;
  tid = 0;
  count = 1;
  has_loop = false;
  quit_flag = false;
  exiting = false;
}

-- `startLoop` up to the wait in `Thread::start`; the flag tells whether pthread_create succeeds, and
-- where it does not, LOG_SYSFATAL ends the program.
pub start : Thread → Bool → Result Thread
start s created = do
  guard (not s.started)
  if created
      then ok (record s { started = true; child = Child.begun; owner = Owner.on_latch false })
      else fail Fault.fatal

-- `runInThread`: the tid, and then the latch, where `notifyAll` wakes the owner.
pub set_tid : Thread → ℕ → Thread
set_tid s tid = record s { tid = tid; child = Child.named }

abbrev pub wake_on_latch : Owner → Owner
wake_on_latch (Owner.on_latch b) = Owner.on_latch false
wake_on_latch o = o

pub count_down : Thread → Thread
count_down s = record s {
  count = s.count - 1;
  owner = if s.count - 1 == 0 then wake_on_latch s.owner else s.owner;
  child = Child.calling;
}

-- The owner looks at the count; the end of `Thread::start` asserts that there is a tid.
pub look_at_latch : Thread → Result Thread
look_at_latch s =
    if ltb 0 s.count
    then ok (record s { owner = Owner.on_latch true })
    else (do guard (ltb 0 s.tid); ok (record s { owner = Owner.on_loop false }))

-- `func`: the pointer is stored, and the owner is notified.
abbrev pub wake_on_loop : Owner → Owner
wake_on_loop (Owner.on_loop b) = Owner.on_loop false
wake_on_loop o = o

pub store_loop : Thread → Thread
store_loop s = record s { has_loop = true; owner = wake_on_loop s.owner; child = Child.stored }

-- The owner looks at the pointer.
pub look_at_loop : Thread → Thread
look_at_loop s = record s { owner = if s.has_loop then Owner.served else Owner.on_loop true }

-- `EventLoop::loop` begins with `quit_ = false`.
pub begin_loop : Thread → Thread
begin_loop s = record s { quit_flag = false; child = Child.looping }

-- The loop ends a turn; that it does so once it was told to quit is shown with the loop itself.
pub end_turn : Thread → Thread
end_turn s = record s { child = if s.quit_flag then Child.left else Child.looping }

pub clear_loop : Thread → Thread
clear_loop s = record s { has_loop = false; child = Child.ended }

-- The destructor, up to the wait in pthread_join.
pub destroy : Thread → Thread
destroy s =
    if s.has_loop
    then record s { exiting = true; quit_flag = true; joined = true; owner = Owner.joining }
    else record s { exiting = true; owner = Owner.gone }

-- pthread_join returns.
pub join : Thread → Thread
join s = record s { owner = Owner.gone }

-- The steps of the two threads, where the loop is told to quit by the destructor alone. A thread may
-- wake up for no reason.
pub data Step (s : Thread) (s' : Thread) : Type 0 where
  starts : s.owner ≡ Owner.fresh → start s true ≡ ok s' → Step s s'
  names : (tid : ℕ) → 0 < tid → s.child ≡ Child.begun → s' ≡ set_tid s tid → Step s s'
  counts : s.child ≡ Child.named → s' ≡ count_down s → Step s s'
  looks_at_latch : s.owner ≡ Owner.on_latch false → look_at_latch s ≡ ok s' → Step s s'
  stores : s.child ≡ Child.calling → s' ≡ store_loop s → Step s s'
  looks_at_loop : s.owner ≡ Owner.on_loop false → s' ≡ look_at_loop s → Step s s'
  wakes_on_latch :
      s.owner ≡ Owner.on_latch true → s' ≡ record s { owner = Owner.on_latch false } → Step s s'
  wakes_on_loop :
      s.owner ≡ Owner.on_loop true → s' ≡ record s { owner = Owner.on_loop false } → Step s s'
  begins : s.child ≡ Child.stored → s' ≡ begin_loop s → Step s s'
  turns : s.child ≡ Child.looping → s' ≡ end_turn s → Step s s'
  clears : s.child ≡ Child.left → s' ≡ clear_loop s → Step s s'
  destroys : s.owner ≡ Owner.served → s' ≡ destroy s → Step s s'
  joins : s.owner ≡ Owner.joining → s.child ≡ Child.ended → s' ≡ join s → Step s s'

pub data Reach (s : Thread) : Thread → Type 0 where
  here : Reach s s
  next : (s₁ s₂ : Thread) → Reach s s₁ → Step s₁ s₂ → Reach s s₂

-- A wakeup for no reason.
abbrev pub is_spurious : {s s' : Thread} → Step s s' → Bool
is_spurious (wakes_on_latch o e) = true
is_spurious (wakes_on_loop o e) = true
is_spurious _ = false

-- Steps without such wakeups.
pub data Onward (s : Thread) : Thread → Type 0 where
  stay : Onward s s
  go : (s₁ s₂ : Thread) → Onward s s₁ → (d : Step s₁ s₂) → is_spurious d ≡ false → Onward s s₂
