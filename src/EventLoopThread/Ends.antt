-- ===== src/EventLoopThread/Ends.antt =====
-- The destructor: when the thread can be joined, and when it never is.
use chtho.Prelude.{◌≡◌, ◌⊎◌, true, false}
use chtho.EventLoopThread.{Owner, Child, Thread, Reach}

-- The owner waits for a thread that was told to quit in time, or has been joined with it.
IsEnding : Thread → Type 0
IsEnding s =
    ((s.owner ≡ Owner.joining)
      × (((s.child ≡ Child.looping) × (s.quit_flag ≡ true))
          ⊎ ((s.child ≡ Child.left) ⊎ (s.child ≡ Child.ended))))
    ⊎ ((s.owner ≡ Owner.gone) × (s.child ≡ Child.ended))

-- The owner waits for a thread whose loop was told to quit too early, and has forgotten it.
IsStuck : Thread → Type 0
IsStuck s =
    (s.owner ≡ Owner.joining)
    × ((s.child ≡ Child.stored) ⊎ ((s.child ≡ Child.looping) × (s.quit_flag ≡ false)))

-- The threads can go on until the object is gone and the thread has ended.
abbrev pub Joins : Thread → Type 0
Joins s = (s' : Thread) × Reach s s' × (s'.owner ≡ Owner.gone) × (s'.child ≡ Child.ended)
