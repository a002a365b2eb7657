-- ===== src/CountDownLatch/Tests.antt =====
-- A latch of one, which opens for a thread that sleeps.
use chtho.Prelude.{◌≡◌, ◌≢◌, ◌<◌, ◌≤◌, refl, pos}
use chtho.CountDownLatch.{
  Latch, asleep, returned, make, look, apply, called, looked, counted, Reach, start, next,
}
use chtho.CountDownLatch.Opens.{Reach-opens}

abbrev waited : Latch
waited = apply (apply (make (pos 1)) (called 5)) (looked 5)

one_waits : Reach 1 0 waited
unfolding apply make look
one_waits = next 0 _ (looked 5) (next 0 _ (called 5) start refl) refl

Reach-opens_example :
    (1 < 1 → (apply waited counted).places 5 ≢ returned)
    × (1 ≤ 1
        → ((apply waited counted).places 5 ≢ asleep)
          × ((look (apply waited counted) 5).places 5 ≡ returned))
Reach-opens_example = Reach-opens 1 1 (apply waited counted) 5 (next 0 waited counted one_waits tt)
