-- ===== src/MutexLock/Holder.antt =====
-- `holder_` names the thread that has the mutex.
use chtho.Prelude.{
  ℕ, ◌≡◌, ◌≢◌, ◌↔◌, refl, sym, ap, ◌∙◌, subst, Bool, true, false, some, ◌==◌, update, update_same,
  update_other, arith, Bool-cases, inl, inr,
}
use chtho.MutexLock.{
  MutexLock, assign_holder, revoke_holder, is_locked_by, Place, outside, locking, inside, unlocking,
  revoked, waiting, waking, Move, takes, assigns, revokes, releases, guards, waits, wakes,
  assigns_again, Reach, start, next,
}

-- In these places a thread has the mutex.
abbrev has_mutex : Place → Bool
has_mutex outside = false
has_mutex waiting = false
has_mutex _ = true

abbrev is_inside : Place → Bool
is_inside inside = true
is_inside _ = false

-- What the mutex says of a thread by its place.
record Fits (m : MutexLock) (tid : ℕ) (place : Place) : Type 0 where
  owned : has_mutex place ≡ true → m.owner ≡ some tid
  held : is_inside place ≡ true → m.holder ≡ tid
  holding : m.holder ≡ tid → is_inside place ≡ true

Move-Fits :
    (tid : ℕ) (m m' : MutexLock) (p p' : Place)
    → tid ≢ 0
    → Move tid m p m' p'
    → Fits m tid p
    → Fits m' tid p'
unfolding assign_holder revoke_holder
Move-Fits tid m _ _ _ real (takes h) f = ground arith
Move-Fits tid m _ _ _ real assigns f = ground arith
Move-Fits tid m _ _ _ real revokes f = ground arith
Move-Fits tid m _ _ _ real releases f = ground arith
Move-Fits tid m _ _ _ real guards f = ground arith
Move-Fits tid m _ _ _ real waits f = ground arith
Move-Fits tid m _ _ _ real (wakes h) f = ground arith
Move-Fits tid m _ _ _ real assigns_again f = ground arith

-- The other threads.
Move-other :
    (tid u : ℕ) (m m' : MutexLock) (p p' q : Place)
    → u ≢ 0
    → u ≢ tid
    → Move tid m p m' p'
    → Fits m tid p
    → Fits m u q
    → Fits m' u q
unfolding assign_holder revoke_holder
Move-other tid u m _ _ _ q real other (takes h) f g = ground arith
Move-other tid u m _ _ _ q real other assigns f g = ground arith
Move-other tid u m _ _ _ q real other revokes f g = ground arith
Move-other tid u m _ _ _ q real other releases f g = ground arith
Move-other tid u m _ _ _ q real other guards f g = ground arith
Move-other tid u m _ _ _ q real other waits f g = ground arith
Move-other tid u m _ _ _ q real other (wakes h) f g = ground arith
Move-other tid u m _ _ _ q real other assigns_again f g = ground arith

Reach-Fits :
    (m : MutexLock) (places : ℕ → Place) → Reach m places → (u : ℕ) → u ≢ 0 → Fits m u (places u)
Reach-Fits _ _ start u real = record {
  owned = λ h. cc;
  held = λ h. cc;
  holding = λ h. absurd (real (sym h));
}
Reach-Fits _ _ (next m m' places tid place r tid_real move) u real = elim (Bool-cases (tid == u)) [
  | inl same ↦
      subst (λ t. Fits m' t (update places tid place t)) (ground arith)
        (subst (Fits m' tid) (sym (update_same places tid place)) (
          Move-Fits tid m m' (places tid) place tid_real move (Reach-Fits m places r tid tid_real)))
  | inr other ↦ subst (Fits m' u) (sym (update_other places tid place u other)) (
      Move-other tid u m m' (places tid) place (places u) real (ground arith) move
        (Reach-Fits m places r tid tid_real) (Reach-Fits m places r u real))
]

inside_only : (p : Place) → is_inside p ≡ true → p ≡ inside
inside_only inside h = refl
inside_only outside h = cc
inside_only locking h = cc
inside_only unlocking h = cc
inside_only revoked h = cc
inside_only waiting h = cc
inside_only waking h = cc

-- Whatever threads lock, unlock and wait in whatever order: `isLockedByThisThread` is true of a
-- thread exactly while it is between `lock` and `unlock` and not in `wait`; the thread then has
-- the mutex of pthread, and is the only one there.
pub Reach-held :
    (m : MutexLock) (places : ℕ → Place) (tid : ℕ)
    → Reach m places
    → tid ≢ 0
    → ((is_locked_by m tid ≡ true) ↔ (places tid ≡ inside))
      × (places tid ≡ inside → m.owner ≡ some tid)
      × ((u : ℕ) → u ≢ 0 → places tid ≡ inside → places u ≡ inside → u ≡ tid)
unfolding is_locked_by
Reach-held m places tid r real =
    let f = Reach-Fits m places r tid real in
    (
      (
        λ h. inside_only (places tid) (f.holding (ground (arith, h))),
        λ h. ground (arith, f.held (ap is_inside h)),
      ),
      λ h. f.owned (ap has_mutex h),
      λ u u_real h k.
          sym ((Reach-Fits m places r u u_real).held (ap is_inside k)) ∙ f.held (ap is_inside h),
    )
