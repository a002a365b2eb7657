-- ===== src/CountDownLatch/Opens.antt =====
-- The latch opens when the count is 0, and no thread is left asleep.
use chtho.Prelude.{
  ℕ, zero, suc, ◌≡◌, refl, sym, subst, ◌∙◌, true, false, ◌==◌, if◌then◌else◌, ℤ, pos, negsuc, ltb,
  ◌+◌, ◌<◌, ◌≤◌, ◌≢◌, update, update_same, update_other, arith, Bool-cases, inl, inr,
}
use chtho.CountDownLatch.{
  Place, outside, asleep, looking, returned, Latch, make, is_positive, is_zero, dec, wake, look,
  count_down, Event, called, looked, woken, counted, apply, Reach, start, next,
}

-- What the count says of a thread by its place.
abbrev Fits : ℤ → Place → Type 0
Fits n asleep = is_positive n ≡ true
Fits n returned = is_positive n ≡ false
Fits n _ = Unit {0}

look-Fits : (n : ℤ) → Fits n (if is_positive n then asleep else returned)
look-Fits (pos zero) = refl
look-Fits (pos (suc n)) = refl
look-Fits (negsuc n) = refl

count_down-Fits :
    (n : ℤ) (p : Place) → Fits n p → Fits (dec n) (if is_zero (dec n) then wake p else p)
count_down-Fits n outside f = elim (Bool-cases (is_zero (dec n))) [
  | inl h ↦ rw h tt
  | inr h ↦ rw h tt
]
count_down-Fits n looking f = elim (Bool-cases (is_zero (dec n))) [
  | inl h ↦ rw h tt
  | inr h ↦ rw h tt
]
count_down-Fits (pos zero) asleep f = cc
count_down-Fits (pos (suc zero)) asleep f = tt
count_down-Fits (pos (suc (suc n))) asleep f = refl
count_down-Fits (negsuc n) asleep f = cc
count_down-Fits (pos zero) returned f = refl
count_down-Fits (pos (suc n)) returned f = cc
count_down-Fits (negsuc n) returned f = refl

update-Fits :
    (n : ℤ) (places : ℕ → Place) (t : ℕ) (p : Place)
    → ((u : ℕ) → Fits n (places u))
    → Fits n p
    → (u : ℕ) → Fits n (update places t p u)
update-Fits n places t p f g u = elim (Bool-cases (t == u)) [
  | inl same ↦
      subst (λ v. Fits n (update places t p v)) (ground arith)
        (subst (Fits n) (sym (update_same places t p)) g)
  | inr other ↦ subst (Fits n) (sym (update_other places t p u other)) (f u)
]

apply-Fits :
    (l : Latch) (e : Event)
    → ((u : ℕ) → Fits l.count (l.places u))
    → (u : ℕ) → Fits (apply l e).count ((apply l e).places u)
unfolding apply look count_down
apply-Fits l (called t) f u = update-Fits l.count l.places t looking f tt u
apply-Fits l (woken t) f u = update-Fits l.count l.places t looking f tt u
apply-Fits l (looked t) f u =
    update-Fits l.count l.places t (if is_positive l.count then asleep else returned) f
      (look-Fits l.count) u
apply-Fits l counted f u = count_down-Fits l.count (l.places u) (f u)

Reach-Fits : (n k : ℕ) (l : Latch) → Reach n k l → (u : ℕ) → Fits l.count (l.places u)
unfolding make
Reach-Fits n _ _ start u = tt
Reach-Fits n _ _ (next k l e r a) u = apply-Fits l e (Reach-Fits n k l r) u

-- The count after as many calls.
abbrev Left : ℕ → ℕ → ℤ → Type 0
Left n k (pos m) = m + k ≡ n
Left n k (negsuc m) = n + suc m ≡ k

dec-Left : (n k : ℕ) (v : ℤ) → Left n k v → Left n (k + 1) (dec v)
dec-Left n k (pos zero) h = omega arith
dec-Left n k (pos (suc m)) h = omega arith
dec-Left n k (negsuc m) h = omega arith

keep-Left : (n k : ℕ) (v : ℤ) → Left n k v → Left n (k + 0) v
keep-Left n k (pos m) h = omega arith
keep-Left n k (negsuc m) h = omega arith

Reach-Left : (n k : ℕ) (l : Latch) → Reach n k l → Left n k l.count
unfolding make apply look count_down
Reach-Left n _ _ start = omega arith
Reach-Left n _ _ (next k l (called t) r a) = keep-Left n k l.count (Reach-Left n k l r)
Reach-Left n _ _ (next k l (looked t) r a) = keep-Left n k l.count (Reach-Left n k l r)
Reach-Left n _ _ (next k l (woken t) r a) = keep-Left n k l.count (Reach-Left n k l r)
Reach-Left n _ _ (next k l counted r a) = dec-Left n k l.count (Reach-Left n k l r)

Left-positive : (n k : ℕ) (v : ℤ) → Left n k v → is_positive v ≡ ltb k n
Left-positive n k (pos zero) h = ground arith
Left-positive n k (pos (suc m)) h = ground arith
Left-positive n k (negsuc m) h = ground arith

still_closed : (v : ℤ) (p : Place) → Fits v p → is_positive v ≡ true → p ≢ returned
still_closed v returned f h = λ e. cc
still_closed v outside f h = λ e. cc
still_closed v asleep f h = λ e. cc
still_closed v looking f h = λ e. cc

none_asleep : (v : ℤ) (p : Place) → Fits v p → is_positive v ≡ false → p ≢ asleep
none_asleep v returned f h = λ e. cc
none_asleep v outside f h = λ e. cc
none_asleep v asleep f h = λ e. cc
none_asleep v looking f h = λ e. cc

-- Whatever threads do with a latch that was made with `n`: while `countDown` was called less than
-- `n` times, `wait` has returned in no thread; from then on no thread is asleep in `wait`, and each
-- thread that looks at the count returns.
pub Reach-opens :
    (n k : ℕ) (l : Latch) (t : ℕ)
    → Reach n k l
    → (k < n → l.places t ≢ returned)
      × (n ≤ k → (l.places t ≢ asleep) × ((look l t).places t ≡ returned))
unfolding look
Reach-opens n k l t r =
    let f = Reach-Fits n k l r t in
    let e = Left-positive n k l.count (Reach-Left n k l r) in
    (
      λ h. still_closed l.count (l.places t) f (ground (arith, e)),
      λ h.
          let shut : is_positive l.count ≡ false = ground (arith, e) in
          (none_asleep l.count (l.places t) f shut, update_same l.places t _ ∙ rw shut refl),
    )
