-- ===== src/Prelude/Slices.antt =====
-- Arrays as lists: resizing, copying into, cutting out.
use Prim.Native.Nat.{ℕ, zero, suc, ◌+◌, ◌-◌, ◌≤◌}
use mathlib.Core.Path.{◌≡◌, refl, ap, sym, ◌∙◌}
use mathlib.Core.List.{List, [], ◌∷◌, ◌++◌, append_assoc}
use native.Mathlib.Omega.{arith}
use chtho.Prelude.Lists.{length, take, drop, length-append, length-take, length-drop}

module _ {ℓ} {A : Type ℓ} where
  -- The elements at the indices from `a` up to, but not with, `b`.
  abbrev pub slice : List A → ℕ → ℕ → List A
  slice xs a b = drop a (take b xs)

  -- `std::copy(ys.begin(), ys.end(), xs.begin() + i)`, where it fits.
  abbrev pub overwrite : List A → ℕ → List A → List A
  overwrite xs i ys = take i xs ++ (ys ++ drop (i + length ys) xs)

  pub take-append_le : (n : ℕ) (xs ys : List A) → n ≤ length xs → take n (xs ++ ys) ≡ take n xs
  take-append_le zero xs ys h = refl
  take-append_le (suc n) [] ys h = absurd (omega arith)
  take-append_le (suc n) (x ∷ xs) ys h = ap (◌∷◌ x) (take-append_le n xs ys (omega arith))

  pub take_all : (n : ℕ) (xs : List A) → length xs ≤ n → take n xs ≡ xs
  take_all zero [] h = refl
  take_all zero (x ∷ xs) h = absurd (omega arith)
  take_all (suc n) [] h = refl
  take_all (suc n) (x ∷ xs) h = ap (◌∷◌ x) (take_all n xs (omega arith))

  pub drop_all : (n : ℕ) (xs : List A) → length xs ≤ n → drop n xs ≡ []
  drop_all zero [] h = refl
  drop_all zero (x ∷ xs) h = absurd (omega arith)
  drop_all (suc n) [] h = refl
  drop_all (suc n) (x ∷ xs) h = drop_all n xs (omega arith)

  pub take-append_ge :
      (n : ℕ) (xs ys : List A) → length xs ≤ n → take n (xs ++ ys) ≡ xs ++ take (n - length xs) ys
  take-append_ge n [] ys h = ap (λ k. take k ys) (omega arith)
  take-append_ge zero (x ∷ xs) ys h = absurd (omega arith)
  take-append_ge (suc n) (x ∷ xs) ys h =
      ap (◌∷◌ x) (take-append_ge n xs ys (omega arith) ∙ ap (λ k. xs ++ take k ys) (omega arith))

  pub drop-append_le :
      (n : ℕ) (xs ys : List A) → n ≤ length xs → drop n (xs ++ ys) ≡ drop n xs ++ ys
  drop-append_le zero xs ys h = refl
  drop-append_le (suc n) [] ys h = absurd (omega arith)
  drop-append_le (suc n) (x ∷ xs) ys h = drop-append_le n xs ys (omega arith)

  pub drop-drop : (m n : ℕ) (xs : List A) → drop m (drop n xs) ≡ drop (n + m) xs
  drop-drop m zero xs = ap (λ k. drop k xs) (omega arith)
  drop-drop m (suc n) [] = drop_all m [] (omega arith) ∙ sym (drop_all (suc n + m) [] (omega arith))
  drop-drop m (suc n) (x ∷ xs) = drop-drop m n xs ∙ ap (λ k. drop k (x ∷ xs)) e
    where
      e : suc (n + m) ≡ suc n + m
      e = omega arith

  pub drop-take : (m n : ℕ) (xs : List A) → drop m (take n xs) ≡ take (n - m) (drop m xs)
  drop-take zero n xs = let e : n ≡ n - 0 = omega arith in ap (λ k. take k xs) e
  drop-take (suc m) zero xs =
      let e : 0 ≡ 0 - suc m = omega arith in ap (λ k. take k (drop (suc m) xs)) e
  drop-take (suc m) (suc n) [] = sym (take_all _ [] (omega arith))
  drop-take (suc m) (suc n) (x ∷ xs) =
      let e : n - m ≡ suc n - suc m = omega arith in
      drop-take m n xs ∙ ap (λ k. take k (drop m xs)) e

  pub length-slice : (xs : List A) (a b : ℕ) → b ≤ length xs → length (slice xs a b) ≡ b - a
  length-slice xs a b h = omega (arith, length-drop a (take b xs), length-take b xs)

  pub length-overwrite :
      (xs : List A) (i : ℕ) (ys : List A)
      → i + length ys ≤ length xs
      → length (overwrite xs i ys) ≡ length xs
  length-overwrite xs i ys h = omega (
    arith,
    length-append (take i xs) (ys ++ drop (i + length ys) xs),
    length-append ys (drop (i + length ys) xs),
    length-take i xs,
    length-drop (i + length ys) xs,
  )

  pub take_left : (n : ℕ) (xs ys : List A) → n ≡ length xs → take n (xs ++ ys) ≡ xs
  take_left n xs ys e = take-append_le n xs ys (omega arith) ∙ take_all n xs (omega arith)

  pub drop_left : (n : ℕ) (xs ys : List A) → n ≡ length xs → drop n (xs ++ ys) ≡ ys
  drop_left n xs ys e =
      drop-append_le n xs ys (omega arith) ∙ ap (λ zs. zs ++ ys) (drop_all n xs (omega arith))

  -- What was written is read back.
  pub slice-overwrite :
      (xs : List A) (i : ℕ) (ys : List A) (j : ℕ)
      → i ≤ length xs
      → j ≡ i + length ys
      → slice (overwrite xs i ys) i j ≡ ys
  slice-overwrite xs i ys j h e = rw (← append_assoc (take i xs) ys (drop (i + length ys) xs)) (
      ap (drop i) (
        take_left j (take i xs ++ ys) (drop (i + length ys) xs)
          (omega (arith, length-append (take i xs) ys, n)))
      ∙ drop_left i (take i xs) ys (sym n))
    where
      n : length (take i xs) ≡ i
      n = omega (arith, length-take i xs)

  -- What is written just past a slice lengthens it.
  pub slice-overwrite_end :
      (xs : List A) (h i : ℕ) (ys : List A) (j : ℕ)
      → h ≤ i
      → i ≤ length xs
      → j ≡ i + length ys
      → slice (overwrite xs i ys) h j ≡ slice xs h i ++ ys
  slice-overwrite_end xs h i ys j le inside e =
      rw (← append_assoc (take i xs) ys (drop (i + length ys) xs)) (
        ap (drop h) (
          take_left j (take i xs ++ ys) (drop (i + length ys) xs)
            (omega (arith, length-append (take i xs) ys, n)))
        ∙ drop-append_le h (take i xs) ys (omega (arith, n)))
    where
      n : length (take i xs) ≡ i
      n = omega (arith, length-take i xs)

  -- What is written just before a slice comes in front of it.
  pub slice-overwrite_start :
      (xs : List A) (i : ℕ) (ys : List A) (h j : ℕ)
      → h ≡ i + length ys
      → h ≤ j
      → j ≤ length xs
      → slice (overwrite xs i ys) i j ≡ ys ++ slice xs h j
  slice-overwrite_start xs i ys h j e le inside = rw (← e) (
      ap (drop i) (
        take-append_ge j (take i xs) (ys ++ drop h xs) (omega (arith, n))
        ∙ ap (λ zs. take i xs ++ zs)
            (take-append_ge (j - length (take i xs)) ys (drop h xs) (omega (arith, n))))
      ∙ drop_left i (take i xs) (ys ++ take (j - length (take i xs) - length ys) (drop h xs))
          (sym n)
      ∙ ap (λ zs. ys ++ zs) (ap (λ k. take k (drop h xs)) k ∙ sym (drop-take h j xs)))
    where
      n : length (take i xs) ≡ i
      n = omega (arith, length-take i xs)

      k : j - length (take i xs) - length ys ≡ j - h
      k = omega (arith, n)

  pub take-take : (m n : ℕ) (xs : List A) → m ≤ n → take m (take n xs) ≡ take m xs
  take-take zero n xs h = refl
  take-take (suc m) zero xs h = absurd (omega arith)
  take-take (suc m) (suc n) [] h = refl
  take-take (suc m) (suc n) (x ∷ xs) h = ap (◌∷◌ x) (take-take m n xs (omega arith))

  pub take-slice :
      (xs : List A) (a b n : ℕ) → n ≤ b - a → take n (slice xs a b) ≡ slice xs a (a + n)
  take-slice xs a b n h =
      let e : a + n - a ≡ n = omega arith in
      ap (take n) (drop-take a b xs)
      ∙ take-take n (b - a) (drop a xs) h
      ∙ sym (drop-take a (a + n) xs ∙ ap (λ k. take k (drop a xs)) e)

  pub take-length : (xs ys : List A) → take (length xs) (xs ++ ys) ≡ xs
  take-length xs ys = take_left (length xs) xs ys refl

  pub drop-length : (xs ys : List A) → drop (length xs) (xs ++ ys) ≡ ys
  drop-length xs ys = drop_left (length xs) xs ys refl
