-- ===== src/Prelude/Indexing.antt =====
-- What stands at an index of a list that was changed.
use Prim.Native.Nat.{ℕ, zero, suc, ◌<◌}
use mathlib.Core.Path.{◌≡◌, refl}
use mathlib.Core.Bool.{◌&&◌}
use mathlib.Core.List.{List, [], ◌∷◌, ◌++◌}
use mathlib.Core.Option.{none, some}
use native.Mathlib.Omega.{arith}
use chtho.Prelude.Tests.{◌==◌, ltb, if◌then◌else◌}
use chtho.Prelude.Lists.{length, get_elem?, set, take}

module _ {ℓ} {A : Type ℓ} where
  pub get_elem?-bound : (xs : List A) (i : ℕ) {x : A} → get_elem? xs i ≡ some x → i < length xs
  get_elem?-bound [] i e = ground arith
  get_elem?-bound (y ∷ xs) zero e = omega arith
  get_elem?-bound (y ∷ xs) (suc i) e = omega (arith, get_elem?-bound xs i e)

  pub get_elem?-some : (xs : List A) (i : ℕ) → i < length xs → (x : A) × (get_elem? xs i ≡ some x)
  get_elem?-some [] i h = absurd (omega arith)
  get_elem?-some (y ∷ xs) zero h = (y, refl)
  get_elem?-some (y ∷ xs) (suc i) h = get_elem?-some xs i (omega arith)

  pub get_elem?-push :
      (xs : List A) (x : A) (i : ℕ)
      → get_elem? (xs ++ x ∷ []) i ≡ (if i == length xs then some x else get_elem? xs i)
  get_elem?-push [] x zero = refl
  get_elem?-push [] x (suc i) = ground arith
  get_elem?-push (y ∷ xs) x zero = ground arith
  get_elem?-push (y ∷ xs) x (suc i) = ground (arith, get_elem?-push xs x i)

  pub get_elem?-set :
      (xs : List A) (j : ℕ) (x : A) (i : ℕ)
      → get_elem? (set xs j x) i ≡ (if i == j && ltb i (length xs) then some x else get_elem? xs i)
  get_elem?-set [] j x i = ground arith
  get_elem?-set (y ∷ xs) zero x zero = ground arith
  get_elem?-set (y ∷ xs) zero x (suc i) = ground arith
  get_elem?-set (y ∷ xs) (suc j) x zero = ground arith
  get_elem?-set (y ∷ xs) (suc j) x (suc i) = ground (arith, get_elem?-set xs j x i)

  pub get_elem?-take :
      (n : ℕ) (xs : List A) (i : ℕ)
      → get_elem? (take n xs) i ≡ (if ltb i n then get_elem? xs i else none)
  get_elem?-take zero xs i = ground arith
  get_elem?-take (suc n) [] i = ground arith
  get_elem?-take (suc n) (y ∷ xs) zero = ground arith
  get_elem?-take (suc n) (y ∷ xs) (suc i) = ground (arith, get_elem?-take n xs i)
