-- ===== src/OrderedSet.antt =====
-- `std::set` of pairs in their order: the two sets of TimerQueue.h. A set is the list of its
-- elements, smallest first; `insert` does nothing if the element is there.
use chtho.Prelude.{
  ℕ, ◌+◌, ◌≡◌, ◌↔◌, refl, subst, Bool, true, false, not, ◌&&◌, List, [], ◌∷◌, ◌++◌, arith, ltb,
  ◌==◌, if◌then◌else◌, length, inl, inr, Bool-cases,
}

abbrev pub Pair : Type 0
Pair = ℕ × ℕ

-- `operator<` of `std::pair`
abbrev pair_lt : Pair → Pair → Bool
pair_lt (a, b) (c, d) = if ltb a c then true else if ltb c a then false else ltb b d

abbrev pair_eq : Pair → Pair → Bool
pair_eq (a, b) (c, d) = a == c && b == d

pair_eq_iff : (x y : Pair) → (pair_eq x y ≡ true) ↔ (x ≡ y)
pair_eq_iff (a, b) (c, d) = ground arith

unfoldable pub member : Pair → List Pair → Bool
member x [] = false
member x (y ∷ ys) = if pair_eq y x then true else member x ys

unfoldable pub insert : Pair → List Pair → List Pair
insert x [] = x ∷ []
insert x (y ∷ ys) =
    let rest = insert x ys in
    if pair_lt x y then x ∷ (y ∷ ys) else if pair_eq x y then y ∷ ys else y ∷ rest

unfoldable pub erase : Pair → List Pair → List Pair
erase x [] = []
erase x (y ∷ ys) = if pair_eq y x then ys else y ∷ erase x ys

-- The elements before `lower_bound(x)`, and those from there on.
unfoldable pub before : Pair → List Pair → List Pair
before x [] = []
before x (y ∷ ys) = let rest = before x ys in if pair_lt y x then y ∷ rest else []

unfoldable pub from : Pair → List Pair → List Pair
from x [] = []
from x (y ∷ ys) = let rest = from x ys in if pair_lt y x then rest else y ∷ ys

-- All elements come after `x`.
abbrev pub Above : Pair → List Pair → Type 0
Above x [] = Unit {0}
Above x (y ∷ ys) = (pair_lt x y ≡ true) × Above x ys

abbrev pub IsSorted : List Pair → Type 0
IsSorted [] = Unit {0}
IsSorted (x ∷ xs) = Above x xs × IsSorted xs

pair_lt_trans : (x y z : Pair) → pair_lt x y ≡ true → pair_lt y z ≡ true → pair_lt x z ≡ true
pair_lt_trans (a, b) (c, d) (e, f) h k = ground arith

Above-trans : (x y : Pair) (s : List Pair) → pair_lt x y ≡ true → Above y s → Above x s
Above-trans x y [] h a = tt
Above-trans x y (z ∷ s) h a = (pair_lt_trans x y z h a.0, Above-trans x y s h a.1)

pub Above-not_member : (x : Pair) (s : List Pair) → Above x s → member x s ≡ false
unfolding member
Above-not_member x [] a = refl
Above-not_member (a, b) ((c, d) ∷ s) h = ground (arith, Above-not_member (a, b) s h.1)

Above-insert : (x y : Pair) (s : List Pair) → pair_lt x y ≡ true → Above x s → Above x (insert y s)
unfolding insert
Above-insert x y [] h a = (h, tt)
Above-insert x y (z ∷ s) h a = ground (arith, Above-insert x y s h a.1)

pub insert-IsSorted : (x : Pair) (s : List Pair) → IsSorted s → IsSorted (insert x s)
unfolding insert
insert-IsSorted x [] h = (tt, tt)
insert-IsSorted (a, b) ((c, d) ∷ s) h =
    ground (
      arith,
      insert-IsSorted (a, b) s h.1,
      Above-insert (c, d) (a, b) s,
      Above-trans (a, b) (c, d) s,
    )

pub member-insert :
    (x y : Pair) (s : List Pair)
    → member y (insert x s) ≡ (if pair_eq x y then true else member y s)
unfolding member insert
member-insert x y [] = refl
member-insert (a, b) (c, d) ((e, f) ∷ s) = ground (arith, member-insert (a, b) (c, d) s)

Above-erase : (x y : Pair) (s : List Pair) → Above x s → Above x (erase y s)
unfolding erase
Above-erase x y [] a = tt
Above-erase x y (z ∷ s) a = ground (arith, Above-erase x y s a.1)

pub erase-IsSorted : (x : Pair) (s : List Pair) → IsSorted s → IsSorted (erase x s)
unfolding erase
erase-IsSorted x [] h = tt
erase-IsSorted x (y ∷ s) h = ground (arith, erase-IsSorted x s h.1, Above-erase y x s h.0)

pub member-erase :
    (x y : Pair) (s : List Pair)
    → IsSorted s
    → member y (erase x s) ≡ (if pair_eq x y then false else member y s)
unfolding member erase
member-erase x y [] h = ground arith
member-erase (a, b) (c, d) ((e, f) ∷ s) h =
    ground (arith, member-erase (a, b) (c, d) s h.1, Above-not_member (e, f) s h.0)

pub length-insert :
    (x : Pair) (s : List Pair)
    → IsSorted s
    → member x s ≡ false
    → length (insert x s) ≡ length s + 1
unfolding member insert
length-insert x [] h n = omega arith
length-insert (a, b) ((c, d) ∷ s) h n = ground (arith, length-insert (a, b) s h.1)

pub length-erase :
    (x : Pair) (s : List Pair) → member x s ≡ true → length (erase x s) + 1 ≡ length s
unfolding member erase
length-erase x [] n = cc
length-erase (a, b) ((c, d) ∷ s) n = ground (arith, length-erase (a, b) s)

pub before-append-from : (x : Pair) (s : List Pair) → before x s ++ from x s ≡ s
unfolding before from
before-append-from x [] = refl
before-append-from x (y ∷ s) = ground (arith, before-append-from x s)

from-IsSorted : (x : Pair) (s : List Pair) → IsSorted s → IsSorted (from x s)
unfolding from
from-IsSorted x [] h = tt
from-IsSorted x (y ∷ s) h = ground (arith, from-IsSorted x s h.1)

Above-from :
    (x : Pair) (s : List Pair) (y : Pair) → Above x s → member y s ≡ true → pair_lt x y ≡ true
unfolding member
Above-from x [] y a m = cc
Above-from x (z ∷ s) y a m = elim (Bool-cases (pair_eq z y)) [
  | inl e ↦ subst (λ w. pair_lt x w ≡ true) ((pair_eq_iff z y).0 e) a.0
  | inr e ↦ Above-from x s y a.1 (ground (arith))
]

-- The elements before the lower bound are those that are smaller, the others are not.
pub member-before :
    (x y : Pair) (s : List Pair) → IsSorted s → member y (before x s) ≡ (member y s && pair_lt y x)
unfolding member before
member-before x y [] h = refl
member-before (a, b) (c, d) ((e, f) ∷ s) h =
    ground (arith, member-before (a, b) (c, d) s h.1, Above-from (e, f) s (c, d) h.0)

pub member-from :
    (x y : Pair) (s : List Pair)
    → IsSorted s
    → member y (from x s) ≡ (member y s && not (pair_lt y x))
unfolding member from
member-from x y [] h = refl
member-from (a, b) (c, d) ((e, f) ∷ s) h =
    ground (arith, member-from (a, b) (c, d) s h.1, Above-from (e, f) s (c, d) h.0)
