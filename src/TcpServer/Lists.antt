-- ===== src/TcpServer/Lists.antt =====
-- The functions that wait for one connection, and the taking of the first one of a loop.
use chtho.Prelude.{
  ℕ, ◌≡◌, refl, sym, ap, ◌∙◌, true, false, List, [], ◌∷◌, ◌++◌, append-nil, some, if◌then◌else◌,
  ◌==◌, arith, Bool-cases, inl, inr, Option-cases,
}
use chtho.Http.{same}
use chtho.TcpServer.{Func, conn_of, take_first}

-- The functions that wait for a connection, with their loops.
unfoldable pub waiting : ℕ → List (ℕ × Func) → List (ℕ × Func)
waiting a [] = []
waiting a ((l, f) ∷ ts) = let rest = waiting a ts in if conn_of f == a then (l, f) ∷ rest else rest

waiting-append :
    (a : ℕ) (xs ys : List (ℕ × Func)) → waiting a (xs ++ ys) ≡ waiting a xs ++ waiting a ys
unfolding waiting
waiting-append a [] ys = refl
waiting-append a ((l, f) ∷ xs) ys = elim (Bool-cases (conn_of f == a)) [
  | inl h ↦ rw h (ap (◌∷◌ (l, f)) (waiting-append a xs ys))
  | inr h ↦ rw h (waiting-append a xs ys)
]

waiting_own :
    (l : ℕ) (f : Func) (ys : List (ℕ × Func))
    → waiting (conn_of f) ((l, f) ∷ ys) ≡ (l, f) ∷ waiting (conn_of f) ys
unfolding waiting
waiting_own l f ys = ground arith

waiting_other :
    (a l : ℕ) (f : Func) (ys : List (ℕ × Func))
    → (conn_of f == a) ≡ false
    → waiting a ((l, f) ∷ ys) ≡ waiting a ys
unfolding waiting
waiting_other a l f ys h = rw h refl

-- A function that is put behind all others.
pub waiting_push :
    (a l : ℕ) (f : Func) (ts : List (ℕ × Func))
    → (conn_of f == a) ≡ false
    → waiting a (ts ++ (l, f) ∷ []) ≡ waiting a ts
unfolding waiting
waiting_push a l f ts h =
    waiting-append a ts ((l, f) ∷ [])
    ∙ ap (λ xs. waiting a ts ++ xs) (waiting_other a l f [] h)
    ∙ append-nil (waiting a ts)

pub waiting_push_own :
    (l : ℕ) (f : Func) (ts : List (ℕ × Func))
    → waiting (conn_of f) ts ≡ []
    → waiting (conn_of f) (ts ++ (l, f) ∷ []) ≡ (l, f) ∷ []
unfolding waiting
waiting_push_own l f ts h =
    waiting-append (conn_of f) ts ((l, f) ∷ [])
    ∙ ap (λ xs. xs ++ waiting (conn_of f) ((l, f) ∷ [])) h
    ∙ waiting_own l f []

-- Where a function was taken from.
abbrev pub Split : ℕ → Func → List (ℕ × Func) → List (ℕ × Func) → Type 0
Split l f ts rest =
    (xs : List (ℕ × Func)) × (ys : List (ℕ × Func)) × (ts ≡ xs ++ (l, f) ∷ ys) × (rest ≡ xs ++ ys)

pub take_first-Split :
    (l : ℕ) (ts : List (ℕ × Func)) (f : Func) (rest : List (ℕ × Func))
    → take_first l ts ≡ some (f, rest)
    → Split l f ts rest
unfolding take_first
take_first-Split l [] f rest e = cc
take_first-Split l ((k, g) ∷ ts) f rest e = elim (Bool-cases (k == l)) [
  | inl h ↦ ([], ts, ground (arith, e), ground (arith, e))
  | inr h ↦ elim (Option-cases (take_first l ts)) [
    | inl d ↦ absurd (ground (arith, e, d))
    | inr ((g', us), d) ↦
        let taken : g' ≡ f = ground (arith, e, d, h) in
        let left : rest ≡ (k, g) ∷ us = ground (arith, e, d, h) in
        let (xs, ys, p, q) = take_first-Split l ts f us (d ∙ ap (λ x. some (x, us)) taken) in
        ((k, g) ∷ xs, ys, ap (◌∷◌ (k, g)) p, left ∙ ap (◌∷◌ (k, g)) q)
  ]
]

middle : {A : Type 0} (xs ys : List A) (t x : A) → xs ++ t ∷ ys ≡ x ∷ [] → (x ≡ t) × (xs ++ ys ≡ [])
middle [] ys t x e = (cc, cc)
middle (y ∷ []) ys t x e = cc
middle (y ∷ z ∷ xs) ys t x e = cc

middle_none : {A : Type 0} (xs ys : List A) (t : A) → xs ++ t ∷ ys ≡ [] → ⊥
middle_none [] ys t e = cc
middle_none (y ∷ xs) ys t e = cc

-- The first function of a loop is the one that waits for its connection, if only one does.
pub Split-own :
    (l : ℕ) (f : Func) (ts rest : List (ℕ × Func)) (x : ℕ × Func)
    → Split l f ts rest
    → waiting (conn_of f) ts ≡ x ∷ []
    → (x ≡ (l, f)) × (waiting (conn_of f) rest ≡ [])
Split-own l f ts rest x (xs, ys, p, q) e =
    let a = conn_of f in
    let (same, left) =
      middle (waiting a xs) (waiting a ys) (l, f) x
        (ap (λ zs. waiting a xs ++ zs) (sym (waiting_own l f ys))
          ∙ sym (waiting-append a xs ((l, f) ∷ ys))
          ∙ ap (waiting a) (sym p)
          ∙ e) in
    (same, ap (waiting a) q ∙ waiting-append a xs ys ∙ left)

pub Split-none :
    (l : ℕ) (f : Func) (ts rest : List (ℕ × Func))
    → Split l f ts rest
    → waiting (conn_of f) ts ≡ []
    → ⊥
Split-none l f ts rest (xs, ys, p, q) e =
    let a = conn_of f in
    middle_none (waiting a xs) (waiting a ys) (l, f)
      (ap (λ zs. waiting a xs ++ zs) (sym (waiting_own l f ys))
        ∙ sym (waiting-append a xs ((l, f) ∷ ys))
        ∙ ap (waiting a) (sym p)
        ∙ e)

pub Split-other :
    (a l : ℕ) (f : Func) (ts rest : List (ℕ × Func))
    → Split l f ts rest
    → (conn_of f == a) ≡ false
    → waiting a rest ≡ waiting a ts
Split-other a l f ts rest (xs, ys, p, q) h =
    ap (waiting a) q
    ∙ waiting-append a xs ys
    ∙ ap (λ zs. waiting a xs ++ zs) (sym (waiting_other a l f ys h))
    ∙ sym (waiting-append a xs ((l, f) ∷ ys))
    ∙ ap (waiting a) (sym p)

-- Strings that are the same are equal.
pub same_refl : (xs : List ℕ) → same xs xs ≡ true
same_refl [] = refl
same_refl (x ∷ xs) = ground (arith, same_refl xs)

pub same→≡ : (xs ys : List ℕ) → same xs ys ≡ true → xs ≡ ys
same→≡ [] [] e = refl
same→≡ [] (y ∷ ys) e = cc
same→≡ (x ∷ xs) [] e = cc
same→≡ (x ∷ xs) (y ∷ ys) e = ground (arith, same→≡ xs ys)
