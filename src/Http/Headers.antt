-- ===== src/Http/Headers.antt =====
-- A header is read back as it was written.
use chtho.Prelude.{
  ℕ, ◌≡◌, refl, true, false, List, [], ◌∷◌, ◌++◌, length, arith, Bool-cases, inl, inr,
}
use chtho.Http.{
  Request, Headers, same, skip_spaces, trim_end, put_header, add_header, lookup, get_header,
}
use chtho.Http.RequestLine.{take-append, drop-append}

same_refl : (xs : List ℕ) → same xs xs ≡ true
same_refl [] = refl
same_refl (x ∷ xs) = ground (arith, same_refl xs)

lookup-put_header : (h : Headers) (key val : List ℕ) → lookup (put_header h key val) key ≡ val
unfolding lookup put_header
lookup-put_header [] key val = rw (same_refl key) refl
lookup-put_header ((k, v) ∷ rest) key val = elim (Bool-cases (same k key)) [
  | inl e ↦ ground (arith, e, same_refl key)
  | inr e ↦ ground (arith, e, lookup-put_header rest key val)
]

lookup-put_other :
    (h : Headers) (key other val : List ℕ)
    → same key other ≡ false
    → ((k : List ℕ) → same k key ≡ true → same k other ≡ false)
    → lookup (put_header h key val) other ≡ lookup h other
unfolding lookup put_header
lookup-put_other [] key other val n t = rw n refl
lookup-put_other ((k, v) ∷ rest) key other val n t = elim (Bool-cases (same k key)) [
  | inl e ↦ ground (arith, e, n, t k e)
  | inr e ↦ ground (arith, e, lookup-put_other rest key other val n t)
]

same_trans :
    (k key other : List ℕ) → same k key ≡ true → same key other ≡ false → same k other ≡ false
same_trans [] [] other e n = n
same_trans [] (y ∷ ys) other e n = cc
same_trans (x ∷ xs) [] other e n = cc
same_trans (x ∷ xs) (y ∷ ys) [] e n = refl
same_trans (x ∷ xs) (y ∷ ys) (z ∷ zs) e n = elim (Bool-cases (same ys zs)) [
  | inl f ↦ ground (arith, e, n, f)
  | inr f ↦ ground (arith, e, n, f, same_trans xs ys zs (ground (arith, e)) f)
]

-- A header line of a name, a colon, a space and a value with no space at its ends is kept: the name
-- gives the value, whatever it gave before, and every other name gives what it gave before.
get_header-add_header :
    (r : Request) (key val other : List ℕ)
    → skip_spaces val ≡ val
    → trim_end val ≡ val
    → (get_header (add_header r (key ++ 58 ∷ 32 ∷ val) (length key)) key ≡ val)
      × (same key other ≡ false
          → get_header (add_header r (key ++ 58 ∷ 32 ∷ val) (length key)) other
            ≡ get_header r other)
unfolding get_header add_header
get_header-add_header r key val other s t =
    let k = take-append key (58 ∷ 32 ∷ val) in
    let d = drop-append key (32 ∷ val) 58 in
    (
      rw (k, d, s, t) (lookup-put_header r.headers key val),
      λ n.
          rw (k, d, s, t)
            (lookup-put_other r.headers key other val n (λ x e. same_trans x key other e n)),
    )
