-- ===== src/AppendFile/Taken.antt =====
-- `append` ends, and what has been taken of a line then.
use chtho.Prelude.{
  ℕ, zero, suc, ◌+◌, ◌-◌, ◌≤◌, ◌<◌, ◌≡◌, refl, sym, ap, ◌∙◌, List, [], ◌∷◌, ◌++◌, append_assoc,
  some, min, ◌==◌, length, take, take_all, drop, arith, Bool-cases, inl, inr,
}
use chtho.AppendFile.{AppendFile, append_loop, with_bytes, append}

-- A prefix of the line, with the whole of it if each call of fwrite takes something.
abbrev pub Prefix : (ℕ → ℕ) → List ℕ → List ℕ → List ℕ → Type 0
Prefix fwrite line old bytes =
    (k : ℕ) × (bytes ≡ old ++ take k line)
    × (k ≤ length line)
    × (((i : ℕ) → 0 < fwrite i) → k ≡ length line)

take-drop : (n x : ℕ) (xs : List ℕ) → take n xs ++ take x (drop n xs) ≡ take (n + x) xs
take-drop zero x xs = ap (λ k. take k xs) e
  where
    e : x ≡ 0 + x
    e = omega arith
take-drop (suc n) x [] = take_all x [] (omega arith) ∙ sym (take_all (suc n + x) [] (omega arith))
take-drop (suc n) x (y ∷ xs) = ap (◌∷◌ y) (take-drop n x xs) ∙ ap (λ k. take k (y ∷ xs)) e
  where
    e : suc (n + x) ≡ suc n + x
    e = omega arith

append_loop-Prefix :
    (fuel : ℕ) (fwrite : ℕ → ℕ) (call : ℕ) (line : List ℕ) (n remain : ℕ) (old : List ℕ)
    → n + remain ≡ length line
    → remain < fuel
    → (bytes : List ℕ) × (append_loop fuel fwrite call line n remain (old ++ take n line)
        ≡ some bytes)
      × Prefix fwrite line old bytes
unfolding append_loop
append_loop-Prefix zero fwrite call line n remain old whole enough = absurd (omega arith)
append_loop-Prefix (suc fuel) fwrite call line n remain old whole enough =
    elim (Bool-cases (remain == 0)) [
      | inl done ↦ (old ++ take n line, rw done refl, (n, refl, omega arith, λ h. ground arith))
      | inr more ↦ elim (Bool-cases (min (fwrite call) remain == 0)) [
        | inl stuck ↦ (
          old ++ take n line,
          rw (more, stuck) refl,
          (n, refl, omega arith, λ h. ground (arith, h call)),
        )
        | inr goes ↦
            let x = min (fwrite call) remain in
            let rest =
              append_loop-Prefix fuel fwrite (call + 1) line (n + x) (remain - x) old (ground arith)
                (ground arith) in
            (
              rest.0,
              rw (more, goes)
                  (ap (append_loop fuel fwrite (call + 1) line (n + x) (remain - x)) (
                      append_assoc old (take n line) (take x (drop n line))
                      ∙ ap (λ xs. old ++ xs) (take-drop n x line))
                    ∙ rest.1),
              rest.2,
            )
      ]
    ]

-- With more fuel than the line has bytes, `append` ends, having written a first part of the line
-- behind what is there; it is the whole line if no call of fwrite fails to take something. The number
-- of bytes written grows by the length of the line in any case, and the name stays.
pub append-Prefix :
    (fuel : ℕ) (fwrite : ℕ → ℕ) (f : AppendFile) (line : List ℕ)
    → length line < fuel
    → (f' : AppendFile) × (append fuel fwrite f line ≡ some f')
      × Prefix fwrite line f.taken f'.taken
      × (f'.written ≡ f.written + length line)
      × (f'.name ≡ f.name)
unfolding append
append-Prefix fuel fwrite f line enough =
    let n = min (fwrite 0) (length line) in
    let (bytes, e, p) =
      append_loop-Prefix fuel fwrite 1 line n (length line - n) f.taken (omega arith)
        (omega arith) in
    (
      record f { taken = bytes; written = f.written + length line },
      ap (with_bytes f line) e,
      p,
      refl,
      refl,
    )
