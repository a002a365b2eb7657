-- ===== src/LogFile/Kept.antt =====
-- The bytes that fwrite(3) has taken for the files of a log, and when these were opened.
use chtho.Prelude.{
  ℕ, suc, ◌+◌, ◌≤◌, ◌<◌, ◌≡◌, ◌⊎◌, refl, sym, ap, subst, ◌∙◌, List, [], ◌∷◌, ◌++◌, append-nil,
  append_assoc, take_all, none, some, ok, fail, Fault, Result, Bool, true, ◌>>=◌, ltb, leb, ◌==◌,
  length, arith, Bool-cases, inl, inr,
}
use chtho.AppendFile.{AppendFile, opened, flush, append}
use chtho.AppendFile.Taken.{append-Prefix}
use chtho.LogFile.{
  LogFile, period, roll, rolled, check_time, appended, after_append, append_unlocked, next_line,
  append_lines,
}

-- The bytes of closed files, the oldest first.
abbrev closed_text : List AppendFile → List ℕ
closed_text [] = []
closed_text (f ∷ fs) = closed_text fs ++ f.taken

abbrev pub text : List (List ℕ × ℕ × ℕ) → List ℕ
text [] = []
text ((line, now, again) ∷ lines) = line ++ text lines

abbrev pub Shorter : ℕ → List (List ℕ × ℕ × ℕ) → Type 0
Shorter fuel [] = Unit {0}
Shorter fuel ((line, now, again) ∷ lines) = (length line < fuel) × Shorter fuel lines

module _ (filename : ℕ → List ℕ) (fopen : ℕ → Bool) (opens : (t : ℕ) → fopen t ≡ true) where
  -- Files opened under the names of different times, which are before the bound and go down.
  abbrev pub Opened : List AppendFile → ℕ → Type 0
  Opened [] bound = Unit {0}
  Opened (f ∷ fs) bound = (t : ℕ) × (t < bound) × (f.name ≡ filename t) × Opened fs t

  -- The log has its present file, the names are in order, and fwrite has taken the bytes as given.
  abbrev pub Holds : LogFile → List ℕ → AppendFile → Type 0
  Holds l xs f =
      (l.file ≡ some f)
      × (closed_text l.closed ++ f.taken ≡ xs)
      × Opened (f ∷ l.closed) (suc l.last_roll)

  -- The present file is within the bound, or could not be left, since a file was opened at that
  -- time already.
  abbrev pub Bounded : LogFile → ℕ → AppendFile → Type 0
  Bounded l again f = (f.written ≤ l.roll_size) ⊎ (again ≤ l.last_roll)

  abbrev Logs : Result LogFile → List ℕ → ℕ → ℕ → Type 0
  Logs r xs again size =
      (l : LogFile) × (r ≡ ok l)
      × (f : AppendFile) × Holds l xs f
      × Bounded l again f
      × (l.roll_size ≡ size)

  roll-Logs :
      (l : LogFile) (xs : List ℕ) (f : AppendFile) (now : ℕ)
      → Holds l xs f
      → Logs (rolled filename fopen l now) xs now l.roll_size
  unfolding roll
  roll-Logs l xs f now (e, t, o) = elim (Bool-cases (ltb l.last_roll now)) [
    | inl late ↦
        rw (late, opens now, e)
          (
            _,
            refl,
            opened (filename now),
            (
              refl,
              append-nil (closed_text l.closed ++ f.taken) ∙ t,
              (now, omega arith, refl, (o.0, ground arith, o.2, o.3)),
            ),
            inl (omega arith),
            refl,
          )
    | inr early ↦ rw early (l, refl, f, (e, t, o), inr (ground arith), refl)
  ]

  check_time-Logs :
      (l : LogFile) (xs : List ℕ) (f : AppendFile) (now again : ℕ)
      → Holds (record l { file = some f }) xs f
      → f.written ≤ l.roll_size
      → Logs (check_time filename fopen l f now again) xs again l.roll_size
  unfolding check_time flush
  check_time-Logs l xs f now again h small = elim (Bool-cases (period now == l.start_of_period)) [
    | inl same ↦ elim (Bool-cases (ltb (l.last_flush + l.flush_inter) now)) [
      | inl old ↦ rw (same, old) (_, refl, flush f, (refl, h.1, h.2), inl small, refl)
      | inr young ↦ rw (same, young) (_, refl, f, h, inl small, refl)
    ]
    | inr other ↦ rw other (roll-Logs (record l { cnt = 0; file = some f }) xs f again h)
  ]

  appended-Logs :
      (l : LogFile) (xs : List ℕ) (f : AppendFile) (now again : ℕ)
      → Holds (record l { file = some f }) xs f
      → Logs (appended filename fopen l f now again) xs again l.roll_size
  unfolding appended
  appended-Logs l xs f now again h = elim (Bool-cases (ltb l.roll_size f.written)) [
    | inl large ↦ rw large (roll-Logs (record l { file = some f }) xs f again h)
    | inr small ↦ elim (Bool-cases (leb l.check_every (l.cnt + 1))) [
      | inl time ↦ rw (small, time) (check_time-Logs l xs f now again h (ground arith))
      | inr soon ↦ rw (small, soon) (_, refl, f, h, inl (ground arith), refl)
    ]
  ]

  append_unlocked-file :
      (fuel : ℕ) (fwrite : ℕ → ℕ) (l : LogFile) (line : List ℕ) (now again : ℕ) (f : AppendFile)
      → l.file ≡ some f
      → append_unlocked filename fopen fuel fwrite l line now again
        ≡ after_append filename fopen l now again (append fuel fwrite f line)
  unfolding append_unlocked
  append_unlocked-file fuel fwrite l line now again f e =
      ap
        (λ x. elim x [
          | none ↦ fail Fault.null_pointer
          | some f ↦ after_append filename fopen l now again (append fuel fwrite f line)
        ])
        e

  -- If the log has a file, each fopen succeeds, each call of fwrite takes something and the fuel is
  -- more than the line has bytes, `append_unlocked` ends whatever the times are: what fwrite took for
  -- its files is together the line behind what it was before, they were opened at times that go up,
  -- and the present file is within the bound of its size unless a file was opened at that time or
  -- later.
  pub append_unlocked-Holds :
      (fuel : ℕ) (fwrite : ℕ → ℕ) (l : LogFile) (xs line : List ℕ) (now again : ℕ) (f : AppendFile)
      → Holds l xs f
      → ((i : ℕ) → 0 < fwrite i)
      → length line < fuel
      → (l' : LogFile) × (append_unlocked filename fopen fuel fwrite l line now again
          ≡ ok (some l'))
        × (g : AppendFile) × Holds l' (xs ++ line) g
        × Bounded l' again g
        × (l'.roll_size ≡ l.roll_size)
  append_unlocked-Holds fuel fwrite l xs line now again f (e, t, o) takes enough =
      let (f', d, (k, p, _, q), _, same) = append-Prefix fuel fwrite f line enough in
      let whole : f'.taken ≡ f.taken ++ line =
        p ∙ ap (λ ys. f.taken ++ ys) (take_all k line (omega (arith, q takes))) in
      let holds : Holds (record l { file = some f' }) (xs ++ line) f' = (
        refl,
        ap (λ ys. closed_text l.closed ++ ys) whole
            ∙ sym (append_assoc (closed_text l.closed) f.taken line)
            ∙ ap (λ ys. ys ++ line) t,
        (o.0, o.1, same ∙ o.2, o.3),
      ) in
      let (l', a, g, h, b, r) = appended-Logs l (xs ++ line) f' now again holds in
      (
        l',
        append_unlocked-file fuel fwrite l line now again f e
            ∙ ap (after_append filename fopen l now again) d
            ∙ ap (λ r. r >>= λ l'. ok (some l')) a,
        g,
        h,
        b,
        r,
      )

  -- From a log with a file, whatever lines are appended at whatever times, if each call of fopen
  -- succeeds and each of fwrite takes something, and the fuel is more than each line has bytes: no
  -- assertion fails, and the bytes that fwrite has taken for the files of the log are together those
  -- of before and then all the lines; the files have the names of the times at which they were
  -- opened, which go up.
  pub append_lines-Holds :
      (fuel : ℕ) (fwrite : ℕ → ℕ) (lines : List (List ℕ × ℕ × ℕ)) (l : LogFile) (xs : List ℕ)
      (f : AppendFile)
      → Holds l xs f
      → ((i : ℕ) → 0 < fwrite i)
      → Shorter fuel lines
      → (l' : LogFile) × (append_lines filename fopen fuel fwrite l lines ≡ ok (some l'))
        × (g : AppendFile) × Holds l' (xs ++ text lines) g
  unfolding append_lines
  append_lines-Holds fuel fwrite [] l xs f h takes enough =
      (l, refl, f, subst (λ ys. Holds l ys f) (sym (append-nil xs)) h)
  append_lines-Holds fuel fwrite ((line, now, again) ∷ lines) l xs f h takes enough =
      let (l₁, d, g, h₁, _, _) =
        append_unlocked-Holds fuel fwrite l xs line now again f h takes enough.0 in
      let (l₂, d₂, g₂, h₂) =
        append_lines-Holds fuel fwrite lines l₁ (xs ++ line) g h₁ takes enough.1 in
      (
        l₂,
        ap (λ r. r >>= next_line (λ l. append_lines filename fopen fuel fwrite l lines)) d ∙ d₂,
        g₂,
        subst (λ ys. Holds l₂ ys g₂) (append_assoc xs line (text lines)) h₂,
      )
