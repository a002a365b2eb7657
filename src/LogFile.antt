-- ===== src/LogFile.antt =====
-- chtho/logging/LogFile.cpp: a log in files, of which a new one is begun when the present one is
-- large or a day has passed. What time(2) returns, how much fwrite(3) takes and whether fopen(3)
-- succeeds are parameters.
pub mod Kept
pub mod Tests
use chtho.Prelude.{
  ℕ, zero, suc, ◌+◌, ◌*◌, ◌/◌, Bool, true, false, not, List, [], ◌∷◌, ◌++◌, Option, none, some,
  Result, ok, fail, ◌>>=◌, ◌>>◌, guard, Fault, ltb, leb, ◌==◌, if◌then◌else◌, length,
}
use chtho.AppendFile.{AppendFile, open_file, flush, append}

-- `file` is none before the first `roll`, and `closed` has the files that were closed, the last
-- one first.
pub record LogFile : Type 0 where
  pub roll_size : ℕ
  pub flush_inter : ℕ
  pub check_every : ℕ
  pub cnt : ℕ
  pub start_of_period : ℕ
  pub last_roll : ℕ
  pub last_flush : ℕ
  pub file : Option AppendFile
  pub closed : List AppendFile

abbrev roll_per_sec : ℕ
roll_per_sec = 60 * 60 * 24

abbrev pub period : ℕ → ℕ
period now = now / roll_per_sec * roll_per_sec

-- `file_.reset`
abbrev pub reset : Option AppendFile → List AppendFile → List AppendFile
reset none closed = closed
reset (some f) closed = f ∷ closed

abbrev pub next_line :
    (LogFile → Result (Option LogFile)) → Option LogFile → Result (Option LogFile)
next_line next none = ok none
next_line next (some l) = next l

-- By the time: the name of a file, which is `name_`, the date, the host and the process, and whether
-- it can be opened.
module _ (filename : ℕ → List ℕ) (fopen : ℕ → Bool) where
  pub roll : LogFile → ℕ → Result (LogFile × Bool)
  roll l now =
      if ltb l.last_roll now
      then (do
        f ← open_file (fopen now) (filename now)
        ok (
          record l {
            last_roll = now;
            last_flush = now;
            start_of_period = period now;
            file = some f;
            closed = reset l.file l.closed;
          },
          true,
        ))
      else ok (l, false)

  abbrev pub rolled : LogFile → ℕ → Result LogFile
  rolled l now = roll l now >>= λ r. ok r.0

  -- The constructor, where `roll` is at the time `now`; the flag is whether the name has a '/'.
  pub make : Bool → ℕ → ℕ → ℕ → ℕ → Result LogFile
  make has_slash roll_size flush_inter check_every now = do
    guard (not has_slash)
    rolled
        (record {
          roll_size = roll_size;
          flush_inter = flush_inter;
          check_every = check_every;
          cnt = 0;
          start_of_period = 0;
          last_roll = 0;
          last_flush = 0;
          file = none;
          closed = [];
        })
        now

  -- What `append_unlocked` does when it has appended so many times that it looks at the time: `now`
  -- is what it reads, and `again` what `roll` does.
  pub check_time : LogFile → AppendFile → ℕ → ℕ → Result LogFile
  check_time l f now again =
      let l' = record l { cnt = 0; file = some f } in
      if not (period now == l.start_of_period)
      then rolled l' again
      else if ltb (l.last_flush + l.flush_inter) now
      then ok (record l' { last_flush = now; file = some (flush f) })
      else ok l'

  pub appended : LogFile → AppendFile → ℕ → ℕ → Result LogFile
  appended l f now again =
      if ltb l.roll_size f.written
      then rolled (record l { file = some f }) again
      else if leb l.check_every (l.cnt + 1)
      then check_time l f now again
      else ok (record l { cnt = l.cnt + 1; file = some f })

  abbrev pub after_append : LogFile → ℕ → ℕ → Option AppendFile → Result (Option LogFile)
  after_append l now again none = ok none
  after_append l now again (some f) = appended l f now again >>= λ l'. ok (some l')

  -- With fuel for the loop of `append`; `none` is a loop that has not ended.
  pub append_unlocked : ℕ → (ℕ → ℕ) → LogFile → List ℕ → ℕ → ℕ → Result (Option LogFile)
  append_unlocked fuel fwrite l line now again = elim l.file [
    | none ↦ fail Fault.null_pointer
    | some f ↦ after_append l now again (append fuel fwrite f line)
  ]

  -- Lines that are appended one after the other, each with the times that are read meanwhile.
  pub append_lines : ℕ → (ℕ → ℕ) → LogFile → List (List ℕ × ℕ × ℕ) → Result (Option LogFile)
  append_lines fuel fwrite l [] = ok (some l)
  append_lines fuel fwrite l ((line, now, again) ∷ lines) =
      append_unlocked fuel fwrite l line now again
      >>= next_line (λ l'. append_lines fuel fwrite l' lines)
