-- ===== src/LogFile/Tests.antt =====
-- A log with two lines, of which the first one fills its file.
use chtho.Prelude.{ℕ, ◌≡◌, refl, Bool, true, false, List, [], ◌∷◌, some, ok, arith}
use chtho.AppendFile.{AppendFile, opened}
use chtho.LogFile.{LogFile, make, roll, append_lines}
use chtho.LogFile.Kept.{text, Holds, append_lines-Holds}

abbrev log : ℕ → List ℕ
log t = t ∷ []

abbrev two : ℕ → ℕ
two i = 2

abbrev always : ℕ → Bool
always t = true

abbrev begun : LogFile
begun = record {
  roll_size = 2;
  flush_inter = 3;
  check_every = 1024;
  cnt = 0;
  start_of_period = 0;
  last_roll = 7;
  last_flush = 7;
  file = some (opened (log 7));
  closed = [];
}

make-begun : make log always false 2 3 1024 7 ≡ ok begun
unfolding make roll
make-begun = refl

abbrev lines : List (List ℕ × ℕ × ℕ)
lines = ((1 ∷ 2 ∷ 3 ∷ []), 8, 9) ∷ ((4 ∷ []), 9, 9) ∷ []

append_lines-Holds_example :
    (l' : LogFile) × (append_lines log always 10 two begun lines ≡ ok (some l'))
    × (g : AppendFile) × Holds log always (λ t. refl) l' (text lines) g
append_lines-Holds_example =
    append_lines-Holds log always (λ t. refl) 10 two lines begun [] (opened (log 7))
      (refl, refl, (7, omega arith, refl, tt)) (λ i. omega arith) (omega arith, (omega arith, tt))
