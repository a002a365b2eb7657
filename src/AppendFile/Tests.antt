-- ===== src/AppendFile/Tests.antt =====
-- A line in two parts.
use chtho.Prelude.{ℕ, ◌≡◌, refl, [], ◌∷◌, some, arith}
use chtho.AppendFile.{AppendFile, opened, append, append_loop}
use chtho.AppendFile.Taken.{Prefix, append-Prefix}

abbrev two : ℕ → ℕ
two i = 2

two_parts :
    append 4 two (opened []) (1 ∷ 2 ∷ 3 ∷ [])
    ≡ some (record { name = []; taken = 1 ∷ 2 ∷ 3 ∷ []; flushed = 0; written = 3 })
unfolding append append_loop
two_parts = refl

append-Prefix_example :
    (f' : AppendFile) × (append 4 two (opened []) (1 ∷ 2 ∷ 3 ∷ []) ≡ some f')
    × Prefix two (1 ∷ 2 ∷ 3 ∷ []) [] f'.taken
    × (f'.written ≡ 3)
    × (f'.name ≡ [])
append-Prefix_example = append-Prefix 4 two (opened []) (1 ∷ 2 ∷ 3 ∷ []) (omega arith)
