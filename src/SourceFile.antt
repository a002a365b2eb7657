-- ===== src/SourceFile.antt =====
-- chtho/logging/SourceFile.h: the name of a file without its directories.
use chtho.Prelude.{
  ℕ, suc, ◌+◌, ◌-◌, ◌≡◌, refl, sym, ap, ◌∙◌, Bool, true, false, List, [], ◌∷◌, ◌++◌, append_assoc,
  append-nil, Option, none, some, length, drop, ◌==◌, if◌then◌else◌, arith,
}

-- `data_` and `size_`
pub record SourceFile : Type 0 where
  pub data_ : List ℕ
  pub size : ℕ

abbrev pub slash : ℕ
slash = 47

-- Where a character stands last, from where it does behind the first one.
abbrev pub later : Bool → Option ℕ → Option ℕ
later is_first (some i) = some (suc i)
later is_first none = if is_first then some 0 else none

-- strrchr(3)
unfoldable pub strrchr : List ℕ → ℕ → Option ℕ
strrchr [] c = none
strrchr (x ∷ xs) c = later (x == c) (strrchr xs c)

abbrev pub from_begin : List ℕ → Option ℕ → SourceFile
from_begin s none = record { data_ = s; size = length s }
from_begin s (some i) = record { data_ = drop (i + 1) s; size = length s - (i + 1) }

-- The constructor, of the characters before the final '\0'.
unfoldable pub make : List ℕ → SourceFile
make s = from_begin s (strrchr s slash)

-- What follows the last slash, or all of it; `acc` is what was read since then.
abbrev pub last_part : List ℕ → List ℕ → List ℕ
last_part acc [] = acc
last_part acc (x ∷ xs) = if x == slash then last_part [] xs else last_part (acc ++ x ∷ []) xs

abbrev behind : List ℕ → List ℕ → Option ℕ → List ℕ
behind acc xs none = acc ++ xs
behind acc xs (some i) = drop (i + 1) xs

one_more : (i : ℕ) → suc (i + 1) ≡ suc i + 1
one_more i = omega arith

behind-later :
    (acc xs : List ℕ) (x : ℕ) (b : Bool) (i : Option ℕ)
    → behind (if b then [] else acc ++ x ∷ []) xs i ≡ behind acc (x ∷ xs) (later b i)
behind-later acc xs x b (some i) = ap (λ n. drop n (x ∷ xs)) (one_more i)
behind-later acc xs x true none = refl
behind-later acc xs x false none = append_assoc acc (x ∷ []) xs

last_part_step :
    (acc xs : List ℕ) (x : ℕ) (b : Bool)
    → (if b then last_part [] xs else last_part (acc ++ x ∷ []) xs)
      ≡ last_part (if b then [] else acc ++ x ∷ []) xs
last_part_step acc xs x true = refl
last_part_step acc xs x false = refl

last_part-behind : (acc xs : List ℕ) → last_part acc xs ≡ behind acc xs (strrchr xs slash)
unfolding strrchr
last_part-behind acc [] = sym (append-nil acc)
last_part-behind acc (x ∷ xs) =
    last_part_step acc xs x (x == slash)
    ∙ last_part-behind (if x == slash then [] else acc ++ x ∷ []) xs
    ∙ behind-later acc xs x (x == slash) (strrchr xs slash)

from_begin-behind : (s : List ℕ) (i : Option ℕ) → (from_begin s i).data_ ≡ behind [] s i
from_begin-behind s none = refl
from_begin-behind s (some i) = refl

pub make-last_part : (s : List ℕ) → (make s).data_ ≡ last_part [] s
unfolding make
make-last_part s = from_begin-behind s (strrchr s slash) ∙ sym (last_part-behind [] s)
