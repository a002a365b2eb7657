-- ===== src/AppendFile.antt =====
-- chtho/logging/FileUtil.cpp: a file that a log is appended to. How much fwrite(3) takes is a
-- parameter.
pub mod Taken
pub mod Tests
use chtho.Prelude.{
  ℕ, zero, suc, ◌+◌, ◌-◌, Bool, true, false, List, [], ◌++◌, Option, none, some, Result, ok, ◌>>◌,
  guard, min, ◌==◌, if◌then◌else◌, length, take, drop,
}

-- `taken` has the bytes that fwrite has taken, and `flushed` how many of them fflush has passed on.
pub record AppendFile : Type 0 where
  pub name : List ℕ
  pub taken : List ℕ
  pub flushed : ℕ
  pub written : ℕ

-- The constructor, by whether fopen(3) succeeds.
abbrev pub opened : List ℕ → AppendFile
opened name = record { name = name; taken = []; flushed = 0; written = 0 }

abbrev pub open_file : Bool → List ℕ → Result AppendFile
open_file opens name = guard opens >> ok (opened name)

unfoldable pub flush : AppendFile → AppendFile
flush f = record f { flushed = length f.taken }

-- The loop of `append`, with fuel; `fwrite` has how many bytes its calls could take, of which the
-- next one is `call`. `none` is a loop that has not ended.
pub append_loop : ℕ → (ℕ → ℕ) → ℕ → List ℕ → ℕ → ℕ → List ℕ → Option (List ℕ)
append_loop zero fwrite call line n remain taken = none
append_loop (suc fuel) fwrite call line n remain taken =
    let x = min (fwrite call) remain in
    let rest =
      append_loop fuel fwrite (call + 1) line (n + x) (remain - x)
        (taken ++ take x (drop n line)) in
    if remain == 0 then some taken else if x == 0 then some taken else rest

abbrev pub with_bytes : AppendFile → List ℕ → Option (List ℕ) → Option AppendFile
with_bytes f line none = none
with_bytes f line (some bytes) =
    some (record f { taken = bytes; written = f.written + length line })

pub append : ℕ → (ℕ → ℕ) → AppendFile → List ℕ → Option AppendFile
append fuel fwrite f line =
    let n = min (fwrite 0) (length line) in
    with_bytes f line (append_loop fuel fwrite 1 line n (length line - n) (f.taken ++ take n line))
