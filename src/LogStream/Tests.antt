-- ===== src/LogStream/Tests.antt =====
-- Integers on a buffer.
use chtho.Prelude.{
  ℕ, ◌+◌, ◌≤◌, ◌≡◌, List, [], ◌∷◌, some, ok, fail, Fault, refl, length, pos, negsuc, arith,
}
use chtho.FixedBuffer.{empty, k_small, avail}
use chtho.LogStream.{convert, convert_digits, pzo, out_integer}
use chtho.LogStream.Convert.{IsNumeral, convert-IsNumeral}
use chtho.LogStream.Room.{Writes, out_integer-IsNumeral}

-- -120
minus_120 : convert 3 (negsuc 119) ≡ ok (some (45 ∷ 49 ∷ 50 ∷ 48 ∷ []))
unfolding convert convert_digits pzo
minus_120 = refl

convert-IsNumeral_example :
    (text : List ℕ) × (convert 20 (negsuc 119) ≡ ok (some text))
    × IsNumeral (negsuc 119) text
    × (length text ≤ 20 + 1)
convert-IsNumeral_example = convert-IsNumeral 20 (negsuc 119) (omega arith) (omega arith)

out_integer-IsNumeral_example :
    (text : List ℕ) × IsNumeral (pos 70) text
    × (length text ≤ 10 + 1)
    × Writes 4 empty text (out_integer 4 10 empty (pos 70))
    × (out_integer 4 10 empty (pos 70) ≡ fail Fault.out_of_bounds
        → (4 ≤ avail k_small empty) × (avail k_small empty ≤ 10 + 1))
out_integer-IsNumeral_example =
    out_integer-IsNumeral 4 10 empty (pos 70) (omega arith) (omega arith)
