-- ===== src/LogStream.antt =====
-- chtho/logging/LogStream.h: the conversion of integers, and the operators of the stream. What
-- snprintf(3) prints of floats and pointers is a parameter.
pub mod Convert
pub mod Room
mod Tests
use mathlib.Core.List.{reverse}
use chtho.Prelude.{
  ℕ, zero, suc, ◌+◌, ◌-◌, ◌/◌, ◌%◌, Bool, true, false, List, [], ◌∷◌, ◌++◌, Option, none, some,
  Result, ok, fail, Fault, ◌>>=◌, ltb, leb, ◌==◌, if◌then◌else◌, length, get_elem?, ℤ, pos, negsuc,
}
use chtho.FixedBuffer.{Buf, k_small, avail, buf_append}

abbrev pub neg : ℕ → ℤ
neg zero = pos 0
neg (suc n) = negsuc n

-- `i % 10` and `i / 10`, which go towards zero.
abbrev pub rem : ℤ → ℤ
rem (pos n) = pos (n % 10)
rem (negsuc n) = neg (suc n % 10)

abbrev pub quot : ℤ → ℤ
quot (pos n) = pos (n / 10)
quot (negsuc n) = neg (suc n / 10)

-- "9876543210123456789"
abbrev pub digits : List ℕ
digits =
    57 ∷ 56 ∷ 55 ∷ 54 ∷ 53 ∷ 52 ∷ 51 ∷ 50 ∷ 49 ∷ 48 ∷ 49 ∷ 50 ∷ 51 ∷ 52 ∷ 53 ∷ 54 ∷ 55 ∷ 56 ∷ 57
    ∷ []

-- An index from `digits`, where there is one: `pzo` points to the zero in the middle.
abbrev pub from_pzo : ℤ → Option ℕ
from_pzo (pos n) = get_elem? digits (9 + n)
from_pzo (negsuc n) = if ltb n 9 then get_elem? digits (8 - n) else none

pub pzo : ℤ → Result ℕ
pzo i = elim (from_pzo i) [ none ↦ fail Fault.out_of_bounds | some c ↦ ok c ]

abbrev pub is_zero : ℤ → Bool
is_zero (pos n) = n == 0
is_zero (negsuc n) = false

abbrev pub is_negative : ℤ → Bool
is_negative (pos n) = false
is_negative (negsuc n) = true

abbrev pub cons_some : ℕ → Option (List ℕ) → Result (Option (List ℕ))
cons_some c none = ok none
cons_some c (some cs) = ok (some (c ∷ cs))

-- The loop of `convert`, with fuel; `none` is a loop that has not ended.
pub convert_digits : ℕ → ℤ → Result (Option (List ℕ))
convert_digits zero i = ok none
convert_digits (suc fuel) i = pzo (rem i) >>= λ c. elim (is_zero (quot i)) [
  | true ↦ ok (some (c ∷ []))
  | false ↦ convert_digits fuel (quot i) >>= cons_some c
]

abbrev pub minus : ℕ
minus = 45

-- The characters before the final '\0'.
pub convert : ℕ → ℤ → Result (Option (List ℕ))
convert fuel value = convert_digits fuel value >>= λ r. elim r [
  | none ↦ ok none
  | some cs ↦ ok (some (reverse (cs ++ (if is_negative value then minus ∷ [] else []))))
]

-- `operator<<` of a `bool`, a `char`, a `const char*` and a `std::string`.
out_bool : Buf → Bool → Buf
out_bool b v = buf_append k_small b ((if v then 49 else 48) ∷ [])

unfoldable pub out_char : Buf → ℕ → Buf
out_char b c = buf_append k_small b (c ∷ [])

unfoldable pub out_string : Buf → List ℕ → Buf
out_string b s = buf_append k_small b s

-- "(null)" for a null pointer
out_pointer_to_chars : Buf → Option (List ℕ) → Buf
out_pointer_to_chars b none = buf_append k_small b (40 ∷ 110 ∷ 117 ∷ 108 ∷ 108 ∷ 41 ∷ [])
out_pointer_to_chars b (some s) = buf_append k_small b s

-- `operator<<` of an integer of `size` bytes: `convert` writes at `cur()`, and its '\0' behind.
pub out_integer : ℕ → ℕ → Buf → ℤ → Result (Option Buf)
out_integer size fuel b v =
    if leb size (avail k_small b)
    then (convert fuel v >>= λ r. elim r [
      | none ↦ ok none
      | some text ↦
          if leb (length text + 1) (avail k_small b)
          then ok (some (record { data_ = b.data_ ++ text }))
          else fail Fault.out_of_bounds
    ])
    else ok (some b)

abbrev k_max_num_size : ℕ
k_max_num_size = 32

-- `operator<<` of a float and of a pointer.
out_printed : Buf → List ℕ → Buf
out_printed b printed =
    if leb k_max_num_size (avail k_small b) then record { data_ = b.data_ ++ printed } else b
