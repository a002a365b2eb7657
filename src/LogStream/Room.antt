-- ===== src/LogStream/Room.antt =====
-- When the operator of integers writes, and whether there is room for what it writes.
use chtho.Prelude.{
  ℕ, ◌+◌, ◌^◌, ◌≤◌, ◌<◌, ◌≡◌, ◌++◌, List, refl, some, ok, fail, Fault, leb, length, ℤ, arith,
  Bool-cases, inl, inr, ◌⊎◌, Result, Option,
}
use chtho.FixedBuffer.{Buf, k_small, avail}
use chtho.LogStream.{convert, out_integer}
use chtho.LogStream.Convert.{magnitude, IsNumeral, convert-IsNumeral}

-- What the operator does with a numeral, by the room there is.
abbrev pub Writes : ℕ → Buf → List ℕ → Result (Option Buf) → Type 0
Writes size b text r =
    ((avail k_small b < size) × (r ≡ ok (some b)))
    ⊎ (((size ≤ avail k_small b)
          × (avail k_small b < length text + 1)
          × (r ≡ fail Fault.out_of_bounds))
        ⊎ ((size ≤ avail k_small b)
            × (length text + 1 ≤ avail k_small b)
            × (r ≡ ok (some (record { data_ = b.data_ ++ text })))))

pub out_integer-Writes :
    (size fuel : ℕ) (b : Buf) (v : ℤ) (text : List ℕ)
    → convert fuel v ≡ ok (some text)
    → Writes size b text (out_integer size fuel b v)
unfolding out_integer
out_integer-Writes size fuel b v text e = elim (Bool-cases (leb size (avail k_small b))) [
  | inl fits ↦ elim (Bool-cases (leb (length text + 1) (avail k_small b))) [
    | inl room ↦ inr (inr (ground arith, ground arith, rw (fits, e, room) refl))
    | inr none_left ↦ inr (inl (ground arith, ground arith, rw (fits, e, none_left) refl))
  ]
  | inr full ↦ inl (ground arith, rw full refl)
]

-- Where the end of the buffer is written behind, by a bound of the length of the numeral.
overflow_window :
    (size bound : ℕ) (b : Buf) (text : List ℕ) (r : Result (Option Buf))
    → Writes size b text r
    → length text ≤ bound
    → r ≡ fail Fault.out_of_bounds
    → (size ≤ avail k_small b) × (avail k_small b ≤ bound)
overflow_window size bound b text r (inl (full, e)) short bad = absurd (cc)
overflow_window size bound b text r (inr (inl (some_room, little, e))) short bad =
    (some_room, omega (arith, little, short))
overflow_window size bound b text r (inr (inr (_, _, e))) short bad = absurd (cc)

-- For an integer of no more digits than the fuel, the operator leaves the buffer as it is where
-- it has fewer bytes free than the integer's type has; otherwise it appends the decimal numeral
-- of the integer, without a 0 in front of other digits and with a minus sign exactly if it is
-- negative, if that and the '\0' behind it fit, and else writes behind the end of the buffer. It
-- does the last only where the bytes free are at most one more than the fuel.
pub out_integer-IsNumeral :
    (size fuel : ℕ) (b : Buf) (v : ℤ)
    → 0 < fuel
    → magnitude v < 10 ^ fuel
    → (text : List ℕ) × IsNumeral v text
      × (length text ≤ fuel + 1)
      × Writes size b text (out_integer size fuel b v)
      × (out_integer size fuel b v ≡ fail Fault.out_of_bounds
          → (size ≤ avail k_small b) × (avail k_small b ≤ fuel + 1))
out_integer-IsNumeral size fuel b v positive small =
    let found = convert-IsNumeral fuel v positive small in
    let writes = out_integer-Writes size fuel b v found.0 found.1 in
    (
      found.0,
      found.2,
      found.3,
      writes,
      overflow_window size (fuel + 1) b found.0 (out_integer size fuel b v) writes found.3,
    )
