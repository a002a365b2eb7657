-- ===== src/LogStream/Convert.antt =====
-- `convert` prints the decimal numeral of an integer.
use mathlib.Core.List.{reverse, reverse-cons, reverse-append}
use chtho.Prelude.{
  append-nil, subst, fail, Fault, ℕ, zero, suc, ◌+◌, ◌-◌, ◌*◌, ◌/◌, ◌%◌, ◌^◌, ◌≤◌, ◌<◌, ◌≡◌, ◌≢◌,
  refl, sym, ap, ◌∙◌, Bool, true, false, List, [], ◌∷◌, ◌++◌, none, some, ok, ◌>>=◌, leb, ◌==◌,
  ◌&&◌, if◌then◌else◌, length, length-append, ℤ, pos, negsuc, arith, Bool-cases, inl, inr,
}
use chtho.LogStream.{
  neg, rem, quot, from_pzo, pzo, is_zero, is_negative, cons_some, convert_digits, convert, minus,
}

abbrev pub magnitude : ℤ → ℕ
magnitude (pos n) = n
magnitude (negsuc n) = suc n

abbrev is_digit : ℕ → Bool
is_digit c = leb 48 c && leb c 57

-- Digits alone, of which there is one at least.
abbrev pub AreDigits : List ℕ → Type 0
AreDigits [] = Unit {0}
AreDigits (c ∷ cs) = (is_digit c ≡ true) × AreDigits cs

-- The number that digits stand for, the last one first.
abbrev value_lsd : List ℕ → ℕ
value_lsd [] = 0
value_lsd (c ∷ cs) = c - 48 + 10 * value_lsd cs

-- What holds of each number below `n`, case by case.
abbrev Below : ℕ → (ℕ → Type 0) → Type 0
Below zero P = Unit {0}
Below (suc n) P = P n × Below n P

below_at : (P : ℕ → Type 0) (n : ℕ) → Below n P → (d : ℕ) → d < n → P d
below_at P zero cases d small = absurd (omega arith)
below_at P (suc n) (last, cases) d small = elim (Bool-cases (d == n)) [
  | inl same ↦ subst P (ground arith) last
  | inr other ↦ below_at P n cases d (ground arith)
]

-- The table around `pzo`, on both sides.
from_pzo-pos : (d : ℕ) → d < 10 → from_pzo (pos d) ≡ some (48 + d)
from_pzo-pos =
    below_at (λ d. from_pzo (pos d) ≡ some (48 + d)) 10
      (refl, (refl, (refl, (refl, (refl, (refl, (refl, (refl, (refl, (refl, tt))))))))))

from_pzo-neg : (d : ℕ) → d < 10 → from_pzo (neg d) ≡ some (48 + d)
from_pzo-neg =
    below_at (λ d. from_pzo (neg d) ≡ some (48 + d)) 10
      (refl, (refl, (refl, (refl, (refl, (refl, (refl, (refl, (refl, (refl, tt))))))))))

from_pzo-rem : (v : ℤ) → from_pzo (rem v) ≡ some (48 + magnitude v % 10)
from_pzo-rem (pos n) = from_pzo-pos (n % 10) (omega arith)
from_pzo-rem (negsuc n) = from_pzo-neg (suc n % 10) (omega arith)

pzo-rem : (v : ℤ) → pzo (rem v) ≡ ok (48 + magnitude v % 10)
unfolding pzo
pzo-rem v = ap (λ c. elim c [ none ↦ fail Fault.out_of_bounds | some c ↦ ok c ]) (from_pzo-rem v)

magnitude-neg : (n : ℕ) → magnitude (neg n) ≡ n
magnitude-neg zero = refl
magnitude-neg (suc n) = refl

magnitude-quot : (v : ℤ) → magnitude (quot v) ≡ magnitude v / 10
magnitude-quot (pos n) = refl
magnitude-quot (negsuc n) = magnitude-neg (suc n / 10)

is_zero-magnitude : (v : ℤ) → is_zero v ≡ (magnitude v == 0)
is_zero-magnitude (pos n) = refl
is_zero-magnitude (negsuc n) = ground arith

-- A turn of the loop.
convert_digits-suc :
    (fuel : ℕ) (v : ℤ)
    → convert_digits (suc fuel) v ≡ (
        if magnitude (quot v) == 0
        then ok (some ((48 + magnitude v % 10) ∷ []))
        else (convert_digits fuel (quot v) >>= cons_some (48 + magnitude v % 10)))
unfolding convert_digits
convert_digits-suc fuel v = ground (arith, pzo-rem v, is_zero-magnitude (quot v))

quot-< : (fuel : ℕ) (v : ℤ) → magnitude v < 10 ^ suc fuel → magnitude (quot v) < 10 ^ fuel
quot-< fuel v small = omega (arith, magnitude-quot v)

positive_quot :
    (fuel : ℕ) (v : ℤ) → magnitude v < 10 ^ suc fuel → (magnitude (quot v) == 0) ≡ false → 0 < fuel
positive_quot zero v small more = ground (arith, quot-< zero v small)
positive_quot (suc fuel) v small more = omega arith

-- From the last digit: there is one, and the first one is 0 only where it is the only one.
abbrev Tight : List ℕ → Type 0
Tight [] = ⊥
Tight (c ∷ []) = Unit {0}
Tight (c ∷ d ∷ ds) = Tight (d ∷ ds) × (value_lsd (d ∷ ds) ≢ 0)

Tight-cons : (c : ℕ) (ds : List ℕ) → Tight ds → value_lsd ds ≢ 0 → Tight (c ∷ ds)
Tight-cons c [] t h = absurd t
Tight-cons c (d ∷ ds) t h = (t, h)

-- The loop ends within as many turns as there are digits.
digits_of :
    (fuel : ℕ) (v : ℤ)
    → 0 < fuel
    → magnitude v < 10 ^ fuel
    → (cs : List ℕ) × (convert_digits fuel v ≡ ok (some cs))
      × (value_lsd cs ≡ magnitude v)
      × AreDigits cs
      × (length cs ≤ fuel)
      × Tight cs
digits_of zero v positive small = absurd (omega arith)
digits_of (suc fuel) v positive small = elim (Bool-cases (magnitude (quot v) == 0)) [
  | inl last ↦ (
    (48 + magnitude v % 10) ∷ [],
    convert_digits-suc fuel v ∙ rw last refl,
    ground (arith, magnitude-quot v),
    (ground arith, tt),
    omega arith,
    tt,
  )
  | inr more ↦
      let rest = digits_of fuel (quot v) (positive_quot fuel v small more) (quot-< fuel v small) in
      (
        (48 + magnitude v % 10) ∷ rest.0,
        convert_digits-suc fuel v ∙ rw (more, rest.1) refl,
        ground (arith, magnitude-quot v, rest.2),
        (ground arith, rest.3),
        ground (arith, rest.4),
        Tight-cons (48 + magnitude v % 10) rest.0 rest.5 (λ z. ground (arith, z, rest.2, more)),
      )
]

-- A decimal numeral, read from the left.
abbrev pub value : ℕ → List ℕ → ℕ
value acc [] = acc
value acc (c ∷ cs) = value (10 * acc + (c - 48)) cs

-- One digit at least, and no 0 in front of others.
abbrev Leads : List ℕ → Type 0
Leads [] = ⊥
Leads (c ∷ cs) = c ≢ 48

abbrev pub StartsWell : List ℕ → Type 0
StartsWell [] = ⊥
StartsWell (c ∷ []) = Unit {0}
StartsWell (c ∷ d ∷ ds) = c ≢ 48

-- The decimal digits of a number, as they are usually written.
abbrev pub IsDecimal : ℕ → List ℕ → Type 0
IsDecimal n text = AreDigits text × StartsWell text × (value 0 text ≡ n)

-- The numeral of an integer: its digits, behind a minus sign if it is negative.
abbrev pub IsNumeral : ℤ → List ℕ → Type 0
IsNumeral (pos n) text = IsDecimal n text
IsNumeral (negsuc n) text = (ds : List ℕ) × (text ≡ minus ∷ ds) × IsDecimal (suc n) ds

Leads-append : (xs ys : List ℕ) → Leads xs → Leads (xs ++ ys)
Leads-append [] ys h = absurd h
Leads-append (x ∷ xs) ys h = h

Leads-StartsWell : (xs : List ℕ) → Leads xs → StartsWell xs
Leads-StartsWell [] h = h
Leads-StartsWell (x ∷ []) h = tt
Leads-StartsWell (x ∷ y ∷ ys) h = h

reverse-Leads : (cs : List ℕ) → Tight cs → value_lsd cs ≢ 0 → Leads (reverse cs)
reverse-Leads [] t h = absurd t
reverse-Leads (c ∷ []) t h = λ z. h (omega (arith, z))
reverse-Leads (c ∷ d ∷ ds) t h =
    subst Leads (sym (reverse-cons c (d ∷ ds)))
      (Leads-append (reverse (d ∷ ds)) (c ∷ []) (reverse-Leads (d ∷ ds) t.0 t.1))

reverse-StartsWell : (cs : List ℕ) → Tight cs → StartsWell (reverse cs)
reverse-StartsWell [] t = absurd t
reverse-StartsWell (c ∷ []) t = tt
reverse-StartsWell (c ∷ d ∷ ds) t = Leads-StartsWell (reverse (c ∷ d ∷ ds)) (
    subst Leads (sym (reverse-cons c (d ∷ ds)))
      (Leads-append (reverse (d ∷ ds)) (c ∷ []) (reverse-Leads (d ∷ ds) t.0 t.1)))

value-append : (acc : ℕ) (xs ys : List ℕ) → value acc (xs ++ ys) ≡ value (value acc xs) ys
value-append acc [] ys = refl
value-append acc (x ∷ xs) ys = value-append (10 * acc + (x - 48)) xs ys

value-reverse : (cs : List ℕ) → value 0 (reverse cs) ≡ value_lsd cs
value-reverse [] = refl
value-reverse (c ∷ cs) =
    ap (value 0) (reverse-cons c cs)
    ∙ value-append 0 (reverse cs) (c ∷ [])
    ∙ omega (arith, value-reverse cs)

append-AreDigits : (xs ys : List ℕ) → AreDigits xs → AreDigits ys → AreDigits (xs ++ ys)
append-AreDigits [] ys f g = g
append-AreDigits (x ∷ xs) ys f g = (f.0, append-AreDigits xs ys f.1 g)

reverse-AreDigits : (cs : List ℕ) → AreDigits cs → AreDigits (reverse cs)
reverse-AreDigits [] f = tt
reverse-AreDigits (c ∷ cs) f =
    subst AreDigits (sym (reverse-cons c cs))
      (append-AreDigits (reverse cs) (c ∷ []) (reverse-AreDigits cs f.1) (f.0, tt))

-- The characters of `value` from its digits, the last one first.
abbrev with_sign : ℤ → List ℕ → List ℕ
with_sign v cs = reverse (cs ++ (if is_negative v then minus ∷ [] else []))

reverse-IsDecimal :
    (n : ℕ) (cs : List ℕ) → AreDigits cs → Tight cs → value_lsd cs ≡ n → IsDecimal n (reverse cs)
reverse-IsDecimal n cs f t e =
    (reverse-AreDigits cs f, reverse-StartsWell cs t, value-reverse cs ∙ e)

with_sign-IsNumeral :
    (v : ℤ) (cs : List ℕ)
    → AreDigits cs
    → Tight cs
    → value_lsd cs ≡ magnitude v
    → IsNumeral v (with_sign v cs)
with_sign-IsNumeral (pos n) cs f t e =
    subst (IsDecimal n) (ap reverse (sym (append-nil cs))) (reverse-IsDecimal n cs f t e)
with_sign-IsNumeral (negsuc n) cs f t e =
    (reverse cs, reverse-append cs (minus ∷ []), reverse-IsDecimal (suc n) cs f t e)

length-reverse : (cs : List ℕ) → length (reverse cs) ≡ length cs
length-reverse [] = refl
length-reverse (c ∷ cs) =
    ap length (reverse-cons c cs)
    ∙ length-append (reverse cs) (c ∷ [])
    ∙ omega (arith, length-reverse cs)

length-with_sign : (v : ℤ) (cs : List ℕ) (n : ℕ) → length cs ≤ n → length (with_sign v cs) ≤ n + 1
length-with_sign (pos k) cs n h = omega (arith, length-reverse (cs ++ []), length-append cs [])
length-with_sign (negsuc k) cs n h =
    omega (arith, length-reverse (cs ++ minus ∷ []), length-append cs (minus ∷ []))

-- `convert` ends within as many turns as the integer has digits, reads the table of digits only
-- where it is, and writes the decimal numeral of the integer, in no more characters than those
-- digits and a sign: its digits, without a 0 in front of others, and a minus sign before them
-- exactly if it is negative.
pub convert-IsNumeral :
    (fuel : ℕ) (v : ℤ)
    → 0 < fuel
    → magnitude v < 10 ^ fuel
    → (text : List ℕ) × (convert fuel v ≡ ok (some text))
      × IsNumeral v text
      × (length text ≤ fuel + 1)
unfolding convert
convert-IsNumeral fuel v positive small =
    let found = digits_of fuel v positive small in
    (
      with_sign v found.0,
      rw found.1 refl,
      with_sign-IsNumeral v found.0 found.3 found.5 found.2,
      length-with_sign v found.0 fuel found.4,
    )
