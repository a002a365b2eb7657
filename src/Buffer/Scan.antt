-- ===== src/Buffer/Scan.antt =====
-- `findCRLF` and `findEOL`: pointers into the buffer are distances from `peek()`.
use mathlib.Core.Option
use chtho.Prelude.{
  ℕ, suc, ◌+◌, ◌≡◌, refl, ap, false, ◌&&◌, List, [], ◌∷◌, ◌++◌, Option, none, some, Result, ok,
  guard, ◌>>◌, leb, ◌==◌, if◌then◌else◌, arith, length, drop, Bool-cases, inl, inr,
}
use chtho.Buffer.{Buffer, contents, readable_bytes}

abbrev pub cr : ℕ
cr = b'\r'

abbrev pub lf : ℕ
lf = b'\n'

-- `std::search` for the two bytes of `CRLF`.
unfoldable pub search_crlf : List ℕ → Option ℕ
search_crlf [] = none
search_crlf (x ∷ []) = none
search_crlf (x ∷ (y ∷ xs)) =
    if x == cr && y == lf then some 0 else Option.map suc (search_crlf (y ∷ xs))

unfoldable pub find_crlf : Buffer → Option ℕ
unfolding search_crlf
find_crlf b = search_crlf (contents b)

-- `memchr`
memchr : ℕ → List ℕ → Option ℕ
memchr c [] = none
memchr c (x ∷ xs) = if x == c then some 0 else Option.map suc (memchr c xs)

find_eol : Buffer → ℕ → Result (Option ℕ)
unfolding memchr readable_bytes
find_eol b start = do
  guard (leb start (readable_bytes b))
  ok (Option.map (λ i. start + i) (memchr lf (drop start (contents b))))

-- No line end stands in these bytes.
abbrev pub CrlfFree : List ℕ → Type 0
CrlfFree [] = Unit {0}
CrlfFree (x ∷ []) = Unit {0}
CrlfFree (x ∷ (y ∷ xs)) = ((x == cr && y == lf) ≡ false) × CrlfFree (y ∷ xs)

-- A line and its end, in front of the rest.
abbrev pub line_end : List ℕ → List ℕ → List ℕ
line_end line rest = line ++ (cr ∷ (lf ∷ rest))

pub search_crlf-line_end :
    (line rest : List ℕ)
    → CrlfFree (line ++ (cr ∷ []))
    → search_crlf (line_end line rest) ≡ some (length line)
unfolding search_crlf
search_crlf-line_end [] rest h = refl
search_crlf-line_end (x ∷ []) rest h = rw (h.0)
search_crlf-line_end (x ∷ (y ∷ xs)) rest h = rw (h.0, search_crlf-line_end (y ∷ xs) rest h.1)

search_crlf-none : (xs : List ℕ) → CrlfFree xs → search_crlf xs ≡ none
unfolding search_crlf
search_crlf-none [] h = refl
search_crlf-none (x ∷ []) h = refl
search_crlf-none (x ∷ (y ∷ xs)) h = rw (h.0, search_crlf-none (y ∷ xs) h.1)

-- What the search finds: a first line that ends there, or no line end at all.
abbrev pub Found : List ℕ → Option ℕ → Type 0
Found xs none = CrlfFree xs
Found xs (some i) =
    (line rest : List ℕ) × (xs ≡ line_end line rest)
    × (length line ≡ i)
    × CrlfFree (line ++ (cr ∷ []))

Found-cons :
    (x y : ℕ) (xs : List ℕ) (r : Option ℕ)
    → (x == cr && y == lf) ≡ false
    → Found (y ∷ xs) r
    → Found (x ∷ (y ∷ xs)) (Option.map suc r)
Found-cons x y xs none h f = (h, f)
Found-cons x y xs (some i) h ([], rest, e, n, free) =
    (x ∷ [], rest, ap (◌∷◌ x) e, omega (arith, n), (ground arith, tt))
Found-cons x y xs (some i) h (z ∷ line, rest, e, n, free) =
    (x ∷ (z ∷ line), rest, ap (◌∷◌ x) e, omega (arith, n), (ground arith, free))

pub search_crlf-Found : (xs : List ℕ) → Found xs (search_crlf xs)
unfolding search_crlf
search_crlf-Found [] = tt
search_crlf-Found (x ∷ []) = tt
search_crlf-Found (x ∷ (y ∷ xs)) = elim (Bool-cases (x == cr && y == lf)) [
  | inl e ↦ rw e ([], xs, ground arith, refl, tt)
  | inr e ↦ rw e (Found-cons x y xs (search_crlf (y ∷ xs)) e (search_crlf-Found (y ∷ xs)))
]

-- `findCRLF` returns the length of the first line: it ends there with CR LF, and holds no CR LF
-- before. It returns null only if no CR LF is readable.
find_crlf-Found : (b : Buffer) → Found (contents b) (find_crlf b)
unfolding find_crlf
find_crlf-Found b = search_crlf-Found (contents b)
