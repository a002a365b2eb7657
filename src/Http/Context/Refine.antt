-- ===== src/Http/Context/Refine.antt =====
-- The loop over a buffer is the loop over the bytes that it shows.
use chtho.Prelude.{
  ℕ, zero, suc, ◌+◌, ◌≤◌, ◌≡◌, refl, sym, ap, subst, Bool, true, false, List, ◌∷◌, Option, none,
  some, Result, ok, ◌>>=◌, ◌==◌, length, take, drop, arith, inl, inr, Bool-cases, length-append,
}
use chtho.Buffer.{Buffer, contents}
use chtho.Buffer.Valid.{IsValid}
use chtho.Buffer.Contents.{contents-retrieve_until}
use chtho.Buffer.Scan.{find_crlf, search_crlf, Found, search_crlf-Found, cr, lf}
use chtho.Http.{proc_req, find}
use chtho.Http.Context.{
  Context, colon, ParseState, Turn, stops, takes, spins, request_turn, header_turn, turn, after,
  after_text, parse, parse_text,
}

-- A turn takes no more than the line and its end, and at least that end.
abbrev pub InLine : ℕ → Turn → Type 0
InLine n (stops valid c) = Unit {0}
InLine n (takes k more c) = (k ≤ n) × (2 ≤ k)
InLine n spins = Unit {0}

request_turn-InLine :
    (c : Context) (time i n : ℕ) (line : List ℕ) → i + 2 ≤ n → InLine n (request_turn c time line i)
unfolding request_turn
request_turn-InLine c time i n line h = elim (Bool-cases (proc_req c.request line).0) [
  | inl e ↦ rw e (h, omega arith)
  | inr e ↦ rw e tt
]

header_turn-InLine :
    (c : Context) (i n : ℕ) (line : List ℕ) → i + 2 ≤ n → InLine n (header_turn c line i)
unfolding header_turn
header_turn-InLine c i n line h = elim (Bool-cases (find colon line == length line)) [
  | inl e ↦ rw e (h, omega arith)
  | inr e ↦ rw e (h, omega arith)
]

Found-bound : (xs : List ℕ) (i : ℕ) → Found xs (some i) → i + 2 ≤ length xs
Found-bound xs i (line, rest, e, n, free) =
    omega (arith, ap length e, length-append line (cr ∷ (lf ∷ rest)))

turn_at-InLine :
    (s : ParseState) (c : Context) (time : ℕ) (xs : List ℕ) (r : Option ℕ)
    → c.state ≡ s
    → Found xs r
    → InLine (length xs) (turn c time xs r)
unfolding turn
turn_at-InLine ParseState.exp_req c time xs none e f = rw e tt
turn_at-InLine ParseState.exp_req c time xs (some i) e f =
    rw (e, turn) (request_turn-InLine c time i (length xs) (take i xs) (Found-bound xs i f))
turn_at-InLine ParseState.exp_header c time xs none e f = rw e tt
turn_at-InLine ParseState.exp_header c time xs (some i) e f =
    rw (e, turn) (header_turn-InLine c i (length xs) (take i xs) (Found-bound xs i f))
turn_at-InLine ParseState.exp_body c time xs r e f = rw e tt
turn_at-InLine ParseState.done c time xs r e f = rw e tt

pub turn-InLine :
    (c : Context) (time : ℕ) (xs : List ℕ) → InLine (length xs) (turn c time xs (search_crlf xs))
turn-InLine c time xs =
    turn_at-InLine c.state c time xs (search_crlf xs) refl (search_crlf-Found xs)

-- The result over the buffer: the same but for the buffer, which is valid and shows the bytes left.
abbrev pub Shows :
    Result (Option (Bool × Context × Buffer)) → Option (Bool × Context × List ℕ) → Type 0
Shows r none = r ≡ ok none
Shows r (some (valid, c, xs)) =
    (b : Buffer) × (r ≡ ok (some (valid, c, b))) × IsValid b × (contents b ≡ xs)

after-Shows :
    (next : Context → Buffer → Result (Option (Bool × Context × Buffer)))
    (next' : Context → List ℕ → Option (Bool × Context × List ℕ))
    → ((c : Context) (b : Buffer) → IsValid b → Shows (next c b) (next' c (contents b)))
    → (c : Context) (b : Buffer) → IsValid b
    → (t : Turn) → InLine (length (contents b)) t
    → Shows (after next c b t) (after_text next' c (contents b) t)
unfolding after after_text
after-Shows next next' ih c b v (stops valid c') h = (b, refl, v, refl)
after-Shows next next' ih c b v spins h = ih c b v
after-Shows next next' ih c b v (takes n true c') h =
    let (b', d, v', same) = contents-retrieve_until b n v h.0 in
    subst (λ r. Shows (r >>= next c') (next' c' (drop n (contents b)))) (sym d)
      (subst (λ xs. Shows (next c' b') (next' c' xs)) same (ih c' b' v'))
after-Shows next next' ih c b v (takes n false c') h =
    let (b', d, v', same) = contents-retrieve_until b n v h.0 in
    (b', ap (λ r. r >>= λ x. ok (some (true, c', x))) d, v', same)

-- On a valid buffer the loop fails no assertion and does what the loop over the readable bytes
-- does, with any fuel: the same answer and context, and in the end the same bytes are readable.
pub parse-Shows :
    (fuel : ℕ) (c : Context) (b : Buffer) (time : ℕ)
    → IsValid b
    → Shows (parse fuel c b time) (parse_text fuel c (contents b) time)
unfolding parse parse_text find_crlf
parse-Shows zero c b time v = refl
parse-Shows (suc fuel) c b time v =
    after-Shows (λ c' b'. parse fuel c' b' time) (λ c' xs. parse_text fuel c' xs time)
      (λ c' b' v'. parse-Shows fuel c' b' time v') c b v
      (turn c time (contents b) (search_crlf (contents b))) (turn-InLine c time (contents b))
