-- ===== src/Http/Context/Ends.antt =====
-- The loop ends.
use chtho.Prelude.{
  ℕ, zero, suc, ◌<◌, ◌≡◌, refl, Bool, true, false, List, Option, none, some, length, drop,
  length-drop, take, subst, sym, Bool-cases, ◌==◌, arith, inl, inr, ◌⊎◌,
}
use chtho.Buffer.Scan.{search_crlf, CrlfFree, Found, search_crlf-Found}
use chtho.Http.{proc_req, find}
use chtho.Http.Context.{
  Context, colon, request_turn, header_turn, ParseState, Turn, stops, takes, spins, turn,
  after_text, parse_text,
}
use chtho.Http.Context.Refine.{InLine, turn-InLine}

-- The two states that the loop has a branch for.
abbrev pub IsParsing : Context → Type 0
IsParsing c = (c.state ≡ ParseState.exp_req) ⊎ (c.state ≡ ParseState.exp_header)

-- How the loop may end: it waits for the rest of a line, it has read the whole header, or the request
-- line was refused.
abbrev pub Ended : Bool × Context × List ℕ → Type 0
Ended (valid, c, xs) =
    ((valid ≡ true) × IsParsing c × CrlfFree xs)
    ⊎ (((valid ≡ true) × (c.state ≡ ParseState.done))
        ⊎ ((valid ≡ false) × (c.state ≡ ParseState.exp_req)))

-- A turn ends the loop so, or goes on in one of the two states.
abbrev Goes : List ℕ → Turn → Type 0
Goes xs (stops valid c) = Ended (valid, c, xs)
Goes xs (takes n true c) = IsParsing c
Goes xs (takes n false c) = Ended (true, c, drop n xs)
Goes xs spins = ⊥

request_turn-Goes :
    (c : Context) (time i : ℕ) (line xs : List ℕ)
    → c.state ≡ ParseState.exp_req
    → Goes xs (request_turn c time line i)
unfolding request_turn
request_turn-Goes c time i line xs e = elim (Bool-cases (proc_req c.request line).0) [
  | inl h ↦ rw h (inr refl)
  | inr h ↦ rw h (inr (inr (refl, e)))
]

header_turn-Goes :
    (c : Context) (i : ℕ) (line xs : List ℕ)
    → c.state ≡ ParseState.exp_header
    → Goes xs (header_turn c line i)
unfolding header_turn
header_turn-Goes c i line xs e = elim (Bool-cases (find colon line == length line)) [
  | inl h ↦ rw h (inr (inl (refl, refl)))
  | inr h ↦ rw h (inr e)
]

pub turn_req :
    (c : Context) (time i : ℕ) (xs : List ℕ)
    → c.state ≡ ParseState.exp_req
    → turn c time xs (some i) ≡ request_turn c time (take i xs) i
unfolding turn
turn_req c time i xs e = rw e refl

pub turn_header :
    (c : Context) (time i : ℕ) (xs : List ℕ)
    → c.state ≡ ParseState.exp_header
    → turn c time xs (some i) ≡ header_turn c (take i xs) i
unfolding turn
turn_header c time i xs e = rw e refl

turn-none :
    (c : Context) (time : ℕ) (xs : List ℕ) → IsParsing c → turn c time xs none ≡ stops true c
unfolding turn
turn-none c time xs (inl e) = rw e refl
turn-none c time xs (inr e) = rw e refl

turn-Goes :
    (c : Context) (time : ℕ) (xs : List ℕ) (r : Option ℕ)
    → IsParsing c
    → Found xs r
    → Goes xs (turn c time xs r)
turn-Goes c time xs none p f = subst (Goes xs) (sym (turn-none c time xs p)) (inl (refl, p, f))
turn-Goes c time xs (some i) (inl e) f =
    subst (Goes xs) (sym (turn_req c time i xs e)) (request_turn-Goes c time i (take i xs) xs e)
turn-Goes c time xs (some i) (inr e) f =
    subst (Goes xs) (sym (turn_header c time i xs e)) (header_turn-Goes c i (take i xs) xs e)

after_text-Ended :
    (next : Context → List ℕ → Option (Bool × Context × List ℕ)) (c : Context) (xs : List ℕ)
    (fuel : ℕ)
    → ((c' : Context) (xs' : List ℕ)
        → IsParsing c'
        → length xs' < fuel
        → (out : Bool × Context × List ℕ) × (next c' xs' ≡ some out) × Ended out)
    → length xs < suc fuel
    → (t : Turn) → Goes xs t
    → InLine (length xs) t
    → (out : Bool × Context × List ℕ) × (after_text next c xs t ≡ some out) × Ended out
unfolding after_text
after_text-Ended next c xs fuel ih h (stops valid c') g k = ((valid, c', xs), refl, g)
after_text-Ended next c xs fuel ih h (takes n true c') g k =
    ih c' (drop n xs) g (omega (arith, length-drop n xs, h, k))
after_text-Ended next c xs fuel ih h (takes n false c') g k = ((true, c', drop n xs), refl, g)
after_text-Ended next c xs fuel ih h spins g k = absurd g

-- From either of the two states that the loop handles, with more fuel than there are bytes, the
-- loop ends: it has read the whole header, has refused the request line, or goes no further because
-- no line end is left among the bytes.
pub parse_text-Ended :
    (fuel : ℕ) (c : Context) (xs : List ℕ) (time : ℕ)
    → IsParsing c
    → length xs < fuel
    → (out : Bool × Context × List ℕ) × (parse_text fuel c xs time ≡ some out) × Ended out
unfolding parse_text
parse_text-Ended zero c xs time p h = absurd (omega arith)
parse_text-Ended (suc fuel) c xs time p h =
    after_text-Ended (λ c' xs'. parse_text fuel c' xs' time) c xs fuel
      (λ c' xs' p' h'. parse_text-Ended fuel c' xs' time p' h') h (turn c time xs (search_crlf xs))
      (turn-Goes c time xs (search_crlf xs) p (search_crlf-Found xs)) (turn-InLine c time xs)

-- In any other state it never ends.
parse_text_stuck :
    (fuel : ℕ) (c : Context) (xs : List ℕ) (time : ℕ)
    → (c.state ≡ ParseState.done) ⊎ (c.state ≡ ParseState.exp_body)
    → parse_text fuel c xs time ≡ none
unfolding parse_text turn after_text
parse_text_stuck zero c xs time s = refl
parse_text_stuck (suc fuel) c xs time s = ground (arith, s, parse_text_stuck fuel c xs time s)
