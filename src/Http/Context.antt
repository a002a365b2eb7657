-- ===== src/Http/Context.antt =====
-- chtho/net/http/HTTPContext.cpp: `parse`, a loop over the lines of a buffer. `parse_text` is the
-- same loop over the bytes that the buffer shows.
pub mod Refine
pub mod Ends
pub mod Message
pub mod Tests
use chtho.Prelude.{
  ℕ, zero, suc, ◌+◌, Bool, true, false, List, [], ◌∷◌, Option, none, some, Result, ok, ◌>>=◌, ◌==◌,
  if◌then◌else◌, length, take, drop,
}
use chtho.Buffer.{Buffer, contents, retrieve_until}
use chtho.Buffer.Scan.{find_crlf, search_crlf}
use chtho.Http.{Request, fresh, find, add_header, proc_req}

pub data ParseState : Type 0 where
  exp_req exp_header exp_body done : ParseState

pub record Context : Type 0 where
  pub state : ParseState
  pub request : Request

abbrev pub init : Context
init = record { state = ParseState.exp_req; request = fresh }

-- What a turn of the loop does: it stops with `ok` as given, or takes so many bytes and then goes on
-- or stops, or goes on without a change.
pub data Turn : Type 0 where
  stops : Bool → Context → Turn
  takes : ℕ → Bool → Context → Turn
  spins : Turn

-- A ':' of the ASCII code 58.
abbrev pub colon : ℕ
colon = 58

-- The turn on the first line, if there is one.
pub request_turn : Context → ℕ → List ℕ → ℕ → Turn
request_turn c time line i =
    let (valid, r) = proc_req c.request line in
    if valid
    then takes (i + 2) true
        (record { state = ParseState.exp_header; request = record r { rcv_time = time } })
    else stops false (record c { request = r })

pub header_turn : Context → List ℕ → ℕ → Turn
header_turn c line i =
    let k = find colon line in
    if k == length line
    then takes (i + 2) false (record c { state = ParseState.done })
    else takes (i + 2) true (record c { request = add_header c.request line k })

-- The turn on the bytes that are readable, and the place of the first line end in them. A context
-- that is done, or expects a body, has no branch in the loop.
pub turn : Context → ℕ → List ℕ → Option ℕ → Turn
turn c time xs line_end = elim c.state [
  | ParseState.exp_req ↦ elim line_end [
    | none ↦ stops true c
    | some i ↦ request_turn c time (take i xs) i
  ]
  | ParseState.exp_header ↦ elim line_end [
    | none ↦ stops true c
    | some i ↦ header_turn c (take i xs) i
  ]
  | _ ↦ spins
]

-- What follows a turn; `next` is the rest of the loop.
pub after :
    (Context → Buffer → Result (Option (Bool × Context × Buffer)))
    → Context
    → Buffer
    → Turn
    → Result (Option (Bool × Context × Buffer))
after next c b (stops valid c') = ok (some (valid, c', b))
after next c b spins = next c b
after next c b (takes n true c') = retrieve_until b n >>= next c'
after next c b (takes n false c') = retrieve_until b n >>= λ b'. ok (some (true, c', b'))

-- `parse` with fuel for its turns; `none` is a loop that has not ended.
pub parse : ℕ → Context → Buffer → ℕ → Result (Option (Bool × Context × Buffer))
parse zero c b time = ok none
parse (suc fuel) c b time =
    after (λ c' b'. parse fuel c' b' time) c b (turn c time (contents b) (find_crlf b))

pub after_text :
    (Context → List ℕ → Option (Bool × Context × List ℕ))
    → Context
    → List ℕ
    → Turn
    → Option (Bool × Context × List ℕ)
after_text next c xs (stops valid c') = some (valid, c', xs)
after_text next c xs spins = next c xs
after_text next c xs (takes n true c') = next c' (drop n xs)
after_text next c xs (takes n false c') = some (true, c', drop n xs)

pub parse_text : ℕ → Context → List ℕ → ℕ → Option (Bool × Context × List ℕ)
parse_text zero c xs time = none
parse_text (suc fuel) c xs time =
    after_text (λ c' xs'. parse_text fuel c' xs' time) c xs (turn c time xs (search_crlf xs))
