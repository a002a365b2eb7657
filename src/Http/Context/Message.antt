-- ===== src/Http/Context/Message.antt =====
-- A request that was written by the rules of HTTP is read back.
use chtho.Prelude.{
  ℕ, zero, suc, ◌+◌, ◌<◌, ◌≡◌, refl, ap, subst, ◌∙◌, true, List, [], ◌∷◌, ◌++◌, some, ok, length,
  drop, arith,
}
use chtho.Buffer.{Buffer, contents}
use chtho.Buffer.Valid.{IsValid}
use chtho.Buffer.Scan.{search_crlf, CrlfFree, cr, lf, line_end, search_crlf-line_end}
use chtho.Http.{
  Method, Version, Headers, fresh, space, question, skip_spaces, trim_end, put_header, add_header,
  is_valid, word, http_1,
}
use chtho.Http.RequestLine.{
  Free, find-append, found-short, take-append, drop-append, request_line, is_known, digit,
  proc_req-request_line,
}
use chtho.Http.Context.{
  Context, ParseState, colon, takes, turn, request_turn, header_turn, after_text, parse, parse_text,
  init,
}
use chtho.Http.Context.Ends.{turn_req, turn_header}
use chtho.Http.Context.Refine.{Shows, parse-Shows}

Free-append : (c : ℕ) (xs ys : List ℕ) → Free c xs → Free c ys → Free c (xs ++ ys)
Free-append c [] ys f g = g
Free-append c (x ∷ xs) ys f g = (f.0, Free-append c xs ys f.1 g)

CrlfFree-Free : (xs : List ℕ) → Free cr xs → CrlfFree (xs ++ cr ∷ [])
CrlfFree-Free [] f = tt
CrlfFree-Free (x ∷ []) f = (ground (arith, f.0), tt)
CrlfFree-Free (x ∷ y ∷ xs) f = (ground (arith, f.0), CrlfFree-Free (y ∷ xs) f.1)

drop_two : (line rest : List ℕ) → drop (suc (suc (length line))) (line_end line rest) ≡ rest
drop_two [] rest = refl
drop_two (x ∷ line) rest = drop_two line rest

drop_line : (line rest : List ℕ) → drop (length line + 2) (line_end line rest) ≡ rest
drop_line line rest =
    let n : length line + 2 ≡ suc (suc (length line)) = omega arith in
    ap (λ k. drop k (line_end line rest)) n ∙ drop_two line rest

-- The turn on a first line without a CR.
module _ (line rest : List ℕ) (f : Free cr line) (c : Context) (time : ℕ) where
  first_request :
      c.state ≡ ParseState.exp_req
      → turn c time (line_end line rest) (search_crlf (line_end line rest))
        ≡ request_turn c time line (length line)
  first_request e =
      ap (turn c time (line_end line rest)) (search_crlf-line_end line rest (CrlfFree-Free line f))
      ∙ turn_req c time (length line) (line_end line rest) e
      ∙ ap (λ l. request_turn c time l (length line)) (take-append line (cr ∷ lf ∷ rest))

  first_header :
      c.state ≡ ParseState.exp_header
      → turn c time (line_end line rest) (search_crlf (line_end line rest))
        ≡ header_turn c line (length line)
  first_header e =
      ap (turn c time (line_end line rest)) (search_crlf-line_end line rest (CrlfFree-Free line f))
      ∙ turn_header c time (length line) (line_end line rest) e
      ∙ ap (λ l. header_turn c l (length line)) (take-append line (cr ∷ lf ∷ rest))

-- A name, a colon, a space and a value.
abbrev header_line : List ℕ → List ℕ → List ℕ
header_line key val = key ++ colon ∷ space ∷ val

-- The headers, an empty line and what follows.
abbrev header_text : Headers → List ℕ → List ℕ
header_text [] rest = line_end [] rest
header_text ((key, val) ∷ hs) rest = line_end (header_line key val) (header_text hs rest)

-- A name has no colon, neither has a CR, and the value no space at its ends.
abbrev pub AreHeaders : Headers → Type 0
AreHeaders [] = Unit {0}
AreHeaders ((key, val) ∷ hs) =
    (Free colon key × Free cr key × Free cr val × (skip_spaces val ≡ val) × (trim_end val ≡ val))
    × AreHeaders hs

-- The headers put into a request, the first one first.
abbrev put_all : Headers → Headers → Headers
put_all h [] = h
put_all h ((key, val) ∷ hs) = put_all (put_header h key val) hs

header_turn-line :
    (c : Context) (key val : List ℕ) (i : ℕ)
    → Free colon key
    → skip_spaces val ≡ val
    → trim_end val ≡ val
    → header_turn c (header_line key val) i
      ≡ takes (i + 2) true (record c {
        request = record c.request { headers = put_header c.request.headers key val };
      })
unfolding header_turn add_header
header_turn-line c key val i f s t =
    rw
      (
        found-short colon key (space ∷ val) f,
        find-append colon key (space ∷ val) f,
        take-append key (colon ∷ space ∷ val),
        drop-append key (space ∷ val) colon,
        s,
        t,
      )
      refl

parse_text_step :
    (fuel : ℕ) (c c' : Context) (line rest : List ℕ) (time : ℕ)
    → turn c time (line_end line rest) (search_crlf (line_end line rest))
      ≡ takes (length line + 2) true c'
    → parse_text (suc fuel) c (line_end line rest) time ≡ parse_text fuel c' rest time
unfolding parse_text after_text
parse_text_step fuel c c' line rest time e = rw (e, drop_line line rest) refl

parse_text_last :
    (fuel : ℕ) (c : Context) (rest : List ℕ) (time : ℕ)
    → c.state ≡ ParseState.exp_header
    → parse_text (suc fuel) c (line_end [] rest) time
      ≡ some (true, record c { state = ParseState.done }, rest)
unfolding parse_text after_text header_turn
parse_text_last fuel c rest time e = rw (first_header [] rest tt c time e) refl

-- The context once the whole header was read.
abbrev finished : Context → Headers → Context
finished c hs = record c {
  state = ParseState.done;
  request = record c.request { headers = put_all c.request.headers hs };
}

parse_text-header_text :
    (hs : Headers) (fuel : ℕ) (c : Context) (rest : List ℕ) (time : ℕ)
    → c.state ≡ ParseState.exp_header
    → AreHeaders hs
    → length hs < fuel
    → parse_text fuel c (header_text hs rest) time ≡ some (true, finished c hs, rest)
parse_text-header_text [] (suc fuel) c rest time e a h = parse_text_last fuel c rest time e
parse_text-header_text hs zero c rest time e a h = absurd (omega arith)
parse_text-header_text ((key, val) ∷ hs) (suc fuel) c rest time e ((f, g, g', s, t), a) h =
    let c' : Context = record c {
      request = record c.request { headers = put_header c.request.headers key val };
    } in
    let free : Free cr (header_line key val) =
      Free-append cr key (colon ∷ space ∷ val) g (refl, (refl, g')) in
    parse_text_step fuel c c' (header_line key val) (header_text hs rest) time (
      first_header (header_line key val) (header_text hs rest) free c time e
      ∙ header_turn-line c key val (length (header_line key val)) f s t)
    ∙ parse_text-header_text hs fuel c' rest time e a (omega (arith, h))

-- A whole request, and what follows it.
abbrev pub message : Method → List ℕ → Version → Headers → List ℕ → List ℕ
message m path v hs rest = line_end (request_line m path v) (header_text hs rest)

-- The context that reads it.
abbrev pub context_of : Method → List ℕ → Version → Headers → ℕ → Context
context_of m path v hs time = record {
  state = ParseState.done;
  request = record fresh {
    method = m;
    path = path;
    version = v;
    rcv_time = time;
    headers = put_all [] hs;
  };
}

word-Free-cr : (m : Method) → Free cr (word m)
word-Free-cr Method.invalid = tt
word-Free-cr Method.get = (refl, (refl, (refl, tt)))
word-Free-cr Method.post = (refl, (refl, (refl, (refl, tt))))
word-Free-cr Method.head = (refl, (refl, (refl, (refl, tt))))
word-Free-cr Method.put = (refl, (refl, (refl, tt)))
word-Free-cr Method.delete = (refl, (refl, (refl, (refl, (refl, (refl, tt))))))

digit-Free : (v : Version) → Free cr (http_1 ++ digit v ∷ [])
digit-Free Version.unknown = (refl, (refl, (refl, (refl, (refl, (refl, (refl, (refl, tt))))))))
digit-Free Version.http10 = (refl, (refl, (refl, (refl, (refl, (refl, (refl, (refl, tt))))))))
digit-Free Version.http11 = (refl, (refl, (refl, (refl, (refl, (refl, (refl, (refl, tt))))))))

module _ (m : Method) (path : List ℕ) (v : Version) (hs : Headers) (h : is_valid m ≡ true)
    (k : is_known v ≡ true) (f : Free space path) (g : Free question path) (j : Free cr path)
    (a : AreHeaders hs) where
  line-Free : Free cr (request_line m path v)
  line-Free =
      Free-append cr (word m) (space ∷ (path ++ space ∷ (http_1 ++ digit v ∷ []))) (word-Free-cr m)
        (refl, Free-append cr path (space ∷ (http_1 ++ digit v ∷ [])) j (refl, digit-Free v))

  request_turn-line :
      (time i : ℕ)
      → request_turn init time (request_line m path v) i
        ≡ takes (i + 2) true (record {
          state = ParseState.exp_header;
          request = record fresh { method = m; path = path; version = v; rcv_time = time };
        })
  unfolding request_turn
  request_turn-line time i = rw (proc_req-request_line fresh m path v h k f g) refl

  parse_text-message :
      (fuel : ℕ) (rest : List ℕ) (time : ℕ)
      → length hs < fuel
      → parse_text (suc fuel) init (message m path v hs rest) time
        ≡ some (true, context_of m path v hs time, rest)
  parse_text-message fuel rest time enough =
      let c : Context = record {
        state = ParseState.exp_header;
        request = record fresh { method = m; path = path; version = v; rcv_time = time };
      } in
      parse_text_step fuel init c (request_line m path v) (header_text hs rest) time (
        first_request (request_line m path v) (header_text hs rest) line-Free init time refl
        ∙ request_turn-line time (length (request_line m path v)))
      ∙ parse_text-header_text hs fuel c rest time refl a enough

  -- A buffer that shows a whole request, of a known method and version, a path without space,
  -- question mark and CR, and headers whose names have no colon, without CR and with no space at
  -- the ends of the values, is read by a new context in as many turns as there are lines: the
  -- request has exactly these parts, and what follows it stays in the buffer.
  pub parse-message :
      (b : Buffer) (rest : List ℕ) (time : ℕ)
      → IsValid b
      → contents b ≡ message m path v hs rest
      → (b' : Buffer) × (parse (length hs + 2) init b time
          ≡ ok (some (true, context_of m path v hs time, b')))
        × IsValid b'
        × (contents b' ≡ rest)
  parse-message b rest time valid e =
      subst (Shows (parse (length hs + 2) init b time))
        (ap (λ xs. parse_text (length hs + 2) init xs time) e ∙ enough)
        (parse-Shows (length hs + 2) init b time valid)
    where
      turns : length hs + 2 ≡ suc (suc (length hs))
      turns = omega arith

      enough :
          parse_text (length hs + 2) init (message m path v hs rest) time
          ≡ some (true, context_of m path v hs time, rest)
      enough =
          ap (λ n. parse_text n init (message m path v hs rest) time) turns
          ∙ parse_text-message (suc (length hs)) rest time (omega arith)
