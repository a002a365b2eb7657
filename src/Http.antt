-- ===== src/Http.antt =====
-- chtho/net/http: HTTPRequest.h, the request line of HTTPContext.cpp, and the choice in
-- HTTPServer.cpp to close a connection; the children have the rest. Strings are lists of bytes; a
-- range of pointers is the bytes in it.
pub mod RequestLine
pub mod Headers
pub mod Context
pub mod Response
pub mod Server
use chtho.Prelude.{
  ℕ, zero, suc, ◌+◌, ◌-◌, Bool, true, false, not, ◌&&◌, ◌||◌, List, [], ◌∷◌, ◌++◌, Option, none,
  some, ltb, leb, ◌==◌, if◌then◌else◌, length, take, drop, get_elem?,
}

pub data Method : Type 0 where
  invalid get post head put delete : Method

pub data Version : Type 0 where
  unknown http10 http11 : Version

-- `headers_`, with the key of each entry once.
abbrev pub Headers : Type 0
Headers = List (List ℕ × List ℕ)

pub record Request : Type 0 where
  pub method : Method
  pub version : Version
  pub path : List ℕ
  pub query : List ℕ
  pub rcv_time : ℕ
  pub headers : Headers

abbrev pub fresh : Request
fresh = record {
  method = Method.invalid;
  version = Version.unknown;
  path = [];
  query = [];
  rcv_time = 0;
  headers = [];
}

-- Whether two strings are the same.
abbrev pub same : List ℕ → List ℕ → Bool
same [] [] = true
same (x ∷ xs) (y ∷ ys) = x == y && same xs ys
same _ _ = false

-- "GET", "POST", "HEAD", "PUT" and "DELETE"
abbrev pub word : Method → List ℕ
word Method.get = 71 ∷ 69 ∷ 84 ∷ []
word Method.post = 80 ∷ 79 ∷ 83 ∷ 84 ∷ []
word Method.head = 72 ∷ 69 ∷ 65 ∷ 68 ∷ []
word Method.put = 80 ∷ 85 ∷ 84 ∷ []
word Method.delete = 68 ∷ 69 ∷ 76 ∷ 69 ∷ 84 ∷ 69 ∷ []
word Method.invalid = []

abbrev pub method_of : List ℕ → Method
method_of m =
    if same m (word Method.get)
    then Method.get
    else if same m (word Method.post)
    then Method.post
    else if same m (word Method.head)
    then Method.head
    else if same m (word Method.put)
    then Method.put
    else if same m (word Method.delete)
    then Method.delete
    else Method.invalid

abbrev pub is_valid : Method → Bool
is_valid Method.invalid = false
is_valid _ = true

pub set_method : Request → List ℕ → Bool × Request
set_method r m = (is_valid (method_of m), record r { method = method_of m })

-- `std::find`: the index of the byte, or the length.
abbrev pub find : ℕ → List ℕ → ℕ
find c [] = 0
find c (x ∷ xs) = if x == c then 0 else suc (find c xs)

-- isspace(3) in the C locale
abbrev is_space : ℕ → Bool
is_space c = c == 32 || (leb 9 c && leb c 13)

abbrev pub skip_spaces : List ℕ → List ℕ
skip_spaces [] = []
skip_spaces (x ∷ xs) = if is_space x then skip_spaces xs else x ∷ xs

-- Without the spaces at its end.
abbrev pub trim_end : List ℕ → List ℕ
trim_end [] = []
trim_end (x ∷ xs) =
    let rest = trim_end xs in
    elim rest [ [] ↦ if is_space x then [] else x ∷ [] | y ∷ ys ↦ x ∷ y ∷ ys ]

-- `headers_[key] = val`
pub put_header : Headers → List ℕ → List ℕ → Headers
put_header [] key val = (key, val) ∷ []
put_header ((k, v) ∷ rest) key val =
    let rest' = put_header rest key val in if same k key then (key, val) ∷ rest else (k, v) ∷ rest'

-- The line up to its end, and the index of the colon in it.
pub add_header : Request → List ℕ → ℕ → Request
unfolding put_header
add_header r line colon = record r {
  headers = put_header r.headers (take colon line) (trim_end (skip_spaces (drop (colon + 1) line)));
}

pub lookup : Headers → List ℕ → List ℕ
lookup [] key = []
lookup ((k, v) ∷ rest) key = let found = lookup rest key in if same k key then v else found

pub get_header : Request → List ℕ → List ℕ
unfolding lookup
get_header r key = lookup r.headers key

-- "HTTP/1."
abbrev pub http_1 : List ℕ
http_1 = 72 ∷ 84 ∷ 84 ∷ 80 ∷ 47 ∷ 49 ∷ 46 ∷ []

abbrev pub space : ℕ
space = 32

abbrev pub question : ℕ
question = 63

-- From the version on: eight bytes, the last of which is a digit.
pub proc_version : Request → List ℕ → Bool × Request
proc_version r xs =
    if not (length xs == 8)
    then (false, r)
    else if not (same (take 7 xs) http_1)
    then (false, r)
    else elim (get_elem? xs 7) [
      | none ↦ (false, r)
      | some d ↦
          if d == 49
          then (true, record r { version = Version.http11 })
          else if d == 48
          then (true, record r { version = Version.http10 })
          else (false, r)
    ]

-- The path, with a query or without.
pub set_target : Request → List ℕ → Request
set_target r xs =
    let q = find question xs in
    if q == length xs
    then record r { path = xs }
    else record r { path = take q xs; query = drop q xs }

pub proc_target : Request → List ℕ → Bool × Request
proc_target r xs =
    let end = find space xs in
    if end == length xs
    then (false, r)
    else proc_version (set_target r (take end xs)) (drop (end + 1) xs)

-- `procReq`, on the line up to its end.
pub proc_req : Request → List ℕ → Bool × Request
proc_req r line =
    let end = find space line in
    if end == length line
    then (false, r)
    else (let (valid, r') = set_method r (take end line) in
        if valid then proc_target r' (drop (end + 1) line) else (false, r'))

-- "close" and "Keep-Alive"
abbrev pub close_word : List ℕ
close_word = 99 ∷ 108 ∷ 111 ∷ 115 ∷ 101 ∷ []

abbrev pub keep_alive : List ℕ
keep_alive = 75 ∷ 101 ∷ 101 ∷ 112 ∷ 45 ∷ 65 ∷ 108 ∷ 105 ∷ 118 ∷ 101 ∷ []

-- "Connection"
abbrev pub connection : List ℕ
connection = 67 ∷ 111 ∷ 110 ∷ 110 ∷ 101 ∷ 99 ∷ 116 ∷ 105 ∷ 111 ∷ 110 ∷ []

abbrev pub is_http10 : Version → Bool
is_http10 Version.http10 = true
is_http10 _ = false

-- Whether `onReq` makes a response that closes the connection.
pub wants_close : Request → Bool
unfolding get_header
wants_close r =
    let c = get_header r connection in
    same c close_word || (is_http10 r.version && not (same c keep_alive))
