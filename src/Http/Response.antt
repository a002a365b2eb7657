-- ===== src/Http/Response.antt =====
-- chtho/net/http/HTTPResponse.h and HTTPResponse.cpp. The number that snprintf(3) prints is a
-- parameter.
use chtho.Prelude.{
  ℕ, ◌<◌, ◌^◌, Bool, true, false, List, [], ◌∷◌, ◌++◌, Result, ok, ◌>>=◌, ltb, ◌==◌, if◌then◌else◌,
  length, take,
}
use chtho.Buffer.{Buffer, append, append_piece}
use chtho.Buffer.Writes.{
  Writes, none-Writes, append-Writes, append_piece-Writes, bind-Writes, if-Writes,
}
use chtho.Http.{Headers, same, keep_alive, connection}

pub record Response : Type 0 where
  pub status : ℕ
  pub close : Bool
  pub status_msg : List ℕ
  pub headers : Headers
  pub body : List ℕ

-- The constructor; the status is `Unknown`.
unfoldable pub make_response : Bool → Response
make_response close = record { status = 0; close = close; status_msg = []; headers = []; body = [] }

-- The order of `std::string`.
abbrev pub less : List ℕ → List ℕ → Bool
less [] [] = false
less [] (y ∷ ys) = true
less (x ∷ xs) [] = false
less (x ∷ xs) (y ∷ ys) = if x == y then less xs ys else ltb x y

-- `headers_[key] = val`, in the order of the map.
insert_header : Headers → List ℕ → List ℕ → Headers
insert_header [] key val = (key, val) ∷ []
insert_header ((k, v) ∷ rest) key val =
    let rest' = insert_header rest key val in
    if same k key
    then (key, val) ∷ rest
    else if less key k
    then (key, val) ∷ (k, v) ∷ rest
    else (k, v) ∷ rest'

pub add_header : Response → List ℕ → List ℕ → Response
unfolding insert_header
add_header r key val = record r { headers = insert_header r.headers key val }

abbrev crlf : List ℕ
crlf = 13 ∷ 10 ∷ []

-- "HTTP/1.1 "
abbrev http_11 : List ℕ
http_11 = 72 ∷ 84 ∷ 84 ∷ 80 ∷ 47 ∷ 49 ∷ 46 ∷ 49 ∷ 32 ∷ []

-- "Connection: close\r\n"
abbrev connection_close : List ℕ
connection_close = connection ++ (58 ∷ 32 ∷ 99 ∷ 108 ∷ 111 ∷ 115 ∷ 101 ∷ crlf)

-- "Connection: Keep-Alive\r\n"
abbrev connection_keep_alive : List ℕ
connection_keep_alive = connection ++ (58 ∷ 32 ∷ (keep_alive ++ crlf))

-- "Content-Length: "
abbrev content_length : List ℕ
content_length =
    67 ∷ 111 ∷ 110 ∷ 116 ∷ 101 ∷ 110 ∷ 116 ∷ 45 ∷ 76 ∷ 101 ∷ 110 ∷ 103 ∷ 116 ∷ 104 ∷ 58 ∷ 32 ∷ []

-- What snprintf(3) leaves in `char buf[32]`.
abbrev in_buf : List ℕ → List ℕ
in_buf xs = take 31 xs

-- The strings are appended as a `StringPiece`, and so are the literals, whose lengths are small.
append_headers : Headers → Buffer → Result Buffer
append_headers [] b = ok b
append_headers ((key, val) ∷ rest) b = do
  b₁ ← append_piece b key
  b₂ ← append b₁ (58 ∷ 32 ∷ [])
  b₃ ← append_piece b₂ val
  b₄ ← append b₃ crlf
  append_headers rest b₄

-- The text of the headers.
abbrev headers_text : Headers → List ℕ
headers_text [] = []
headers_text ((key, val) ∷ rest) = key ++ ((58 ∷ 32 ∷ []) ++ (val ++ (crlf ++ headers_text rest)))

-- The lengths of names and values fit in an `int`.
abbrev pub AreShort : Headers → Type 0
AreShort [] = Unit {0}
AreShort ((key, val) ∷ rest) = (length key < 2 ^ 31) × (length val < 2 ^ 31) × AreShort rest

-- So do those of all strings of a response.
abbrev pub IsShort : Response → Type 0
IsShort r = (length r.status_msg < 2 ^ 31) × (length r.body < 2 ^ 31) × AreShort r.headers

append_headers-Writes : (h : Headers) → AreShort h → Writes (append_headers h) (headers_text h)
unfolding append_headers
append_headers-Writes [] short = none-Writes
append_headers-Writes ((key, val) ∷ rest) short = bind-Writes (append_piece-Writes key short.0) (
    bind-Writes (append-Writes (58 ∷ 32 ∷ [])) (
      bind-Writes (append_piece-Writes val short.1)
        (bind-Writes (append-Writes crlf) (append_headers-Writes rest short.2))))

module _ (decimal : ℕ → List ℕ) where
  pub append_connection : Response → Buffer → Result Buffer
  append_connection r b = if r.close then append b connection_close else (do
    b' ← append b (in_buf (content_length ++ (decimal (length r.body) ++ crlf)))
    append b' connection_keep_alive)

  pub append_to_buf : Response → Buffer → Result Buffer
  append_to_buf r b = do
    b₁ ← append b (in_buf (http_11 ++ (decimal r.status ++ 32 ∷ [])))
    b₂ ← append_piece b₁ r.status_msg
    b₃ ← append b₂ crlf
    b₄ ← append_connection r b₃
    b₅ ← append_headers r.headers b₄
    b₆ ← append b₅ crlf
    append_piece b₆ r.body

  -- The text of a response.
  abbrev pub connection_text : Response → List ℕ
  connection_text r =
      if r.close
      then connection_close
      else in_buf (content_length ++ (decimal (length r.body) ++ crlf)) ++ connection_keep_alive

  abbrev pub text : Response → List ℕ
  text r =
      in_buf (http_11 ++ (decimal r.status ++ 32 ∷ []))
      ++ (r.status_msg
          ++ (crlf ++ (connection_text r ++ (headers_text r.headers ++ (crlf ++ r.body)))))

  append_connection-Writes : (r : Response) → Writes (append_connection r) (connection_text r)
  unfolding append_connection
  append_connection-Writes r = if-Writes r.close (append-Writes connection_close) (
      bind-Writes (append-Writes (in_buf (content_length ++ (decimal (length r.body) ++ crlf))))
        (append-Writes connection_keep_alive))

  -- A response of strings whose lengths fit in an `int` is appended to a valid buffer that may hold it behind what it shows: the status line,
  -- the connection header with the length of the body if it stays open, the headers, an empty line
  -- and the body.
  pub append_to_buf-text : (r : Response) → IsShort r → Writes (append_to_buf r) (text r)
  unfolding append_to_buf
  append_to_buf-text r short =
      bind-Writes (append-Writes (in_buf (http_11 ++ (decimal r.status ++ 32 ∷ [])))) (
        bind-Writes (append_piece-Writes r.status_msg short.0) (
          bind-Writes (append-Writes crlf) (
            bind-Writes (append_connection-Writes r) (
              bind-Writes (append_headers-Writes r.headers short.2)
                (bind-Writes (append-Writes crlf) (append_piece-Writes r.body short.1))))))
