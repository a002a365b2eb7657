-- ===== src/Http/Server.antt =====
-- chtho/net/http/HTTPServer.cpp: what a message of a connection makes the server do.
pub mod Answers
mod Tests
use chtho.Prelude.{
  ℕ, ◌+◌, ◌≤◌, ◌≡◌, refl, sym, ap, subst, ◌∙◌, Bool, true, false, not, ◌&&◌, ◌||◌, List, [], ◌∷◌,
  ◌++◌, Option, none, some, Result, ok, ◌>>=◌, if◌then◌else◌, length, arith, Bool-cases, inl, inr,
}
use chtho.Buffer.{Buffer, make, k_init, max_size, contents, readable_bytes}
use chtho.TcpConnection.{Conn, Write, send, send_buffer, shutdown}
use chtho.Http.{
  Request, same, get_header, connection, close_word, keep_alive, is_http10, wants_close,
}
use chtho.Http.Context.{Context, ParseState, parse, init}
use chtho.Http.Response.{Response, make_response, append_to_buf}

-- "HTTP/1.1 400 Bad Request\r\n\r\n"
abbrev pub bad_request : List ℕ
bad_request =
    72 ∷ 84 ∷ 84 ∷ 80 ∷ 47 ∷ 49 ∷ 46 ∷ 49 ∷ 32 ∷ 52 ∷ 48 ∷ 48 ∷ 32 ∷ 66 ∷ 97 ∷ 100 ∷ 32 ∷ 82 ∷ 101
    ∷ 113 ∷ 117 ∷ 101 ∷ 115 ∷ 116 ∷ 13 ∷ 10 ∷ 13 ∷ 10 ∷ []

abbrev is_done : ParseState → Bool
is_done ParseState.done = true
is_done _ = false

-- `defaultHTTPCB`: 404, "Not Found", and the connection is closed.
pub default_http_cb : Request → Response → Response
default_http_cb req resp = record resp {
  status = 404;
  status_msg = 78 ∷ 111 ∷ 116 ∷ 32 ∷ 70 ∷ 111 ∷ 117 ∷ 110 ∷ 100 ∷ [];
  close = true;
}

-- What snprintf(3) prints, the callback of the user, and the address of the buffer in `onReq`.
module _ (decimal : ℕ → List ℕ) (http_cb : Request → Response → Response) (address : ℕ) where
  -- `onReq` in the loop thread of the connection.
  pub on_req : Conn → Request → Write → Result Conn
  on_req c req w = do
    let resp = http_cb req (make_response (wants_close req))
    buf ← append_to_buf decimal resp (make k_init)
    (c', _) ← send_buffer c true w address buf
    ok (if resp.close then shutdown c' true else c')

  pub refuse : Conn → Write → Result Conn
  refuse c w = do c' ← send c true w bad_request; ok (shutdown c' true)

  -- What follows `parse`: the answers of write(2) to the refusal and to the response.
  pub answer : Conn → Write → Write → Bool × Context × Buffer → Result Conn
  unfolding refuse
  answer c w₁ w₂ (valid, context, b) = do
    let c₁ = record c { input = b }
    c₂ ← if valid then ok c₁ else refuse c₁ w₁
    if is_done context.state then on_req c₂ context.request w₂ else ok c₂

  -- `onMsg`, with fuel for the turns of `parse`; `none` is a loop that has not ended.
  pub on_msg : ℕ → Conn → ℕ → Write → Write → Result (Option Conn)
  on_msg fuel c time w₁ w₂ = do
    r ← parse fuel init c.input time
    elim r [ none ↦ ok none | some out ↦ answer c w₁ w₂ out >>= λ c'. ok (some c') ]
