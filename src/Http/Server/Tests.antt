-- ===== src/Http/Server/Tests.antt =====
-- The theorem on messages at a whole request, with the default callback.
use chtho.Prelude.{ℕ, ◌+◌, ◌≡◌, refl, Bool, List, [], ◌∷◌, ok, some, length, arith}
use chtho.Buffer.{contents}
use chtho.TcpConnection.{Conn, room}
use chtho.TcpConnection.Stream.{IsValid}
use chtho.TcpConnection.Tests.{established, established-IsValid}
use chtho.Http.Context.{Context, parse_text, init}
use chtho.Http.Context.Tests.{full, full-IsValid}
use chtho.Http.Response.{make_response}
use chtho.Http.Server.{default_http_cb, on_msg}
use chtho.Http.Server.Answers.{Reply, on_msg-Reply}

abbrev decimal : ℕ → List ℕ
decimal n = 52 ∷ 48 ∷ 52 ∷ []

abbrev asked : Conn
asked = record established { input = full }

asked-IsValid : IsValid asked 8
asked-IsValid =
    let v = established-IsValid in
    record { output_ok = v.output_ok; bounded = v.bounded; waits = v.waits; flushed = v.flushed }

on_msg-Reply_example :
    (out : Bool × Context × List ℕ) × (c' : Conn) × (parse_text
        (length (contents full) + 1)
        init
        (contents full)
        7
      ≡ some out)
    × (on_msg decimal default_http_cb 1 (length (contents full) + 1) asked 7 (room 5) (room 5)
        ≡ ok (some c'))
    × Reply decimal default_http_cb 1 asked c' out
unfolding default_http_cb make_response
on_msg-Reply_example =
    on_msg-Reply decimal default_http_cb 1 asked 8 asked-IsValid refl refl (room 5) (room 5) refl
      refl (omega arith) (λ req. (omega arith, omega arith, (omega arith, omega arith, tt))) 7
      full-IsValid
