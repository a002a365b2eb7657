-- ===== src/Http/Server/Answers.antt =====
-- What the server sends for a message.
use chtho.Prelude.{
  ℕ, ◌+◌, ◌≤◌, ◌≡◌, refl, sym, ap, subst, ◌∙◌, Bool, true, false, List, ◌++◌, inl, inr, some,
  Result, ok, if◌then◌else◌, length, arith,
}
use chtho.Buffer.{Buffer, make, k_init, k_pre, max_size, contents}
use chtho.Buffer.Valid
use chtho.Buffer.Contents.{make-IsValid}
use chtho.TcpConnection.{State, Conn, Write, shutdown}
use chtho.TcpConnection.Stream.{IsValid, stream, is_reset}
use chtho.TcpConnection.Send.{shutdown_open, send-Streams, send_buffer-Streams}
use chtho.Http.{Request, wants_close}
use chtho.Http.Context.{Context, ParseState, parse, parse_text, init}
use chtho.Http.Context.Refine.{Shows, parse-Shows}
use chtho.Http.Context.Ends.{Ended, IsParsing, parse_text-Ended}
use chtho.Http.Response.{Response, make_response, IsShort, text, append_to_buf-text}
use chtho.Http.Server.{bad_request, on_req, refuse, answer, on_msg}

-- The connection goes on, or is shutting down, with these bytes sent.
abbrev pub Sent : Result Conn → List ℕ → Bool → Type 0
Sent r xs close =
    (c' : Conn) × (r ≡ ok c')
    × (stream c' ≡ xs)
    × (c'.state ≡ (if close then State.disconnecting else State.connected))

module _ (decimal : ℕ → List ℕ) (http_cb : Request → Response → Response) (address : ℕ) where
  -- The response that the user gives to a request.
  abbrev pub response_to : Request → Response
  response_to req = http_cb req (make_response (wants_close req))

  module _ (c : Conn) (m : ℕ) (v : IsValid c m) (s : c.state ≡ State.connected)
      (opened : c.shut ≡ false) (w : Write) (alive : is_reset w ≡ false) where
    finish :
        (c' : Conn) (close : Bool) (xs : List ℕ)
        → c'.state ≡ State.connected
        → stream c' ≡ xs
        → (let d = (if close then shutdown c' true else c') in
            (stream d ≡ xs) × (d.state ≡ (if close then State.disconnecting else State.connected)))
    finish c' true xs k e = rw (shutdown_open c' k) (e, refl)
    finish c' false xs k e = (e, k)

    -- What is sent for a request: the text of its response, and then the connection is shut down if
    -- the response says so.
    on_req-Sent :
        (req : Request)
        → m + length (text decimal (response_to req)) ≤ max_size
        → k_pre + length (text decimal (response_to req)) ≤ max_size
        → IsShort (response_to req)
        → Sent
            (on_req decimal http_cb address c req w)
            (stream c ++ text decimal (response_to req))
            (response_to req).close
    unfolding on_req make
    on_req-Sent req small fits short =
        let resp = response_to req in
        let (v₀, empty) = make-IsValid k_init (omega arith) in
        let (buf, e, v₁, shows, _) =
          append_to_buf-text decimal resp short (make k_init) v₀ (omega (arith, fits)) in
        let same : contents buf ≡ text decimal resp =
          shows ∙ ap (λ xs. xs ++ text decimal resp) empty in
        let (c', e', v', st, k, h) =
          send_buffer-Streams c m v s opened w alive address buf
            (subst (λ xs. m + length xs ≤ max_size) (sym same) small) in
        let (f, g) =
          finish c' resp.close (stream c ++ text decimal resp) k
            (st ∙ ap (λ xs. stream c ++ xs) same) in
        ((if resp.close then shutdown c' true else c'), rw (e, e') refl, f, g)

    refuse-Sent :
        m + length bad_request ≤ max_size
        → Sent (refuse decimal http_cb address c w) (stream c ++ bad_request) true
    unfolding refuse
    refuse-Sent small =
        let (c', e', v', st, k, h) = send-Streams c m v s opened w alive bad_request small in
        let (f, g) = finish c' true (stream c ++ bad_request) (k ∙ s) st in
        (shutdown c' true, rw e' refl, f, g)

  -- What a message leads to: the refusal and the end of the connection, the response, or nothing
  -- yet, while the header is not complete.
  abbrev pub Reply : Conn → Conn → Bool × Context × List ℕ → Type 0
  Reply c c' (false, context, xs) =
      (stream c' ≡ stream c ++ bad_request) × (c'.state ≡ State.disconnecting)
  Reply c c' (true, context, xs) = elim context.state [
    | ParseState.done ↦
        (stream c' ≡ stream c ++ text decimal (response_to context.request))
        × (c'.state ≡ (
            if (response_to context.request).close then State.disconnecting else State.connected))
    | _ ↦ (stream c' ≡ stream c) × (c'.state ≡ State.connected)
  ]

  -- The connection with a new input buffer.
  taken-IsValid : (c : Conn) (m : ℕ) (b : Buffer) → IsValid c m → IsValid (record c { input = b }) m
  taken-IsValid c m b v = record {
    output_ok = v.output_ok;
    bounded = v.bounded;
    waits = v.waits;
    flushed = v.flushed;
  }

  module _ (c : Conn) (m : ℕ) (v : IsValid c m) (s : c.state ≡ State.connected)
      (opened : c.shut ≡ false) (w₁ w₂ : Write) (alive₁ : is_reset w₁ ≡ false)
      (alive₂ : is_reset w₂ ≡ false) (refusal_fits : m + length bad_request ≤ max_size)
      (fits : (req : Request)
        → (m + length (text decimal (response_to req)) ≤ max_size)
          × (k_pre + length (text decimal (response_to req)) ≤ max_size)
          × IsShort (response_to req)) where
    abbrev taken : Buffer → Conn
    taken b = record c { input = b }

    answer_waits :
        (context : Context) (b : Buffer)
        → IsParsing context
        → answer decimal http_cb address c w₁ w₂ (true, context, b) ≡ ok (taken b)
    unfolding answer
    answer_waits context b p = ground (arith, p)

    answer_done :
        (context : Context) (b : Buffer)
        → context.state ≡ ParseState.done
        → answer decimal http_cb address c w₁ w₂ (true, context, b)
          ≡ on_req decimal http_cb address (taken b) context.request w₂
    unfolding answer
    answer_done context b p = ground (arith, p)

    answer_refused :
        (context : Context) (b : Buffer) (c' : Conn)
        → context.state ≡ ParseState.exp_req
        → refuse decimal http_cb address (taken b) w₁ ≡ ok c'
        → answer decimal http_cb address c w₁ w₂ (false, context, b) ≡ ok c'
    unfolding answer
    answer_refused context b c' p e = rw (e, p) refl

    answer-Reply :
        (valid : Bool) (context : Context) (b : Buffer) (xs : List ℕ)
        → Ended (valid, context, xs)
        → (c' : Conn) × (answer decimal http_cb address c w₁ w₂ (valid, context, b) ≡ ok c')
          × Reply c c' (valid, context, xs)
    answer-Reply true context b xs (inl (_, p, _)) = (taken b, answer_waits context b p, waiting p)
      where
        waiting : IsParsing context → Reply c (taken b) (true, context, xs)
        waiting (inl e) = rw e (refl, s)
        waiting (inr e) = rw e (refl, s)
    answer-Reply true context b xs (inr (inl (_, d))) =
        let (small, room, short) = fits context.request in
        let (c', e, f, g) =
          on_req-Sent (taken b) m (taken-IsValid c m b v) s opened w₂ alive₂ context.request small
            room short in
        (c', answer_done context b d ∙ e, rw d (f, g))
    answer-Reply true context b xs (inr (inr (h, _))) = cc
    answer-Reply false context b xs (inr (inr (_, e))) =
        let (c', d, f, g) =
          refuse-Sent (taken b) m (taken-IsValid c m b v) s opened w₁ alive₁ refusal_fits in
        (c', answer_refused context b c' e d, (f, g))
    answer-Reply false context b xs (inr (inl (h, _))) = cc
    answer-Reply false context b xs (inl (h, _, _)) = cc

    -- On an open connection whose buffers are valid and may hold the answer, where the function of the
    -- user answers with a status message, headers and a body of less than 2 ^ 31 bytes each, and where
    -- no write finds the peer gone, a message makes the server read its whole header or as much of it as is
    -- there, and then send behind all that was sent before: the response of the user's function and
    -- a shutdown if that says so, the text of the status 400 and a shutdown, or nothing.
    pub on_msg-Reply :
        (time : ℕ)
        → chtho.Buffer.Valid.IsValid c.input
        → (out : Bool × Context × List ℕ) × (c' : Conn) × (parse_text
              (length (contents c.input) + 1)
              init
              (contents c.input)
              time
            ≡ some out)
          × (on_msg decimal http_cb address (length (contents c.input) + 1) c time w₁ w₂
              ≡ ok (some c'))
          × Reply c c' out
    unfolding on_msg
    on_msg-Reply time valid =
        let fuel : ℕ = length (contents c.input) + 1 in
        let ((accepted, context, xs), e, ended) =
          parse_text-Ended fuel init (contents c.input) time (inl refl) (omega arith) in
        let (b, d, _, _) =
          subst (Shows (parse fuel init c.input time)) e
            (parse-Shows fuel init c.input time valid) in
        let (c', a, reply) = answer-Reply accepted context b xs ended in
        ((accepted, context, xs), c', e, rw (d, a) refl, reply)
