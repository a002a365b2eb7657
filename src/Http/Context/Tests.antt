-- ===== src/Http/Context/Tests.antt =====
-- The theorems on the parser at the request `GET / HTTP/1.1` with the header `A: b`.
use chtho.Prelude.{
  ℕ, ◌+◌, ◌≡◌, refl, inl, Bool, true, List, [], ◌∷◌, ◌++◌, ok, some, length, replicate, arith,
}
use chtho.Buffer.{Buffer, contents}
use chtho.Buffer.Valid.{IsValid}
use chtho.Http.{Method, Version}
use chtho.Http.Context.{Context, init, parse, parse_text}
use chtho.Http.Context.Refine.{Shows, parse-Shows}
use chtho.Http.Context.Ends.{Ended, parse_text-Ended}
use chtho.Http.Context.Message.{context_of, parse-message}

abbrev pub whole : List ℕ
whole =
    71 ∷ 69 ∷ 84 ∷ 32 ∷ 47 ∷ 32 ∷ 72 ∷ 84 ∷ 84 ∷ 80 ∷ 47 ∷ 49 ∷ 46 ∷ 49 ∷ 13 ∷ 10 ∷ 65 ∷ 58 ∷ 32
    ∷ 98 ∷ 13 ∷ 10 ∷ 13 ∷ 10 ∷ []

abbrev pub full : Buffer
full = record { buf = replicate 8 0 ++ whole; reader = 8; writer = 8 + length whole }

pub full-IsValid : IsValid full
full-IsValid = omega arith

parse-Shows_example : Shows (parse 3 init full 7) (parse_text 3 init (contents full) 7)
parse-Shows_example = parse-Shows 3 init full 7 full-IsValid

parse_text-Ended_example :
    (out : Bool × Context × List ℕ) × (parse_text 40 init whole 7 ≡ some out) × Ended out
parse_text-Ended_example = parse_text-Ended 40 init whole 7 (inl refl) (omega arith)

parse-message_example :
    (b' : Buffer) × (parse 3 init full 7
      ≡ ok (
          some
            (true, context_of Method.get (47 ∷ []) Version.http11 ((65 ∷ [], 98 ∷ []) ∷ []) 7, b')))
    × IsValid b'
    × (contents b' ≡ [])
parse-message_example =
    parse-message Method.get (47 ∷ []) Version.http11 ((65 ∷ [], 98 ∷ []) ∷ []) refl refl (refl, tt)
      (refl, tt) (refl, tt) (((refl, tt), (refl, tt), (refl, tt), refl, refl), tt) full [] 7
      full-IsValid refl
