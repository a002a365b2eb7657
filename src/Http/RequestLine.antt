-- ===== src/Http/RequestLine.antt =====
-- A request line is read back as it was written.
use chtho.Prelude.{
  ℕ, suc, ◌+◌, ◌≡◌, refl, ap, ◌∙◌, Bool, true, false, List, [], ◌∷◌, ◌++◌, ◌==◌, length, take, drop,
  arith, length-append,
}
use chtho.Http.{
  Method, Version, Request, word, method_of, is_valid, set_method, find, space, question, http_1,
  proc_version, set_target, proc_target, proc_req,
}

-- The byte does not occur.
abbrev pub Free : ℕ → List ℕ → Type 0
Free c [] = Unit {0}
Free c (x ∷ xs) = ((x == c) ≡ false) × Free c xs

pub find-append : (c : ℕ) (xs ys : List ℕ) → Free c xs → find c (xs ++ c ∷ ys) ≡ length xs
find-append c [] ys f = ground arith
find-append c (x ∷ xs) ys f = ground (arith, f.0, find-append c xs ys f.1)

find-Free : (c : ℕ) (xs : List ℕ) → Free c xs → find c xs ≡ length xs
find-Free c [] f = refl
find-Free c (x ∷ xs) f = ground (arith, f.0, find-Free c xs f.1)

pub take-append : (xs ys : List ℕ) → take (length xs) (xs ++ ys) ≡ xs
take-append [] ys = refl
take-append (x ∷ xs) ys = ap (λ r. x ∷ r) (take-append xs ys)

drop-suc : (xs ys : List ℕ) (y : ℕ) → drop (suc (length xs)) (xs ++ y ∷ ys) ≡ ys
drop-suc [] ys y = refl
drop-suc (x ∷ xs) ys y = drop-suc xs ys y

pub drop-append : (xs ys : List ℕ) (y : ℕ) → drop (length xs + 1) (xs ++ y ∷ ys) ≡ ys
drop-append xs ys y =
    let n : length xs + 1 ≡ suc (length xs) = omega arith in
    ap (λ k. drop k (xs ++ y ∷ ys)) n ∙ drop-suc xs ys y

-- The digit of a version.
abbrev pub digit : Version → ℕ
digit Version.http11 = 49
digit Version.http10 = 48
digit Version.unknown = 0

abbrev pub is_known : Version → Bool
is_known Version.unknown = false
is_known _ = true

word-Free : (m : Method) → Free space (word m)
word-Free Method.invalid = tt
word-Free Method.get = (refl, (refl, (refl, tt)))
word-Free Method.post = (refl, (refl, (refl, (refl, tt))))
word-Free Method.head = (refl, (refl, (refl, (refl, tt))))
word-Free Method.put = (refl, (refl, (refl, tt)))
word-Free Method.delete = (refl, (refl, (refl, (refl, (refl, (refl, tt))))))

method_of-word : (m : Method) → method_of (word m) ≡ m
method_of-word Method.invalid = refl
method_of-word Method.get = refl
method_of-word Method.post = refl
method_of-word Method.head = refl
method_of-word Method.put = refl
method_of-word Method.delete = refl

pub found-short :
    (c : ℕ) (xs ys : List ℕ) → Free c xs → (find c (xs ++ c ∷ ys) == length (xs ++ c ∷ ys)) ≡ false
found-short c xs ys f = ground (arith, find-append c xs ys f, length-append xs (c ∷ ys))

req_word :
    (r : Request) (w rest : List ℕ) (m : Method)
    → Free space w
    → method_of w ≡ m
    → is_valid m ≡ true
    → proc_req r (w ++ space ∷ rest) ≡ proc_target (record r { method = m }) rest
unfolding proc_req set_method
req_word r w rest m f e v =
    rw
      (
        found-short space w rest f,
        find-append space w rest f,
        take-append w (space ∷ rest),
        drop-append w rest space,
        e,
        v,
      )
      refl

set_target-path :
    (r : Request) (path : List ℕ)
    → Free question path
    → set_target r path ≡ record r { path = path }
unfolding set_target
set_target-path r path g = ground (arith, find-Free question path g)

target_path :
    (r : Request) (path rest : List ℕ)
    → Free space path
    → Free question path
    → proc_target r (path ++ space ∷ rest) ≡ proc_version (record r { path = path }) rest
unfolding proc_target
target_path r path rest f g =
    rw
      (
        found-short space path rest f,
        find-append space path rest f,
        take-append path (space ∷ rest),
        drop-append path rest space,
        set_target-path r path g,
      )
      refl

version_digit :
    (r : Request) (v : Version)
    → is_known v ≡ true
    → proc_version r (http_1 ++ digit v ∷ []) ≡ (true, record r { version = v })
unfolding proc_version
version_digit r Version.unknown h = cc
version_digit r Version.http10 h = refl
version_digit r Version.http11 h = refl

-- The line of a request without a query.
abbrev pub request_line : Method → List ℕ → Version → List ℕ
request_line m path v = word m ++ space ∷ (path ++ space ∷ (http_1 ++ digit v ∷ []))

-- A request line of a known method, a path without a space or a question mark, and a known version
-- is accepted, and the request has exactly that method, path and version, and all else as before.
pub proc_req-request_line :
    (r : Request) (m : Method) (path : List ℕ) (v : Version)
    → is_valid m ≡ true
    → is_known v ≡ true
    → Free space path
    → Free question path
    → proc_req r (request_line m path v) ≡ (true, record r { method = m; path = path; version = v })
proc_req-request_line r m path v h k f g =
    req_word r (word m) (path ++ space ∷ (http_1 ++ digit v ∷ [])) m (word-Free m)
      (method_of-word m) h
    ∙ target_path (record r { method = m }) path (http_1 ++ digit v ∷ []) f g
    ∙ version_digit (record r { method = m; path = path }) v k
