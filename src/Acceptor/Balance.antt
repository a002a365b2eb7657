-- ===== src/Acceptor/Balance.antt =====
-- No descriptor is lost, and none is used twice.
use chtho.Prelude.{
  ℕ, ◌+◌, ◌≡◌, refl, sym, ap, ◌∙◌, true, List, [], ◌∷◌, ◌++◌, append-nil, append_assoc, Option, ok,
  ◌>>=◌, ◌==◌, if◌then◌else◌, arith, Bool-cases, inl, inr,
}
use chtho.Acceptor.{
  Acceptor, make, set_new_conn, Answer, took, refused, emfile, is_expected, fds, drop_one,
  handle_read, handle_reads,
}

pub count : ℕ → List ℕ → ℕ
count x [] = 0
count x (y ∷ ys) = (if y == x then 1 else 0) + count x ys

count-append : (x : ℕ) (xs ys : List ℕ) → count x (xs ++ ys) ≡ count x xs + count x ys
unfolding count
count-append x [] ys = omega arith
count-append x (y ∷ xs) ys = omega (arith, count-append x xs ys)

-- The descriptors that the kernel returns with an answer.
abbrev pub given : Answer → List ℕ
given (took fd) = fd ∷ []
given (refused e second reopened) = if e == emfile then fds second ++ fds reopened else []

abbrev pub all_given : List Answer → List ℕ
all_given [] = []
all_given (r ∷ rs) = given r ++ all_given rs

abbrev pub Expected : List Answer → Type 0
Expected [] = Unit {0}
Expected (took fd ∷ rs) = Expected rs
Expected (refused e second reopened ∷ rs) = (is_expected e ≡ true) × Expected rs

-- Each descriptor that was given is the idle one, or was handed over, or was closed, as often as
-- it was given.
abbrev pub Balanced : Acceptor → List ℕ → Type 0
Balanced a xs = (x : ℕ) → count x xs ≡ count x (fds a.idle_fd) + count x a.handed + count x a.closed

took-Balanced :
    (a : Acceptor) (xs : List ℕ) (fd : ℕ)
    → Balanced a xs
    → (a' : Acceptor) × (handle_read a (took fd) ≡ ok a')
      × Balanced a' (xs ++ fd ∷ [])
      × (a'.has_new_conn ≡ a.has_new_conn)
unfolding handle_read
took-Balanced a xs fd v = elim (Bool-cases a.has_new_conn) [
  | inl h ↦ (
    record a { handed = a.handed ++ fd ∷ [] },
    rw h refl,
    λ x. omega (arith, v x, count-append x xs (fd ∷ []), count-append x a.handed (fd ∷ [])),
    refl,
  )
  | inr h ↦ (
    record a { closed = a.closed ++ fd ∷ [] },
    rw h refl,
    λ x. omega (arith, v x, count-append x xs (fd ∷ []), count-append x a.closed (fd ∷ [])),
    refl,
  )
]

given_full :
    (e : ℕ) (second reopened : Option ℕ)
    → (e == emfile) ≡ true
    → given (refused e second reopened) ≡ fds second ++ fds reopened
given_full e second reopened full = rw full refl

count_full :
    (x : ℕ) (xs : List ℕ) (a : Acceptor) (second reopened : Option ℕ)
    → count x xs ≡ count x (fds a.idle_fd) + count x a.handed + count x a.closed
    → count x (xs ++ (fds second ++ fds reopened))
      ≡ count x (fds reopened)
        + count x a.handed
        + count x (a.closed ++ (fds a.idle_fd ++ fds second))
count_full x xs a second reopened v = omega (
  arith,
  v,
  count-append x xs (fds second ++ fds reopened),
  count-append x (fds second) (fds reopened),
  count-append x a.closed (fds a.idle_fd ++ fds second),
  count-append x (fds a.idle_fd) (fds second),
)

refused-Balanced :
    (a : Acceptor) (xs : List ℕ) (e : ℕ) (second reopened : Option ℕ)
    → is_expected e ≡ true
    → Balanced a xs
    → (a' : Acceptor) × (handle_read a (refused e second reopened) ≡ ok a')
      × Balanced a' (xs ++ given (refused e second reopened))
      × (a'.has_new_conn ≡ a.has_new_conn)
unfolding handle_read drop_one
refused-Balanced a xs e second reopened expected v = elim (Bool-cases (e == emfile)) [
  | inl full ↦ (
    drop_one a second reopened,
    rw (expected, full) refl,
    λ x.
        ap (λ ys. count x (xs ++ ys)) (given_full e second reopened full)
        ∙ count_full x xs a second reopened (v x),
    refl,
  )
  | inr other ↦
      (a, rw (expected, other) refl, λ x. rw other (ap (count x) (append-nil xs) ∙ v x), refl)
]

handle_reads-from :
    (rs : List Answer) (a : Acceptor) (xs : List ℕ)
    → Expected rs
    → Balanced a xs
    → (a' : Acceptor) × (handle_reads a rs ≡ ok a')
      × Balanced a' (xs ++ all_given rs)
      × (a'.has_new_conn ≡ a.has_new_conn)
unfolding handle_reads
handle_reads-from [] a xs h v = (a, refl, λ x. ap (count x) (append-nil xs) ∙ v x, refl)
handle_reads-from (took fd ∷ rs) a xs h v =
    let (a₁, e, v₁, k) = took-Balanced a xs fd v in
    let (a₂, e₂, v₂, k₂) = handle_reads-from rs a₁ (xs ++ fd ∷ []) h v₁ in
    (
      a₂,
      ap (λ r. r >>= λ a'. handle_reads a' rs) e ∙ e₂,
      λ x. ap (count x) (sym (append_assoc xs (fd ∷ []) (all_given rs))) ∙ v₂ x,
      k₂ ∙ k,
    )
handle_reads-from (refused e second reopened ∷ rs) a xs h v =
    let (a₁, d, v₁, k) = refused-Balanced a xs e second reopened h.0 v in
    let (a₂, d₂, v₂, k₂) =
      handle_reads-from rs a₁ (xs ++ given (refused e second reopened)) h.1 v₁ in
    (
      a₂,
      ap (λ r. r >>= λ a'. handle_reads a' rs) d ∙ d₂,
      λ x.
          ap (count x) (sym (append_assoc xs (given (refused e second reopened)) (all_given rs)))
          ∙ v₂ x,
      k₂ ∙ k,
    )

-- From an acceptor as it was made with the callback of its server, and whatever the kernel answers
-- with expected errors: each descriptor that was given is now the idle one, or was handed over, or
-- was closed, as often as it was given.
pub handle_reads-Balanced :
    (fd : ℕ) (rs : List Answer)
    → Expected rs
    → (a : Acceptor) × (handle_reads (set_new_conn (make fd)) rs ≡ ok a)
      × Balanced a (fd ∷ all_given rs)
unfolding count
handle_reads-Balanced fd rs h =
    let (a, e, v, _) =
      handle_reads-from rs (set_new_conn (make fd)) (fd ∷ []) h (λ x. omega arith) in
    (a, e, v)
