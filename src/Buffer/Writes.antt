-- ===== src/Buffer/Writes.antt =====
-- Chains of calls that only append.
use chtho.Prelude.{
  ℕ, ◌+◌, ◌^◌, ◌≤◌, ◌<◌, ◌≡◌, refl, sym, ap, ◌∙◌, Bool, true, false, if◌then◌else◌, List, [], ◌++◌,
  Result, ok, ◌>>=◌, leb, length, take_all, length-append, append-nil, append_assoc, arith,
}
use chtho.Buffer.{Buffer, append, append_piece, piece_size, max_size, contents}
use chtho.Buffer.Valid.{IsValid}
use chtho.Buffer.Contents.{append_bounded}

-- On a valid buffer that may grow so far, the call succeeds in a valid buffer that shows these
-- bytes behind the others.
abbrev pub Writes : (Buffer → Result Buffer) → List ℕ → Type 0
Writes f xs =
    (b : Buffer)
    → IsValid b
    → b.writer + length xs ≤ max_size
    → (b' : Buffer) × (f b ≡ ok b')
      × IsValid b'
      × (contents b' ≡ contents b ++ xs)
      × (b'.writer ≤ b.writer + length xs)

pub none-Writes : Writes ok []
none-Writes b v small = (b, refl, v, sym (append-nil (contents b)), omega arith)

pub append-Writes : (s : List ℕ) → Writes (λ b. append b s) s
append-Writes s b v small = append_bounded b s v small

piece_size-short : (n : ℕ) → n < 2 ^ 31 → piece_size n ≡ n
unfolding piece_size
piece_size-short n short = ground arith

-- The length of a shorter string fits in an `int`.
pub append_piece-short :
    (b : Buffer) (s : List ℕ) → length s < 2 ^ 31 → append_piece b s ≡ append b s
unfolding append_piece append
append_piece-short b s short =
    let fits : leb (length s) (length s) ≡ true = ground arith in
    rw (piece_size-short (length s) short, fits, take_all (length s) s (omega arith)) refl

pub append_piece-Writes : (s : List ℕ) → length s < 2 ^ 31 → Writes (λ b. append_piece b s) s
append_piece-Writes s short b v small =
    rw (append_piece-short b s short) (append_bounded b s v small)

pub bind-Writes :
    {f g : Buffer → Result Buffer} {xs ys : List ℕ}
    → Writes f xs
    → Writes g ys
    → Writes (λ b. f b >>= g) (xs ++ ys)
bind-Writes {f} {g} {xs} {ys} p q b v small =
    let n : length (xs ++ ys) ≡ length xs + length ys = length-append xs ys in
    let (b₁, e₁, v₁, s₁, w₁) = p b v (omega (arith, n, small)) in
    let (b₂, e₂, v₂, s₂, w₂) = q b₁ v₁ (omega (arith, n, small, w₁)) in
    (
      b₂,
      ap (λ r. r >>= g) e₁ ∙ e₂,
      v₂,
      s₂ ∙ ap (λ zs. zs ++ ys) s₁ ∙ append_assoc (contents b) xs ys,
      omega (arith, n, w₁, w₂),
    )

pub if-Writes :
    {f g : Buffer → Result Buffer} {xs ys : List ℕ} (t : Bool)
    → Writes f xs
    → Writes g ys
    → Writes (λ b. if t then f b else g b) (if t then xs else ys)
if-Writes true p q = p
if-Writes false p q = q
