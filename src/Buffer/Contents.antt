-- ===== src/Buffer/Contents.antt =====
-- Each operation of `Buffer` on the bytes that its reader sees.
use native.Mathlib.Decide.{dec_lt}
use chtho.Prelude.{
  ℕ, ◌+◌, ◌-◌, ◌^◌, ◌≤◌, ◌<◌, ◌≡◌, refl, sym, ap, ◌∙◌, List, [], ◌++◌, Result, ok, ◌>>=◌, arith,
  length, take, drop, overwrite, slice-overwrite_end, slice-overwrite_start, length-overwrite,
  length-slice, length-take, take_all, take-slice, drop-drop, drop_all, add_size, length-replicate,
}
use chtho.Buffer.{
  Buffer, k_pre, k_init, max_size, readable_bytes, ensure, append, prepend, retrieve,
  retrieve_until, retrieve_as_string, retrieve_all_as_string, to_string_piece, shrink, make,
  contents,
}
use chtho.Buffer.Valid.{IsValid, ensure-Ensured}

-- The program goes on, in a valid buffer that shows these bytes.
abbrev pub Shows : Result Buffer → List ℕ → Type 0
Shows r xs = (b' : Buffer) × (r ≡ ok b') × IsValid b' × (contents b' ≡ xs)

pub make-IsValid :
    (init : ℕ) → k_pre + init ≤ max_size → IsValid (make init) × (contents (make init) ≡ [])
unfolding make
make-IsValid init h = (
  record {
    ordered = omega arith;
    inside = omega (arith, n);
    has_pre = omega (arith, n);
    fits = omega (arith, n);
  },
  none_yet,
)
  where
    n : length (make init).buf ≡ k_pre + init
    n = length-replicate (k_pre + init) 0

    none_yet : contents (make init) ≡ []
    none_yet =
        drop_all k_pre (take k_pre (make init).buf)
          (omega (arith, length-slice (make init).buf 0 k_pre (omega (arith, n))))

-- The readable bytes are counted by `readableBytes`.
pub readable_bytes-length : (b : Buffer) → IsValid b → readable_bytes b ≡ length (contents b)
unfolding readable_bytes
readable_bytes-length b v = omega (arith, length-slice b.buf b.reader b.writer v.inside, v)

-- `append` as `contents-append` states it, and a bound of the writer's index.
pub append_bounded :
    (b : Buffer) (s : List ℕ)
    → IsValid b
    → b.writer + length s ≤ max_size
    → (b' : Buffer) × (append b s ≡ ok b')
      × IsValid b'
      × (contents b' ≡ contents b ++ s)
      × (b'.writer ≤ b.writer + length s)
unfolding append
append_bounded b s v small =
    let (b', e, (v', same, room, low)) = ensure-Ensured b (length s) v small in
    let buf : List ℕ = overwrite b'.buf b'.writer s in
    let size : length buf ≡ length b'.buf = length-overwrite b'.buf b'.writer s room in
    (
      record { buf = buf; reader = b'.reader; writer = b'.writer + length s },
      rw e (ground (arith, size, v', room)),
      record {
        ordered = omega (arith, v');
        inside = omega (arith, size);
        has_pre = omega (arith, size, v');
        fits = omega (arith, size, v');
      },
      slice-overwrite_end b'.buf b'.reader b'.writer s _ v'.ordered v'.inside refl
          ∙ ap (λ xs. xs ++ s) same,
      omega arith,
    )

-- As long as the vector may hold them, `append` puts the bytes behind the readable ones: no
-- assertion fails, and nothing is copied outside the vector.
pub contents-append :
    (b : Buffer) (s : List ℕ)
    → IsValid b
    → b.writer + length s ≤ max_size
    → Shows (append b s) (contents b ++ s)
contents-append b s v small =
    let (b', e, v', same, low) = append_bounded b s v small in (b', e, v', same)

-- `prepend` puts the bytes in front of the readable ones, if they fit before the reader.
contents-prepend :
    (b : Buffer) (s : List ℕ)
    → IsValid b
    → length s ≤ b.reader
    → Shows (prepend b s) (s ++ contents b)
unfolding prepend
contents-prepend b s v h =
    let i : ℕ = b.reader - length s in
    let size : length (overwrite b.buf i s) ≡ length b.buf =
      length-overwrite b.buf i s (omega (arith, v)) in
    (
      record b { buf = overwrite b.buf i s; reader = i },
      ground (arith, v),
      record {
        ordered = omega (arith, v);
        inside = omega (arith, size, v);
        has_pre = omega (arith, size, v);
        fits = omega (arith, size, v);
      },
      slice-overwrite_start b.buf i s b.reader b.writer (omega arith) v.ordered v.inside,
    )

-- A bound of the index of the writer that holds for an empty buffer outlives `retrieve`.
pub retrieve_bounded :
    (b b' : Buffer) (len m : ℕ)
    → IsValid b
    → retrieve b len ≡ ok b'
    → b.writer ≤ m
    → k_pre ≤ m
    → b'.writer ≤ m
unfolding retrieve
retrieve_bounded b b' len m v e h k = ground (arith, e, v)

-- `retrieve` takes as many bytes from the front.
pub contents-retrieve :
    (b : Buffer) (len : ℕ)
    → IsValid b
    → len ≤ length (contents b)
    → Shows (retrieve b len) (drop len (contents b))
unfolding retrieve
contents-retrieve b len v h = elim (dec_lt len (b.writer - b.reader)) [
  | yes p ↦ (
    record b { reader = b.reader + len },
    ground (arith, v, n),
    record { ordered = omega arith; inside = v.inside; has_pre = v.has_pre; fits = v.fits },
    sym (drop-drop len b.reader (take b.writer b.buf)),
  )
  | no p ↦ (
    record b { reader = k_pre; writer = k_pre },
    ground (arith, v, n),
    record { ordered = omega arith; inside = v.has_pre; has_pre = v.has_pre; fits = v.fits },
    drop_all k_pre (take k_pre b.buf) (omega (arith, length-take k_pre b.buf))
        ∙ sym (drop_all len (contents b) (omega (arith, n))),
  )
]
  where
    n : length (contents b) ≡ b.writer - b.reader
    n = length-slice b.buf b.reader b.writer v.inside

-- `retrieveUntil`, with the distance of its pointer.
pub contents-retrieve_until :
    (b : Buffer) (end : ℕ)
    → IsValid b
    → end ≤ length (contents b)
    → Shows (retrieve_until b end) (drop end (contents b))
unfolding retrieve_until
contents-retrieve_until b end = contents-retrieve b end

-- `retrieveAsString` returns the bytes that it takes from the front.
contents-retrieve_as_string :
    (b : Buffer) (len : ℕ)
    → IsValid b
    → len ≤ length (contents b)
    → (b' : Buffer) × (retrieve_as_string b len ≡ ok (take len (contents b), b'))
      × IsValid b'
      × (contents b' ≡ drop len (contents b))
unfolding retrieve_as_string
contents-retrieve_as_string b len v h =
    let (b', e, v', same) = contents-retrieve b len v h in
    let n : length (contents b) ≡ b.writer - b.reader =
      length-slice b.buf b.reader b.writer v.inside in
    (
      b',
      rw e (ground (arith, v, n, take-slice b.buf b.reader b.writer len (omega (arith, n)))),
      v',
      same,
    )

-- A buffer is emptied by `retrieveAllAsString`, which returns all that was readable.
contents-retrieve_all_as_string :
    (b : Buffer)
    → IsValid b
    → (b' : Buffer) × (retrieve_all_as_string b ≡ ok (contents b, b'))
      × IsValid b'
      × (contents b' ≡ [])
unfolding retrieve_all_as_string
contents-retrieve_all_as_string b v =
    let (b', e, v', same) = contents-retrieve_as_string b (length (contents b)) v (omega arith) in
    (
      b',
      rw (readable_bytes-length b v, e)
          (ap (λ xs. ok (xs, b')) (take_all (length (contents b)) (contents b) (omega arith))),
      v',
      same ∙ drop_all (length (contents b)) (contents b) (omega arith),
    )

-- A piece of fewer than 2 ^ 31 bytes is all of the readable bytes.
to_string_piece-contents :
    (b : Buffer) → IsValid b → length (contents b) < 2 ^ 31 → to_string_piece b ≡ ok (contents b)
unfolding to_string_piece readable_bytes
to_string_piece-contents b v small =
    ground (arith, v, length-slice b.buf b.reader b.writer v.inside)

make_room : (n : ℕ) → n + k_pre ≤ max_size → (make k_init).writer + n ≤ max_size
unfolding make
make_room n h = omega arith

shrink_steps :
    (b b₁ b₂ : Buffer) (reserve : ℕ)
    → IsValid b
    → length (contents b) < 2 ^ 31
    → length (contents b) + reserve ≤ max_size
    → ensure (make k_init) (length (contents b) + reserve) ≡ ok b₁
    → append b₁ (contents b) ≡ ok b₂
    → shrink b reserve ≡ ok b₂
unfolding shrink
shrink_steps b b₁ b₂ reserve v small room e₁ e₂ =
    let total : add_size (length (contents b)) reserve ≡ length (contents b) + reserve =
      omega arith in
    rw (readable_bytes-length b v, total, e₁, to_string_piece-contents b v small, ◌>>=◌) e₂

-- `shrink` keeps the readable bytes, as long as their number is an `int` and the new vector can
-- hold them with the reserve.
contents-shrink :
    (b : Buffer) (reserve : ℕ)
    → IsValid b
    → length (contents b) < 2 ^ 31
    → k_pre + k_init + length (contents b) + reserve ≤ max_size
    → Shows (shrink b reserve) (contents b)
contents-shrink b reserve v small room =
    let n : ℕ = length (contents b) in
    let (v₀, empty) = make-IsValid k_init (omega arith) in
    let (b₁, e₁, (v₁, c₁, room₁, low₁)) =
      ensure-Ensured (make k_init) (n + reserve) v₀ (make_room (n + reserve) (omega arith)) in
    let (b₂, e₂, v₂, c₂) = contents-append b₁ (contents b) v₁ (omega (arith, v₁, room₁)) in
    (
      b₂,
      shrink_steps b b₁ b₂ reserve v small (omega arith) e₁ e₂,
      v₂,
      c₂ ∙ ap (λ xs. xs ++ contents b) (c₁ ∙ empty),
    )
