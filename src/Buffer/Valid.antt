-- ===== src/Buffer/Valid.antt =====
-- The representation invariant of `Buffer`, and how `ensure` makes room.
use native.Mathlib.Decide.{dec_le}
use chtho.Prelude.{
  ℕ, ◌+◌, ◌-◌, ◌≤◌, ◌<◌, ◌≡◌, refl, ◌++◌, ok, arith, length, take, replicate, overwrite,
  slice-overwrite, take_all, length-append, length-replicate, length-slice, length-overwrite,
  take-append_le, length-take,
}
use chtho.Buffer.{Buffer, k_pre, max_size, expand, ensure, contents}

-- The indices are ordered, and the vector has its first eight bytes and is a vector.
pub record IsValid (b : Buffer) : Type 0 where
  pub ordered : b.reader ≤ b.writer
  pub inside : b.writer ≤ length b.buf
  pub has_pre : k_pre ≤ length b.buf
  pub fits : length b.buf ≤ max_size

abbrev grown : Buffer → ℕ → Buffer
grown b len = record b {
  buf = take (b.writer + len) b.buf ++ replicate (b.writer + len - length b.buf) 0;
}

abbrev pub moved : Buffer → Buffer
moved b = record {
  buf = overwrite b.buf k_pre (contents b);
  reader = k_pre;
  writer = k_pre + (b.writer - b.reader);
}

module _ (b : Buffer) (len : ℕ) (v : IsValid b) (full : length b.buf < b.writer + len)
    (small : b.writer + len ≤ max_size) where
  expand-grown : length b.buf - b.writer + b.reader < len + k_pre → expand b len ≡ ok (grown b len)
  unfolding expand
  expand-grown h = ground arith

  expand-moved : len + k_pre ≤ length b.buf - b.writer + b.reader → expand b len ≡ ok (moved b)
  unfolding expand
  expand-moved h = ground (arith, length-slice b.buf b.reader b.writer)

-- Room for `len` bytes was made, and the readable bytes are the same.
abbrev pub Ensured : Buffer → ℕ → Buffer → Type 0
Ensured b len b' =
    IsValid b'
    × (contents b' ≡ contents b)
    × (b'.writer + len ≤ length b'.buf)
    × (b'.writer ≤ b.writer)

module _ (b : Buffer) (len : ℕ) (v : IsValid b) (small : b.writer + len ≤ max_size) where
  grown-Ensured : length b.buf < b.writer + len → Ensured b len (grown b len)
  grown-Ensured full = (valid, same, omega (arith, size), omega arith)
    where
      all : take (b.writer + len) b.buf ≡ b.buf
      all = take_all (b.writer + len) b.buf (omega arith)

      size : length (grown b len).buf ≡ b.writer + len
      size = omega (
        arith,
        length-append (take (b.writer + len) b.buf) (replicate (b.writer + len - length b.buf) 0),
        length-replicate {A = ℕ} (b.writer + len - length b.buf) 0,
        length-take (b.writer + len) b.buf,
      )

      valid : IsValid (grown b len)
      valid = record {
        ordered = v.ordered;
        inside = omega (arith, size, v);
        has_pre = omega (arith, size, v);
        fits = omega (arith, size, v);
      }

      same : contents (grown b len) ≡ contents b
      same = rw (
        all,
        take-append_le b.writer b.buf (replicate (b.writer + len - length b.buf) 0) v.inside,
      )

  moved-Ensured :
      length b.buf < b.writer + len
      → len + k_pre ≤ length b.buf - b.writer + b.reader
      → Ensured b len (moved b)
  moved-Ensured full room = (valid, same, omega (arith, size, v), omega (arith, v))
    where
      n : ℕ
      n = b.writer - b.reader

      bytes : length (contents b) ≡ n
      bytes = length-slice b.buf b.reader b.writer v.inside

      size : length (moved b).buf ≡ length b.buf
      size = length-overwrite b.buf k_pre (contents b) (omega (arith, bytes, v))

      valid : IsValid (moved b)
      valid = record {
        ordered = omega arith;
        inside = omega (arith, size, v);
        has_pre = omega (arith, size, v);
        fits = omega (arith, size, v);
      }

      same : contents (moved b) ≡ contents b
      same =
          slice-overwrite b.buf k_pre (contents b) (k_pre + n) (omega (arith, v))
            (omega (arith, bytes))

  -- Room for `len` bytes can be made as long as the vector may grow so far: no assertion fails, and
  -- what was readable stays so.
  pub ensure-Ensured : (b' : Buffer) × (ensure b len ≡ ok b') × Ensured b len b'
  unfolding ensure
  ensure-Ensured = elim (dec_le (b.writer + len) (length b.buf)) [
    | yes h ↦ (b, ground arith, (v, refl, h, omega arith))
    | no h ↦ elim (dec_le (len + k_pre) (length b.buf - b.writer + b.reader)) [
      | yes g ↦
          let e = moved-Ensured (omega arith) g in
          (moved b, ground (arith, expand-moved b len v (omega arith) small g, e), e)
      | no g ↦
          let e = grown-Ensured (omega arith) in
          (
            grown b len,
            ground (arith, expand-grown b len v (omega arith) small (omega arith), e),
            e,
          )
    ]
  ]
