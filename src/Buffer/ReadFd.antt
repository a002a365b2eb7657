-- ===== src/Buffer/ReadFd.antt =====
-- `Buffer::readFd` of Buffer.cpp. `readv` is outside the program: its result is an argument, either
-- the errno or the bytes that it stored, in the order of the two areas that it is given.
use native.Mathlib.Decide.{dec_le}
use chtho.Prelude.{
  ℕ, ◌+◌, ◌-◌, ◌≤◌, ◌<◌, ◌≡◌, refl, ap, ◌∙◌, List, ◌++◌, Option, none, some, Result, ok, Fault,
  ◌>>=◌, ◌>>◌, require, leb, ltb, if◌then◌else◌, arith, length, drop, take, overwrite, add_size,
  slice-overwrite_end, length-overwrite, length-take, length-drop, take_all, take-append-drop,
  append_assoc,
}
use chtho.Buffer.{Buffer, contents, writable_bytes, copy_in, append, max_size}
use chtho.Buffer.Valid.{IsValid}
use chtho.Buffer.Contents.{contents-append}

pub data Readv : Type 0 where
  error : ℕ → Readv
  got : List ℕ → Readv

-- `sizeof(extrabuf)`
abbrev extra_size : ℕ
extra_size = 65536

-- The room of the areas that `readv` is given: `extrabuf` is one of them only if the writable
-- bytes are fewer than it has.
unfoldable pub iov_capacity : Buffer → ℕ
unfolding writable_bytes
iov_capacity b =
    if ltb (writable_bytes b) extra_size then writable_bytes b + extra_size else writable_bytes b

-- The buffer, what the call returns (`none` is -1), and `*savedErrno` where it is set.
abbrev pub ReadOut : Type 0
ReadOut = Buffer × Option ℕ × Option ℕ

pub read_fd : Buffer → Readv → Result ReadOut
unfolding writable_bytes copy_in
read_fd b (error e) = ok (b, none, some e)
read_fd b (got xs) = do
  let writable = writable_bytes b
  buf ← copy_in b.buf b.writer (take writable xs)
  let filled = record b { buf = buf }
  b' ←
      if leb (length xs) writable
      then ok (record filled { writer = add_size b.writer (length xs) })
      else (do
        require (leb (length xs - writable) extra_size) Fault.out_of_bounds
        append (record filled { writer = length buf }) (drop writable xs))
  ok (b', some (length xs), none)

pub read_fd_fails : (b : Buffer) (e : ℕ) → read_fd b (error e) ≡ ok (b, none, some e)
unfolding read_fd
read_fd_fails b e = refl

-- The call returns the number of the bytes read, in a valid buffer that shows them last.
abbrev pub ReadShows : Result ReadOut → ℕ → List ℕ → Type 0
ReadShows r n xs = (b' : Buffer) × (r ≡ ok (b', some n, none)) × IsValid b' × (contents b' ≡ xs)

module _ (b : Buffer) (xs : List ℕ) (v : IsValid b) where
  read_fd_fits :
      b.writer + length xs ≤ length b.buf
      → ReadShows (read_fd b (got xs)) (length xs) (contents b ++ xs)
  unfolding read_fd
  read_fd_fits h =
      let size = length-overwrite b.buf b.writer xs h in
      (
        record b { buf = overwrite b.buf b.writer xs; writer = b.writer + length xs },
        ground (arith, v, size, take_all (length b.buf - b.writer) xs),
        record {
          ordered = omega (arith, v);
          inside = omega (arith, size);
          has_pre = omega (arith, size, v);
          fits = omega (arith, size, v);
        },
        slice-overwrite_end b.buf b.reader b.writer xs _ v.ordered v.inside refl,
      )

  -- The vector after `readv` has filled it to its end.
  abbrev full : Buffer
  full = record b {
    buf = overwrite b.buf b.writer (take (length b.buf - b.writer) xs);
    writer = length (overwrite b.buf b.writer (take (length b.buf - b.writer) xs));
  }

  read_fd_steps :
      (b' : Buffer)
      → length b.buf < b.writer + length xs
      → length xs ≤ iov_capacity b
      → append full (drop (length b.buf - b.writer) xs) ≡ ok b'
      → read_fd b (got xs) ≡ ok (b', some (length xs), none)
  unfolding read_fd iov_capacity
  read_fd_steps b' h room e = ground (arith, v, length-take (length b.buf - b.writer) xs)

  read_fd_overflows :
      length b.buf < b.writer + length xs
      → b.writer + length xs ≤ max_size
      → length xs ≤ iov_capacity b
      → ReadShows (read_fd b (got xs)) (length xs) (contents b ++ xs)
  unfolding iov_capacity
  read_fd_overflows h small room =
      let w : ℕ = length b.buf - b.writer in
      let lt : length (take w xs) ≡ w = omega (arith, length-take w xs, v) in
      let size : length full.buf ≡ length b.buf =
        length-overwrite b.buf b.writer (take w xs) (omega (arith, lt, v)) in
      let fv : IsValid full = record {
        ordered = omega (arith, size, v);
        inside = omega (arith, size);
        has_pre = omega (arith, size, v);
        fits = omega (arith, size, v);
      } in
      let fc : contents full ≡ contents b ++ take w xs =
        slice-overwrite_end b.buf b.reader b.writer (take w xs) full.writer v.ordered v.inside
          (omega (arith, size, lt, v)) in
      let (b', e, v', same) =
        contents-append full (drop w xs) fv (omega (arith, size, length-drop w xs, v)) in
      (
        b',
        read_fd_steps b' h room e,
        v',
        same
            ∙ ap (λ ys. ys ++ drop w xs) fc
            ∙ append_assoc (contents b) (take w xs) (drop w xs)
            ∙ ap (λ ys. contents b ++ ys) (take-append-drop w xs),
      )

  -- Whatever the kernel stored, `readFd` returns how much and shows it behind what was readable: in
  -- the vector as far as it goes, and through `extrabuf` beyond.
  pub read_fd-contents :
      b.writer + length xs ≤ max_size
      → length xs ≤ iov_capacity b
      → ReadShows (read_fd b (got xs)) (length xs) (contents b ++ xs)
  read_fd-contents small room = elim (dec_le (b.writer + length xs) (length b.buf)) [
    | yes h ↦ read_fd_fits h
    | no h ↦ read_fd_overflows (omega arith) small room
  ]
