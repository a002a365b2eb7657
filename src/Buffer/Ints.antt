-- ===== src/Buffer/Ints.antt =====
-- The integers of `Buffer`: `appendInt8/16/32`, `peekInt8/16/32` and `readInt8/16/32`. An integer is
-- its bit pattern; the host stores it with the lowest byte first, and `htons` and `htonl` turn its
-- bytes round.
use chtho.Prelude.{
  ℕ, suc, zero, ◌+◌, ◌*◌, ◌/◌, ◌%◌, ◌^◌, ◌≤◌, ◌<◌, ◌≡◌, ap, ◌∙◌, List, [], ◌∷◌, ◌++◌, Result, ok,
  guard, ◌>>=◌, ◌>>◌, leb, arith, length, drop, take, take-slice, length-slice,
}
use chtho.Buffer.{Buffer, contents, readable_bytes, copy_out, append, retrieve, max_size}
use chtho.Buffer.Valid.{IsValid}
use chtho.Buffer.Contents.{Shows, contents-append, contents-retrieve}

-- The bytes of the host's memory, `n` of them.
abbrev host_bytes : ℕ → ℕ → List ℕ
host_bytes zero x = []
host_bytes (suc n) x = (x % 256) ∷ host_bytes n (x / 256)

abbrev of_host_bytes : List ℕ → ℕ
of_host_bytes [] = 0
of_host_bytes (x ∷ xs) = x + 256 * of_host_bytes xs

-- `htons` and `ntohs`
abbrev pub swap16 : ℕ → ℕ
swap16 x = x % 256 * 256 + x / 256 % 256

-- `htonl` and `ntohl`
abbrev swap32 : ℕ → ℕ
swap32 x = x % 256 * 2 ^ 24 + x / 256 % 256 * 2 ^ 16 + x / 2 ^ 16 % 256 * 256 + x / 2 ^ 24 % 256

append_int8 : Buffer → ℕ → Result Buffer
append_int8 b x = append b (host_bytes 1 x)

append_int16 : Buffer → ℕ → Result Buffer
append_int16 b x = append b (host_bytes 2 (swap16 x))

pub append_int32 : Buffer → ℕ → Result Buffer
append_int32 b x = append b (host_bytes 4 (swap32 x))

-- `memcpy` of `n` bytes at `peek()`, which must be readable.
peek_bytes : Buffer → ℕ → Result (List ℕ)
unfolding readable_bytes copy_out
peek_bytes b n = do guard (leb n (readable_bytes b)); copy_out b.buf b.reader n

peek_int8 : Buffer → Result ℕ
peek_int8 b = do bytes ← peek_bytes b 1; ok (of_host_bytes bytes)

peek_int16 : Buffer → Result ℕ
peek_int16 b = do bytes ← peek_bytes b 2; ok (swap16 (of_host_bytes bytes))

peek_int32 : Buffer → Result ℕ
peek_int32 b = do bytes ← peek_bytes b 4; ok (swap32 (of_host_bytes bytes))

read_int8 : Buffer → Result (ℕ × Buffer)
read_int8 b = do res ← peek_int8 b; b' ← retrieve b 1; ok (res, b')

read_int16 : Buffer → Result (ℕ × Buffer)
read_int16 b = do res ← peek_int16 b; b' ← retrieve b 2; ok (res, b')

pub read_int32 : Buffer → Result (ℕ × Buffer)
read_int32 b = do res ← peek_int32 b; b' ← retrieve b 4; ok (res, b')

-- Network order: the highest byte first.
abbrev network16 : ℕ → List ℕ
network16 x = (x / 256) ∷ (x % 256) ∷ []

abbrev network32 : ℕ → List ℕ
network32 x = (x / 2 ^ 24) ∷ (x / 2 ^ 16 % 256) ∷ (x / 256 % 256) ∷ (x % 256) ∷ []

host_bytes-swap16 : (x : ℕ) → x < 2 ^ 16 → host_bytes 2 (swap16 x) ≡ network16 x
host_bytes-swap16 x h = ground arith

host_bytes-swap32 : (x : ℕ) → x < 2 ^ 32 → host_bytes 4 (swap32 x) ≡ network32 x
host_bytes-swap32 x h = ground arith

swap16-network16 : (x : ℕ) → x < 2 ^ 16 → swap16 (of_host_bytes (network16 x)) ≡ x
swap16-network16 x h = omega arith

swap32-network32 : (x : ℕ) → x < 2 ^ 32 → swap32 (of_host_bytes (network32 x)) ≡ x
swap32-network32 x h = omega arith

peek_bytes-contents :
    (b : Buffer) (n : ℕ)
    → IsValid b
    → n ≤ length (contents b)
    → peek_bytes b n ≡ ok (take n (contents b))
unfolding peek_bytes
peek_bytes-contents b n v h =
    let l = length-slice b.buf b.reader b.writer v.inside in
    ground (arith, v, l, take-slice b.buf b.reader b.writer n (omega (arith, l)))

-- An `int32` goes into the buffer behind the readable bytes in network order, as four bytes.
append_int32-network :
    (b : Buffer) (x : ℕ)
    → IsValid b
    → x < 2 ^ 32
    → b.writer + 4 ≤ max_size
    → Shows (append_int32 b x) (contents b ++ network32 x)
unfolding append_int32
append_int32-network b x v h small =
    rw (← host_bytes-swap32 x h) (contents-append b (host_bytes 4 (swap32 x)) v small)

-- The same of an `int16`, as two bytes.
append_int16-network :
    (b : Buffer) (x : ℕ)
    → IsValid b
    → x < 2 ^ 16
    → b.writer + 2 ≤ max_size
    → Shows (append_int16 b x) (contents b ++ network16 x)
unfolding append_int16
append_int16-network b x v h small =
    rw (← host_bytes-swap16 x h) (contents-append b (host_bytes 2 (swap16 x)) v small)

-- A read that returns the number `x` and leaves the bytes `rest`.
abbrev pub Reads : Result (ℕ × Buffer) → ℕ → List ℕ → Type 0
Reads r x rest = (b' : Buffer) × (r ≡ ok (x, b')) × IsValid b' × (contents b' ≡ rest)

-- Four bytes in network order at the front are read as the `int32` that they were made of, and
-- only they are taken from the buffer.
read_int32-network :
    (b : Buffer) (x : ℕ) (rest : List ℕ)
    → IsValid b
    → x < 2 ^ 32
    → contents b ≡ network32 x ++ rest
    → Reads (read_int32 b) x rest
unfolding read_int32 peek_int32
read_int32-network b x rest v h e =
    let n : length (contents b) ≡ 4 + length rest = ap length e ∙ omega arith in
    let (b', r, v', same) = contents-retrieve b 4 v (omega (arith, n)) in
    (
      b',
      rw (peek_bytes-contents b 4 v (omega (arith, n)), e, swap32-network32 x h, r),
      v',
      same ∙ ap (drop 4) e,
    )

-- Two bytes in network order at the front are read as the `int16` that they were made of, and only
-- they are taken from the buffer.
read_int16-network :
    (b : Buffer) (x : ℕ) (rest : List ℕ)
    → IsValid b
    → x < 2 ^ 16
    → contents b ≡ network16 x ++ rest
    → Reads (read_int16 b) x rest
unfolding read_int16 peek_int16
read_int16-network b x rest v h e =
    let n : length (contents b) ≡ 2 + length rest = ap length e ∙ omega arith in
    let (b', r, v', same) = contents-retrieve b 2 v (omega (arith, n)) in
    (
      b',
      rw (peek_bytes-contents b 2 v (omega (arith, n)), e, swap16-network16 x h, r),
      v',
      same ∙ ap (drop 2) e,
    )
