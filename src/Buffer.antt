-- ===== src/Buffer.antt =====
-- chtho/net/Buffer.h and Buffer.cpp: the byte buffer of a connection. The vector is a list of
-- bytes; the two indices are `size_t`. An `assert` that fails, an exception of the vector and a
-- copy outside the vector are results.
pub mod Valid
pub mod Contents
pub mod Ints
pub mod Writes
pub mod Scan
pub mod ReadFd
mod Tests
use chtho.Prelude.{
  ℕ, ◌+◌, ◌-◌, ◌%◌, ◌^◌, List, ◌++◌, Result, ok, fail, Fault, ◌>>=◌, ◌>>◌, guard, require, ltb, leb,
  ◌==◌, if◌then◌else◌, length, take, replicate, slice, overwrite, add_size, sub_size,
}

pub record Buffer : Type 0 where
  pub buf : List ℕ
  pub reader : ℕ
  pub writer : ℕ

abbrev pub k_pre : ℕ
k_pre = 8

abbrev pub k_init : ℕ
k_init = 1024

-- `std::vector<char>::max_size()`
abbrev pub max_size : ℕ
max_size = 2 ^ 63 - 1

-- `buf_.resize(n)`: new bytes are zero.
resize : List ℕ → ℕ → Result (List ℕ)
resize xs n =
    if leb n max_size
    then ok (take n xs ++ replicate (n - length xs) 0)
    else fail Fault.length_error

-- `std::copy` of `ys` to the index `i` of the vector.
pub copy_in : List ℕ → ℕ → List ℕ → Result (List ℕ)
copy_in xs i ys =
    if leb (i + length ys) (length xs) then ok (overwrite xs i ys) else fail Fault.out_of_bounds

-- The bytes that are read or copied from the pointer `begin() + i`.
pub copy_out : List ℕ → ℕ → ℕ → Result (List ℕ)
copy_out xs i n =
    if leb (i + n) (length xs) then ok (slice xs i (i + n)) else fail Fault.out_of_bounds

unfoldable pub make : ℕ → Buffer
make init = record { buf = replicate (k_pre + init) 0; reader = k_pre; writer = k_pre }

pub readable_bytes : Buffer → ℕ
readable_bytes b = sub_size b.writer b.reader

pub writable_bytes : Buffer → ℕ
writable_bytes b = sub_size (length b.buf) b.writer

prependable_bytes : Buffer → ℕ
prependable_bytes b = b.reader

pub expand : Buffer → ℕ → Result Buffer
unfolding resize copy_in copy_out readable_bytes writable_bytes prependable_bytes
expand b len =
    if ltb (add_size (writable_bytes b) (prependable_bytes b)) (add_size len k_pre)
    then (do buf ← resize b.buf (add_size b.writer len); ok (record b { buf = buf }))
    else (do
      guard (ltb k_pre b.reader)
      bytes ← copy_out b.buf b.reader (readable_bytes b)
      buf ← copy_in b.buf k_pre bytes
      let moved = record b { buf = buf; reader = k_pre; writer = add_size k_pre (readable_bytes b) }
      guard (readable_bytes b == readable_bytes moved)
      ok moved)

pub ensure : Buffer → ℕ → Result Buffer
unfolding expand
ensure b len = do
  b' ← if ltb (writable_bytes b) len then expand b len else ok b
  guard (leb len (writable_bytes b'))
  ok b'

pub written : Buffer → ℕ → Result Buffer
unfolding writable_bytes
written b len = do
  guard (leb len (writable_bytes b))
  ok (record b { writer = add_size b.writer len })

pub append : Buffer → List ℕ → Result Buffer
unfolding ensure written copy_in
append b s = do
  b' ← ensure b (length s)
  buf ← copy_in b'.buf b'.writer s
  written (record b' { buf = buf }) (length s)

-- A `StringPiece` keeps its length in an `int`; `append` takes it back to a `size_t`.
pub piece_size : ℕ → ℕ
piece_size n = let w = n % 2 ^ 32 in if ltb w (2 ^ 31) then w else w + (2 ^ 64 - 2 ^ 32)

-- `append` of a `StringPiece` that was made of a `std::string`.
pub append_piece : Buffer → List ℕ → Result Buffer
unfolding ensure written copy_in
append_piece b s = do
  let len = piece_size (length s)
  b' ← ensure b len
  require (leb len (length s)) Fault.out_of_bounds
  buf ← copy_in b'.buf b'.writer (take len s)
  written (record b' { buf = buf }) len

pub prepend : Buffer → List ℕ → Result Buffer
unfolding prependable_bytes copy_in
prepend b s = do
  guard (leb (length s) (prependable_bytes b))
  let reader = sub_size b.reader (length s)
  buf ← copy_in b.buf reader s
  ok (record b { buf = buf; reader = reader })

pub retrieve_all : Buffer → Buffer
retrieve_all b = record b { reader = k_pre; writer = k_pre }

pub retrieve : Buffer → ℕ → Result Buffer
unfolding readable_bytes retrieve_all
retrieve b len = do
  guard (leb len (readable_bytes b))
  ok (
      if ltb len (readable_bytes b)
      then record b { reader = add_size b.reader len }
      else retrieve_all b)

-- `end` as its distance from `peek()`.
pub retrieve_until : Buffer → ℕ → Result Buffer
unfolding retrieve
retrieve_until b end = retrieve b end

pub retrieve_as_string : Buffer → ℕ → Result (List ℕ × Buffer)
unfolding readable_bytes copy_out retrieve
retrieve_as_string b len = do
  guard (leb len (readable_bytes b))
  res ← copy_out b.buf b.reader len
  b' ← retrieve b len
  ok (res, b')

pub retrieve_all_as_string : Buffer → Result (List ℕ × Buffer)
retrieve_all_as_string b = retrieve_as_string b (readable_bytes b)

pub to_string_piece : Buffer → Result (List ℕ)
unfolding piece_size copy_out
to_string_piece b = copy_out b.buf b.reader (piece_size (readable_bytes b))

pub shrink : Buffer → ℕ → Result Buffer
shrink b reserve = do
  b' ← ensure (make k_init) (add_size (readable_bytes b) reserve)
  piece ← to_string_piece b
  append b' piece

-- What the buffer holds for its reader.
abbrev pub contents : Buffer → List ℕ
contents b = slice b.buf b.reader b.writer
