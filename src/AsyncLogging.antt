-- ===== src/AsyncLogging.antt =====
-- chtho/logging/AsyncLogging.cpp: the lines that the program logs go through fixed
-- buffers to the thread that writes the file. A critical section is one step.
pub mod Lossless
mod Tests
use chtho.Prelude.{
  ℕ, ◌+◌, ◌-◌, ◌*◌, Bool, true, false, List, [], ◌∷◌, ◌++◌, Option, none, some, Result, ok, fail,
  Fault, ◌>>=◌, ◌>>◌, guard, ltb, leb, ◌==◌, if◌then◌else◌, length, take,
}
use chtho.FixedBuffer.{Buf, k_large, empty, avail, buf_append}

-- What the mutex guards; the pointers `curBuf_` and `nxtBuf_` may be null.
pub record Front : Type 0 where
  pub cur : Option Buf
  pub nxt : Option Buf
  pub bufs : List Buf

pub init : Front
init = record { cur = some empty; nxt = some empty; bufs = [] }

-- The branch for a full buffer.
pub next_buf : Front → Buf → List ℕ → Front
unfolding buf_append
next_buf s b line = record {
  cur = some (buf_append k_large (elim s.nxt [ some n ↦ n | none ↦ empty ]) line);
  nxt = none;
  bufs = s.bufs ++ b ∷ [];
}

pub append : Front → List ℕ → Result Front
unfolding next_buf avail buf_append
append s line = elim s.cur [
  | none ↦ fail Fault.null_pointer
  | some b ↦ ok (
      if ltb (length line) (avail k_large b)
      then record s { cur = some (buf_append k_large b line) }
      else next_buf s b line)
]

-- The buffers of the writing thread, and what it has appended to the file.
pub record Back : Type 0 where
  pub buf1 : Option Buf
  pub buf2 : Option Buf
  pub output : List ℕ

-- The critical section: the front, the buffers to write, and `buf2`; `buf1` has gone to the front.
pub collect : Front → Option Buf → Option Buf → Result (Front × List Buf × Option Buf)
collect s buf1 buf2 = elim s.cur [
  | none ↦ fail Fault.null_pointer
  | some b ↦
      let bufs = s.bufs ++ b ∷ [] in
      elim s.nxt [
        | some n ↦ ok (record { cur = buf1; nxt = some n; bufs = [] }, bufs, buf2)
        | none ↦ ok (record { cur = buf1; nxt = buf2; bufs = [] }, bufs, none)
      ]
]

abbrev pub concat : List Buf → List ℕ
concat [] = []
concat (b ∷ bs) = b.data_ ++ concat bs

-- More than 25 buffers are dropped but for two; `note` is the line that tells so.
pub write_all : List ℕ → List ℕ → List Buf → List ℕ × List Buf
write_all output note bufs =
    if ltb 25 (length bufs)
    then (output ++ note ++ concat (take 2 bufs), take 2 bufs)
    else (output ++ concat bufs, take 2 bufs)

-- A buffer to start with is taken from the back of those written, and emptied.
pub recycle : Option Buf → List Buf → Result (Option Buf × List Buf)
recycle (some b) bufs = ok (some b, bufs)
recycle none [] = fail Fault.assertion
recycle none (b ∷ []) = ok (some empty, [])
recycle none (b ∷ c ∷ bufs) = ok (some empty, take (length (c ∷ bufs)) (b ∷ c ∷ bufs))

abbrev is_ready : Option Buf → Bool
is_ready none = false
is_ready (some b) = length b.data_ == 0

-- One turn of `threadFunc`.
pub round : Front → Back → List ℕ → Result (Front × Back)
unfolding collect write_all recycle
round s t note = do
  guard (is_ready t.buf1)
  guard (is_ready t.buf2)
  (s', bufs, buf2) ← collect s t.buf1 t.buf2
  guard (ltb 0 (length bufs))
  let (output, rest) = write_all t.output note bufs
  (buf1', rest₁) ← recycle none rest
  (buf2', rest₂) ← recycle buf2 rest₁
  ok (s', record { buf1 = buf1'; buf2 = buf2'; output = output })
