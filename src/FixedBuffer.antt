-- ===== src/FixedBuffer.antt =====
-- chtho/logging/FixedBuffer.h: a buffer of a fixed number of bytes, the parameter `LEN` of the
-- template.
use chtho.Prelude.{ℕ, ◌-◌, ◌*◌, List, [], ◌++◌, ltb, if◌then◌else◌, length}

-- The bytes before `cur_`.
pub record Buf : Type 0 where
  pub data_ : List ℕ

-- `kSmall`
abbrev pub k_small : ℕ
k_small = 4000

-- `kLarge`
abbrev pub k_large : ℕ
k_large = 4000 * 1000

abbrev pub empty : Buf
empty = record { data_ = [] }

unfoldable pub avail : ℕ → Buf → ℕ
avail len b = len - length b.data_

-- What there is no room for is dropped.
unfoldable pub buf_append : ℕ → Buf → List ℕ → Buf
unfolding avail
buf_append len b line =
    if ltb (length line) (avail len b) then record { data_ = b.data_ ++ line } else b
