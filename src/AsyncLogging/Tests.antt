-- ===== src/AsyncLogging/Tests.antt =====
-- The theorems on the log buffers at two lines.
use chtho.Prelude.{◌≡◌, refl, [], ◌∷◌, ◌++◌, ok, some, none, arith}
use chtho.AsyncLogging.{Front, append}
use chtho.AsyncLogging.Lossless.{IsFront, pending, append-pending}

-- One full buffer, and no spare one.
abbrev busy : Front
busy = record {
  cur = some (record { data_ = 7 ∷ 8 ∷ [] });
  nxt = none;
  bufs = record { data_ = 5 ∷ 6 ∷ [] } ∷ [];
}

busy-IsFront : IsFront busy
busy-IsFront = ((_, refl), (λ n e. cc), λ e. omega arith)

append-pending_example :
    (s' : Front) × (append busy (9 ∷ []) ≡ ok s')
    × IsFront s'
    × (pending s' ≡ pending busy ++ 9 ∷ [])
append-pending_example = append-pending busy (9 ∷ []) (omega arith) busy-IsFront
