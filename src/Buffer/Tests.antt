-- ===== src/Buffer/Tests.antt =====
-- Runs of the buffer, and the theorems at concrete buffers.
use chtho.Prelude.{◌≡◌, refl, [], ◌∷◌, ◌++◌, ok, arith, replicate}
use chtho.Buffer.{Buffer, append}
use chtho.Buffer.Valid.{IsValid}
use chtho.Buffer.ReadFd.{got, read_fd, iov_capacity, ReadShows, read_fd-contents}

-- Thirteen bytes, of which two are readable, two stand before them and one is writable.
abbrev small : Buffer
small = record { buf = replicate 8 0 ++ 1 ∷ 2 ∷ 65 ∷ 66 ∷ 3 ∷ []; reader = 10; writer = 12 }

small-IsValid : IsValid small
small-IsValid = omega arith

append_runs :
    append small (67 ∷ 68 ∷ [])
    ≡ ok (record { buf = replicate 8 0 ++ 65 ∷ 66 ∷ 67 ∷ 68 ∷ 3 ∷ []; reader = 8; writer = 12 })
unfolding append
append_runs = refl

read_fd-contents_example :
    ReadShows (read_fd small (got (67 ∷ 68 ∷ 69 ∷ []))) 3 (65 ∷ 66 ∷ 67 ∷ 68 ∷ 69 ∷ [])
unfolding iov_capacity
read_fd-contents_example =
    read_fd-contents small (67 ∷ 68 ∷ 69 ∷ []) small-IsValid (omega arith) (omega arith)
