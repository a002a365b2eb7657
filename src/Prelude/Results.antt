-- ===== src/Prelude/Results.antt =====
-- Calls that may end the program: the ways they do, and the monad of their results.
use mathlib.Core.Bool.{Bool, true, false}

-- `assertion` is a failed `assert` (or `LOG_FATAL`), `length_error` what `std::vector` throws,
-- `out_of_bounds` an access outside an array, `null_pointer` and `dangling` one through a pointer
-- that points to nothing; `fatal` is the end of the program by `LOG_SYSFATAL`.
pub data Fault : Type 0 where
  assertion length_error out_of_bounds null_pointer dangling fatal : Fault

pub data Result {ℓ} (A : Type ℓ) : Type ℓ where
  ok : A → Result A
  fail : Fault → Result A

infixl 5 ◌>>=◌ ◌>>◌
abbrev pub ◌>>=◌ {ℓ κ} : {A : Type ℓ} {B : Type κ} → Result A → (A → Result B) → Result B
ok a >>= f = f a
fail e >>= f = fail e

abbrev pub ◌>>◌ {ℓ} : {B : Type ℓ} → Result (Unit {0}) → Result B → Result B
m >> k = m >>= λ _. k

-- `assert(b)`
abbrev pub guard : Bool → Result (Unit {0})
guard true = ok tt
guard false = fail Fault.assertion

abbrev pub require : Bool → Fault → Result (Unit {0})
require true e = ok tt
require false e = fail e
