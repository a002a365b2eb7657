-- ===== src/Timestamp.antt =====
-- chtho/time/Timestamp.h and Timestamp.cpp, with times that are not before the epoch.
use chtho.Prelude.{ℕ, ◌+◌, ◌*◌, ◌/◌, ◌%◌}

-- `usPerSec`
abbrev pub us_per_sec : ℕ
us_per_sec = 1000 * 1000

pub record Timestamp : Type 0 where
  pub us_since_e : ℕ

-- `now`, with what gettimeofday(2) has stored.
abbrev pub now : ℕ → ℕ → Timestamp
now tv_sec tv_usec = record { us_since_e = tv_sec * us_per_sec + tv_usec }

abbrev pub secs_since_e : Timestamp → ℕ
secs_since_e t = t.us_since_e / us_per_sec

abbrev pub us : Timestamp → ℕ
us t = t.us_since_e % us_per_sec
