-- ===== src/TimeZone.antt =====
-- chtho/time/TimeZone.h and TimeZone.cpp. gmtime_r(3) is a parameter.
use chtho.Prelude.{
  ℕ, suc, ◌+◌, ◌-◌, Bool, true, false, List, [], ltb, if◌then◌else◌, ℤ, pos, negsuc,
}

-- `struct tm`, as far as the program reads or writes it.
pub record Tm : Type 0 where
  pub tm_year : ℕ
  pub tm_mon : ℕ
  pub tm_mday : ℕ
  pub tm_hour : ℕ
  pub tm_min : ℕ
  pub tm_sec : ℕ
  pub tm_gmtoff : ℤ
  pub tm_zone : List ℕ

-- `set_`, `gmtOff_` and `abbr_`.
pub record TimeZone : Type 0 where
  pub set : Bool
  pub gmt_off : ℤ
  pub abbr : List ℕ

-- The constructors.
abbrev pub unset : TimeZone
unset = record { set = false; gmt_off = pos 0; abbr = [] }

abbrev pub make : ℤ → List ℕ → TimeZone
make gmt_off name = record { set = true; gmt_off = gmt_off; abbr = name }

-- The sum of seconds since the epoch and an offset.
abbrev pub shift : ℕ → ℤ → ℤ
shift n (pos k) = pos (n + k)
shift n (negsuc k) = if ltb k n then pos (n - suc k) else negsuc (k - n)

abbrev pub to_local : (ℤ → Tm) → TimeZone → ℕ → Tm
to_local gmtime tz secs_since_e = record (gmtime (shift secs_since_e tz.gmt_off)) {
  tm_gmtoff = tz.gmt_off;
  tm_zone = tz.abbr;
}
