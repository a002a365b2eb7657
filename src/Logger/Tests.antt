-- ===== src/Logger/Tests.antt =====
-- A line of the log of a thread.
use chtho.Prelude.{ℕ, ◌≡◌, ◌<◌, ◌^◌, [], ◌∷◌, ok, some, ℤ, pos, false, arith, length-append}
use chtho.LogStream.Convert.{IsNumeral}
use chtho.TimeZone.{Tm, make}
use chtho.Logger.{Setting, Level}
use chtho.Logger.Statements.{Statement, log_warn, log_all}
use chtho.Logger.Reference.{AllFit, all_effects, decimal, decimal_short}
use chtho.Logger.Line.{fresh, log_all-effects}

abbrev midnight : ℤ → Tm
midnight t = record {
  tm_year = 70;
  tm_mon = 0;
  tm_mday = 1;
  tm_hour = 0;
  tm_min = 0;
  tm_sec = 0;
  tm_gmtoff = pos 0;
  tm_zone = [];
}

abbrev setting : Setting
setting = record {
  platform = record {
    gmtime_r = midnight;
    print_time = λ xs. xs;
    print_us = λ n. 46 ∷ [];
    print_id = λ n. 32 ∷ [];
  };
  log_level = Level.info;
  time_zone = make (pos 28800) (67 ∷ 83 ∷ 84 ∷ []);
  getpid = 7;
  gettid = 8;
  colored = false;
}

-- In line 5 of the file a/b.
abbrev statement : Statement
statement = record {
  macro = log_warn;
  path = 97 ∷ 47 ∷ 98 ∷ [];
  line = 5;
  tv_sec = 1000;
  tv_usec = 20;
  strings = (72 ∷ 105 ∷ []) ∷ [];
}

fits : AllFit setting (statement ∷ [])
fits = (
  record {
    line_small = omega arith;
    room = omega (arith, decimal_short 5 (omega arith), length-append (decimal 5) (10 ∷ []));
    after_epoch = omega arith;
    usec_small = omega arith;
  },
  tt,
)

log_all-effects_example :
    (log_all setting fresh (statement ∷ []) ≡ ok (some (all_effects setting (statement ∷ []))))
    × ((n : ℕ) → n < 2 ^ 31 → IsNumeral (pos n) (decimal n))
log_all-effects_example = log_all-effects setting (statement ∷ []) fits
