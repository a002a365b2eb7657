-- ===== src/Logger/Reference.antt =====
-- The line of the log that a statement describes, without what a thread keeps.
use chtho.Prelude.{
  ℕ, ◌+◌, ◌^◌, ◌<◌, ◌≤◌, ◌≡◌, refl, sym, ap, subst, ◌-◌, ◌∙◌, Bool, not, true, false, List, [], ◌∷◌,
  ◌++◌, Option, none, some, Result, ok, fail, ◌==◌, if◌then◌else◌, length, replicate, ℤ, pos, arith,
  Bool-cases, inl, inr,
}
use chtho.FixedBuffer.{k_small}
use chtho.LogStream.{convert}
use chtho.LogStream.Convert.{IsNumeral, convert-IsNumeral}
use chtho.Timestamp.{us_per_sec}
use chtho.TimeZone.{shift}
use chtho.SourceFile.{last_part}
use chtho.Logger.{
  Level, rank, level_name, Setting, print_tm, broken_down, Effect, written, flushed, aborted,
}
use chtho.Logger.Statements.{
  Macro, log_trace, log_debug, log_info, log_warn, log_err, log_fatal, log_syserr, log_sysfatal,
  is_logged, Statement, has_aborted,
}

-- The strings one behind the other.
abbrev pub join : List (List ℕ) → List ℕ
join [] = []
join (s ∷ ss) = s ++ join ss

abbrev pub chars : Result (Option (List ℕ)) → List ℕ
chars (ok (some cs)) = cs
chars (ok none) = []
chars (fail f) = []

-- The decimal numeral of a line.
pub decimal : ℕ → List ℕ
decimal n = chars (convert 10 (pos n))

pub decimal-convert :
    (n : ℕ)
    → n < 2 ^ 31
    → (convert 10 (pos n) ≡ ok (some (decimal n))) × IsNumeral (pos n) (decimal n)
unfolding decimal
decimal-convert n small =
    let (text, e, same, _) = convert-IsNumeral 10 (pos n) (omega arith) (omega arith) in
    (e ∙ sym (ap (λ r. ok (some (chars r))) e), subst (IsNumeral (pos n)) (sym (ap chars e)) same)

pub decimal_short : (n : ℕ) → n < 2 ^ 31 → length (decimal n) ≤ 11
unfolding decimal
decimal_short n small =
    let (text, e, _, short) = convert-IsNumeral 10 (pos n) (omega arith) (omega arith) in
    rw (ap chars e) short

abbrev pub macro_level : Macro → Level
macro_level (log_trace func) = Level.trace
macro_level (log_debug func) = Level.debug
macro_level log_info = Level.info
macro_level log_warn = Level.warn
macro_level log_err = Level.err
macro_level log_fatal = Level.fatal
macro_level log_syserr = Level.err
macro_level log_sysfatal = Level.fatal

-- The macros that the level of the log silences: the three for details, where it is above theirs.
abbrev pub is_silent : Macro → Level → Bool
is_silent (log_trace func) Level.trace = false
is_silent (log_trace func) _ = true
is_silent (log_debug func) Level.trace = false
is_silent (log_debug func) Level.debug = false
is_silent (log_debug func) _ = true
is_silent log_info Level.warn = true
is_silent log_info Level.err = true
is_silent log_info Level.fatal = true
is_silent _ _ = false

pub is_logged-is_silent : (m : Macro) (level : Level) → is_logged level m ≡ not (is_silent m level)
is_logged-is_silent (log_trace func) Level.trace = refl
is_logged-is_silent (log_trace func) Level.debug = refl
is_logged-is_silent (log_trace func) _ = refl
is_logged-is_silent (log_debug func) Level.trace = refl
is_logged-is_silent (log_debug func) Level.debug = refl
is_logged-is_silent (log_debug func) _ = refl
is_logged-is_silent log_info Level.warn = refl
is_logged-is_silent log_info Level.err = refl
is_logged-is_silent log_info Level.fatal = refl
is_logged-is_silent log_info _ = refl
is_logged-is_silent log_warn level = refl
is_logged-is_silent log_err level = refl
is_logged-is_silent log_fatal level = refl
is_logged-is_silent log_syserr level = refl
is_logged-is_silent log_sysfatal level = refl

-- "TRACE", "DEBUG", "INFO", "WARN", "ERROR" and "FATAL", and their colours on a terminal.
abbrev level_letters : Level → List ℕ
level_letters Level.trace = 84 ∷ 82 ∷ 65 ∷ 67 ∷ 69 ∷ []
level_letters Level.debug = 68 ∷ 69 ∷ 66 ∷ 85 ∷ 71 ∷ []
level_letters Level.info = 73 ∷ 78 ∷ 70 ∷ 79 ∷ []
level_letters Level.warn = 87 ∷ 65 ∷ 82 ∷ 78 ∷ []
level_letters Level.err = 69 ∷ 82 ∷ 82 ∷ 79 ∷ 82 ∷ []
level_letters Level.fatal = 70 ∷ 65 ∷ 84 ∷ 65 ∷ 76 ∷ []

abbrev colour : Level → List ℕ
colour Level.trace = 51 ∷ 53 ∷ []
colour Level.debug = 51 ∷ 54 ∷ []
colour Level.info = 57 ∷ 55 ∷ []
colour Level.warn = 51 ∷ 51 ∷ []
colour Level.err = 51 ∷ 49 ∷ []
colour Level.fatal = 49 ∷ 59 ∷ 51 ∷ 49 ∷ []

-- The escape sequence of a colour.
abbrev escape : List ℕ → List ℕ
escape code = 27 ∷ 91 ∷ code ++ 109 ∷ []

-- The word of a level in six places, with its colour around it where colours are wanted.
abbrev pub level_word : Bool → Level → List ℕ
level_word colored level =
    (if colored
      then escape (colour level) ++ (level_letters level ++ escape (48 ∷ []))
      else level_letters level)
    ++ replicate (6 - length (level_letters level)) 32

pub level_name-level_word : (b : Bool) (level : Level) → level_name b level ≡ level_word b level
level_name-level_word true Level.trace = refl
level_name-level_word true Level.debug = refl
level_name-level_word true Level.info = refl
level_name-level_word true Level.warn = refl
level_name-level_word true Level.err = refl
level_name-level_word true Level.fatal = refl
level_name-level_word false Level.trace = refl
level_name-level_word false Level.debug = refl
level_name-level_word false Level.info = refl
level_name-level_word false Level.warn = refl
level_name-level_word false Level.err = refl
level_name-level_word false Level.fatal = refl

-- The seconds since the epoch in the time zone, by its distance from UTC if there is one.
abbrev local_secs : Setting → ℕ → ℤ
local_secs v secs = shift secs (if v.time_zone.set then v.time_zone.gmt_off else pos 0)

-- The date and the time of day at those seconds.
abbrev pub time_text : Setting → ℕ → List ℕ
time_text v secs =
    let m = v.platform.gmtime_r (local_secs v secs) in
    v.platform.print_time
      ((m.tm_year + 1900) ∷ (m.tm_mon + 1) ∷ m.tm_mday ∷ m.tm_hour ∷ m.tm_min ∷ m.tm_sec ∷ [])

pub print_tm-time_text :
    (v : Setting) (secs : ℕ) → print_tm v.platform (broken_down v secs) ≡ time_text v secs
print_tm-time_text v secs = elim (Bool-cases v.time_zone.set) [
  | inl h ↦ rw h refl
  | inr h ↦
      let same : secs ≡ secs + 0 = omega arith in
      rw h (ap (λ n. print_tm v.platform (v.platform.gmtime_r (pos n))) same)
]

-- The name of the function and a space.
abbrev pub func_part : Macro → List (List ℕ)
func_part (log_trace func) = func ∷ (32 ∷ []) ∷ []
func_part (log_debug func) = func ∷ (32 ∷ []) ∷ []
func_part _ = []

-- What a line starts with, from the numbers that the kernel gave, and what it ends with.
abbrev pub head_parts : Setting → Statement → List (List ℕ)
head_parts v e =
    time_text v e.tv_sec
    ∷ v.platform.print_us e.tv_usec
    ∷ v.platform.print_id v.getpid
    ∷ v.platform.print_id v.gettid
    ∷ level_word v.colored (macro_level e.macro)
    ∷ func_part e.macro

abbrev pub end_parts : Statement → List (List ℕ)
end_parts e = (32 ∷ []) ∷ last_part [] e.path ∷ (58 ∷ []) ∷ decimal e.line ∷ (10 ∷ []) ∷ []

abbrev pub text : Setting → Statement → List ℕ
text v e = join (head_parts v e ++ (e.strings ++ end_parts e))

-- What a statement does: nothing if the level silences it; otherwise its line, and the end of the
-- program where it is fatal.
abbrev pub effects : Setting → Statement → List Effect
effects v e =
    if is_silent e.macro v.log_level
    then []
    else (written (text v e)
        ∷ (if rank (macro_level e.macro) == rank Level.fatal then flushed ∷ aborted ∷ [] else []))

abbrev pub all_effects : Setting → List Statement → List Effect
all_effects v [] = []
all_effects v (e ∷ es) =
    effects v e ++ elim (has_aborted (effects v e)) [ true ↦ [] | false ↦ all_effects v es ]

-- The line is an `int`, its text has room in the buffer, and the time is one after the epoch.
pub record Fits (v : Setting) (e : Statement) : Type 0 where
  pub line_small : e.line < 2 ^ 31
  pub room : length (text v e) + 4 ≤ k_small
  pub after_epoch : 0 < e.tv_sec
  pub usec_small : e.tv_usec < us_per_sec

abbrev pub AllFit : Setting → List Statement → Type 0
AllFit v [] = Unit {0}
AllFit v (e ∷ es) = Fits v e × AllFit v es
