-- ===== src/Logger.antt =====
-- chtho/logging/Logger.h and Logger.cpp: the lines of the log. What gmtime_r(3) and snprintf(3) give
-- is a parameter, and so is what gettimeofday(2), getpid(2) and gettid(2) return.
pub mod Statements
pub mod Reference
pub mod Parts
pub mod Kept
pub mod Line
mod Tests
use chtho.Prelude.{
  ℕ, ◌+◌, Bool, true, false, not, ◌||◌, List, [], ◌∷◌, ◌++◌, Option, none, some, Result, ok, ◌>>=◌,
  ltb, leb, ◌==◌, if◌then◌else◌, ℤ, pos, map,
}
use chtho.FixedBuffer.{Buf, empty}
use chtho.LogStream.{out_char, out_string, out_integer}
use chtho.Timestamp.{Timestamp, now, secs_since_e, us}
use chtho.TimeZone.{Tm, TimeZone, to_local}
use chtho.CurrentThread.{Ids, tid, pid}
use chtho.SourceFile
use chtho.SourceFile.{SourceFile}

pub data Level : Type 0 where
  trace debug info warn err fatal : Level

-- The order of the enumeration.
abbrev pub rank : Level → ℕ
rank Level.trace = 0
rank Level.debug = 1
rank Level.info = 2
rank Level.warn = 3
rank Level.err = 4
rank Level.fatal = 5

-- `initLogLevel`, by which of the three variables of the environment are there.
init_log_level : Bool → Bool → Bool → Level
init_log_level chtho_log_trace chtho_log_debug chtho_log_fatal =
    if chtho_log_trace
    then Level.trace
    else if chtho_log_debug
    then Level.debug
    else if chtho_log_fatal
    then Level.fatal
    else Level.info

-- `levelName`; the flag is whether CHTHO_COLORED is defined.
abbrev pub level_name : Bool → Level → List ℕ
level_name true Level.trace =
    27 ∷ 91 ∷ 51 ∷ 53 ∷ 109 ∷ 84 ∷ 82 ∷ 65 ∷ 67 ∷ 69 ∷ 27 ∷ 91 ∷ 48 ∷ 109 ∷ 32 ∷ []
level_name true Level.debug =
    27 ∷ 91 ∷ 51 ∷ 54 ∷ 109 ∷ 68 ∷ 69 ∷ 66 ∷ 85 ∷ 71 ∷ 27 ∷ 91 ∷ 48 ∷ 109 ∷ 32 ∷ []
level_name true Level.info =
    27 ∷ 91 ∷ 57 ∷ 55 ∷ 109 ∷ 73 ∷ 78 ∷ 70 ∷ 79 ∷ 27 ∷ 91 ∷ 48 ∷ 109 ∷ 32 ∷ 32 ∷ []
level_name true Level.warn =
    27 ∷ 91 ∷ 51 ∷ 51 ∷ 109 ∷ 87 ∷ 65 ∷ 82 ∷ 78 ∷ 27 ∷ 91 ∷ 48 ∷ 109 ∷ 32 ∷ 32 ∷ []
level_name true Level.err =
    27 ∷ 91 ∷ 51 ∷ 49 ∷ 109 ∷ 69 ∷ 82 ∷ 82 ∷ 79 ∷ 82 ∷ 27 ∷ 91 ∷ 48 ∷ 109 ∷ 32 ∷ []
level_name true Level.fatal =
    27 ∷ 91 ∷ 49 ∷ 59 ∷ 51 ∷ 49 ∷ 109 ∷ 70 ∷ 65 ∷ 84 ∷ 65 ∷ 76 ∷ 27 ∷ 91 ∷ 48 ∷ 109 ∷ 32 ∷ []
level_name false Level.trace = 84 ∷ 82 ∷ 65 ∷ 67 ∷ 69 ∷ 32 ∷ []
level_name false Level.debug = 68 ∷ 69 ∷ 66 ∷ 85 ∷ 71 ∷ 32 ∷ []
level_name false Level.info = 73 ∷ 78 ∷ 70 ∷ 79 ∷ 32 ∷ 32 ∷ []
level_name false Level.warn = 87 ∷ 65 ∷ 82 ∷ 78 ∷ 32 ∷ 32 ∷ []
level_name false Level.err = 69 ∷ 82 ∷ 82 ∷ 79 ∷ 82 ∷ 32 ∷ []
level_name false Level.fatal = 70 ∷ 65 ∷ 84 ∷ 65 ∷ 76 ∷ 32 ∷ []

-- gmtime_r(3), and what snprintf(3) prints with "%4d%02d%02d %02d:%02d:%02d", ".%06d " and "%5d ".
pub record Platform : Type 0 where
  pub gmtime_r : ℤ → Tm
  pub print_time : List ℕ → List ℕ
  pub print_us : ℕ → List ℕ
  pub print_id : ℕ → List ℕ

-- What stays the same while lines are logged: the global `g_logLevel` and `Logger::timeZone`, the
-- numbers of the process and the thread, and the option of the build.
pub record Setting : Type 0 where
  pub platform : Platform
  pub log_level : Level
  pub time_zone : TimeZone
  pub getpid : ℕ
  pub gettid : ℕ
  pub colored : Bool

-- The variables of a thread: `time_str`, `last_sec`, and those of CurrentThread.
pub record Locals : Type 0 where
  pub time_str : List ℕ
  pub last_sec : ℕ
  pub ids : Ids

pub record Logger : Type 0 where
  pub basename : SourceFile
  pub line : ℕ
  pub level : Level
  pub stream : Buf
  pub time : Timestamp

-- The members that every constructor sets.
abbrev pub blank : SourceFile → ℕ → Level → Timestamp → Logger
blank file line level time = record {
  basename = file;
  line = line;
  level = level;
  stream = empty;
  time = time;
}

abbrev pub broken_down : Setting → ℕ → Tm
broken_down v secs =
    if v.time_zone.set
    then to_local v.platform.gmtime_r v.time_zone secs
    else v.platform.gmtime_r (pos secs)

abbrev pub print_tm : Platform → Tm → List ℕ
print_tm p m =
    p.print_time
      ((m.tm_year + 1900) ∷ (m.tm_mon + 1) ∷ m.tm_mday ∷ m.tm_hour ∷ m.tm_min ∷ m.tm_sec ∷ [])

-- `formTimeStr` keeps the text of the second in the variables of the thread.
unfoldable pub keep_second : Setting → ℕ → Locals → Locals
keep_second v secs l =
    if secs == l.last_sec
    then l
    else record l { last_sec = secs; time_str = print_tm v.platform (broken_down v secs) }

abbrev pub form_time_str : Setting → Logger × Locals → Logger × Locals
form_time_str v (g, l) =
    let l' = keep_second v (secs_since_e g.time) l in
    (
      record g {
        stream = out_string (out_string g.stream l'.time_str) (v.platform.print_us (us g.time));
      },
      l',
    )

abbrev pub common_init : Setting → Logger × Locals → Logger × Locals
common_init v s =
    let (g, l) = form_time_str v s in
    let ids = tid v.platform.print_id v.gettid (pid v.platform.print_id v.getpid l.ids) in
    (
      record g {
        stream =
            out_string (out_string (out_string g.stream ids.pid_str) ids.tid_str)
              (level_name v.colored g.level);
      },
      record l { ids = ids },
    )

-- The four constructors: for LOG_INFO, for LOG_TRACE and LOG_DEBUG with the name of the function, for
-- a level, and for LOG_SYSERR and LOG_SYSFATAL.
abbrev pub make : Setting → SourceFile → ℕ → Timestamp → Locals → Logger × Locals
make v file line time l = common_init v (blank file line Level.info time, l)

abbrev pub make_in :
    Setting → SourceFile → ℕ → Level → List ℕ → Timestamp → Locals → Logger × Locals
make_in v file line level func time l =
    let (g, l') = common_init v (blank file line level time, l) in
    (record g { stream = out_char (out_string g.stream func) 32 }, l')

abbrev pub make_at : Setting → SourceFile → ℕ → Level → Timestamp → Locals → Logger × Locals
make_at v file line level time l = common_init v (blank file line level time, l)

abbrev pub make_sys : Setting → SourceFile → ℕ → Bool → Timestamp → Locals → Logger × Locals
make_sys v file line abort_flag time l =
    common_init v (blank file line (if abort_flag then Level.fatal else Level.err) time, l)

-- What leaves the logger: `output`, `flush` and abort(3).
pub data Effect : Type 0 where
  written : List ℕ → Effect
  flushed aborted : Effect

-- `finish`; the line is an `int`, of ten digits at most.
unfoldable pub finish : Logger → Result (Option Logger)
finish g =
    out_integer 4 10 (out_char (out_string (out_string g.stream (32 ∷ [])) g.basename.data_) 58)
      (pos g.line)
    >>= λ r. elim r [ none ↦ ok none | some b ↦ ok (some (record g { stream = out_char b 10 })) ]

-- The destructor.
abbrev pub leave : Logger → List Effect
leave g =
    written g.stream.data_
    ∷ (if rank g.level == rank Level.fatal then flushed ∷ aborted ∷ [] else [])

unfoldable pub destroy : Logger → Result (Option (List Effect))
destroy g = finish g >>= λ r. elim r [ none ↦ ok none | some g' ↦ ok (some (leave g')) ]
