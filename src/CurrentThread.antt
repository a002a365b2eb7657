-- ===== src/CurrentThread.antt =====
-- chtho/threads/CurrentThread.h and CurrentThread.cpp: the numbers of the thread and the process,
-- which a thread asks the kernel for once. What snprintf(3) prints is a parameter.
use chtho.Prelude.{ℕ, List, [], length, ◌==◌, if◌then◌else◌}

-- The variables of a thread.
pub record Ids : Type 0 where
  pub tid_cached : ℕ
  pub tid_str : List ℕ
  pub tid_len : ℕ
  pub pid_cached : ℕ
  pub pid_str : List ℕ
  pub pid_len : ℕ

abbrev pub unknown : Ids
unknown = record {
  tid_cached = 0;
  tid_str = [];
  tid_len = 8;
  pid_cached = 0;
  pid_str = [];
  pid_len = 8;
}

-- With what gettid(2) returns.
unfoldable pub tid : (ℕ → List ℕ) → ℕ → Ids → Ids
tid print gettid ids =
    if ids.tid_cached == 0
    then record ids { tid_cached = gettid; tid_str = print gettid; tid_len = length (print gettid) }
    else ids

-- With what getpid(2) returns.
unfoldable pub pid : (ℕ → List ℕ) → ℕ → Ids → Ids
pid print getpid ids =
    if ids.pid_cached == 0
    then record ids { pid_cached = getpid; pid_str = print getpid; pid_len = length (print getpid) }
    else ids
