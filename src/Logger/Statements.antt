-- ===== src/Logger/Statements.antt =====
-- The macros of chtho/logging/Logger.h, and the statements of a thread that use them.
use chtho.Prelude.{
  ℕ, Bool, true, false, List, [], ◌∷◌, ◌++◌, Option, none, some, Result, ok, ◌>>=◌, leb,
  if◌then◌else◌,
}
use chtho.FixedBuffer.{Buf}
use chtho.LogStream.{out_string}
use chtho.Timestamp.{Timestamp, now}
use chtho.SourceFile
use chtho.SourceFile.{SourceFile}
use chtho.Logger.{
  Level, rank, Setting, Locals, Logger, make, make_in, make_at, make_sys, Effect, written, flushed,
  aborted, destroy,
}

-- The macros LOG_TRACE to LOG_SYSFATAL; the first two have `__func__`.
pub data Macro : Type 0 where
  log_trace log_debug : List ℕ → Macro
  log_info log_warn log_err log_fatal log_syserr log_sysfatal : Macro

abbrev pub is_logged : Level → Macro → Bool
is_logged level (log_trace func) = leb (rank level) (rank Level.trace)
is_logged level (log_debug func) = leb (rank level) (rank Level.debug)
is_logged level log_info = leb (rank level) (rank Level.info)
is_logged level _ = true

abbrev pub begin : Setting → Macro → SourceFile → ℕ → Timestamp → Locals → Logger × Locals
begin v (log_trace func) file line time l = make_in v file line Level.trace func time l
begin v (log_debug func) file line time l = make_in v file line Level.debug func time l
begin v log_info file line time l = make v file line time l
begin v log_warn file line time l = make_at v file line Level.warn time l
begin v log_err file line time l = make_at v file line Level.err time l
begin v log_fatal file line time l = make_at v file line Level.fatal time l
begin v log_syserr file line time l = make_sys v file line false time l
begin v log_sysfatal file line time l = make_sys v file line true time l

-- A line of the log: `__FILE__`, `__LINE__`, what gettimeofday(2) stores, and the strings that the
-- program gives to the stream.
pub record Statement : Type 0 where
  pub macro : Macro
  pub path : List ℕ
  pub line : ℕ
  pub tv_sec : ℕ
  pub tv_usec : ℕ
  pub strings : List (List ℕ)

unfoldable pub out_strings : Buf → List (List ℕ) → Buf
out_strings b [] = b
out_strings b (s ∷ ss) = out_strings (out_string b s) ss

-- The logger of a statement, as the destructor finds it, and the variables of the thread.
abbrev pub log_begun : Setting → Locals → Statement → Logger × Locals
log_begun v l e =
    let (g, l') =
      begin v e.macro (chtho.SourceFile.make e.path) e.line (now e.tv_sec e.tv_usec) l in
    (record g { stream = out_strings g.stream e.strings }, l')

abbrev pub with_locals : Locals → Option (List Effect) → Result (Option (Locals × List Effect))
with_locals l none = ok none
with_locals l (some fx) = ok (some (l, fx))

unfoldable pub log : Setting → Locals → Statement → Result (Option (Locals × List Effect))
log v l e =
    if is_logged v.log_level e.macro
    then destroy (log_begun v l e).0 >>= with_locals (log_begun v l e).1
    else ok (some (l, []))

abbrev pub has_aborted : List Effect → Bool
has_aborted [] = false
has_aborted (aborted ∷ fx) = true
has_aborted (written s ∷ fx) = has_aborted fx
has_aborted (flushed ∷ fx) = has_aborted fx

abbrev pub behind : List Effect → Option (List Effect) → Result (Option (List Effect))
behind fx none = ok none
behind fx (some gx) = ok (some (fx ++ gx))

-- Nothing follows abort(3).
abbrev pub after_log :
    (Locals → Result (Option (List Effect)))
    → Option (Locals × List Effect)
    → Result (Option (List Effect))
after_log rest none = ok none
after_log rest (some (l, fx)) = elim (has_aborted fx) [
  | true ↦ ok (some fx)
  | false ↦ rest l >>= behind fx
]

-- The statements of a thread, one after the other.
unfoldable pub log_all : Setting → Locals → List Statement → Result (Option (List Effect))
log_all v l [] = ok (some [])
log_all v l (e ∷ es) = log v l e >>= after_log (λ l'. log_all v l' es)
