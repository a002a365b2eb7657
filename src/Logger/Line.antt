-- ===== src/Logger/Line.antt =====
-- Each line of the log is the one that its statement describes, whatever the thread has kept from
-- the lines before.
use chtho.Prelude.{
  ℕ, ◌^◌, ◌<◌, ◌≡◌, refl, sym, ap, ◌∙◌, Bool, not, true, false, List, [], ◌∷◌, ◌++◌, Option, some,
  Result, ok, ◌>>=◌, pos, Bool-cases, inl, inr, arith, append_assoc, append-nil,
}
use chtho.FixedBuffer.{empty}
use chtho.LogStream.Convert.{IsNumeral}
use chtho.Timestamp.{Timestamp, now}
use chtho.CurrentThread.{unknown}
use chtho.SourceFile.{SourceFile, last_part, make-last_part}
use chtho.SourceFile
use chtho.Logger.{Setting, Locals, Logger, print_tm, broken_down, Effect, written, destroy}
use chtho.Logger.Statements.{
  is_logged, Statement, out_strings, log_begun, with_locals, log, has_aborted, behind, after_log,
  log_all,
}
use chtho.Logger.Reference.{
  join, is_silent, is_logged-is_silent, print_tm-time_text, level_name-level_word, decimal,
  decimal-convert, macro_level, head_parts, end_parts, text, effects, all_effects, Fits, AllFit,
}
use chtho.Logger.Parts.{
  strings-append, last_parts, fatal_effects, destroy-parts, kept_parts, begun, begin-parts,
}
use chtho.Logger.Kept.{IsKept, now-secs, now-us, begun-known}

-- One statement.
module _ (v : Setting) (l : Locals) (e : Statement) (k : IsKept v l) (f : Fits v e) where
  abbrev time : Timestamp
  time = now e.tv_sec e.tv_usec

  known :
      IsKept v (begun v time l)
      × ((begun v time l).time_str ≡ print_tm v.platform (broken_down v e.tv_sec))
      × ((begun v time l).ids.pid_str ≡ v.platform.print_id v.getpid)
      × ((begun v time l).ids.tid_str ≡ v.platform.print_id v.gettid)
  known =
      let same = now-secs e.tv_sec e.tv_usec f.usec_small in
      let (kept, shown, p, t) = begun-known v time l (rw same f.after_epoch) k in
      (kept, shown ∙ ap (λ n. print_tm v.platform (broken_down v n)) same, p, t)

  parts-head : kept_parts v e.macro time (begun v time l) ≡ head_parts v e
  parts-head =
      rw
        (
          known.1,
          known.2,
          known.3,
          now-us e.tv_sec e.tv_usec f.usec_small,
          print_tm-time_text v e.tv_sec,
          level_name-level_word v.colored (macro_level e.macro),
        )
        refl

  abbrev begun_parts : List (List ℕ)
  begun_parts = kept_parts v e.macro time (begun v time l) ++ e.strings

  abbrev file : SourceFile
  file = chtho.SourceFile.make e.path

  abbrev logger : Logger
  logger = record {
    basename = file;
    line = e.line;
    level = macro_level e.macro;
    stream = out_strings (out_strings empty (kept_parts v e.macro time (begun v time l))) e.strings;
    time = time;
  }

  log_begun-logger : log_begun v l e ≡ (logger, begun v time l)
  log_begun-logger = rw (begin-parts v e.macro file e.line time l) refl

  parts-text : join (begun_parts ++ last_parts logger) ≡ text v e
  parts-text =
      ap (λ p. join ((p ++ e.strings) ++ last_parts logger)) parts-head
      ∙ ap
          (λ b. join (
            (head_parts v e ++ e.strings)
            ++ ((32 ∷ []) ∷ b ∷ (58 ∷ []) ∷ decimal e.line ∷ (10 ∷ []) ∷ [])))
          (make-last_part e.path)
      ∙ ap join (append_assoc (head_parts v e) e.strings (end_parts e))

  destroy-text :
      destroy logger ≡ ok (some (written (text v e) ∷ fatal_effects (macro_level e.macro)))
  destroy-text =
      destroy-parts logger begun_parts
        (sym (strings-append (kept_parts v e.macro time (begun v time l)) e.strings empty))
        f.line_small (rw parts-text f.room)
      ∙ ap (λ s. ok (some (written s ∷ fatal_effects (macro_level e.macro)))) parts-text

  log-effects : (l' : Locals) × (log v l e ≡ ok (some (l', effects v e))) × IsKept v l'
  unfolding log
  log-effects = elim (Bool-cases (is_logged v.log_level e.macro)) [
    | inr h ↦ (l, rw (h, spoken false h) refl, k)
    | inl h ↦ (
      begun v time l,
      rw (h, spoken true h)
          (ap (λ p. destroy p.0 >>= with_locals p.1) log_begun-logger
            ∙ ap (λ r. r >>= with_locals (begun v time l)) destroy-text),
      known.0,
    )
  ]
    where
      spoken :
          (b : Bool) → is_logged v.log_level e.macro ≡ b → is_silent e.macro v.log_level ≡ not b
      spoken b h = ground (arith, h, is_logged-is_silent e.macro v.log_level)

-- The variables of a thread that has logged nothing.
abbrev pub fresh : Locals
fresh = record { time_str = []; last_sec = 0; ids = unknown }

fresh-IsKept : (v : Setting) → IsKept v fresh
fresh-IsKept v = record { second = inl refl; tid_known = inl refl; pid_known = inl refl }

rest_or_none :
    (fx gx : List Effect) (r : Result (Option (List Effect))) (b : Bool)
    → r ≡ ok (some gx)
    → elim b [ true ↦ ok (some fx) | false ↦ r >>= behind fx ]
      ≡ ok (some (fx ++ elim b [ true ↦ [] | false ↦ gx ]))
rest_or_none fx gx r true e = ap (λ xs. ok (some xs)) (sym (append-nil fx))
rest_or_none fx gx r false e = ap (λ x. x >>= behind fx) e

log_all-kept :
    (v : Setting) (l : Locals) (es : List Statement)
    → IsKept v l
    → AllFit v es
    → log_all v l es ≡ ok (some (all_effects v es))
unfolding log_all
log_all-kept v l [] k f = refl
log_all-kept v l (e ∷ es) k f =
    let (l', same, k') = log-effects v l e k f.0 in
    ap (λ r. r >>= after_log (λ l'. log_all v l' es)) same
    ∙ rest_or_none (effects v e) (all_effects v es) (log_all v l' es) (has_aborted (effects v e))
        (log_all-kept v l' es k' f.1)

-- For a thread that has logged nothing, and any statements whose lines fit in the buffer of the
-- stream, at times after the epoch: LOG_TRACE, LOG_DEBUG and LOG_INFO below the level do nothing;
-- each other one, of whatever level, hands to `output` exactly its line, which has the time in the
-- time zone, the numbers of the process and the thread, the word of the level, the name of the
-- function for the first two, the strings, the name of the file behind its last slash and the
-- decimal numeral of the line; and a fatal one flushes and aborts, and nothing follows.
pub log_all-effects :
    (v : Setting) (es : List Statement)
    → AllFit v es
    → (log_all v fresh es ≡ ok (some (all_effects v es)))
      × ((n : ℕ) → n < 2 ^ 31 → IsNumeral (pos n) (decimal n))
log_all-effects v es f =
    (log_all-kept v fresh es (fresh-IsKept v) f, λ n small. (decimal-convert n small).1)
