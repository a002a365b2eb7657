-- ===== src/Logger/Parts.antt =====
-- The strings that the functions of a logger put on its stream, one behind the other.
use chtho.Prelude.{
  ℕ, ◌+◌, ◌^◌, ◌<◌, ◌≤◌, ◌≡◌, refl, sym, ap, ◌∙◌, List, [], ◌∷◌, ◌++◌, some, ok, ◌==◌,
  if◌then◌else◌, length, pos, arith, inl, inr, append_assoc, append-nil, length-append,
}
use chtho.FixedBuffer.{Buf, k_small, avail, buf_append, empty}
use chtho.LogStream.{out_char, out_string, out_integer}
use chtho.LogStream.Room.{out_integer-Writes}
use chtho.Timestamp.{Timestamp, secs_since_e, us}
use chtho.CurrentThread.{tid, pid}
use chtho.SourceFile.{SourceFile}
use chtho.Logger.{
  Level, rank, level_name, Setting, Locals, Logger, keep_second, Effect, written, flushed, aborted,
  finish, destroy,
}
use chtho.Logger.Statements.{
  Macro, log_trace, log_debug, log_info, log_warn, log_err, log_fatal, log_syserr, log_sysfatal,
  begin, out_strings,
}
use chtho.Logger.Reference.{join, decimal, decimal-convert, macro_level, func_part}

pub string_fits :
    (b : Buf) (s : List ℕ)
    → length b.data_ + length s < k_small
    → out_string b s ≡ record { data_ = b.data_ ++ s }
unfolding out_string buf_append avail
string_fits b s small = ground arith

pub strings_fit :
    (ss : List (List ℕ)) (b : Buf)
    → length b.data_ + length (join ss) < k_small
    → out_strings b ss ≡ record { data_ = b.data_ ++ join ss }
unfolding out_strings
strings_fit [] b small = ap (λ xs. record { data_ = xs }) (sym (append-nil b.data_))
strings_fit (s ∷ ss) b small = rw (string_fits b s (omega (arith, length-append s (join ss)))) (
    strings_fit ss (record { data_ = b.data_ ++ s })
      (omega (arith, length-append s (join ss), length-append b.data_ s))
    ∙ ap (λ xs. record { data_ = xs }) (append_assoc b.data_ s (join ss)))

pub strings-append :
    (ss ts : List (List ℕ)) (b : Buf) → out_strings b (ss ++ ts) ≡ out_strings (out_strings b ss) ts
unfolding out_strings
strings-append [] ts b = refl
strings-append (s ∷ ss) ts b = strings-append ss ts (out_string b s)

pub join-append : (ss ts : List (List ℕ)) → join (ss ++ ts) ≡ join ss ++ join ts
join-append [] ts = refl
join-append (s ∷ ss) ts =
    ap (λ xs. s ++ xs) (join-append ss ts) ∙ sym (append_assoc s (join ss) (join ts))

pub integer_fits :
    (b : Buf) (n : ℕ)
    → n < 2 ^ 31
    → length b.data_ + length (decimal n) + 4 ≤ k_small
    → out_integer 4 10 b (pos n) ≡ ok (some (out_string b (decimal n)))
unfolding avail
integer_fits b n small room =
    elim (out_integer-Writes 4 10 b (pos n) (decimal n) (decimal-convert n small).0) [
      | inl (full, _) ↦ absurd (omega (arith, full, room))
      | inr (inl (_, full, _)) ↦ absurd (omega (arith, full, room))
      | inr (inr (_, _, e)) ↦
          e ∙ ap (λ x. ok (some x)) (sym (string_fits b (decimal n) (omega (arith, room))))
    ]

-- What `finish` adds.
abbrev pub last_parts : Logger → List (List ℕ)
last_parts g = (32 ∷ []) ∷ g.basename.data_ ∷ (58 ∷ []) ∷ decimal g.line ∷ (10 ∷ []) ∷ []

pub last_parts-length :
    (g : Logger)
    → length (join (last_parts g))
      ≡ length (join ((32 ∷ []) ∷ g.basename.data_ ∷ (58 ∷ []) ∷ [])) + length (decimal g.line) + 1
last_parts-length g = omega (
  arith,
  length-append g.basename.data_ (58 ∷ (decimal g.line ++ 10 ∷ [])),
  length-append (decimal g.line) (10 ∷ []),
  length-append g.basename.data_ (58 ∷ []),
)

pub finish-parts :
    (g : Logger)
    → g.line < 2 ^ 31
    → length g.stream.data_ + length (join (last_parts g)) + 4 ≤ k_small
    → finish g ≡ ok (some (record g { stream = out_strings g.stream (last_parts g) }))
unfolding finish out_strings out_char out_string
finish-parts g small room =
    let before : List (List ℕ) = (32 ∷ []) ∷ g.basename.data_ ∷ (58 ∷ []) ∷ [] in
    let l₁ = last_parts-length g in
    let e₁ : out_strings g.stream before ≡ record { data_ = g.stream.data_ ++ join before } =
      strings_fit before g.stream (omega (arith, l₁, room)) in
    let e₂ =
      integer_fits (out_strings g.stream before) g.line small
        (rw e₁ (omega (arith, l₁, room, length-append g.stream.data_ (join before)))) in
    rw e₂ refl

abbrev pub fatal_effects : Level → List Effect
fatal_effects level = if rank level == rank Level.fatal then flushed ∷ aborted ∷ [] else []

pub destroy-parts :
    (g : Logger) (ss : List (List ℕ))
    → g.stream ≡ out_strings empty ss
    → g.line < 2 ^ 31
    → length (join (ss ++ last_parts g)) + 4 ≤ k_small
    → destroy g ≡ ok (some (written (join (ss ++ last_parts g)) ∷ fatal_effects g.level))
unfolding destroy
destroy-parts g ss e small room =
    let size : length (join (ss ++ last_parts g))
        ≡ length (join ss) + length (join (last_parts g)) =
      ap length (join-append ss (last_parts g)) ∙ length-append (join ss) (join (last_parts g)) in
    let shown : g.stream ≡ record { data_ = join ss } =
      e ∙ strings_fit ss empty (omega (arith, size, room)) in
    let done : out_strings g.stream (last_parts g) ≡ record { data_ = join (ss ++ last_parts g) } =
      ap (λ b. out_strings b (last_parts g)) e
      ∙ sym (strings-append ss (last_parts g) empty)
      ∙ strings_fit (ss ++ last_parts g) empty (omega (arith, room)) in
    rw (finish-parts g small (rw shown (omega (arith, size, room))))
      (ap (λ b. ok (some (written b.data_ ∷ fatal_effects g.level))) done)

-- What the constructors put on the stream, from what the thread has kept.
abbrev pub kept_parts : Setting → Macro → Timestamp → Locals → List (List ℕ)
kept_parts v m time l =
    l.time_str
    ∷ v.platform.print_us (us time)
    ∷ l.ids.pid_str
    ∷ l.ids.tid_str
    ∷ level_name v.colored (macro_level m)
    ∷ func_part m

abbrev pub begun : Setting → Timestamp → Locals → Locals
begun v time l =
    let l' = keep_second v (secs_since_e time) l in
    record l' { ids = tid v.platform.print_id v.gettid (pid v.platform.print_id v.getpid l'.ids) }

pub begin-parts :
    (v : Setting) (m : Macro) (file : SourceFile) (line : ℕ) (time : Timestamp) (l : Locals)
    → begin v m file line time l ≡ (
      record {
        basename = file;
        line = line;
        level = macro_level m;
        stream = out_strings empty (kept_parts v m time (begun v time l));
        time = time;
      },
      begun v time l,
    )
unfolding out_strings out_char out_string
begin-parts v (log_trace func) file line time l = refl
begin-parts v (log_debug func) file line time l = refl
begin-parts v log_info file line time l = refl
begin-parts v log_warn file line time l = refl
begin-parts v log_err file line time l = refl
begin-parts v log_fatal file line time l = refl
begin-parts v log_syserr file line time l = refl
begin-parts v log_sysfatal file line time l = refl
