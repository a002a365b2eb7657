-- ===== src/Logger/Kept.antt =====
-- What a thread keeps from one line of the log to the next.
use chtho.Prelude.{ℕ, ◌<◌, ◌≡◌, ◌⊎◌, refl, sym, ap, ◌∙◌, List, ◌==◌, arith, Bool-cases, inl, inr}
use chtho.Timestamp.{Timestamp, now, secs_since_e, us, us_per_sec}
use chtho.CurrentThread.{Ids, tid, pid}
use chtho.Logger.{Setting, Locals, print_tm, broken_down, keep_second}
use chtho.Logger.Parts.{begun}

-- What a thread has kept agrees with what the kernel says.
pub record IsKept (v : Setting) (l : Locals) : Type 0 where
  pub second : (l.last_sec ≡ 0) ⊎ (l.time_str ≡ print_tm v.platform (broken_down v l.last_sec))
  pub tid_known : (l.ids.tid_cached ≡ 0) ⊎ (l.ids.tid_str ≡ v.platform.print_id v.gettid)
  pub pid_known : (l.ids.pid_cached ≡ 0) ⊎ (l.ids.pid_str ≡ v.platform.print_id v.getpid)

pub keep_second-known :
    (v : Setting) (secs : ℕ) (l : Locals)
    → 0 < secs
    → IsKept v l
    → ((keep_second v secs l).last_sec ≡ secs)
      × ((keep_second v secs l).time_str ≡ print_tm v.platform (broken_down v secs))
      × ((keep_second v secs l).ids ≡ l.ids)
unfolding keep_second
keep_second-known v secs l after k = elim (Bool-cases (secs == l.last_sec)) [
  | inr h ↦ (rw h refl, rw h refl, rw h refl)
  | inl h ↦
      let same : l.last_sec ≡ secs = ground (arith, h) in
      (rw h same, rw h (shown same k.second), rw h refl)
]
  where
    shown :
        l.last_sec ≡ secs
        → (l.last_sec ≡ 0) ⊎ (l.time_str ≡ print_tm v.platform (broken_down v l.last_sec))
        → l.time_str ≡ print_tm v.platform (broken_down v secs)
    shown same (inl z) = absurd (omega (arith, same, z, after))
    shown same (inr e) = e ∙ ap (λ n. print_tm v.platform (broken_down v n)) same

pub tid_known :
    (print : ℕ → List ℕ) (n : ℕ) (ids : Ids)
    → (ids.tid_cached ≡ 0) ⊎ (ids.tid_str ≡ print n)
    → ((tid print n ids).tid_str ≡ print n) × ((tid print n ids).pid_str ≡ ids.pid_str)
unfolding tid
tid_known print n ids k = (ground (arith, k), ground arith)

pub pid_known :
    (print : ℕ → List ℕ) (n : ℕ) (ids : Ids)
    → (ids.pid_cached ≡ 0) ⊎ (ids.pid_str ≡ print n)
    → ((pid print n ids).pid_str ≡ print n)
      × ((pid print n ids).tid_str ≡ ids.tid_str)
      × ((pid print n ids).tid_cached ≡ ids.tid_cached)
unfolding pid
pid_known print n ids k = (ground (arith, k), ground arith, ground arith)

pub now-secs : (sec usec : ℕ) → usec < us_per_sec → secs_since_e (now sec usec) ≡ sec
now-secs sec usec small = omega arith

pub now-us : (sec usec : ℕ) → usec < us_per_sec → us (now sec usec) ≡ usec
now-us sec usec small = omega arith

pub begun-known :
    (v : Setting) (time : Timestamp) (l : Locals)
    → 0 < secs_since_e time
    → IsKept v l
    → IsKept v (begun v time l)
      × ((begun v time l).time_str ≡ print_tm v.platform (broken_down v (secs_since_e time)))
      × ((begun v time l).ids.pid_str ≡ v.platform.print_id v.getpid)
      × ((begun v time l).ids.tid_str ≡ v.platform.print_id v.gettid)
begun-known v time l after k =
    let l' = keep_second v (secs_since_e time) l in
    let print = v.platform.print_id in
    let (last, shown, same) = keep_second-known v (secs_since_e time) l after k in
    let (pid_shown, tid_same, cached_same) =
      pid_known print v.getpid l'.ids (rw same k.pid_known) in
    let (tid_shown, pid_same) =
      tid_known print v.gettid (pid print v.getpid l'.ids)
        (rw (tid_same, cached_same, same) k.tid_known) in
    (
      record {
        second = inr (shown ∙ ap (λ n. print_tm v.platform (broken_down v n)) (sym last));
        tid_known = inr tid_shown;
        pid_known = inr (pid_same ∙ pid_shown);
      },
      shown,
      pid_same ∙ pid_shown,
      tid_shown,
    )
