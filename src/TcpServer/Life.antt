-- ===== src/TcpServer/Life.antt =====
-- The life of the connections of a server, in every order of what may happen.
use chtho.Prelude.{
  update_same, ℕ, ◌+◌, ◌<◌, ◌≡◌, refl, ap, subst, ◌∙◌, true, List, [], Option, some, Result, ok,
  ◌==◌, arith, Bool-cases, inl, inr, Option-cases,
}
use chtho.EventLoopThreadPool.{Pool}
use chtho.EventLoopThreadPool.Ready.{IsReady}
use chtho.TcpConnection.{Conn, State, is_connected}
use chtho.TcpServer.{
  Func, conn_of, establish, remove, destroy, Peer, Server, set_conn, take_first, run_func,
  run_first, Event, accepted, worked, closed, ran, apply, make,
}
use chtho.TcpServer.Lists.{waiting, Split, take_first-Split, Split-own, Split-none}
use chtho.TcpServer.Stages.{
  limit, is_up, IsDown, unborn, arriving, serving, leaving, removed, destroyed, conn_name, found,
  StageOf, IsSound,
}
use chtho.TcpServer.Moves.{
  Has, Moves, Split-Others, set_conn-Others, rm_conn_in_loop-Moves, close-Moves, destroy_conn-Moves,
}
use chtho.TcpServer.Arrivals.{establish_conn-Moves, new_conn-Moves}

-- When an event may happen: numbers are left, and what a connection does of its own, or the end of
-- its stream, are events of a connection that is up.
abbrev pub Allowed : Server → Event → Type 0
Allowed s accepted = s.nxt_conn_id + 1 < limit
Allowed s (worked b c) =
    (p : Peer) × (s.peers b ≡ some p) × (is_up p.conn ≡ true) × (is_up c ≡ true)
Allowed s (closed b) = (p : Peer) × (s.peers b ≡ some p) × (is_up p.conn ≡ true)
Allowed s (ran l) = Unit {0}

module _ (suffix : ℕ → List ℕ)
    (distinct : (a b : ℕ) → a < limit → b < limit → suffix a ≡ suffix b → a ≡ b)
    (conn_cb : Conn → Result Conn)
    (keeps_up : (c : Conn)
      → is_connected c.state ≡ true
      → (c' : Conn) × (conn_cb c ≡ ok c') × (is_up c' ≡ true)) where
  assemble :
      (s : Server) (b : ℕ) (r : Result Server)
      → IsSound suffix s
      → Moves suffix distinct s b r
      → (s' : Server) × (r ≡ ok s') × IsSound suffix s'
  assemble s b r v (s', e, ready, in_int, own, others) = (
    s',
    e,
    record {
      pool_ready = ready;
      in_int = in_int;
      staged = λ a. elim (Bool-cases (b == a)) [
        | inl same ↦ subst (StageOf suffix s') (ground arith) own
        | inr other ↦ others a other (v.staged a)
      ];
    },
  )

  -- The functions that run: the stage of their connection is the one that queued them.
  ran-Moves :
      (s : Server) (l : ℕ) (f : Func) (rest : List (ℕ × Func))
      → IsSound suffix s
      → Split l f s.tasks rest
      → StageOf suffix s (conn_of f)
      → Moves suffix distinct
          (record s { tasks = rest })
          (conn_of f)
          (run_func suffix conn_cb (record s { tasks = rest }) f)
  unfolding run_func
  ran-Moves s l f rest v t (unborn _ _ w _) = absurd (Split-none l f s.tasks rest t w)
  ran-Moves s l f rest v t (serving _ _ _ _ _ w _) = absurd (Split-none l f s.tasks rest t w)
  ran-Moves s l f rest v t (destroyed _ _ _ _ _ _ w _) = absurd (Split-none l f s.tasks rest t w)
  ran-Moves s l (establish b) rest v t (arriving p born here named c w m) =
      establish_conn-Moves suffix distinct conn_cb keeps_up (record s { tasks = rest }) b p
        v.pool_ready v.in_int (born, here, named) c (Split-own l (establish b) s.tasks rest _ t w).1
        m
  ran-Moves s l (remove b) rest v t (leaving p born here named d w m) =
      rm_conn_in_loop-Moves suffix distinct (record s { tasks = rest }) b p v.pool_ready v.in_int
        (born, here, named) d (Split-own l (remove b) s.tasks rest _ t w).1 m
  ran-Moves s l (destroy b) rest v t (removed p born here named d w m) =
      destroy_conn-Moves suffix distinct (record s { tasks = rest }) b p v.pool_ready v.in_int
        (born, here, named) d (Split-own l (destroy b) s.tasks rest _ t w).1 m
  ran-Moves s l (remove b) rest v t (arriving p born here named d w m) =
      let e = (Split-own l (remove b) s.tasks rest _ t w).0 in cc
  ran-Moves s l (destroy b) rest v t (arriving p born here named d w m) =
      let e = (Split-own l (destroy b) s.tasks rest _ t w).0 in cc
  ran-Moves s l (establish b) rest v t (leaving p born here named d w m) =
      let e = (Split-own l (establish b) s.tasks rest _ t w).0 in cc
  ran-Moves s l (destroy b) rest v t (leaving p born here named d w m) =
      let e = (Split-own l (destroy b) s.tasks rest _ t w).0 in cc
  ran-Moves s l (establish b) rest v t (removed p born here named d w m) =
      let e = (Split-own l (establish b) s.tasks rest _ t w).0 in cc
  ran-Moves s l (remove b) rest v t (removed p born here named d w m) =
      let e = (Split-own l (remove b) s.tasks rest _ t w).0 in cc

  same_peer : (o : Option Peer) (q p : Peer) → o ≡ some q → o ≡ some p → q ≡ p
  same_peer o q p e d = cc

  not_down : (c : Conn) → is_up c ≡ true → IsDown c → ⊥
  not_down c up d = ground (arith, up, d.0)

  not_connecting : (c : Conn) → is_up c ≡ true → c.state ≡ State.connecting → ⊥
  not_connecting c up d = ground (arith, up, d)

  -- A connection that is up is known and in the map, and no function waits for it.
  up_serves :
      (s : Server) (b : ℕ) (p : Peer)
      → StageOf suffix s b
      → s.peers b ≡ some p
      → is_up p.conn ≡ true
      → Has suffix distinct s b p × (waiting b s.tasks ≡ []) × (found suffix s b ≡ some b)
  up_serves s b p (unborn _ here _ _) e up = cc
  up_serves s b p (arriving q _ here _ c _ _) e up = absurd (
      not_connecting p.conn up
        (subst (λ x. x.conn.state ≡ State.connecting) (same_peer (s.peers b) q p here e) c))
  up_serves s b p (serving q born here named _ w m) e up = (
    (born, e, subst (λ x. x.name ≡ conn_name suffix s b) (same_peer (s.peers b) q p here e) named),
    w,
    m,
  )
  up_serves s b p (leaving q _ here _ d _ _) e up =
      absurd (not_down p.conn up (subst (λ x. IsDown x.conn) (same_peer (s.peers b) q p here e) d))
  up_serves s b p (removed q _ here _ d _ _) e up =
      absurd (not_down p.conn up (subst (λ x. IsDown x.conn) (same_peer (s.peers b) q p here e) d))
  up_serves s b p (destroyed q _ here _ d _ _ _) e up =
      absurd (not_down p.conn up (subst (λ x. IsDown x.conn) (same_peer (s.peers b) q p here e) d))

  none_waits_next :
      (s : Server) → StageOf suffix s s.nxt_conn_id → waiting s.nxt_conn_id s.tasks ≡ []
  none_waits_next s (unborn _ _ w _) = w
  none_waits_next s (arriving _ born _ _ _ _ _) = absurd (ground (arith, born))
  none_waits_next s (serving _ born _ _ _ _ _) = absurd (ground (arith, born))
  none_waits_next s (leaving _ born _ _ _ _ _) = absurd (ground (arith, born))
  none_waits_next s (removed _ born _ _ _ _ _) = absurd (ground (arith, born))
  none_waits_next s (destroyed _ born _ _ _ _ _ _) = absurd (ground (arith, born))

  apply-IsSound :
      (s : Server) (e : Event)
      → IsSound suffix s
      → Allowed s e
      → (s' : Server) × (apply suffix conn_cb s e ≡ ok s') × IsSound suffix s'
  unfolding apply
  apply-IsSound s accepted v in_int = assemble s s.nxt_conn_id _ v (
      new_conn-Moves suffix distinct conn_cb keeps_up s v.pool_ready in_int
        (none_waits_next s (v.staged s.nxt_conn_id)))
  apply-IsSound s (worked b c) v (p, here, up, up') =
      let ((born, _, named), w, m) = up_serves s b p (v.staged b) here up in
      let p' = record p { conn = c } in
      assemble s b _ v (
        set_conn s b p c,
        ground (arith, here),
        v.pool_ready,
        v.in_int,
        serving p' born (update_same s.peers b (some p')) named up' w m,
        set_conn-Others suffix distinct s b p c,
      )
  apply-IsSound s (closed b) v (p, here, up) =
      let (has, w, m) = up_serves s b p (v.staged b) here up in
      assemble s b _ v (close-Moves suffix distinct s b p v.pool_ready v.in_int has up w m)
  apply-IsSound s (ran l) v u = elim (Option-cases (take_first l s.tasks)) [
    | inl idle ↦ (s, ap (run_first suffix conn_cb s) idle, v)
    | inr ((f, rest), e) ↦
        let t = take_first-Split l s.tasks f rest e in
        let m = ran-Moves s l f rest v t (v.staged (conn_of f)) in
        assemble s (conn_of f) _ v (
          m.0,
          ap (run_first suffix conn_cb s) e ∙ m.1,
          m.2,
          m.3,
          m.4,
          λ a h stage. m.5 a h (Split-Others suffix distinct s l f rest t a h stage),
        )
  ]

  -- What happens to a server, one event after the other.
  pub data Runs (s₀ : Server) : Server → Type 0 where
    here : Runs s₀ s₀
    next :
        (s s' : Server) (e : Event)
        → Runs s₀ s
        → Allowed s e
        → apply suffix conn_cb s e ≡ ok s'
        → Runs s₀ s'

  make-IsSound : (name : List ℕ) (pool : Pool) → IsReady pool → IsSound suffix (make name pool)
  unfolding waiting
  make-IsSound name pool ready = record {
    pool_ready = ready;
    in_int = omega arith;
    staged = λ a. unborn (λ e. ground arith) refl refl (ground arith);
  }

  Runs-IsSound-all : (s₀ s : Server) → IsSound suffix s₀ → Runs s₀ s → IsSound suffix s
  Runs-IsSound-all s₀ _ v here = v
  Runs-IsSound-all s₀ _ v (next s s' e r allowed d) =
      let (t, d', w) = apply-IsSound s e (Runs-IsSound-all s₀ s v r) allowed in
      subst (IsSound suffix) (ground (arith, d, d')) w

  -- If different numbers of an int make different names, and the user's callback leaves a new
  -- connection up: from a server whose pool was started, and in every order of accepting, working,
  -- closing and running the functions that wait, each connection is in a stage of its life, the map
  -- has it under its name until `rmConnInLoop` has run, there waits for it only the function that
  -- moves it on, and whatever may happen next succeeds: no assertion fails.
  pub Runs-IsSound :
      (name : List ℕ) (pool : Pool) (s : Server)
      → IsReady pool
      → Runs (make name pool) s
      → IsSound suffix s
        × ((e : Event) → Allowed s e → (s' : Server) × (apply suffix conn_cb s e ≡ ok s'))
  Runs-IsSound name pool s ready r =
      let v = Runs-IsSound-all (make name pool) s (make-IsSound name pool ready) r in
      (v, λ e allowed. let m = apply-IsSound s e v allowed in (m.0, m.1))
