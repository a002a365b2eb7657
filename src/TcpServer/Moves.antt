-- ===== src/TcpServer/Moves.antt =====
-- What each operation of a server does to the stage of a connection, and that it leaves the others
-- where they are.
use chtho.Prelude.{
  update_same, update_other, ℕ, ◌≤◌, ◌<◌, ◌≡◌, refl, sym, ap, subst, ◌∙◌, Bool, true, false, List,
  [], Option, none, some, Result, ok, if◌then◌else◌, ltb, ◌==◌, arith, Bool-cases, inl, inr,
}
use chtho.Channel.{disable_all}
use chtho.TcpConnection.{Conn, State, handle_close, conn_destroyed}
use chtho.Http.{same}
use chtho.TcpServer.{
  Func, conn_of, remove, destroy, Peer, Server, put, set_conn, queue_in_loop, rm_conn_in_loop,
  rm_conn, close, destroy_conn,
}
use chtho.TcpServer.Lists.{
  waiting, waiting_push, waiting_push_own, Split, Split-other, same_refl, same→≡,
}
use mathlib.Core.List.{append_cancel_left}
use chtho.EventLoopThreadPool.Ready.{IsReady}
use chtho.TcpServer.Stages.{
  limit, is_up, IsDown, Stage, leaving, removed, destroyed, conn_name, found, StageOf,
}

pub carry :
    {name : List ℕ} {base base' a : ℕ} {born born' : Bool} {peer peer' : Option Peer}
    {ts ts' : List (ℕ × Func)} {found found' : Option ℕ}
    → base ≡ base'
    → born ≡ born'
    → peer ≡ peer'
    → ts ≡ ts'
    → found ≡ found'
    → Stage name base a born peer ts found
    → Stage name base' a born' peer' ts' found'
carry {name} {base} {base'} {a} {born} {born'} {peer} {peer'} {ts} {ts'} {found} {found'} e₁ e₂ e₃
      e₄ e₅ h =
    subst (λ x. Stage name x a born' peer' ts' found') e₁
      (subst (λ x. Stage name base a x peer' ts' found') e₂
        (subst (λ x. Stage name base a born x ts' found') e₃
          (subst (λ x. Stage name base a born peer x found') e₄
            (subst (λ x. Stage name base a born peer ts x) e₅ h))))

module _ (suffix : ℕ → List ℕ)
    (distinct : (a b : ℕ) → a < limit → b < limit → suffix a ≡ suffix b → a ≡ b) where
  -- The names of two numbers are not the same.
  names_differ :
      (s : Server) (a b : ℕ)
      → a < limit
      → b < limit
      → (b == a) ≡ false
      → same (conn_name suffix s a) (conn_name suffix s b) ≡ false
  names_differ s a b in_a in_b h =
      elim (Bool-cases (same (conn_name suffix s a) (conn_name suffix s b))) [
        | inl e ↦ absurd (
            ground (
              arith,
              distinct b a in_b in_a (
                  sym (
                    append_cancel_left s.name (suffix a) (suffix b)
                      (same→≡ (conn_name suffix s a) (conn_name suffix s b) e))),
            ))
        | inr e ↦ e
      ]

  -- The map with another entry for a number: what the others find, and what it finds itself.
  pub found-put :
      (s : Server) (a b : ℕ) (v : Option ℕ)
      → b < limit
      → (b == a) ≡ false
      → found suffix (record s { conns = put s.conns (conn_name suffix s b) v }) a
        ≡ found suffix s a
  found-put s a b v in_b h = elim (Bool-cases (ltb a limit)) [
    | inl in_a ↦ rw (in_a, names_differ s a b (ground arith) in_b h) refl
    | inr out ↦ rw out refl
  ]

  pub found-put_own :
      (s : Server) (b : ℕ) (v : Option ℕ)
      → b < limit
      → found suffix (record s { conns = put s.conns (conn_name suffix s b) v }) b ≡ v
  found-put_own s b v in_b = ground (arith, same_refl (conn_name suffix s b))

  found-conns :
      (s : Server) (b : ℕ) (v : Option ℕ)
      → b < limit
      → found suffix s b ≡ v
      → s.conns (conn_name suffix s b) ≡ v
  found-conns s b v in_b e = ground (arith, e)

  -- The stages of the others.
  abbrev pub Others : Server → Server → ℕ → Type 0
  Others s s' b = (a : ℕ) → (b == a) ≡ false → StageOf suffix s a → StageOf suffix s' a

  pub set_conn-Others : (s : Server) (b : ℕ) (p : Peer) (c : Conn) → Others s (set_conn s b p c) b
  set_conn-Others s b p c a h =
      carry refl refl (sym (update_other s.peers b (some (record p { conn = c })) a h)) refl refl

  pub queue_in_loop-Others :
      (s : Server) (l : ℕ) (f : Func) → Others s (queue_in_loop s l f) (conn_of f)
  queue_in_loop-Others s l f a h = carry refl refl refl (sym (waiting_push a l f s.tasks h)) refl

  put-Others :
      (s : Server) (b : ℕ) (v : Option ℕ)
      → b < limit
      → Others s (record s { conns = put s.conns (conn_name suffix s b) v }) b
  put-Others s b v in_b a h = carry refl refl refl refl (sym (found-put s a b v in_b h))

  pub Split-Others :
      (s : Server) (l : ℕ) (f : Func) (rest : List (ℕ × Func))
      → Split l f s.tasks rest
      → Others s (record s { tasks = rest }) (conn_of f)
  Split-Others s l f rest t a h =
      carry refl refl refl (sym (Split-other a l f s.tasks rest t h)) refl

  -- A number that was given out, and its connection.
  abbrev pub Has : Server → ℕ → Peer → Type 0
  Has s b p = (ltb b s.nxt_conn_id ≡ true) × (s.peers b ≡ some p) × (p.name ≡ conn_name suffix s b)

  -- An operation succeeds, and moves one number alone.
  abbrev pub Moves : Server → ℕ → Result Server → Type 0
  Moves s b r =
      (s' : Server) × (r ≡ ok s')
      × IsReady s'.pool
      × (s'.nxt_conn_id ≤ limit)
      × StageOf suffix s' b
      × Others s s' b

  pub rm_conn_in_loop-Moves :
      (s : Server) (b : ℕ) (p : Peer)
      → IsReady s.pool
      → s.nxt_conn_id ≤ limit
      → Has s b p
      → IsDown p.conn
      → waiting b s.tasks ≡ []
      → found suffix s b ≡ some b
      → Moves s b (rm_conn_in_loop s b)
  unfolding rm_conn_in_loop
  rm_conn_in_loop-Moves s b p ready in_int (born, here, named) down none_waits in_map =
      let in_b : b < limit = ground arith in
      let held : s.conns p.name ≡ some b =
        ap s.conns named ∙ found-conns s b (some b) in_b in_map in
      let s₁ = record s { conns = put s.conns p.name none } in
      (
        queue_in_loop s₁ p.loop (destroy b),
        ground (arith, here, held),
        ready,
        in_int,
        removed p born here named down (waiting_push_own p.loop (destroy b) s.tasks none_waits) (
            subst
              (λ n.
                (if ltb b limit then put s.conns n none (conn_name suffix s b) else none) ≡ none)
              (sym named) (found-put_own s b none in_b)),
        λ a h stage. queue_in_loop-Others s₁ p.loop (destroy b) a h (
            subst (λ n. StageOf suffix (record s { conns = put s.conns n none }) a) (sym named)
              (put-Others s b none in_b a h stage)),
      )

  -- `rmConn` of a connection that is down.
  rm_conn-Moves :
      (s : Server) (b : ℕ) (p : Peer)
      → IsReady s.pool
      → s.nxt_conn_id ≤ limit
      → Has s b p
      → IsDown p.conn
      → waiting b s.tasks ≡ []
      → found suffix s b ≡ some b
      → Moves s b (rm_conn s b)
  unfolding rm_conn
  rm_conn-Moves s b p ready in_int (born, here, named) down none_waits in_map =
      elim (Bool-cases (p.loop == s.pool.base)) [
        | inl main ↦
            let m =
              rm_conn_in_loop-Moves s b p ready in_int (born, here, named) down none_waits in_map in
            (m.0, ground (arith, here, main, m.1), m.2, m.3, m.4, m.5)
        | inr other ↦ (
          queue_in_loop s s.pool.base (remove b),
          ground (arith, here, other),
          ready,
          in_int,
          leaving p born here named down
              (waiting_push_own s.pool.base (remove b) s.tasks none_waits) in_map,
          queue_in_loop-Others s s.pool.base (remove b),
        )
      ]

  -- The close of a connection that is up.
  pub close-Moves :
      (s : Server) (b : ℕ) (p : Peer)
      → IsReady s.pool
      → s.nxt_conn_id ≤ limit
      → Has s b p
      → is_up p.conn ≡ true
      → waiting b s.tasks ≡ []
      → found suffix s b ≡ some b
      → Moves s b (close s b)
  unfolding close handle_close
  close-Moves s b p ready in_int (born, here, named) up none_waits in_map =
      let c = record p.conn { state = State.disconnected; channel = disable_all p.conn.channel } in
      let p' = record p { conn = c } in
      let s₁ = set_conn s b p c in
      let (s', e, ready', in_int', own, others) =
        rm_conn-Moves s₁ b p' ready in_int (born, update_same s.peers b (some p'), named)
          (refl, refl) none_waits in_map in
      (
        s',
        ground (arith, here, up, e),
        ready',
        in_int',
        own,
        λ a h stage. others a h (set_conn-Others s b p c a h stage),
      )

  -- `connDestroyed` of a connection that is down.
  pub destroy_conn-Moves :
      (s : Server) (b : ℕ) (p : Peer)
      → IsReady s.pool
      → s.nxt_conn_id ≤ limit
      → Has s b p
      → IsDown p.conn
      → waiting b s.tasks ≡ []
      → found suffix s b ≡ none
      → Moves s b (destroy_conn s b)
  unfolding destroy_conn conn_destroyed
  destroy_conn-Moves s b p ready in_int (born, here, named) down none_waits out_of_map =
      let c = record p.conn { channel = record p.conn.channel { added = false } } in
      let p' = record p { conn = c } in
      (
        set_conn s b p c,
        ground (arith, here, down.0, down.1),
        ready,
        in_int,
        destroyed p' born (update_same s.peers b (some p')) named down refl none_waits out_of_map,
        set_conn-Others s b p c,
      )
