-- ===== src/TcpServer/Arrivals.antt =====
-- What accepting and establishing a connection does to the stages.
use chtho.Prelude.{
  update_same, update_other, ℕ, ◌+◌, ◌≤◌, ◌<◌, ◌≡◌, refl, sym, true, List, [], some, Result, ok,
  ◌==◌, arith, update, Bool-cases, inl, inr,
}
use chtho.EventLoopThreadPool.Ready.{IsReady, get_next_loop-IsReady}
use chtho.Channel.{enable_read}
use chtho.TcpConnection.{Conn, State, is_connected, conn_established}
use chtho.TcpConnection
use chtho.TcpServer.{
  establish, Peer, Server, put, set_conn, queue_in_loop, establish_conn, new_conn,
}
use chtho.TcpServer.Lists.{waiting, waiting_push_own}
use chtho.TcpServer.Stages.{limit, is_up, arriving, serving, conn_name, found}
use chtho.TcpServer.Moves.{
  carry, found-put, found-put_own, Has, Moves, Others, set_conn-Others, queue_in_loop-Others,
}

module _ (suffix : ℕ → List ℕ)
    (distinct : (a b : ℕ) → a < limit → b < limit → suffix a ≡ suffix b → a ≡ b)
    (conn_cb : Conn → Result Conn)
    (keeps_up : (c : Conn)
      → is_connected c.state ≡ true
      → (c' : Conn) × (conn_cb c ≡ ok c') × (is_up c' ≡ true)) where
  -- `connEstablished`, which the user's callback leaves up.
  pub establish_conn-Moves :
      (s : Server) (b : ℕ) (p : Peer)
      → IsReady s.pool
      → s.nxt_conn_id ≤ limit
      → Has suffix distinct s b p
      → p.conn.state ≡ State.connecting
      → waiting b s.tasks ≡ []
      → found suffix s b ≡ some b
      → Moves suffix distinct s b (establish_conn suffix conn_cb s b)
  unfolding establish_conn conn_established
  establish_conn-Moves s b p ready in_int (born, here, named) connecting none_waits in_map =
      let c = record p.conn {
        state = State.connected;
        channel = enable_read (record p.conn.channel { tied = true });
      } in
      let (c', d, up) = keeps_up c refl in
      let p' = record p { conn = c' } in
      (
        set_conn s b p c',
        ground (arith, here, connecting, d),
        ready,
        in_int,
        serving p' born (update_same s.peers b (some p')) named up none_waits in_map,
        set_conn-Others suffix distinct s b p c',
      )

  -- A new connection, in a thread of the pool or in the main loop.
  pub new_conn-Moves :
      (s : Server)
      → IsReady s.pool
      → s.nxt_conn_id + 1 < limit
      → waiting s.nxt_conn_id s.tasks ≡ []
      → Moves suffix distinct s s.nxt_conn_id (new_conn suffix conn_cb s)
  unfolding new_conn
  new_conn-Moves s ready in_int none_waits =
      let b = s.nxt_conn_id in
      let (io, pool, g, ready', same_base) = get_next_loop-IsReady s.pool ready in
      let p : Peer = record {
        name = conn_name suffix s b;
        loop = io;
        conn = TcpConnection.start;
      } in
      let s₁ = record s {
        pool = pool;
        nxt_conn_id = b + 1;
        conns = put s.conns (conn_name suffix s b) (some b);
        peers = update s.peers b (some p);
      } in
      let others : Others suffix distinct s s₁ b = λ a h stage.
        carry (sym same_base) (ground arith) (sym (update_other s.peers b (some p) a h)) refl
          (sym (found-put suffix distinct s a b (some b) (omega arith) h)) stage in
      let has : Has suffix distinct s₁ b p = (ground arith, update_same s.peers b (some p), refl) in
      let in_map : found suffix s₁ b ≡ some b =
        found-put_own suffix distinct s b (some b) (omega arith) in
      elim (Bool-cases (io == s.pool.base)) [
        | inl main ↦
            let m = establish_conn-Moves s₁ b p ready' (omega arith) has refl none_waits in_map in
            (
              m.0,
              ground (arith, g, main, m.1),
              m.2,
              m.3,
              m.4,
              λ a h stage. m.5 a h (others a h stage),
            )
        | inr other ↦ (
          queue_in_loop s₁ io (establish b),
          ground (arith, g, other),
          ready',
          omega arith,
          arriving p has.0 has.1 refl refl (waiting_push_own io (establish b) s.tasks none_waits)
              in_map,
          λ a h stage.
              queue_in_loop-Others suffix distinct s₁ io (establish b) a h (others a h stage),
        )
      ]
