-- ===== src/TcpServer/Stages.antt =====
-- The stages of a connection of a server, from what the server keeps of it.
use chtho.Prelude.{
  ℕ, ◌^◌, ◌≤◌, ◌≡◌, Bool, true, false, ◌||◌, List, [], ◌∷◌, ◌++◌, Option, none, some, if◌then◌else◌,
  ltb,
}
use chtho.Channel.{is_none_event}
use chtho.EventLoopThreadPool.Ready.{IsReady}
use chtho.TcpConnection.{Conn, State, is_connected, is_disconnecting, is_disconnected}
use chtho.TcpServer.{Func, establish, remove, destroy, Peer, Server}
use chtho.TcpServer.Lists.{waiting}

-- The numbers that an `int` can have.
abbrev pub limit : ℕ
limit = 2 ^ 31

abbrev pub is_up : Conn → Bool
is_up c = is_connected c.state || is_disconnecting c.state

abbrev pub IsDown : Conn → Type 0
IsDown c = (is_disconnected c.state ≡ true) × (is_none_event c.channel ≡ true)

-- A number that is not given out, as 0 is not; a connection whose `connEstablished` waits; one
-- that is up; one whose `rmConnInLoop` waits; one whose `connDestroyed` waits; one that is
-- destroyed. `ts` are the functions that wait for it, and `found` what its name finds in the map.
pub data Stage (name : List ℕ) (base a : ℕ) (born : Bool) (peer : Option Peer)
    (ts : List (ℕ × Func)) (found : Option ℕ) : Type 0 where
  unborn :
      (born ≡ true → a ≡ 0)
      → peer ≡ none
      → ts ≡ []
      → found ≡ none
      → Stage name base a born peer ts found
  arriving :
      (p : Peer)
      → born ≡ true
      → peer ≡ some p
      → p.name ≡ name
      → p.conn.state ≡ State.connecting
      → ts ≡ (p.loop, establish a) ∷ []
      → found ≡ some a
      → Stage name base a born peer ts found
  serving :
      (p : Peer)
      → born ≡ true
      → peer ≡ some p
      → p.name ≡ name
      → is_up p.conn ≡ true
      → ts ≡ []
      → found ≡ some a
      → Stage name base a born peer ts found
  leaving :
      (p : Peer)
      → born ≡ true
      → peer ≡ some p
      → p.name ≡ name
      → IsDown p.conn
      → ts ≡ (base, remove a) ∷ []
      → found ≡ some a
      → Stage name base a born peer ts found
  removed :
      (p : Peer)
      → born ≡ true
      → peer ≡ some p
      → p.name ≡ name
      → IsDown p.conn
      → ts ≡ (p.loop, destroy a) ∷ []
      → found ≡ none
      → Stage name base a born peer ts found
  destroyed :
      (p : Peer)
      → born ≡ true
      → peer ≡ some p
      → p.name ≡ name
      → IsDown p.conn
      → p.conn.channel.added ≡ false
      → ts ≡ []
      → found ≡ none
      → Stage name base a born peer ts found

module _ (suffix : ℕ → List ℕ) where
  abbrev pub conn_name : Server → ℕ → List ℕ
  conn_name s a = s.name ++ suffix a

  -- What the name finds of a number that an `int` can have.
  abbrev pub found : Server → ℕ → Option ℕ
  found s a = if ltb a limit then s.conns (conn_name s a) else none

  abbrev pub StageOf : Server → ℕ → Type 0
  StageOf s a =
      Stage (conn_name s a) s.pool.base a (ltb a s.nxt_conn_id) (s.peers a) (waiting a s.tasks)
        (found s a)

  -- The server was started, and each number is in a stage.
  pub record IsSound (s : Server) : Type 0 where
    pub pool_ready : IsReady s.pool
    pub in_int : s.nxt_conn_id ≤ limit
    pub staged : (a : ℕ) → StageOf s a
