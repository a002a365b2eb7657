-- ===== src/TcpClient.antt =====
-- chtho/net/TcpClient.cpp: the one connection of a client, which its connector makes, and the
-- attempt that follows when it ends. All of it is in the thread of the loop.
pub mod Reconnect
mod Tests
use chtho.Prelude.{
  ℕ, ◌+◌, Bool, true, false, ◌&&◌, List, [], ◌∷◌, ◌++◌, Option, none, some, Result, ok, fail, Fault,
  ◌>>=◌, ◌>>◌, guard, ltb, ◌==◌, if◌then◌else◌, length,
}
use chtho.Connector.{Connector, init, start, stop, restart, handle_write}
use chtho.TcpConnection.{Conn, Callbacks, conn_established, handle_close, conn_destroyed, shutdown}
use chtho.TcpConnection

-- `conn` is the present connection with its number, which stands for its pointer; `leaving` are those
-- whose `connDestroyed` waits in the loop.
pub record Client : Type 0 where
  pub connector : Connector
  pub retry : Bool
  pub connect : Bool
  pub nxt_conn_id : ℕ
  pub conn : Option (ℕ × Conn)
  pub leaving : List Conn

-- The constructor, by what its connector's loop does with a channel that it no longer has.
abbrev pub make : Option Fault → Client
make again = record {
  connector = init again;
  retry = false;
  connect = true;
  nxt_conn_id = 1;
  conn = none;
  leaving = [];
}

-- `connect`, with the descriptor of socket(2) and the error of connect(2).
pub connect_to : Client → ℕ → ℕ → Result Client
connect_to c sockfd errno = do
  connector ← start (record c { connect = true }).connector sockfd errno
  ok (record c { connect = true; connector = connector })

disconnect : Client → Client
disconnect c = record c {
  connect = false;
  conn = elim c.conn [ none ↦ none | some (a, conn) ↦ some (a, shutdown conn true) ];
}

stop_client : Client → Client
stop_client c = record c { connect = false; connector = stop c.connector }

-- `rmConn` of the connection `a`; the descriptor and the error are those of the attempt that follows.
pub rm_conn : Client → ℕ → Conn → ℕ → ℕ → Result Client
rm_conn c a conn sockfd errno = do
  guard (elim c.conn [ none ↦ false | some (b, _) ↦ a == b ])
  let c₁ = record c { conn = none; leaving = c.leaving ++ conn ∷ [] }
  if c.retry && c.connect
      then (do
        connector ← restart c.connector sockfd errno
        ok (record c₁ { connector = connector }))
      else ok c₁

abbrev pub no_callbacks : Callbacks
no_callbacks = record { msg_cb = ok; close_cb = ok; conn_cb = ok }

-- The close of the present connection: `handleClose`, the callback of which is `rmConn`.
pub close : Client → ℕ → ℕ → Result Client
close c sockfd errno = elim c.conn [
  | none ↦ fail Fault.null_pointer
  | some (a, conn) ↦ handle_close no_callbacks conn >>= λ conn'.
      rm_conn (record c { conn = some (a, conn') }) a conn' sockfd errno
]

-- `connDestroyed` of the connection that waits first.
destroy_first : Client → Result Client
destroy_first c = elim c.leaving [
  | [] ↦ ok c
  | conn ∷ rest ↦ conn_destroyed conn >>= λ conn'. ok (record c { leaving = rest })
]

-- The callback of the user for a new connection.
module _ (conn_cb : Conn → Result Conn) where
  -- `newConn`: the connection is stored before it is established.
  pub new_conn : Client → Result Client
  new_conn c = do
    let a = c.nxt_conn_id
    let c₁ = record c { nxt_conn_id = a + 1; conn = some (a, TcpConnection.start) }
    conn ←
        conn_established (record { msg_cb = ok; close_cb = ok; conn_cb = conn_cb })
          TcpConnection.start
    ok (record c₁ { conn = some (a, conn) })

  -- The connector's socket becomes writable; where it is handed over, `newConn` has it.
  pub socket_writable : Client → ℕ → Bool → Result Client
  socket_writable c err self = do
    connector ← handle_write c.connector err self
    let c₁ = record c { connector = connector }
    if ltb (length c.connector.handed) (length connector.handed) then new_conn c₁ else ok c₁
