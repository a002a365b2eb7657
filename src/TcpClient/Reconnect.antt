-- ===== src/TcpClient/Reconnect.antt =====
-- A connection that ends is followed by another.
use chtho.Prelude.{ℕ, ◌+◌, Bool, ◌||◌, [], ◌∷◌, ◌++◌, none, some}
use chtho.Channel.{disable_all}
use chtho.Connector.Attempt.{attempting, handing}
use chtho.TcpConnection.{Conn, State, is_connected, is_disconnecting}
use chtho.TcpClient.{Client}

abbrev pub is_up : Conn → Bool
is_up c = is_connected c.state || is_disconnecting c.state

-- The connection after `handleClose`.
abbrev pub down : Conn → Conn
down c = record c { state = State.disconnected; channel = disable_all c.channel }

-- The client when the attempt after the end of its connection is under way.
abbrev pub waiting : Client → Conn → ℕ → Client
waiting c conn sockfd = record c {
  conn = none;
  leaving = c.leaving ++ down conn ∷ [];
  connector = attempting c.connector sockfd;
}

-- The client when the next connection is established.
abbrev pub served : Client → Conn → ℕ → Conn → Client
served c conn sockfd next = record c {
  conn = some (c.nxt_conn_id, next);
  nxt_conn_id = c.nxt_conn_id + 1;
  leaving = c.leaving ++ down conn ∷ [];
  connector = handing (attempting c.connector sockfd) sockfd;
}
