-- ===== src/TcpClient/Tests.antt =====
-- A client whose connection ends, and that connects again.
use chtho.Prelude.{some, Fault, true}
use chtho.TcpConnection.{Conn, State, start}
use chtho.TcpClient.{Client, make}

abbrev up : Conn
up = record start { state = State.connected }

abbrev retrying : Client
retrying = record (make (some Fault.fatal)) { retry = true; nxt_conn_id = 2; conn = some (1, up) }
