-- ===== src/TcpServer.antt =====
-- chtho/net/TcpServer.cpp: the connections of a server by name, and the functions by which the main
-- loop and the loops of the connections make and end them. A connection is known by its number,
-- which stands for its pointer; the text that snprintf(3) makes of the number is a parameter.
pub mod Stages
pub mod Lists
pub mod Moves
pub mod Arrivals
pub mod Life
pub mod Tests
use chtho.Prelude.{
  ℕ, zero, suc, ◌+◌, Bool, true, false, List, [], ◌∷◌, ◌++◌, Option, none, some, Result, ok, fail,
  Fault, ◌>>=◌, ◌>>◌, guard, if◌then◌else◌, ◌==◌, update,
}
use chtho.EventLoopThreadPool.{Pool, get_next_loop}
use chtho.TcpConnection.{Conn, Callbacks, handle_close, conn_established, conn_destroyed}
use chtho.TcpConnection
use chtho.Http.{same}

-- The functions that wait in a loop: `connEstablished`, `rmConnInLoop` and `connDestroyed` of a
-- connection.
pub data Func : Type 0 where
  establish remove destroy : ℕ → Func

abbrev pub conn_of : Func → ℕ
conn_of (establish a) = a
conn_of (remove a) = a
conn_of (destroy a) = a

pub record Peer : Type 0 where
  pub name : List ℕ
  pub loop : ℕ
  pub conn : Conn

-- `conns` is the map by name. `tasks` are the functions that wait, each with its loop; those of one
-- loop run in their order.
pub record Server : Type 0 where
  pub name : List ℕ
  pub pool : Pool
  pub nxt_conn_id : ℕ
  pub conns : List ℕ → Option ℕ
  pub peers : ℕ → Option Peer
  pub tasks : List (ℕ × Func)

-- The constructor, and `start` of the pool.
abbrev pub make : List ℕ → Pool → Server
make name pool = record {
  name = name;
  pool = pool;
  nxt_conn_id = 1;
  conns = λ key. none;
  peers = λ a. none;
  tasks = [];
}

abbrev pub queue_in_loop : Server → ℕ → Func → Server
queue_in_loop s loop f = record s { tasks = s.tasks ++ (loop, f) ∷ [] }

abbrev pub deref : Server → ℕ → Result Peer
deref s a = elim (s.peers a) [ none ↦ fail Fault.dangling | some p ↦ ok p ]

abbrev pub set_conn : Server → ℕ → Peer → Conn → Server
set_conn s a p c = record s { peers = update s.peers a (some (record p { conn = c })) }

-- `conns_[name] = conn`
abbrev pub put : (List ℕ → Option ℕ) → List ℕ → Option ℕ → List ℕ → Option ℕ
put conns name found key = if same key name then found else conns key

-- `conns_.erase(name)`: how many there were, and the rest.
abbrev pub erase : (List ℕ → Option ℕ) → List ℕ → ℕ × (List ℕ → Option ℕ)
erase conns name = (elim (conns name) [ none ↦ 0 | some a ↦ 1 ], put conns name none)

-- `rmConnInLoop`
pub rm_conn_in_loop : Server → ℕ → Result Server
rm_conn_in_loop s a = do
  p ← deref s a
  let (n, conns) = erase s.conns p.name
  guard (n == 1)
  ok (queue_in_loop (record s { conns = conns }) p.loop (destroy a))

-- `rmConn`, in the thread of the connection's loop.
pub rm_conn : Server → ℕ → Result Server
rm_conn s a = do
  p ← deref s a
  if p.loop == s.pool.base then rm_conn_in_loop s a else ok (queue_in_loop s s.pool.base (remove a))

-- `TcpConnection::handleClose`, up to its callback.
abbrev pub no_callbacks : Callbacks
no_callbacks = record { msg_cb = ok; close_cb = ok; conn_cb = ok }

-- The close of a connection in the thread of its loop: `closeCB_` is `rmConn`.
pub close : Server → ℕ → Result Server
close s a = do p ← deref s a; c ← handle_close no_callbacks p.conn; rm_conn (set_conn s a p c) a

-- `connDestroyed` of a connection.
pub destroy_conn : Server → ℕ → Result Server
destroy_conn s a = do p ← deref s a; c ← conn_destroyed p.conn; ok (set_conn s a p c)

-- The first function that waits in a loop, and all others.
pub take_first : ℕ → List (ℕ × Func) → Option (Func × List (ℕ × Func))
take_first loop [] = none
take_first loop ((l, f) ∷ ts) =
    let rest = take_first loop ts in
    if l == loop
    then some (f, ts)
    else elim rest [ none ↦ none | some (g, us) ↦ some (g, (l, f) ∷ us) ]

-- What may happen next: a connection is accepted, a connection does something that leaves it up,
-- it is closed, or a loop runs the function that waits first.
pub data Event : Type 0 where
  accepted : Event
  worked : ℕ → Conn → Event
  closed ran : ℕ → Event

-- The text of a number in a name, with the address, and the callback of the user for connections.
module _ (suffix : ℕ → List ℕ) (conn_cb : Conn → Result Conn) where
  abbrev pub callbacks : Callbacks
  callbacks = record { msg_cb = ok; close_cb = ok; conn_cb = conn_cb }

  -- `connEstablished` of a connection.
  pub establish_conn : Server → ℕ → Result Server
  establish_conn s a = do
    p ← deref s a
    c ← conn_established callbacks p.conn
    ok (set_conn s a p c)

  -- `newConn`, in the main loop.
  pub new_conn : Server → Result Server
  new_conn s = do
    (io, pool) ← get_next_loop s.pool
    let a = s.nxt_conn_id
    let name = s.name ++ suffix a
    let s' = record s {
      pool = pool;
      nxt_conn_id = a + 1;
      conns = put s.conns name (some a);
      peers =
          update s.peers a (some (record { name = name; loop = io; conn = TcpConnection.start }));
    }
    if io == s.pool.base then establish_conn s' a else ok (queue_in_loop s' io (establish a))

  pub run_func : Server → Func → Result Server
  run_func s (establish a) = establish_conn s a
  run_func s (remove a) = rm_conn_in_loop s a
  run_func s (destroy a) = destroy_conn s a

  abbrev pub run_first : Server → Option (Func × List (ℕ × Func)) → Result Server
  run_first s none = ok s
  run_first s (some (f, rest)) = run_func (record s { tasks = rest }) f

  pub apply : Server → Event → Result Server
  apply s accepted = new_conn s
  apply s (worked a c) = deref s a >>= λ p. ok (set_conn s a p c)
  apply s (closed a) = close s a
  apply s (ran loop) = run_first s (take_first loop s.tasks)
