-- ===== src/Acceptor.antt =====
-- chtho/net/Acceptor.cpp, with Socket::accept of chtho/net/Socket.cpp: what becomes of the
-- descriptors that accept(2) and open(2) return.
pub mod Balance
mod Tests
use chtho.Prelude.{
  ℕ, ◌+◌, Bool, true, false, ◌||◌, List, [], ◌∷◌, ◌++◌, Option, none, some, Result, ok, fail, Fault,
  ◌>>=◌, ◌==◌, if◌then◌else◌,
}
use chtho.Channel.{Channel, fresh, enable_read}

-- `idle_fd` is none for -1. `handed` are the descriptors given to `newConnCB_`, `closed` those given to
-- close(2).
pub record Acceptor : Type 0 where
  pub channel : Channel
  pub has_new_conn : Bool
  pub listening : Bool
  pub idle_fd : Option ℕ
  pub handed : List ℕ
  pub closed : List ℕ

-- The constructor, with the descriptor of "/dev/null", which is asserted to be there.
abbrev pub make : ℕ → Acceptor
make fd = record {
  channel = fresh;
  has_new_conn = false;
  listening = false;
  idle_fd = some fd;
  handed = [];
  closed = [];
}

abbrev pub set_new_conn : Acceptor → Acceptor
set_new_conn a = record a { has_new_conn = true }

listen : Acceptor → Acceptor
listen a = record a { listening = true; channel = enable_read a.channel }

-- The answers of the kernel: accept4(2) returns a descriptor, or sets errno; in that case, what a
-- second accept(2) and open(2) would return.
pub data Answer : Type 0 where
  took : ℕ → Answer
  refused : ℕ → Option ℕ → Option ℕ → Answer

abbrev pub emfile : ℕ
emfile = 24

-- `EAGAIN`, `ECONNABORTED`, `EINTR`, `EPROTO`, `EPERM` and `EMFILE`; `Socket::accept` ends the program
-- with any other.
abbrev pub is_expected : ℕ → Bool
is_expected e = e == 11 || e == 103 || e == 4 || e == 71 || e == 1 || e == emfile

-- The descriptor that close(2) is given, where it is one.
abbrev pub fds : Option ℕ → List ℕ
fds none = []
fds (some fd) = fd ∷ []

-- All descriptors are in use: the idle one makes room to accept and close the connection.
pub drop_one : Acceptor → Option ℕ → Option ℕ → Acceptor
drop_one a second reopened = record a {
  closed = a.closed ++ (fds a.idle_fd ++ fds second);
  idle_fd = reopened;
}

pub handle_read : Acceptor → Answer → Result Acceptor
unfolding drop_one
handle_read a (took fd) =
    if a.has_new_conn
    then ok (record a { handed = a.handed ++ fd ∷ [] })
    else ok (record a { closed = a.closed ++ fd ∷ [] })
handle_read a (refused e second reopened) =
    if is_expected e
    then (if e == emfile then ok (drop_one a second reopened) else ok a)
    else fail Fault.fatal

-- One event of the channel after the other.
pub handle_reads : Acceptor → List Answer → Result Acceptor
handle_reads a [] = ok a
handle_reads a (r ∷ rs) = handle_read a r >>= λ a'. handle_reads a' rs
