-- ===== src/TcpConnection.antt =====
-- chtho/net/TcpConnection.h and TcpConnection.cpp. The functions of the loop thread are translated
-- with the buffers, the channel and the functions that they queue in the loop; what the kernel has
-- taken of the data is `wire`.
pub mod Stream
pub mod Writable
pub mod Send
pub mod Run
pub mod Close
pub mod Dispatch
pub mod Tests
use chtho.Prelude.{
  ℕ, ◌+◌, ◌-◌, ◌*◌, Bool, true, false, not, ◌&&◌, ◌||◌, List, [], ◌∷◌, ◌++◌, Option, none, some,
  Result, ok, fail, Fault, ◌>>=◌, ◌>>◌, guard, ltb, leb, ◌==◌, if◌then◌else◌, length, take, drop,
  min, add_size, sub_size,
}
use chtho.Buffer.{Buffer, make, k_init, readable_bytes, append, retrieve, retrieve_all, contents}
use chtho.Buffer.ReadFd.{Readv, ReadOut, read_fd}
use chtho.Channel.{
  Channel, fresh, enable_read, enable_write, disable_write, disable_all, is_none_event,
}

pub data State : Type 0 where
  disconnected connecting connected disconnecting : State

-- The functions that are queued in the event loop. `send_held` has the address of a buffer, which it
-- reads when it runs.
pub data Functor : Type 0 where
  write_complete shutdown_in_loop force_close_in_loop : Functor
  high_water : ℕ → Functor
  send_in_loop : List ℕ → Functor
  send_held : ℕ → Functor

-- `wire` is what write(2) has taken so far, `shut` whether `shutdownWrite` was called; the callbacks
-- that need not be set have a flag.
pub record Conn : Type 0 where
  pub state : State
  pub channel : Channel
  pub input : Buffer
  pub output : Buffer
  pub has_write_complete : Bool
  pub has_high_water : Bool
  pub high_water_mark : ℕ
  pub wire : List ℕ
  pub shut : Bool
  pub queue : List Functor

-- The constructor.
abbrev pub start : Conn
start = record {
  state = State.connecting;
  channel = fresh;
  input = make k_init;
  output = make k_init;
  has_write_complete = false;
  has_high_water = false;
  high_water_mark = 64 * 1024 * 1024;
  wire = [];
  shut = false;
  queue = [];
}

-- The answer of write(2): it takes as many of the bytes as it has room for, or sets errno.
pub data Write : Type 0 where
  room : ℕ → Write
  error : ℕ → Write

abbrev pub ewouldblock : ℕ
ewouldblock = 11

abbrev pub epipe : ℕ
epipe = 32

abbrev pub econnreset : ℕ
econnreset = 104

abbrev pub is_connected : State → Bool
is_connected State.connected = true
is_connected _ = false

abbrev pub is_disconnecting : State → Bool
is_disconnecting State.disconnecting = true
is_disconnecting _ = false

abbrev pub is_disconnected : State → Bool
is_disconnected State.disconnected = true
is_disconnected _ = false

-- `queueInLoop`, where the condition holds.
abbrev pub queue_if : Bool → Functor → Conn → Conn
queue_if b f c = record c { queue = c.queue ++ (if b then f ∷ [] else []) }

-- Where nothing waits in the output buffer: the connection, `nwritten`, `remaining` and `faulterr`.
pub write_direct : Conn → Write → List ℕ → Conn × ℕ × ℕ × Bool
write_direct c (room k) msg =
    let n = min k (length msg) in
    let remaining = sub_size (length msg) n in
    (
      queue_if (remaining == 0 && c.has_write_complete) write_complete
          (record c { wire = c.wire ++ take n msg }),
      n,
      remaining,
      false,
    )
write_direct c (error e) msg =
    (c, 0, length msg, not (e == ewouldblock) && (e == epipe || e == econnreset))

-- The bytes that were not written wait in the output buffer.
pub keep : Conn → List ℕ → ℕ → ℕ → Result Conn
keep c msg nwritten remaining = do
  let old = readable_bytes c.output
  let full = add_size old remaining
  let c₁ =
      queue_if (leb c.high_water_mark full && ltb old c.high_water_mark && c.has_high_water)
        (high_water full) c
  output ← append c₁.output (take remaining (drop nwritten msg))
  let c₂ = record c₁ { output = output }
  ok (record c₂ { channel = if c₂.channel.writing then c₂.channel else enable_write c₂.channel })

pub send_or_keep : Conn → Write → List ℕ → Result Conn
unfolding write_direct keep
send_or_keep c w msg = do
  let (c₁, nwritten, remaining, fault) =
      if not c.channel.writing && readable_bytes c.output == 0
      then write_direct c w msg
      else (c, 0, length msg, false)
  guard (leb remaining (length msg))
  if not fault && ltb 0 remaining then keep c₁ msg nwritten remaining else ok c₁

-- `sendInLoop`
pub send_now : Conn → Write → List ℕ → Result Conn
unfolding send_or_keep
send_now c w msg = if is_disconnected c.state then ok c else send_or_keep c w msg

-- `shutdownInLoop`
pub shutdown_now : Conn → Conn
shutdown_now c = record c { shut = if c.channel.writing then c.shut else true }

-- The flag tells whether the caller is in the loop thread.
pub send : Conn → Bool → Write → List ℕ → Result Conn
send c in_loop w msg =
    if is_connected c.state
    then (if in_loop then send_now c w msg else ok (queue_if true (send_in_loop msg) c))
    else ok c

-- `send(Buffer*)`, with the buffer and its address.
pub send_buffer : Conn → Bool → Write → ℕ → Buffer → Result (Conn × Buffer)
send_buffer c in_loop w address buf =
    if is_connected c.state
    then (if in_loop
        then (do c' ← send_now c w (contents buf); ok (c', retrieve_all buf))
        else ok (queue_if true (send_held address) c, buf))
    else ok (c, buf)

pub shutdown : Conn → Bool → Conn
unfolding shutdown_now
shutdown c in_loop =
    if is_connected c.state
    then (let c' = record c { state = State.disconnecting } in
        if in_loop then shutdown_now c' else queue_if true shutdown_in_loop c')
    else c

-- Once `n` bytes of the output buffer are written.
pub after_write : Conn → Conn
unfolding shutdown_now
after_write c =
    if readable_bytes c.output == 0
    then (let c₁ =
          queue_if c.has_write_complete write_complete
            (record c { channel = disable_write c.channel }) in
        if is_disconnecting c₁.state then shutdown_now c₁ else c₁)
    else c

pub write_output : Conn → Write → Result Conn
unfolding after_write
write_output c (error e) = ok c
write_output c (room k) = do
  let n = min k (readable_bytes c.output)
  if ltb 0 n
      then (do
        output ← retrieve c.output n
        ok (
            after_write
              (record c { output = output; wire = c.wire ++ take n (contents c.output) })))
      else ok c

pub handle_write : Conn → Write → Result Conn
unfolding write_output
handle_write c w = if c.channel.writing then write_output c w else ok c

-- What the user and the server have set: `msgCB_`, `closeCB_` and `connCB_`.
pub record Callbacks : Type 0 where
  pub msg_cb : Conn → Result Conn
  pub close_cb : Conn → Result Conn
  pub conn_cb : Conn → Result Conn

unfoldable pub handle_close : Callbacks → Conn → Result Conn
handle_close cb c = do
  guard (is_connected c.state || is_disconnecting c.state)
  cb.close_cb (record c { state = State.disconnected; channel = disable_all c.channel })

-- Once `readFd` has returned; `handleError` only logs.
pub after_read : Callbacks → Conn → ReadOut → Result Conn
after_read cb c (input, none, errno) = ok (record c { input = input })
after_read cb c (input, some k, errno) =
    if ltb 0 k
    then cb.msg_cb (record c { input = input })
    else handle_close cb (record c { input = input })

pub handle_read : Callbacks → Conn → Readv → Result Conn
unfolding after_read
handle_read cb c r = read_fd c.input r >>= after_read cb c

pub force_close : Conn → Conn
force_close c =
    if is_connected c.state || is_disconnecting c.state
    then queue_if true force_close_in_loop (record c { state = State.disconnecting })
    else c

-- `forceCloseInLoop`
pub force_close_now : Callbacks → Conn → Result Conn
force_close_now cb c =
    if is_connected c.state || is_disconnecting c.state then handle_close cb c else ok c

unfoldable pub conn_established : Callbacks → Conn → Result Conn
conn_established cb c = do
  guard (elim c.state [ State.connecting ↦ true | _ ↦ false ])
  cb.conn_cb (record c {
    state = State.connected;
    channel = enable_read (record c.channel { tied = true });
  })

-- `channel_->remove()` asserts that the channel has no events.
unfoldable pub conn_destroyed : Conn → Result Conn
conn_destroyed c = do
  let c' =
      if is_connected c.state
      then record c { state = State.disconnected; channel = disable_all c.channel }
      else c
  guard (is_none_event c'.channel)
  ok (record c' { channel = record c'.channel { added = false } })
