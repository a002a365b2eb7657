-- ===== src/TcpConnection/Tests.antt =====
-- The theorems on a connection at one that was just established.
use chtho.Prelude.{
  ◌≡◌, refl, sym, ap, ltb, true, false, List, [], ◌∷◌, ◌++◌, ok, length, arith, inl, inr,
}
use chtho.Buffer.{make, k_init, max_size, contents}
use chtho.Buffer.ReadFd.{got, iov_capacity}
use chtho.TcpConnection.Dispatch.Sequence.{on_events-Safe}
use chtho.TcpConnection.Dispatch.{Open, Down, Safe, Leaves, Fits, IsEnd, on_events}
use chtho.Buffer.Contents.{make-IsValid}
use chtho.Channel.{fresh, enable_read, is_none_event}
use chtho.TcpConnection.{
  State, Conn, start, room, Callbacks, is_disconnected, conn_destroyed, force_close,
  force_close_now, handle_close, force_close_in_loop,
}
use chtho.TcpConnection.Stream.{IsValid, stream}
use chtho.TcpConnection.Run.{Turn, sends, writable, shuts, run, accepted, run-stream}
use chtho.TcpConnection.Close.{
  Reaches, here, step, forced, forced_now, event, conn_destroyed-reached,
}

abbrev pub established : Conn
established = record start { state = State.connected; channel = enable_read fresh }

none_yet : contents (make k_init) ≡ []
none_yet = (make-IsValid k_init (omega arith)).1

pub established-IsValid : IsValid established 8
unfolding make
established-IsValid = record {
  output_ok = (make-IsValid k_init (omega arith)).0;
  bounded = omega arith;
  waits = sym (ap (λ xs. ltb 0 (length xs)) none_yet);
  flushed = λ h. cc;
}

-- A message of which write(2) takes two bytes, a shutdown, and a turn that takes the rest.
abbrev turns : List Turn
turns = sends (1 ∷ 2 ∷ 3 ∷ []) (room 2) ∷ shuts ∷ sends (4 ∷ []) (room 9) ∷ writable (room 5) ∷ []

run-stream_example :
    (c' : Conn) × (run established turns ≡ ok c')
    × (stream c' ≡ stream established ++ accepted turns)
    × (c'.shut ≡ true → c'.wire ≡ stream established ++ accepted turns)
run-stream_example =
    run-stream turns established 8 established-IsValid (omega arith) refl refl refl (omega arith)

abbrev callbacks : Callbacks
callbacks = record { msg_cb = ok; close_cb = ok; conn_cb = ok }

abbrev down : Conn
down = record established {
  state = State.disconnected;
  channel = record { reading = false; writing = false; added = true; tied = false };
  queue = force_close_in_loop ∷ [];
}

-- The user closes by force, and the loop runs the queued function.
reached : Reaches callbacks established down
unfolding event force_close force_close_now handle_close
reached = step established _ down forced refl (step _ down down forced_now refl (here down))

conn_destroyed-reached_example :
    (d : Conn) × (conn_destroyed down ≡ ok d)
    × (is_disconnected d.state ≡ true)
    × (d.channel.added ≡ false)
    × (is_none_event d.channel ≡ true)
conn_destroyed-reached_example =
    conn_destroyed-reached callbacks established down (λ c c' q e d. ground (arith, q, d, e))
      (λ c c' q e d. ground (arith, q, d, e)) (λ d. cc) reached (inr refl)

established-Open : Open established
established-Open = (refl, raised established-IsValid, (make-IsValid k_init (omega arith)).0)
  where
    raised : IsValid established 8 → IsValid established max_size
    raised v = record {
      output_ok = v.output_ok;
      bounded = omega (arith, v.bounded);
      waits = v.waits;
      flushed = v.flushed;
    }

byte-Fits : Fits established (got (72 ∷ []))
unfolding make iov_capacity
byte-Fits = (omega arith, omega arith)

on_events-Safe_example :
    Leaves
      (λ c'. Safe c' × (IsEnd true 1 (got (72 ∷ [])) → Down c'))
      (on_events callbacks true (got (72 ∷ [])) (room 0) 1 established)
on_events-Safe_example =
    on_events-Safe callbacks established true (got (72 ∷ [])) (room 0) 1 (λ c d. (c, refl, d))
      (λ c o. (c, refl, inl o)) established-Open byte-Fits (λ h. cc)
