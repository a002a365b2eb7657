-- ===== src/Connector/Attempt.antt =====
-- A new attempt after a connection has ended, and its success.
use chtho.Prelude.{ℕ, ◌≡◌, refl, true, false, [], ◌∷◌, ◌++◌, none, some, ok}
use chtho.Connector.{
  Connector, State, in_loop, removed, init_retry_delay_ms, under_way, restart, start_now,
  connect_to, begin_connecting, handle_write, remove_and_reset_channel, reset_channel,
}

-- The connector that has begun an attempt with a descriptor.
abbrev pub attempting : Connector → ℕ → Connector
attempting k sockfd = record k {
  state = State.connecting;
  retry_delay_ms = init_retry_delay_ms;
  connect = true;
  channel = some (in_loop sockfd);
}

-- The connector that has handed over the descriptor of its channel.
abbrev pub handing : Connector → ℕ → Connector
handing k sockfd = record k {
  state = State.connected;
  channel = some (removed sockfd);
  queue = k.queue ++ reset_channel ∷ [];
  handed = k.handed ++ sockfd ∷ [];
}

pub restart-attempting :
    (k : Connector) (sockfd errno : ℕ)
    → k.channel ≡ none
    → under_way errno ≡ true
    → restart k sockfd errno ≡ ok (attempting k sockfd)
unfolding restart start_now connect_to begin_connecting
restart-attempting k sockfd errno free going = rw (going, free) refl

pub handle_write-handing :
    (k : Connector) (sockfd : ℕ)
    → handle_write (attempting k sockfd) 0 false ≡ ok (handing (attempting k sockfd) sockfd)
unfolding handle_write remove_and_reset_channel
handle_write-handing k sockfd = refl
