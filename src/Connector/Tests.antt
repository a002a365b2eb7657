-- ===== src/Connector/Tests.antt =====
-- The theorems on a connector at concrete sockets.
use chtho.Prelude.{◌≡◌, refl, true, false, [], ◌∷◌, ◌++◌, ◌⊎◌, ◌||◌, some, ok, Fault, ltb}
use chtho.Connector.{State, Connector, in_loop, handle_write}
use chtho.Connector.Backoff.{
  retries, delay, delays_from, retries-delays, IsSettled, handle_write-IsSettled,
}

abbrev busy : Connector
busy = record {
  connect = true;
  state = State.connecting;
  channel = some (in_loop 5);
  retry_delay_ms = 500;
  closed = [];
  handed = [];
  timers = [];
  queue = [];
  again = some Fault.fatal;
}

first : 500 ≡ delay 0
unfolding delay
first = refl

retries-delays_example :
    ((retries busy (5 ∷ 6 ∷ 7 ∷ [])).timers ≡ [] ++ delays_from 0 (5 ∷ 6 ∷ 7 ∷ []))
    × ((retries busy (5 ∷ 6 ∷ 7 ∷ [])).closed ≡ [] ++ 5 ∷ 6 ∷ 7 ∷ [])
    × ((retries busy (5 ∷ 6 ∷ 7 ∷ [])).state ≡ State.disconnected)
retries-delays_example = retries-delays (5 ∷ 6 ∷ 7 ∷ []) 0 busy refl first

handle_write-IsSettled_example :
    (c' : Connector) × (handle_write busy 0 false ≡ ok c')
    × IsSettled busy 5 c'
    × (((ltb 0 0 || false) ≡ false) × (busy.connect ≡ true) → c'.handed ≡ [] ++ 5 ∷ [])
    × (((ltb 0 0 || false) ≡ true) ⊎ (busy.connect ≡ false) → c'.closed ≡ [] ++ 5 ∷ [])
handle_write-IsSettled_example = handle_write-IsSettled busy 5 0 false refl refl
