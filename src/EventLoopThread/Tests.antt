-- ===== src/EventLoopThread/Tests.antt =====
-- A thread is started and serves; the owner then destroys it.
use chtho.Prelude.{true, false}
use chtho.EventLoopThread.{
  Owner, Child, Thread, make, set_tid, count_down, store_loop, look_at_loop,
}

abbrev started : Thread
started = record make { started = true; child = Child.begun; owner = Owner.on_latch false }

abbrev counted : Thread
counted = count_down (set_tid started 7)

abbrev checked : Thread
checked = record counted { owner = Owner.on_loop false }

abbrev served : Thread
served = look_at_loop (store_loop checked)
