-- ===== src/Timeout/Grace.antt =====
-- When the callback of a timeout runs (centrifuge/client.py).
use centrifuge_python.Timeout.{
  Ran, TimeoutTimer, postponed, run_handle, called, Handle, fire_at, callback_at,
}
use centrifuge_python.Base.{ℕ, Option, none, some}

abbrev pub called_at : ℕ → Ran → Option ℕ
called_at now called = some now
called_at now (postponed timer) = none

abbrev pub then_at : ℕ → ℕ → Ran → Option ℕ
then_at first second called = some first
then_at first second (postponed timer) = called_at second (run_handle second timer)

-- The time at which the callback runs, where the loop runs the handles of the timer at `first` and, if there
-- is another one, at `second`.
abbrev pub call_time : ℕ → ℕ → TimeoutTimer → Option ℕ
call_time first second timer = then_at first second (run_handle first timer)

-- The time that `call_later` gave the handle.
abbrev pub handle_time : Handle → ℕ
handle_time (fire_at time) = time
handle_time (callback_at time) = time

-- The time before which the loop does not run the handle that is left where it ran one at `first`.
abbrev pub next_time : ℕ → Ran → ℕ
next_time first called = first
next_time first (postponed timer) = handle_time timer.handle
