-- ===== src/Timeout.antt =====
-- The timer of a timeout (centrifuge/client.py): `_TimeoutTimer`. Times are numbers of milliseconds on the
-- clock of the loop, which runs a handle once its time has come, and at any later time.
pub mod Grace
mod Runs
use centrifuge_python.Base.{ℕ, ◌+◌, Bool, Option, none, some, ltb, if◌then◌else◌, false}

-- `_LATE_TIMER_GRACE`
abbrev pub late_timer_grace : ℕ
late_timer_grace = 1000

-- What the handle of `call_later` runs.
pub data Handle : Type 0 where
  fire_at callback_at : ℕ → Handle

-- `_deadline`, which is `none` for the infinite one, and `_handle`.
pub record TimeoutTimer : Type 0 where
  pub deadline : Option ℕ
  pub handle : Handle

-- `__init__` at the time `now`.
unfoldable pub start : ℕ → ℕ → TimeoutTimer
start now delay = record { deadline = some (now + delay); handle = fire_at (now + delay) }

-- The loop's handle ran the callback, or it left a timer.
pub data Ran : Type 0 where
  called : Ran
  postponed : TimeoutTimer → Ran

-- `self._loop.time() - self._deadline > _LATE_TIMER_GRACE`
abbrev pub is_late : ℕ → Option ℕ → Bool
is_late now none = false
is_late now (some deadline) = ltb (deadline + late_timer_grace) now

-- `_fire` at the time `now`.
unfoldable pub fire : ℕ → TimeoutTimer → Ran
fire now timer =
    if is_late now timer.deadline
    then postponed (record { deadline = none; handle = callback_at (now + late_timer_grace) })
    else called

-- The loop runs the timer's handle at the time `now`.
unfoldable pub run_handle : ℕ → TimeoutTimer → Ran
unfolding fire
run_handle now timer = elim timer.handle [ fire_at _ ↦ fire now timer | callback_at _ ↦ called ]
