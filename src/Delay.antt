-- ===== src/Delay.antt =====
-- The delays between attempts (centrifuge/utils.py). A duration is a number of some small unit, and
-- what rounds it is left out. `uniform b` stands for `random.uniform(0, b)`.
mod Runs
use centrifuge_python.Base.{ℕ, ◌+◌, ◌*◌, ◌^◌, ◌≤◌, ◌≡◌, leb, if◌then◌else◌, arith}

abbrev pub min : ℕ → ℕ → ℕ
min a b = if leb a b then a else b

-- `MAX_STEP`
abbrev pub max_step : ℕ
max_step = 31

-- `_backoff`
unfoldable pub backoff : (ℕ → ℕ) → ℕ → ℕ → ℕ → ℕ
backoff uniform step min_value max_value =
    let interval = uniform (min max_value (min_value * 2 ^ min step max_step)) in
    min max_value (min_value + interval)

min_lower : (a b c : ℕ) → c ≤ a → c ≤ b → c ≤ min a b
min_lower a b c p q = ground arith

min_left : (a b : ℕ) → min a b ≤ a
min_left a b = ground arith

min_right : (a b : ℕ) → min a b ≤ b
min_right a b = ground arith

-- Where the random number is at most its bound and the minimum is at most the maximum, a delay lies
-- between the two, and it is at most the minimum more than the minimum times two to the step, counted to
-- 31.
pub backoff_bounds :
    (uniform : ℕ → ℕ) (step min_value max_value : ℕ)
    → ((b : ℕ) → uniform b ≤ b)
    → min_value ≤ max_value
    → (min_value ≤ backoff uniform step min_value max_value)
      × (backoff uniform step min_value max_value ≤ max_value)
      × (backoff uniform step min_value max_value ≤ min_value + min_value * 2 ^ min step max_step)
unfolding backoff
backoff_bounds uniform step min_value max_value u m =
    let bound = min_value * 2 ^ min step max_step in
    let drawn = u (min max_value bound) in
    let small = min_right max_value bound in
    let interval = uniform (min max_value bound) in
    (
      min_lower max_value (min_value + interval) min_value m (omega arith),
      min_left max_value (min_value + interval),
      omega (arith, min_right max_value (min_value + interval), drawn, small),
    )
