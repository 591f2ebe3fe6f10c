-- ===== src/Delay/Runs.antt =====
-- The delays of concrete attempts (centrifuge/utils.py).
use centrifuge_python.Delay.{min, max_step, backoff_bounds, backoff}
use centrifuge_python.Base.{ℕ, ◌/◌, ◌+◌, ◌*◌, ◌^◌, ◌≤◌, arith}

abbrev half : ℕ → ℕ
half b = b / 2

backoff_bounds_example :
    (500 ≤ backoff half 3 500 20000)
    × (backoff half 3 500 20000 ≤ 20000)
    × (backoff half 3 500 20000 ≤ 500 + 500 * 2 ^ min 3 max_step)
backoff_bounds_example = backoff_bounds half 3 500 20000 (λ b. omega arith) (omega arith)
