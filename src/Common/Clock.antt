-- ===== src/Common/Clock.antt =====
-- Instants and durations, in microseconds: the resolution of `datetime` and `timedelta`. An instant
-- counts from a point before every date that occurs, so `now - window < t` is `now < t + window`.
use Prim.Native.Nat.{ℕ, ◌+◌, ◌*◌, ◌/◌, ◌≤◌}
use native.Mathlib.Omega.{arith}

abbrev pub Time : Type 0
Time = ℕ

abbrev pub seconds : ℕ → ℕ
seconds n = n * 1000000

abbrev pub minutes : ℕ → ℕ
minutes n = n * 60000000

abbrev pub hours : ℕ → ℕ
hours n = n * 3600000000

abbrev pub days : ℕ → ℕ
days n = n * 86400000000

-- `math.ceil(delta.total_seconds())`
pub ceil_seconds : ℕ → ℕ
ceil_seconds d = (d + 999999) / 1000000

-- Waiting that many seconds covers the duration.
pub ceil_seconds-covers : (d : ℕ) → d ≤ seconds (ceil_seconds d)
unfolding ceil_seconds
ceil_seconds-covers d = omega arith
