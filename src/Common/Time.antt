-- ===== src/Common/Time.antt =====
-- Go's `time.Time` and `time.Duration`. A `Time` is the number of nanoseconds since the zero
-- `Time` (the first of January of the year 1, UTC), so every time from then on has one; a duration
-- is an `int64` of nanoseconds.
use Prim.Native.Nat.{ℕ, ◌+◌, ◌-◌, ◌*◌, min}
use mathlib.Core.Bool.{Bool}
use hacp_sidecar.Common.Tests.{ltb, ◌==◌}
use hacp_sidecar.Common.Int.{ℤ, pos}

abbrev pub Time : Type 0
Time = ℕ

abbrev pub second : ℕ
second = 1000000000

abbrev pub millisecond : ℕ
millisecond = 1000000

-- The largest `time.Duration`.
abbrev pub max_duration : ℕ
max_duration = 9223372036854775807

-- `t.IsZero()`.
abbrev pub is_zero : Time → Bool
is_zero t = t == 0

-- `t.Before(u)`.
abbrev pub before : Time → Time → Bool
before t u = ltb t u

-- `t.Sub(u)` where `t` is not before `u`; the difference saturates at the largest duration.
abbrev pub sub_time : Time → Time → ℤ
sub_time t u = pos (min (t - u) max_duration)

-- Seconds from the zero `Time` to the Unix epoch.
abbrev pub unix_to_internal : ℕ
unix_to_internal = 62135596800

-- `time.Unix(sec, 0)` for `sec` not negative.
abbrev pub unix : ℕ → Time
unix sec = (sec + unix_to_internal) * second
