-- ===== src/GoTime.antt =====
-- What the program uses of the package `time`. An instant is the number of nanoseconds since the
-- zero `time.Time` (0001-01-01T00:00:00Z); every calendar computation of the program is in UTC.
use kenshu_elaris_project_gu.Prelude.{
  ℕ, ◌+◌, ◌-◌, ◌*◌, ◌/◌, ◌%◌, ◌≤◌, ◌<◌, arith, ℤ, pos, negsuc, leb, min, if◌then◌else◌,
}

abbrev pub Instant : Type 0
Instant = ℕ

-- `time.Hour` and `24 * time.Hour`
abbrev pub hour_ns : ℕ
hour_ns = 3_600_000_000_000

abbrev pub day_ns : ℕ
day_ns = 86_400_000_000_000

-- The largest `time.Duration`, an int64.
abbrev pub max_duration : ℕ
max_duration = 9_223_372_036_854_775_807

-- `t.AddDate(0, 0, days)` on a UTC time, for days ≥ 0
abbrev pub add_days : Instant → ℕ → Instant
add_days t days = t + days * day_ns

-- `t.Sub(u)`, which saturates at both ends of int64
unfoldable pub sub_time : Instant → Instant → ℤ
sub_time t u =
    if leb u t then pos (min (t - u) max_duration) else negsuc (min (u - t - 1) max_duration)

-- `t.UTC().Hour()`
abbrev pub hour : Instant → ℕ
hour t = t / hour_ns % 24

-- The number of the UTC day of an instant.
abbrev pub day_of : Instant → ℕ
day_of t = t / day_ns

-- `time.Date(t.Year(), t.Month(), t.Day(), 0, 0, 0, 0, time.UTC)`
unfoldable pub start_of_utc_day : Instant → Instant
start_of_utc_day t = day_of t * day_ns

-- `time.Date(day.Year(), day.Month(), day.Day(), hour, 0, 0, 0, time.UTC)`
unfoldable pub at_hour : Instant → ℕ → Instant
at_hour day h = day_of day * day_ns + h * hour_ns

pub start_of_utc_day_bounds :
    (t : Instant) → (start_of_utc_day t ≤ t) × (t < start_of_utc_day t + day_ns)
unfolding start_of_utc_day
start_of_utc_day_bounds t = omega arith
