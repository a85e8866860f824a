-- ===== src/Clock.antt =====
-- Instants of time. An aware `datetime`, brought to UTC, is the number of microseconds since
-- 0001-01-01T00:00Z, which is a Monday; a naive one is kept apart, since the code refuses it.
-- The far end of the calendar (the year 10000) is not modelled.
use signal_observatory.Prelude.{ℕ, ◌/◌, ◌%◌, Result, ok, err}
use signal_observatory.Errors.{Error, naive_datetime}

pub data Datetime : Type 0 where
  aware : ℕ → Datetime
  naive : ℕ → Datetime

abbrev pub second : ℕ
second = 1000000

abbrev pub minute : ℕ
minute = 60000000

abbrev pub hour : ℕ
hour = 3600000000

abbrev pub day : ℕ
day = 86400000000

-- `_utc`: `astimezone(UTC)` of an aware value; the others are refused.
abbrev pub utc : Datetime → Result Error ℕ
utc (aware t) = ok t
utc (naive t) = err naive_datetime

-- `datetime.weekday()`: 0 is Monday.
abbrev pub weekday : ℕ → ℕ
weekday t = (t / day) % 7

-- Microseconds since midnight.
abbrev pub time_of_day : ℕ → ℕ
time_of_day t = t % day
