-- ===== src/Cron/Next.antt =====
-- The next window of a schedule: `next_cron_run` against a description of the schedule's windows.
use signal_observatory.Prelude.{
  ℕ, ◌+◌, ◌*◌, ◌/◌, ◌%◌, ◌≤◌, ◌<◌, ◌≡◌, ◌≢◌, Option, none, some, List, [], ◌∷◌, arith, ok,
}
use signal_observatory.Text.{Text, split}
use signal_observatory.Clock.{aware, naive, day, minute, hour, weekday, time_of_day}
use signal_observatory.Cron.{
  Cron, parse_cron, parse_parts, offset, next_after, next_from, next_cron_run, days_ahead,
}

abbrev pub OnDay : Option ℕ → ℕ → Type 0
OnDay none t = Unit
OnDay (some w) t = (weekday t + 1) % 7 ≡ w

-- `t` is a window of the schedule: its time of day, and its weekday where one is given.
pub record Matches (c : Cron) (t : ℕ) : Type 0 where
  pub at_time : time_of_day t ≡ offset c
  pub on_day : OnDay c.on_weekday t

abbrev pub DayInRange : Option ℕ → Type 0
DayInRange none = Unit
DayInRange (some w) = w ≤ 6

pub record InRange (c : Cron) : Type 0 where
  pub minute_ok : c.at_minute ≤ 59
  pub hour_ok : c.at_hour ≤ 23
  pub day_ok : DayInRange c.on_weekday

-- A schedule that parses is in range.
parse_parts-InRange : (ps : List Text) {c : Cron} → parse_parts ps ≡ ok c → InRange c
unfolding parse_parts
parse_parts-InRange (p0 ∷ p1 ∷ p2 ∷ p3 ∷ p4 ∷ []) h = ground arith
parse_parts-InRange (p0 ∷ p1 ∷ p2 ∷ p3 ∷ p4 ∷ p5 ∷ ps) h = cc
parse_parts-InRange _ h = cc

-- What the next window is.
pub record IsNext (c : Cron) (current t : ℕ) : Type 0 where
  pub after : current < t
  pub window : Matches c t
  pub least : (u : ℕ) → current < u → Matches c u → t ≤ u

abbrev cron : ℕ → ℕ → Option ℕ → Cron
cron m h w = record { at_minute = m; at_hour = h; on_weekday = w }

module _ (m h current : ℕ) (hm : m ≤ 59) (hh : h ≤ 23) where
  IsNext-daily : IsNext (cron m h none) current (next_from none (cron m h none) current)
  unfolding next_from
  IsNext-daily = record {
    after = ground arith;
    window = record { at_time = ground arith; on_day = tt };
    least = λ u lt w. ground (arith, w.at_time);
  }

  module _ (w : ℕ) (hw : w ≤ 6) where
    days_ahead_weekday : (current / day + days_ahead w current + 1) % 7 ≡ w
    unfolding days_ahead
    days_ahead_weekday = omega arith

    next_weekly_after : current < next_from (some w) (cron m h (some w)) current
    unfolding next_from
    next_weekly_after = ground arith

    next_weekly_time :
        time_of_day (next_from (some w) (cron m h (some w)) current) ≡ h * hour + m * minute
    unfolding next_from
    next_weekly_time = ground arith

    next_weekly_day : (weekday (next_from (some w) (cron m h (some w)) current) + 1) % 7 ≡ w
    unfolding next_from
    next_weekly_day = ground arith

    next_weekly_least :
        (u : ℕ)
        → current < u
        → Matches (cron m h (some w)) u
        → next_from (some w) (cron m h (some w)) current ≤ u
    unfolding next_from
    next_weekly_least u lt k = ground (arith, k.at_time, k.on_day)

  next_from-IsNext :
      (w : Option ℕ) → DayInRange w → IsNext (cron m h w) current (next_from w (cron m h w) current)
  next_from-IsNext none _ = IsNext-daily
  next_from-IsNext (some w) hw = record {
    after = next_weekly_after w hw;
    window = record { at_time = next_weekly_time w hw; on_day = next_weekly_day w hw };
    least = next_weekly_least w hw;
  }

pub next_after-IsNext :
    (c : Cron) (current : ℕ) → InRange c → IsNext c current (next_after c current)
unfolding next_after
next_after-IsNext c current v =
    next_from-IsNext c.at_minute c.at_hour current v.minute_ok v.hour_ok c.on_weekday v.day_ok

pub parse_cron-InRange : (schedule : Text) {c : Cron} → parse_cron schedule ≡ ok c → InRange c
unfolding parse_cron
parse_cron-InRange schedule h = parse_parts-InRange (split schedule) h

-- A valid schedule at an aware time has a next run: the earliest window of the schedule that lies
-- strictly after that time.
pub next_cron_run-IsNext :
    (schedule : Text) (c : Cron) (current : ℕ)
    → parse_cron schedule ≡ ok c
    → (t : ℕ) × (next_cron_run schedule (aware current) ≡ ok t) × IsNext c current t
unfolding next_cron_run
next_cron_run-IsNext schedule c current h =
    (next_after c current, rw h, next_after-IsNext c current (parse_cron-InRange schedule h))

-- A naive time is refused, whatever the schedule.
pub next_cron_run_naive : (schedule : Text) (t r : ℕ) → next_cron_run schedule (naive t) ≢ ok r
unfolding next_cron_run
next_cron_run_naive schedule t r = ground arith

-- Two next windows of the same schedule and time agree.
pub IsNext-unique :
    (c : Cron) (current : ℕ) {s t : ℕ} → IsNext c current s → IsNext c current t → s ≡ t
IsNext-unique c current {s} {t} p q =
    omega (arith, p.least t q.after q.window, q.least s p.after p.window)
