-- ===== src/Cron.antt =====
-- Cron windows of the worker: `next_cron_run`, `next_arxiv_run` and `elapsed_cron_runs` of
-- apps/worker/src/signal_observatory_worker/main.py.
pub mod Next
pub mod Elapsed
use signal_observatory.Prelude.{
  ℕ, zero, suc, ◌+◌, ◌-◌, ◌*◌, ◌/◌, ◌%◌, Bool, true, false, not, ◌&&◌, Option, none, some, List, [],
  ◌++◌, ◌∷◌, ltb, leb, if◌then◌else◌, Result, ok, err, ◌>>=◌, ◌>>◌, raise_if,
}
use signal_observatory.Text.{Text, codes, text_eq, split, int, ℤ, pos, negsuc}
use signal_observatory.Errors.{
  Error, cron_format, cron_integers, cron_range, cron_weekday, naive_datetime,
}
use signal_observatory.Clock.{Datetime, aware, naive, minute, hour, day, weekday}

-- A validated schedule: `minute hour * * weekday`, `none` for the weekday `*`.
pub record Cron : Type 0 where
  pub at_minute : ℕ
  pub at_hour : ℕ
  pub on_weekday : Option ℕ

-- `0 <= value <= bound`.
abbrev pub in_range : ℕ → ℤ → Option ℕ
in_range bound (pos n) = if leb n bound then some n else none
in_range bound (negsuc n) = none

abbrev pub is_star : Text → Bool
is_star t = text_eq t (codes "*")

-- The two integers, then their ranges.
parse_time : Option ℤ → Option ℤ → Result Error (ℕ × ℕ)
parse_time (some m) (some h) = elim (in_range 59 m) [
  | none ↦ err cron_range
  | some m' ↦ elim (in_range 23 h) [ none ↦ err cron_range | some h' ↦ ok (m', h') ]
]
parse_time _ _ = err cron_integers

parse_weekday : Text → Result Error (Option ℕ)
parse_weekday t = if is_star t then ok none else elim (int t) [
  | none ↦ err cron_weekday
  | some w ↦ elim (in_range 6 w) [ none ↦ err cron_weekday | some d ↦ ok (some d) ]
]

parse_parts : List Text → Result Error Cron
unfolding parse_time parse_weekday
parse_parts (p0 ∷ p1 ∷ p2 ∷ p3 ∷ p4 ∷ []) =
    if is_star p2 && is_star p3
    then (do
      (m, h) ← parse_time (int p0) (int p1)
      w ← parse_weekday p4
      ok (record { at_minute = m; at_hour = h; on_weekday = w }))
    else err cron_format
parse_parts _ = err cron_format

-- The validation that opens `next_cron_run`.
unfoldable pub parse_cron : Text → Result Error Cron
unfolding parse_parts
parse_cron schedule = parse_parts (split schedule)

-- Microseconds from midnight to the scheduled minute.
abbrev pub offset : Cron → ℕ
offset c = c.at_hour * hour + c.at_minute * minute

-- `current.replace(hour=hour, minute=minute, second=0, microsecond=0)`.
abbrev pub replace_time : Cron → ℕ → ℕ
replace_time c current = current / day * day + offset c

-- The first candidate, moved to the weekday: `(weekday - cron_today) % 7`, with 7 added since the
-- difference may be negative.
days_ahead : ℕ → ℕ → ℕ
days_ahead target current = (target + 7 - (weekday current + 1) % 7) % 7

next_from : Option ℕ → Cron → ℕ → ℕ
unfolding days_ahead
next_from none c current =
    let candidate = replace_time c current in
    if ltb current candidate then candidate else candidate + day
next_from (some target) c current =
    let candidate = replace_time c current + days_ahead target current * day in
    if ltb current candidate then candidate else candidate + 7 * day

-- The body of `next_cron_run` after validation.
unfoldable pub next_after : Cron → ℕ → ℕ
unfolding next_from
next_after c current = next_from c.on_weekday c current

scheduler_time : Datetime → Result Error ℕ
scheduler_time (aware t) = ok t
scheduler_time (naive t) = err naive_datetime

unfoldable pub next_cron_run : Text → Datetime → Result Error ℕ
unfolding scheduler_time
next_cron_run schedule now = do
  c ← parse_cron schedule
  current ← scheduler_time now
  ok (next_after c current)

-- `schedule.split()[-1:] != ["*"]`.
abbrev ends_in_star : List Text → Bool
ends_in_star [] = false
ends_in_star (p ∷ []) = is_star p
ends_in_star (p ∷ ps) = ends_in_star ps

unfoldable pub next_arxiv_run : Text → Datetime → Result Error ℕ
next_arxiv_run schedule now = do
  raise_if (not (ends_in_star (split schedule))) cron_format
  next_cron_run schedule now

-- The `while True` loop of `elapsed_cron_runs`; the fuel bounds the rounds, and running out of it
-- gives `none`.
pub elapsed_from : ℕ → Text → ℕ → ℕ → List ℕ → Option (Result Error (List ℕ))
elapsed_from zero schedule cursor boundary elapsed = none
elapsed_from (suc fuel) schedule cursor boundary elapsed =
    elim (next_cron_run schedule (aware cursor)) [
      | err e ↦ some (err e)
      | ok candidate ↦
          let rest = elapsed_from fuel schedule candidate boundary (elapsed ++ (candidate ∷ [])) in
          if ltb boundary candidate then some (ok elapsed) else rest
    ]

-- The fuel is one more than the microseconds to cover: each round moves the cursor forward.
unfoldable pub elapsed_cron_runs : Text → Datetime → Datetime → Option (Result Error (List ℕ))
unfolding elapsed_from
elapsed_cron_runs schedule (aware after) (aware until) =
    elapsed_from (suc (until - after)) schedule after until []
elapsed_cron_runs schedule _ _ = some (err naive_datetime)
