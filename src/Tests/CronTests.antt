-- ===== src/Tests/CronTests.antt =====
-- Cron windows at concrete times. Day 739000 after 0001-01-01 is a Thursday.
use signal_observatory.Prelude.{ℕ, ◌+◌, ◌*◌, ◌≡◌, refl, some, none, List, [], ◌∷◌, ok, err}
use signal_observatory.Text.{Text, codes, split, int}
use signal_observatory.Errors.{cron_format, cron_weekday}
use signal_observatory.Clock.{aware, day, hour, minute}
use signal_observatory.Cron.{
  Cron, parse_cron, next_cron_run, next_after, next_arxiv_run, elapsed_cron_runs,
}
use signal_observatory.Cron.Next.{IsNext, next_cron_run-IsNext}
use signal_observatory.Cron.Elapsed.{AreWindows, elapsed_cron_runs-AreWindows}

abbrev pub daily : Text
daily = codes "30 6 * * *"

abbrev pub daily_cron : Cron
daily_cron = record { at_minute = 30; at_hour = 6; on_weekday = none }

abbrev weekly : Text
weekly = codes "0 4 * * 0"

abbrev pub noon : ℕ
noon = 739000 * day + 12 * hour

pub daily_parsed : parse_cron daily ≡ ok daily_cron
unfolding parse_cron split int
daily_parsed = refl

next_daily_run : next_cron_run daily (aware noon) ≡ ok (739001 * day + 6 * hour + 30 * minute)
unfolding next_cron_run parse_cron split int next_after
next_daily_run = refl

-- Sunday, three days after the Thursday.
next_weekly_run : next_cron_run weekly (aware noon) ≡ ok (739003 * day + 4 * hour)
unfolding next_cron_run parse_cron split int next_after
next_weekly_run = refl

bad_weekday : parse_cron (codes "0 4 * * 7") ≡ err cron_weekday
unfolding parse_cron split int
bad_weekday = refl

weekly_refused : next_arxiv_run weekly (aware noon) ≡ err cron_format
unfolding next_arxiv_run split
weekly_refused = refl

elapsed_two_days :
    elapsed_cron_runs daily (aware noon) (aware (noon + 2 * day))
    ≡ some (
        ok ((739001 * day + 6 * hour + 30 * minute) ∷ (739002 * day + 6 * hour + 30 * minute) ∷ []))
unfolding elapsed_cron_runs next_cron_run parse_cron split int next_after
elapsed_two_days = refl

next_cron_run-IsNext_example :
    (t : ℕ) × (next_cron_run daily (aware noon) ≡ ok t) × IsNext daily_cron noon t
next_cron_run-IsNext_example = next_cron_run-IsNext daily daily_cron noon daily_parsed

elapsed_cron_runs-AreWindows_example :
    (ts : List ℕ) × (elapsed_cron_runs daily (aware noon) (aware (noon + 2 * day)) ≡ some (ok ts))
    × AreWindows daily_cron noon (noon + 2 * day) ts
elapsed_cron_runs-AreWindows_example =
    elapsed_cron_runs-AreWindows daily daily_cron noon (noon + 2 * day) daily_parsed
