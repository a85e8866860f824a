-- ===== src/Scheduler/Punctuality.antt =====
-- `SchedulerPunctualityVerifier.status` with `_daily_schedule_time` and `_latest_due_window`
-- (packages/operations/src/observatory_operations/scheduler.py). `rows` are those of the job in the
-- order of their windows. Texts and the row payloads of the report are left out.
pub mod Continuity
pub mod Qualification
pub mod NextWindow
use signal_observatory.Prelude.{
  ℕ, zero, suc, ◌+◌, ◌-◌, ◌*◌, ◌/◌, Bool, true, false, not, ◌&&◌, ◌||◌, Option, none, some, List,
  [], ◌∷◌, ◌++◌, map, String, str_eq, leb, ltb, ◌==◌, if◌then◌else◌, is_empty, length, select,
  exists, is_some, get_elem?, Result, ok, err, ◌>>=◌, ◌>>◌, raise_if, min, max,
}
use signal_observatory.Errors.{
  Error, cron_format, cron_integers, cron_range, date_overflow, bad_windows,
}
use signal_observatory.Text.{Text, split, int, ℤ}
use signal_observatory.Clock.{day, hour, minute}
use signal_observatory.Cron.{in_range, is_star}
use signal_observatory.Scheduler.Row.{Row, Status, text, get, MetaValue, iso, is_terminal}
use signal_observatory.Scheduler.Timing.{TimingState, Rounding, row_timing}

daily_time : Option ℤ → Option ℤ → Result Error ℕ
daily_time (some m) (some h) = elim (in_range 59 m) [
  | none ↦ err cron_range
  | some m' ↦ elim (in_range 23 h) [
    | none ↦ err cron_range
    | some h' ↦ ok (h' * hour + m' * minute)
  ]
]
daily_time _ _ = err cron_integers

daily_parts : List Text → Result Error ℕ
unfolding daily_time
daily_parts (p0 ∷ p1 ∷ p2 ∷ p3 ∷ p4 ∷ []) =
    if is_star p2 && is_star p3 && is_star p4 then daily_time (int p0) (int p1) else err cron_format
daily_parts _ = err cron_format

-- Microseconds since midnight.
unfoldable pub daily_schedule_time : Text → Result Error ℕ
unfolding daily_parts
daily_schedule_time schedule = daily_parts (split schedule)

-- On the first day of the calendar there may be no window before `now`: `date_overflow`.
unfoldable pub latest_due_window : Text → ℕ → Result Error ℕ
latest_due_window schedule now = do
  time ← daily_schedule_time schedule
  let candidate = now / day * day + time
  if leb candidate now
      then ok candidate
      else (if leb day candidate then ok (candidate - day) else err date_overflow)

abbrev pub rows_at : List Row → ℕ → List Row
rows_at rows w = select (λ r. r.scheduled_at == w) rows

abbrev pub is_contract : Option MetaValue → Bool
is_contract (some (text t)) = str_eq t "scheduler-punctuality-v2"
is_contract (some (iso t)) = false
is_contract none = false

abbrev pub is_tagged : Row → Bool
is_tagged r = is_contract (get "punctuality_contract" r.metadata)

abbrev pub is_bad : TimingState → Bool
is_bad TimingState.missed = true
is_bad TimingState.interrupted = true
is_bad _ = false

-- `due - (n - 1) days`, …, `due`.
abbrev pub days_back : ℕ → ℕ → List ℕ
days_back zero due = []
days_back (suc n) due = (due - n * day) ∷ days_back n due

-- `start`, `start + 1 day`, … : n windows.
abbrev pub days_on : ℕ → ℕ → List ℕ
days_on zero start = []
days_on (suc n) start = start ∷ days_on n (start + day)

abbrev pub total {ℓ} : {A : Type ℓ} → (A → ℕ) → List A → ℕ
total f [] = 0
total f (x ∷ xs) = f x + total f xs

abbrev pub count {ℓ} : {A : Type ℓ} → (A → Bool) → List A → ℕ
count p [] = 0
count p (x ∷ xs) = (if p x then 1 else 0) + count p xs

pub data Verdict : Type 0 where
  passed failed pending : Verdict

pub record ContinuityReport : Type 0 where
  pub state : Verdict
  pub observed : ℕ
  pub missing : List ℕ
  pub duplicates : ℕ
  pub mismatches : ℕ
  pub bad : ℕ

pub record QualificationReport : Type 0 where
  pub state : Verdict
  pub exit_code : ℕ
  pub start : Option ℕ
  pub missing : List ℕ
  pub duplicates : ℕ
  pub on_time : ℕ
  pub late : ℕ
  pub missed : ℕ
  pub interrupted : ℕ
  pub completed : ℕ

module _ (round3 : Rounding) (now threshold : ℕ) (rows : List Row) where
  abbrev pub timing : Row → TimingState
  timing r = (row_timing round3 r now threshold).0

  abbrev pub lost : List ℕ → List ℕ
  lost windows = select (λ w. is_empty (rows_at rows w)) windows

  abbrev pub doubles : List ℕ → ℕ
  doubles windows = total (λ w. length (rows_at rows w) - 1) windows

  abbrev pub strangers : String → List ℕ → ℕ
  strangers source windows =
      total (λ w. count (λ r. not (str_eq r.source_name source)) (rows_at rows w)) windows

  abbrev pub bad_rows : List ℕ → ℕ
  bad_rows windows = total (λ w. count (λ r. is_bad (timing r)) (rows_at rows w)) windows

  unfoldable pub continuity_state : String → List ℕ → Verdict
  continuity_state source windows =
      if is_empty rows
      then pending
      else (if not (is_empty (lost windows))
            || not (doubles windows == 0)
            || not (bad_rows windows == 0)
            || not (strangers source windows == 0)
          then failed
          else (if length windows - length (lost windows) == length windows
              then passed
              else pending))

  unfoldable pub continuity : String → List ℕ → ContinuityReport
  unfolding continuity_state
  continuity source windows = record {
    state = continuity_state source windows;
    observed = length windows - length (lost windows);
    missing = lost windows;
    duplicates = doubles windows;
    mismatches = strangers source windows;
    bad = bad_rows windows;
  }

  abbrev pub tagged : List Row
  tagged = select is_tagged rows

  -- The earliest window with a tagged row.
  abbrev pub earliest : List Row → Option ℕ
  earliest [] = none
  earliest (r ∷ rs) = elim (earliest rs) [
    | none ↦ some r.scheduled_at
    | some t ↦ some (min r.scheduled_at t)
  ]

  -- The tagged rows of one window.
  abbrev pub matching : ℕ → List Row
  matching w = select is_tagged (rows_at rows w)

  abbrev pub is_timing : TimingState → TimingState → Bool
  is_timing TimingState.on_time TimingState.on_time = true
  is_timing TimingState.late TimingState.late = true
  is_timing TimingState.missed TimingState.missed = true
  is_timing TimingState.interrupted TimingState.interrupted = true
  is_timing TimingState.pending TimingState.pending = true
  is_timing _ _ = false

  -- `timing_counts[state]`.
  abbrev pub timing_count : TimingState → List ℕ → ℕ
  timing_count state windows =
      total (λ w. count (λ r. is_timing state (timing r)) (matching w)) windows

  abbrev pub unmatched : List ℕ → List ℕ
  unmatched windows = select (λ w. is_empty (matching w)) windows

  abbrev pub matched_twice : List ℕ → ℕ
  matched_twice windows = total (λ w. length (matching w) - 1) windows

  abbrev pub completed : List ℕ → ℕ
  completed windows = total (λ w. count (λ r. is_terminal r.status) (matching w)) windows

  abbrev pub disqualifying : List ℕ → ℕ
  disqualifying windows =
      timing_count TimingState.late windows
      + timing_count TimingState.missed windows
      + timing_count TimingState.interrupted windows

  abbrev pub expected : ℕ → Option ℕ → List ℕ
  expected n none = []
  expected n (some start) = days_on n start

  abbrev pub due_windows : ℕ → List ℕ
  due_windows n = select (λ w. leb w now) (expected n (earliest tagged))

  -- The verdict and the exit code.
  unfoldable pub punctuality_state : ℕ → Verdict × ℕ
  punctuality_state n =
      let due = due_windows n in
      if not (is_empty (unmatched due))
        || not (matched_twice due == 0)
        || not (disqualifying due == 0)
      then (failed, 2)
      else (if is_some (earliest tagged) && leb n (completed due)
          then (passed, 0)
          else (pending, 1))

  unfoldable pub qualification : ℕ → QualificationReport
  unfolding punctuality_state
  qualification n =
      let due = due_windows n in
      record {
        state = (punctuality_state n).0;
        exit_code = (punctuality_state n).1;
        start = earliest tagged;
        missing = unmatched due;
        duplicates = matched_twice due;
        on_time = timing_count TimingState.on_time due;
        late = timing_count TimingState.late due;
        missed = timing_count TimingState.missed due;
        interrupted = timing_count TimingState.interrupted due;
        completed = min (completed due) n;
      }

  -- The search for the first window after today's with no untagged row; `none` if the fuel runs out.
  unfoldable pub free_window : ℕ → ℕ → Option ℕ
  free_window zero w = none
  free_window (suc fuel) w =
      let rest = free_window fuel (w + day) in
      if exists (λ r. not (is_tagged r)) (rows_at rows w) then rest else some w

  abbrev pub last_window : List Row → ℕ
  last_window [] = 0
  last_window (r ∷ rs) = max r.scheduled_at (last_window rs)

  -- `next_qualification_window`; the fuel covers the windows up to the last row.
  unfoldable pub next_qualification : ℕ → ℕ → Option ℕ → Option ℕ
  unfolding free_window
  next_qualification n today none = free_window (suc (suc (last_window rows))) (today + day)
  next_qualification n today (some start) = get_elem? (days_on n start) (length (due_windows n))

  -- `status`, for the parts above: validation, then the two verdicts and the next window.
  unfoldable pub status :
      String → Text → ℕ → ℕ → Result Error (ContinuityReport × QualificationReport × Option ℕ)
  unfolding continuity qualification next_qualification
  status source schedule days windows = do
    raise_if (ltb days 1 || ltb windows 1) bad_windows
    due ← latest_due_window schedule now
    ok (
      continuity source (days_back days due),
      qualification windows,
      next_qualification windows due (earliest tagged),
    )
