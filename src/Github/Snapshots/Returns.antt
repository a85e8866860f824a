-- ===== src/Github/Snapshots/Returns.antt =====
-- A snapshot call that is set up and whose answers are stored returns: no error escapes its loop.
use signal_observatory.Prelude.{◌≤◌, ◌≡◌, Bool, true, List, length, Result, ok, err, All}
use signal_observatory.Github.State.{Settings, Store, GithubError}
use signal_observatory.Github.Client.Ends.{Ends, AreStored}
use signal_observatory.Github.Snapshots.{
  VisitEnd, observed, fails, cut_off, Visit, loop_ended, Pass, goes_on, stops, is_handled, CallEnd,
  refused, dry_run, finished, raised, starved,
}

-- A visit ends, and its error is one that the loop handles.
abbrev VisitEnds : VisitEnd → Type 0
VisitEnds observed = Unit
VisitEnds (fails e) = is_handled e ≡ true
VisitEnds cut_off = ⊥

abbrev ErrorIsHandled : Result GithubError (Store × Bool) → Type 0
ErrorIsHandled (ok x) = Unit
ErrorIsHandled (err e) = is_handled e ≡ true

abbrev PassEnds : Pass → Type 0
PassEnds (goes_on run store) = Unit
PassEnds (stops end run store) = end ≡ loop_ended

-- Each visit has an answer, or the lack of one, for every attempt that is allowed, and the Raw store
-- takes the answers.
abbrev pub HasAttempts : Settings → List Visit → Type 0
HasAttempts s visits =
    All (λ v. (s.retry_attempts ≤ length v.attempts) × AreStored v.attempts) visits

abbrev pub IsFinished : CallEnd → Type 0
IsFinished (finished status acc) = Unit
IsFinished (refused e) = ⊥
IsFinished (dry_run acc) = ⊥
IsFinished (raised e) = ⊥
IsFinished starved = ⊥
