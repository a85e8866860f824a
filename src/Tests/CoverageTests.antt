-- ===== src/Tests/CoverageTests.antt =====
-- Coverage at concrete facts.
use signal_observatory.Prelude.{
  ℕ, ◌≡◌, refl, true, not, ◌&&◌, none, some, List, [], ◌∷◌, arith, exists, ltb,
}
use signal_observatory.Arxiv.State.{CursorStatus}
use signal_observatory.Coverage.{
  Window, between, sort_days, absent, cursor_gaps, sort_windows, gaps_between,
}
use signal_observatory.Coverage.Missing.{is_day, is_day-between}
use signal_observatory.Coverage.Gaps.{covers, started, starts_later, covers-cursor_gaps}
use signal_observatory.Coverage.Derive.{
  CoverageStatus, Cursor, ArxivFacts, GithubFacts, derive_arxiv, is_succeeded,
}
use signal_observatory.Coverage.Derive.Complete.{cursor_covers, backfill_of, derive_arxiv-covered}
use signal_observatory.Coverage.Rebuild.{Mapping, Facts, rebuild}
use signal_observatory.Coverage.Rebuild.Whole.{rebuild_again}

abbrev days : List ℕ
days = 7 ∷ 3 ∷ 5 ∷ 3 ∷ []

missing : between days ≡ 4 ∷ 6 ∷ []
unfolding between sort_days absent
missing = refl

is_day-between_example :
    exists (is_day 4) (between days)
    ≡ (exists (λ d. ltb d 4) days && exists (λ d. ltb 4 d) days && not (exists (is_day 4) days))
is_day-between_example = is_day-between 4 days

abbrev three : List Window
three =
    record { from = 20; until = 30 }
    ∷ record { from = 0; until = 12 }
    ∷ record { from = 5; until = 8 }
    ∷ []

gap : cursor_gaps three ≡ record { from = 12; until = 20 } ∷ []
unfolding cursor_gaps sort_windows gaps_between
gap = refl

covers-cursor_gaps_example : exists (covers 15) (cursor_gaps three) ≡ (
    exists (started 15) three && exists (starts_later 15) three && not (exists (covers 15) three))
covers-cursor_gaps_example =
    covers-cursor_gaps 15 three (omega arith, (omega arith, (omega arith, tt)))

abbrev part : ℕ → ℕ → Cursor
part a b = record {
  mapping_id = 1;
  is_backfill = true;
  status = CursorStatus.succeeded;
  window_from = some a;
  window_until = some b;
  last_successful_run_at = some 50;
}

abbrev facts : ArxivFacts
facts = record {
  cursors = part 10 20 ∷ part 0 10 ∷ [];
  observation_count = 3;
  first_matched = some 2;
  last_matched = some 18;
}

all_there : (derive_arxiv 1 2 (1 ∷ []) facts).coverage_status ≡ CoverageStatus.complete
unfolding derive_arxiv cursor_gaps sort_windows gaps_between
all_there = refl

derive_arxiv-covered_example :
    exists (λ c. is_succeeded c && cursor_covers 4 c) (backfill_of facts) ≡ true
unfolding derive_arxiv cursor_gaps sort_windows gaps_between
derive_arxiv-covered_example =
    derive_arxiv-covered 1 2 (1 ∷ []) facts 4 (omega arith, (omega arith, tt)) refl refl refl

abbrev none_tracked : GithubFacts
none_tracked = record {
  tracked = [];
  observation_dates = [];
  first_observed = none;
  last_observed = none;
  last_successful = none;
  discovery_states = [];
}

abbrev answers : Facts
answers = record {
  arxiv = λ topic source mappings. facts;
  github = λ topic source mappings. none_tracked;
}

abbrev mappings : List Mapping
mappings =
    record { id = 1; topic_id = 1; source_id = 2; source_name = "arxiv" }
    ∷ record { id = 5; topic_id = 1; source_id = 3; source_name = "github" }
    ∷ []

rebuild_again_example :
    ((rebuild 11 (2 ∷ 3 ∷ []) answers mappings (rebuild 9 (2 ∷ 3 ∷ []) answers mappings []).0).0
      ≡ (rebuild 9 (2 ∷ 3 ∷ []) answers mappings []).0)
    × ((rebuild 11
          (2 ∷ 3 ∷ [])
          answers
          mappings
          (rebuild 9 (2 ∷ 3 ∷ []) answers mappings []).0).1.created
        ≡ 0)
    × ((rebuild 11
          (2 ∷ 3 ∷ [])
          answers
          mappings
          (rebuild 9 (2 ∷ 3 ∷ []) answers mappings []).0).1.updated
        ≡ 0)
    × ((rebuild 11
          (2 ∷ 3 ∷ [])
          answers
          mappings
          (rebuild 9 (2 ∷ 3 ∷ []) answers mappings []).0).1.deleted
        ≡ 0)
rebuild_again_example = rebuild_again 9 11 (2 ∷ 3 ∷ []) answers mappings [] (refl, (refl, tt))
