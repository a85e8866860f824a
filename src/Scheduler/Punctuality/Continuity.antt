-- ===== src/Scheduler/Punctuality/Continuity.antt =====
-- When the continuity evidence passes.
use signal_observatory.Prelude.{ℕ, ◌≡◌, true, false, List, [], ◌∷◌, String, is_empty}
use signal_observatory.Scheduler.Row.{Row}
use signal_observatory.Scheduler.Timing.{Rounding}
use signal_observatory.Scheduler.Punctuality.{
  rows_at, is_bad, timing, lost, doubles, strangers, bad_rows,
}

module _ (round3 : Rounding) (now threshold : ℕ) (rows : List Row) (source : String) where
  -- Exactly one execution, of the right source, neither missed nor interrupted.
  pub record IsSound (day_rows : List Row) : Type 0 where
    pub row : Row
    pub only : day_rows ≡ row ∷ []
    pub from_source : row.source_name ≡ source
    pub ran : is_bad (timing round3 now threshold rows row) ≡ false

  abbrev pub SoundDay : ℕ → Type 0
  SoundDay w = IsSound (rows_at rows w)

  -- The four counts that decide the state.
  record IsClean (ws : List ℕ) : Type 0 where
    nothing_lost : is_empty (lost round3 now threshold rows ws) ≡ true
    no_doubles : doubles round3 now threshold rows ws ≡ 0
    none_bad : bad_rows round3 now threshold rows ws ≡ 0
    no_strangers : strangers round3 now threshold rows source ws ≡ 0
