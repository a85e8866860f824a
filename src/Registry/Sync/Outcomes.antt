-- ===== src/Registry/Sync/Outcomes.antt =====
-- The ends of a call of `sync`, and that it converges.
use signal_observatory.Prelude.{
  ℕ, Bool, true, false, ◌||◌, Option, none, some, List, [], ◌∷◌, String, is_empty, ◌≡◌, refl, sym,
  Bool-cases, inl, inr, Result, ok, err,
}
use signal_observatory.Errors.{Error}
use signal_observatory.Registry.Compare.{Registry, RegistryDiff, latest}
use signal_observatory.Registry.Sync.{
  Database, SyncReport, version_row, next_version, apply_registry, compare_database, commit, sync,
  report_of,
}
use signal_observatory.Registry.Sync.Converges.{
  IsWellFormed, IsApplied, Settled, again_lem, Settled-applied, latest_applied,
  apply_registry-IsApplied,
}

pub is_empty_lem : {A : Type 0} {xs : List A} → is_empty xs ≡ true → xs ≡ []
is_empty_lem {xs = []} h = refl
is_empty_lem {xs = x ∷ xs} h = cc

module _ (normalize : String → String) (reg : Registry) (applied_by : String) (now : ℕ)
    (hook : Option Error) (db : Database) where
  abbrev diff : RegistryDiff
  diff = compare_database normalize db reg

  -- How a call can end.
  pub data Outcome (dry_run : Bool) (db' : Database) : Result Error SyncReport → Type 0 where
    kept :
        dry_run || is_empty diff.changes ≡ true
        → db' ≡ db
        → Outcome dry_run db' (ok (report_of reg diff dry_run none))
    failed :
        (e : Error)
        → dry_run || is_empty diff.changes ≡ false
        → db' ≡ db
        → Outcome dry_run db' (err e)
    applied :
        dry_run || is_empty diff.changes ≡ false
        → IsApplied normalize reg diff applied_by now db db'
        → latest db'.versions ≡ some (version_row reg diff applied_by)
        → Outcome dry_run db'
            (ok (report_of reg diff false (some (next_version diff.latest_version))))

  committed :
      (dry_run : Bool) (m : Result Error Database)
      → m ≡ apply_registry normalize reg diff applied_by now hook db
      → dry_run || is_empty diff.changes ≡ false
      → Outcome dry_run (commit normalize db reg diff m).0 (commit normalize db reg diff m).1
  committed dry_run (err e) h q = failed e q refl
  committed dry_run (ok db') h q =
      let a = apply_registry-IsApplied normalize reg applied_by now hook db diff (sym h) in
      applied q a (latest_applied normalize reg applied_by now db db' a)

  -- Each call ends in one of three ways. A dry run, or a database without a change to make, is kept
  -- and reported without a version. An error is raised only by a call that writes, and keeps the
  -- database. Otherwise the categories and the topics are those that the loops give, one version that is the
  -- newest and follows the last one, one audit row for each change and each reviewed collision, and the quality checks are added.
  pub sync-Outcome :
      (dry_run : Bool)
      → Outcome dry_run
          (sync normalize db reg dry_run applied_by now hook).0
          (sync normalize db reg dry_run applied_by now hook).1
  unfolding sync
  sync-Outcome dry_run = elim (Bool-cases (dry_run || is_empty diff.changes)) [
    | inl q ↦ rw q (kept q refl)
    | inr q ↦
        rw q (committed dry_run (apply_registry normalize reg diff applied_by now hook db) refl q)
  ]

  settled_lem :
      {db' : Database} {report : SyncReport}
      → IsWellFormed normalize reg
      → Outcome false db' (ok report)
      → Settled normalize reg db'
  settled_lem w (kept q e) = rw e (is_empty_lem q)
  settled_lem {db'} w (applied q a l) = Settled-applied normalize reg applied_by now db db' w a

  -- For a registry whose keys are distinct and whose parents are its categories, a call that returns
  -- and is no dry run leaves a database on which every later call, a dry run or not and whatever its
  -- hook, finds no change, returns, and keeps the database.
  pub sync-Settled :
      {db' : Database} {report : SyncReport}
      → IsWellFormed normalize reg
      → sync normalize db reg false applied_by now hook ≡ (db', ok report)
      → Settled normalize reg db'
        × ((dry_run : Bool) (applied_by2 : String) (now2 : ℕ) (hook2 : Option Error)
            → sync normalize db' reg dry_run applied_by2 now2 hook2
              ≡ (db', ok (report_of reg (compare_database normalize db' reg) dry_run none)))
  sync-Settled {db'} {report} w h =
      let s = settled_lem w (rw h at (sync-Outcome false)) in
      (
        s,
        λ dry_run applied_by2 now2 hook2.
            again_lem normalize reg dry_run applied_by2 now2 hook2 db' s,
      )
