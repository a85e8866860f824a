-- ===== src/Registry/Sync/Audit.antt =====
-- What a call of `sync` that has a change to make leaves beside the catalogue: the audit log, the sources, and the version.
use signal_observatory.Prelude.{
  ℕ, ◌+◌, ◌≤◌, ◌<◌, false, Option, none, some, List, [], ◌∷◌, ◌++◌, map, length, length-append,
  String, select, is_empty, ◌≡◌, refl, ap, suc, arith, if◌then◌else◌, ok, Member, All, All-mono,
  leb,
}
use signal_observatory.Errors.{Error}
use signal_observatory.Registry.Compare.Warnings.{Warning}
use signal_observatory.Registry.Compare.{Registry, RegistryDiff, Version, latest}
use signal_observatory.Registry.Sync.{
  Database, SyncReport, AuditRow, applied as audited, review, is_collision, audit_rows,
  compare_database, sync, next_version,
}
use signal_observatory.Registry.Sync.Converges.{IsApplied, version_of, diff_version}
use signal_observatory.Registry.Sync.Outcomes.{Outcome, kept, applied, sync-Outcome}
use signal_observatory.Registry.Sync.Sources.{
  HasRow, Member-front, Member-back, Member-map, All-each, ensure_sources-Ensured,
}

length-map : {A B : Type 0} (f : A → B) (xs : List A) → length (map f xs) ≡ length xs
length-map f [] = refl
length-map f (x ∷ xs) = ap suc (length-map f xs)

-- From the database before a call to the one after it. `version` is the call's.
pub record IsAudited (reg : Registry) (diff : RegistryDiff) (version : ℕ) (db db' : Database)
    : Type 0 where
  pub newer : All (λ v. v.version < version) db.versions
  pub changes : All (λ c. Member (audited version c) db'.audit) diff.changes
  pub reviews : All (λ w. Member (review version w) db'.audit) (select is_collision reg.warnings)
  pub rows :
      length db'.audit
      ≡ length db.audit + length diff.changes + length (select is_collision reg.warnings)
  pub kept : All (λ r. Member r db'.audit) db.audit
  pub sources : All (λ d. All (λ s. HasRow db'.sources s.source_name) d.sources) reg.topics
  pub sources_kept : All (λ r. Member r db'.sources) db.sources

-- The next version is newer than every row.
abbrev IsBelow : ℕ → List Version → Type 0
IsBelow n vs = All (λ v. v.version < n) vs

IsBelow-mono : (n m : ℕ) (vs : List Version) → n ≤ m → IsBelow n vs → IsBelow m vs
IsBelow-mono n m vs h b =
    All-mono (λ w. w.version < n) (λ w. w.version < m) vs (λ w k. omega (arith, k, h)) b

later-IsBelow :
    (o : Option Version) (v : Version) (vs : List Version)
    → IsBelow (next_version (version_of o)) vs
    → IsBelow
        (next_version (
          version_of
            (elim o [ none ↦ some v | some u ↦ some (if leb v.version u.version then u else v) ])))
        (v ∷ vs)
later-IsBelow none v vs h = (omega arith, IsBelow-mono 1 (v.version + 1) vs (omega arith) h)
later-IsBelow (some u) v vs h = (
  ground arith,
  IsBelow-mono (u.version + 1) ((if leb v.version u.version then u else v).version + 1) vs
      (ground arith) h,
)

latest-IsBelow : (vs : List Version) → IsBelow (next_version (version_of (latest vs))) vs
unfolding latest
latest-IsBelow [] = tt
latest-IsBelow (v ∷ vs) = later-IsBelow (latest vs) v vs (latest-IsBelow vs)

module _ (reg : Registry) (diff : RegistryDiff) (version : ℕ) (before after : List AuditRow)
    (e : after ≡ before ++ audit_rows version diff.changes reg.warnings) where
  abbrev reviews : List Warning
  reviews = select is_collision reg.warnings

  changes_lem : All (λ c. Member (audited version c) after) diff.changes
  changes_lem = All-each _ diff.changes (λ c m. rw e (
      Member-back _ before _ (
        Member-front _ (map (audited version) diff.changes) (map (review version) reviews)
          (Member-map (audited version) c diff.changes m))))

  reviews_lem : All (λ w. Member (review version w) after) reviews
  reviews_lem = All-each _ reviews (λ w m. rw e (
      Member-back _ before _ (
        Member-back _ (map (audited version) diff.changes) (map (review version) reviews)
          (Member-map (review version) w reviews m))))

  kept_lem : All (λ r. Member r after) before
  kept_lem = All-each _ before (λ r m. rw e (Member-front r before _ m))

  rows_lem : length after ≡ length before + length diff.changes + length reviews
  rows_lem = rw e (
      omega (
        arith,
        length-append before (audit_rows version diff.changes reg.warnings),
        length-append (map (audited version) diff.changes) (map (review version) reviews),
        length-map (audited version) diff.changes,
        length-map (review version) reviews,
      ))

module _ (normalize : String → String) (reg : Registry) (applied_by : String) (now : ℕ)
    (hook : Option Error) (db : Database) where
  abbrev diff : RegistryDiff
  diff = compare_database normalize db reg

  abbrev version : ℕ
  version = next_version diff.latest_version

  applied_lem :
      {db' : Database}
      → IsApplied normalize reg diff applied_by now db db'
      → IsAudited reg diff version db db'
  applied_lem {db'} a =
      let s = ensure_sources-Ensured reg db.sources a.sources in
      record {
        newer = rw (diff_version normalize reg db) (latest-IsBelow db.versions);
        changes = changes_lem reg diff version db.audit db'.audit a.audit;
        reviews = reviews_lem reg diff version db.audit db'.audit a.audit;
        rows = rows_lem reg diff version db.audit db'.audit a.audit;
        kept = kept_lem reg diff version db.audit db'.audit a.audit;
        sources = s.0;
        sources_kept = s.1;
      }

  outcome_lem :
      {db' : Database} {report : SyncReport}
      → is_empty diff.changes ≡ false
      → Outcome normalize reg applied_by now hook db false db' (ok report)
      → IsAudited reg diff version db db'
  outcome_lem some' (kept q e) = cc
  outcome_lem some' (applied q a l) = applied_lem a

  -- After a call that returns, is no dry run and has a change to make: its version is newer than every
  -- version before it; the audit log has gained a row of this version for each change and for each
  -- reviewed alias collision, as many rows as there are of these, and has lost none; each source that a
  -- topic of the registry is mapped to has a row, and no row of a source is lost.
  pub sync-IsAudited :
      {db' : Database} {report : SyncReport}
      → is_empty diff.changes ≡ false
      → sync normalize db reg false applied_by now hook ≡ (db', ok report)
      → IsAudited reg diff version db db'
  sync-IsAudited some' h =
      outcome_lem some' (rw h at (sync-Outcome normalize reg applied_by now hook db false))
