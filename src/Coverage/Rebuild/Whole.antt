-- ===== src/Coverage/Rebuild/Whole.antt =====
-- The whole of `rebuild`.
use signal_observatory.Prelude.{ℕ, List, [], ◌≡◌}
use signal_observatory.Coverage.Rebuild.{
  Mapping, CoverageRow, Facts, rebuild, projections_of, group_into,
}
use signal_observatory.Coverage.Rebuild.Again.{table_again, report_again}
use signal_observatory.Coverage.Rebuild.Groups.{
  MappingsHandled, grouped-UniqueProjections, grouped-AllHandled,
}

-- For mappings of handled sources, whatever the table holds: a rebuild after a rebuild from the same
-- facts, at whatever time, keeps the table, and reports nothing created, updated or deleted.
pub rebuild_again :
    (now later : ℕ) (handled : List ℕ) (facts : Facts) (mappings : List Mapping)
    (rows : List CoverageRow)
    → MappingsHandled handled mappings
    → ((rebuild later handled facts mappings (rebuild now handled facts mappings rows).0).0
        ≡ (rebuild now handled facts mappings rows).0)
      × ((rebuild later handled facts mappings
            (rebuild now handled facts mappings rows).0).1.created
          ≡ 0)
      × ((rebuild later handled facts mappings
            (rebuild now handled facts mappings rows).0).1.updated
          ≡ 0)
      × ((rebuild later handled facts mappings
            (rebuild now handled facts mappings rows).0).1.deleted
          ≡ 0)
unfolding rebuild
rebuild_again now later handled facts mappings rows h =
    let ps = projections_of facts (group_into [] mappings) in
    let u = grouped-UniqueProjections facts mappings in
    let a = grouped-AllHandled facts handled mappings h in
    let (c, d, e) = report_again now handled ps rows u a in
    (table_again now handled ps rows u a later, c, d, e)
