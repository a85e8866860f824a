-- ===== src/Tests/RegistryTests.antt =====
-- A synchronisation of the topic registry at a concrete database.
use signal_observatory.Prelude.{
  ℕ, ◌≡◌, refl, Bool, true, false, Option, none, some, [], ◌∷◌, ok, err, String,
}
use signal_observatory.Errors.{Error, client_error, integrity_error}
use signal_observatory.Registry.Values.{
  TopicStatus, AliasStatus, AliasType, MatchMode, CategoryDefinition, AliasContent, SourceConfig,
  TopicDefinition, TopicRow,
}
use signal_observatory.Registry.Compare.{Registry, compare, latest}
use signal_observatory.Registry.Entries.{changes, sync_entries, sync_entries_old}
use signal_observatory.Registry.Entries.Texts.{sort_texts}
use signal_observatory.Registry.Loader.{definition_issues, sort_by}
use signal_observatory.Registry.Loader.WellFormed.{sort_by-IsWellFormed}
use signal_observatory.Registry.Sync.{
  Database, sync, ensure_sources, sync_categories, compare_database, report_of,
}
use signal_observatory.Registry.Sync.Converges.{IsWellFormed, Settled}
use signal_observatory.Registry.Sync.Outcomes.{sync-Settled}
use signal_observatory.Registry.Sync.Audit.{IsAudited, sync-IsAudited}
use signal_observatory.Registry.Sync.Refines.{catalogue, wanted_catalogue, lay, catalogue-sync}

abbrev ai : CategoryDefinition
ai = record { name = "AI"; slug = "ai"; description = none; parent = none; sort_order = 1 }

abbrev ml : CategoryDefinition
ml = record {
  name = "ML";
  slug = "ml";
  description = some "Learning";
  parent = some "ai";
  sort_order = 2;
}

abbrev gpt : AliasContent
gpt = record {
  value = "GPT";
  normalized = "gpt";
  alias_type = AliasType.abbreviation;
  match_mode = MatchMode.phrase;
  case_sensitive = false;
  status = AliasStatus.active;
  confidence = 90;
  metadata = "{}";
}

abbrev arxiv : SourceConfig
arxiv = record { source_name = "arxiv"; enabled = true; field = "queries"; values = "all:llm" ∷ [] }

abbrev llm : TopicDefinition
llm = record {
  canonical_name = "llm";
  slug = "llm";
  description = "Models";
  category = "ml";
  status = TopicStatus.active;
  monitoring_priority = 80;
  aliases = gpt ∷ [];
  sources = arxiv ∷ [];
  metadata = "{}";
}

abbrev reg : Registry
reg = record {
  categories = ai ∷ ml ∷ [];
  topics = llm ∷ [];
  checksum = "c1";
  source_file_count = 2;
  warnings = [];
}

-- A topic that the registry no longer has; one category has an old name, the other is missing.
abbrev vr : TopicRow
vr = record {
  canonical_name = "vr";
  normalized_name = "vr";
  slug = "vr";
  description = none;
  category = none;
  status = TopicStatus.paused;
  monitoring_priority = 50;
  deprecated_at = none;
  registry_version = none;
  metadata = "{}";
  aliases = record { source = none; content = gpt } ∷ [];
  mappings = [];
}

abbrev db : Database
db = record {
  sources = [];
  categories = record ml { name = "old" } ∷ [];
  topics = vr ∷ [];
  versions = [];
  audit = [];
  checks = [];
}

abbrev fold : String → String
fold s = s

abbrev after : Database
after = (sync fold db reg false "cli" 7 none).0

runs :
    sync fold db reg false "cli" 7 none
    ≡ (after, ok (report_of reg (compare_database fold db reg) false (some 1)))
unfolding sync compare changes ensure_sources sort_texts sync_categories sync_entries
    sync_entries_old latest
runs = refl

hook_fails : (sync fold db reg false "cli" 7 (some client_error)).1 ≡ err client_error
unfolding sync compare changes ensure_sources sort_texts sync_categories sync_entries
    sync_entries_old
hook_fails = refl

reg-IsWellFormed : IsWellFormed fold reg
reg-IsWellFormed = record {
  categories = (refl, (refl, tt));
  parents = (tt, (refl, tt));
  topics = (refl, tt);
  parts = (((refl, tt), (refl, tt)), tt);
}

catalogue-sync_example : catalogue fold after ≡ lay (wanted_catalogue fold reg) (catalogue fold db)
catalogue-sync_example = catalogue-sync fold reg "cli" 7 none db reg-IsWellFormed runs

sync-IsAudited_example : IsAudited reg (compare_database fold db reg) 1 db after
unfolding compare changes latest
sync-IsAudited_example = sync-IsAudited fold reg "cli" 7 none db refl runs

sync-Settled_example :
    Settled fold reg after
    × ((dry_run : Bool) (applied_by : String) (now : ℕ) (hook : Option Error)
        → sync fold after reg dry_run applied_by now hook
          ≡ (after, ok (report_of reg (compare_database fold after reg) dry_run none)))
sync-Settled_example = sync-Settled fold reg "cli" 7 none db reg-IsWellFormed runs

-- A second alias of the topic, which the loader takes for another one because it is case-sensitive.
abbrev same_text : Registry
same_text = record reg {
  topics = record llm { aliases = gpt ∷ record gpt { case_sensitive = true } ∷ [] } ∷ [];
}

same_text_fails : (sync fold db same_text false "cli" 7 none).1 ≡ err integrity_error
unfolding sync compare changes ensure_sources sort_texts sync_categories sync_entries
    sync_entries_old
same_text_fails = refl

no_issue : definition_issues fold (ml ∷ ai ∷ []) (llm ∷ []) ≡ []
unfolding definition_issues
no_issue = refl

sort_by-IsWellFormed_example : IsWellFormed fold (record {
  categories = sort_by (λ c. c.slug) (ml ∷ ai ∷ []);
  topics = sort_by (λ d. d.slug) (llm ∷ []);
  checksum = "c1";
  source_file_count = 2;
  warnings = [];
})
sort_by-IsWellFormed_example =
    sort_by-IsWellFormed fold (ml ∷ ai ∷ []) (llm ∷ []) "c1" 2 [] ((refl, tt), tt) ((refl, tt), tt)
      no_issue
