-- ===== src/Errors.antt =====
-- The exceptions that the modelled code raises, one constructor for each `raise` site or family.
-- Message texts are left out.

pub data Error : Type 0 where
  -- cron schedules
  cron_format cron_integers cron_range cron_weekday : Error
  naive_datetime date_overflow : Error
  -- the scheduler ledger
  integrity_error different_source not_running bad_finish_status bad_threshold bad_windows : Error
  unsupported_status nonterminal_status : Error
  -- retries
  bad_attempts negative_delay assertion_error retryable_error fatal_error : Error
  -- the arXiv collector
  window_order window_days bad_interval source_inactive no_mappings : Error
  forbidden client_error collection_error parse_error query_error : Error
  -- operations
  unsupported_source : Error
  -- the topic registry
  missing_category missing_source : Error
  -- the stores of the collectors
  bad_json bad_source not_found bad_gzip checksum_mismatch length_mismatch : Error
