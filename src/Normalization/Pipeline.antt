-- ===== src/Normalization/Pipeline.antt =====
-- src/normalization/pipeline.py: `run_pipeline`, less the writing of its two files.
pub mod Accounts
use incremental_cdc_data_pla.Base.{
  ℕ, ◌+◌, String, Bool, true, false, List, [], ◌∷◌, ◌++◌, map, keep, length, Option, none, some,
  Dict, lookup, insert, text_lt, sort_by, if◌then◌else◌,
}
use incremental_cdc_data_pla.Cdc.{ℤ, Value, dictionary, Fields, get, truthy}
use incremental_cdc_data_pla.Normalization.{
  NormalizedCdcEvent, QuarantinedEvent, QuarantineReasonCode, missing_event_id, unknown_table,
  unsupported_operation, missing_business_key, invalid_business_key, missing_sequence,
  invalid_sequence, missing_event_timestamp, invalid_event_timestamp, missing_commit_timestamp,
  invalid_commit_timestamp, missing_source_system, missing_payload, missing_before_image,
  unexpected_delete_payload, business_key_payload_mismatch, duplicate_event_conflict,
  sequence_conflict, malformed_json, py_str,
}
use incremental_cdc_data_pla.Normalization.Reader.{
  RawFile, Reading, strip_ingestion_metadata, read_raw_cdc_files,
}
use incremental_cdc_data_pla.Normalization.Validator.{
  Verdict, valid, quarantine, raises, validate_raw_cdc_record,
}
use incremental_cdc_data_pla.Normalization.Enrichment.{External, distinct}
use incremental_cdc_data_pla.Normalization.Processor.{Processed, int_lt, lex_lt, process}

-- The values of the enumeration.
unfoldable pub code_name : QuarantineReasonCode → String
code_name missing_event_id = "MISSING_EVENT_ID"
code_name unknown_table = "UNKNOWN_TABLE"
code_name unsupported_operation = "UNSUPPORTED_OPERATION"
code_name missing_business_key = "MISSING_BUSINESS_KEY"
code_name invalid_business_key = "INVALID_BUSINESS_KEY"
code_name missing_sequence = "MISSING_SEQUENCE"
code_name invalid_sequence = "INVALID_SEQUENCE"
code_name missing_event_timestamp = "MISSING_EVENT_TIMESTAMP"
code_name invalid_event_timestamp = "INVALID_EVENT_TIMESTAMP"
code_name missing_commit_timestamp = "MISSING_COMMIT_TIMESTAMP"
code_name invalid_commit_timestamp = "INVALID_COMMIT_TIMESTAMP"
code_name missing_source_system = "MISSING_SOURCE_SYSTEM"
code_name missing_payload = "MISSING_PAYLOAD"
code_name missing_before_image = "MISSING_BEFORE_IMAGE"
code_name unexpected_delete_payload = "UNEXPECTED_DELETE_PAYLOAD"
code_name business_key_payload_mismatch = "BUSINESS_KEY_PAYLOAD_MISMATCH"
code_name duplicate_event_conflict = "DUPLICATE_EVENT_CONFLICT"
code_name sequence_conflict = "SEQUENCE_CONFLICT"
code_name malformed_json = "MALFORMED_JSON"

abbrev pub quarantined_record : QuarantineReasonCode → Fields → QuarantinedEvent
quarantined_record c r = record {
  quarantine_code = c;
  raw_record = dictionary (strip_ingestion_metadata r);
  event_id = get "event_id" r;
  table_name = get "table_name" r;
  source_file = get "source_file" r;
  batch_id = get "batch_id" r;
}

-- What step 2 makes of the parsed records.
pub record Validated : Type 0 where
  pub valid_records : List Fields
  pub quarantined : List QuarantinedEvent

abbrev pub add_verdict : Fields → Verdict → Option Validated → Option Validated
add_verdict r v none = none
add_verdict r valid (some s) = some (record s { valid_records = r ∷ s.valid_records })
add_verdict r (quarantine c) (some s) =
    some (record s { quarantined = quarantined_record c r ∷ s.quarantined })
add_verdict r raises (some s) = none

pub record NormalizationAuditMetrics : Type 0 where
  pub processing_id : String
  pub raw_records_seen : ℕ
  pub parsed_records : ℕ
  pub accepted_records : ℕ
  pub exact_duplicates_dropped : ℕ
  pub quarantined_records : ℕ
  pub malformed_json_records : ℕ
  pub duplicate_event_conflicts : ℕ
  pub sequence_conflicts : ℕ
  pub tables_seen : List String
  pub min_sequence_by_table : Dict ℤ
  pub max_sequence_by_table : Dict ℤ
  pub with_quarantine : Bool

pub record Outcome : Type 0 where
  pub accepted_events : List NormalizedCdcEvent
  pub all_quarantine : List QuarantinedEvent
  pub metrics : NormalizationAuditMetrics

-- `d[t] = n` if `t` is not in `d` or `n` improves on `d[t]`.
abbrev pub improve : (ℤ → ℤ → Bool) → String → ℤ → Option ℤ → Dict ℤ → Dict ℤ
improve better t n none d = insert t n d
improve better t n (some m) d = if better n m then insert t n d else d

unfoldable pub extreme_by_table : (ℤ → ℤ → Bool) → List NormalizedCdcEvent → Dict ℤ → Dict ℤ
extreme_by_table better [] d = d
extreme_by_table better (e ∷ es) d =
    extreme_by_table better es
      (improve better e.table_name e.sequence_number (lookup e.table_name d) d)

module _ (x : External) where
  unfoldable pub validate_records : List Fields → Option Validated
  validate_records [] = some (record { valid_records = []; quarantined = [] })
  validate_records (r ∷ records) =
      let rest = validate_records records in add_verdict r (validate_raw_cdc_record x.python r) rest

  -- `str(v or "")`
  abbrev pub shown : Value → String
  shown v = if truthy v then py_str x.python v else ""

  abbrev pub raw_text : Value → String
  raw_text (dictionary d) = x.dump_image (dictionary d)
  raw_text v = shown v

  -- `_quarantine_sort_key`
  abbrev pub quarantine_lt : QuarantinedEvent → QuarantinedEvent → Bool
  quarantine_lt a b = lex_lt (shown a.table_name) (shown b.table_name) (
      lex_lt (shown a.event_id) (shown b.event_id) (
        lex_lt (code_name a.quarantine_code) (code_name b.quarantine_code) (
          lex_lt (x.json.sha256 (raw_text a.raw_record)) (x.json.sha256 (raw_text b.raw_record))
            (text_lt (shown a.source_file) (shown b.source_file)))))

  abbrev pub some_events : List QuarantinedEvent → Bool
  some_events [] = false
  some_events (q ∷ quarantined) = true

  abbrev pub tables_seen_in : List Fields → List String
  tables_seen_in records = sort_by text_lt (
      distinct x (
        map (λ r. py_str x.python (get "table_name" r))
          (keep (λ r. truthy (get "table_name" r)) records)))

  -- Steps 4 and 6.
  abbrev pub collate : String → Reading → Validated → Processed → Outcome
  collate id raw v p =
      let all =
        sort_by quarantine_lt ((raw.quarantined_events ++ v.quarantined) ++ p.quarantined) in
      record {
        accepted_events = p.accepted;
        all_quarantine = all;
        metrics = record {
          processing_id = id;
          raw_records_seen = length raw.parsed_records + length raw.quarantined_events;
          parsed_records = length raw.parsed_records;
          accepted_records = length p.accepted;
          exact_duplicates_dropped = p.exact_duplicates_dropped;
          quarantined_records = length all;
          malformed_json_records = length raw.quarantined_events;
          duplicate_event_conflicts = p.duplicate_event_conflicts;
          sequence_conflicts = p.sequence_conflicts;
          tables_seen = tables_seen_in raw.parsed_records;
          min_sequence_by_table = extreme_by_table int_lt p.accepted [];
          max_sequence_by_table = extreme_by_table (λ n m. int_lt m n) p.accepted [];
          with_quarantine = some_events all;
        };
      }

  abbrev pub collate_processed : String → Reading → Validated → Option Processed → Option Outcome
  collate_processed id raw v none = none
  collate_processed id raw v (some p) = some (collate id raw v p)

  abbrev pub process_validated : String → Reading → Option Validated → Option Outcome
  process_validated id raw none = none
  process_validated id raw (some v) = collate_processed id raw v (process x v.valid_records)

  abbrev pub process_read : String → Option Reading → Option Outcome
  process_read id none = none
  process_read id (some raw) = process_validated id raw (validate_records raw.parsed_records)

  -- `run_pipeline` with its content-addressed identifier, on the files that exist; `none` is an
  -- exception.
  unfoldable pub run_pipeline : String → List RawFile → Option Outcome
  run_pipeline id files = process_read id (read_raw_cdc_files x.json 0 files)
