-- ===== src/Normalization/Processor.antt =====
-- src/normalization/processor.py: duplicates, conflicts and order of the valid records. A Spark frame
-- is the list of its rows; a window function is computed from the rows of the partition.
pub mod Accounts
pub mod Unique
use incremental_cdc_data_pla.Base.{
  ℕ, ◌+◌, suc, String, Bool, true, false, not, ◌&&◌, Option, none, some, List, [], ◌∷◌, ◌++◌, map,
  keep, any, length, eqb, ltb, ◌==◌, text_lt, sort_by, if◌then◌else◌,
}
use incremental_cdc_data_pla.Cdc.{
  ℤ, le_int, Value, null, integer, text, dictionary, Fields, no_fields, field,
}
use incremental_cdc_data_pla.Normalization.{
  NormalizedCdcEvent, QuarantinedEvent, QuarantineReasonCode, duplicate_event_conflict,
  sequence_conflict,
}
use incremental_cdc_data_pla.Normalization.Enrichment.{
  External, Row, prior_maxima, sorted_batch_ids, enrich_rows, create_data_frame,
}

-- What `process` returns.
pub record Processed : Type 0 where
  pub accepted : List NormalizedCdcEvent
  pub quarantined : List QuarantinedEvent
  pub exact_duplicates_dropped : ℕ
  pub duplicate_event_conflicts : ℕ
  pub sequence_conflicts : ℕ

-- The comparison of tuples, text by text.
abbrev pub lex_lt : String → String → Bool → Bool
lex_lt s t rest = if text_lt s t then true else if text_lt t s then false else rest

abbrev pub int_lt : ℤ → ℤ → Bool
int_lt a b = not (le_int b a)

-- `event_id_order_window`
abbrev pub provenance_lt : Row → Row → Bool
provenance_lt a b = lex_lt a.batch_id b.batch_id (
    lex_lt a.ingestion_batch_id b.ingestion_batch_id
      (lex_lt a.source_file b.source_file (int_lt a.ingestion_order b.ingestion_order)))

abbrev pub same_id : Row → Row → Bool
same_id r s = s.event_id == r.event_id

-- `distinct_fingerprints > 1`
abbrev pub conflicts : List Row → Row → Bool
conflicts rows r = any (λ s. same_id r s && not (s.event_fingerprint == r.event_fingerprint)) rows

-- `event_id_rn`, for rows of different provenance.
abbrev pub row_number : List Row → Row → ℕ
row_number rows r = suc (length (keep (λ s. same_id r s && provenance_lt s r) rows))

-- `total_event_id_count`
abbrev pub total_event_id_count : List Row → Row → ℕ
total_event_id_count rows r = length (keep (same_id r) rows)

abbrev pub exact_duplicate : List Row → Row → Bool
exact_duplicate rows r =
    not (conflicts rows r) && (ltb 1 (total_event_id_count rows r) && ltb 1 (row_number rows r))

abbrev pub retained : List Row → List Row
retained rows = keep (λ r. not (conflicts rows r) && eqb (row_number rows r) 1) rows

abbrev pub same_slot : Row → Row → Bool
same_slot r s =
    s.entity_sequence_key == r.entity_sequence_key
    && (le_int s.sequence_number r.sequence_number && le_int r.sequence_number s.sequence_number)

-- `seq_collision_count`
abbrev pub collisions : List Row → Row → ℕ
collisions rows r = length (keep (same_slot r) rows)

-- Step 7.
abbrev pub output_lt : Row → Row → Bool
output_lt a b = lex_lt a.table_name b.table_name (
    lex_lt a.business_key_canonical b.business_key_canonical (
      if int_lt a.sequence_number b.sequence_number
      then true
      else if int_lt b.sequence_number a.sequence_number
      then false
      else text_lt a.event_id b.event_id))

abbrev pub accepted_rows : List Row → List Row
accepted_rows rows = sort_by output_lt (keep (λ r. eqb (collisions rows r) 1) rows)

module _ (x : External) where
  abbrev pub load : Option String → Option Fields
  load none = none
  load (some s) = if s == "" then none else some (x.load_image s)

  abbrev pub or_null : Option Fields → Value
  or_null none = null
  or_null (some d) = dictionary d

  abbrev pub raw_record : Row → Fields
  raw_record r = field "event_id" (text r.event_id) (
      field "table_name" (text r.table_name) (
        field "operation" (text r.operation) (
          field "business_key" (dictionary r.business_key) (
            field "sequence_number" (integer r.sequence_number) (
              field "event_timestamp" (text r.event_timestamp) (
                field "source_commit_timestamp" (text r.source_commit_timestamp) (
                  field "batch_id" (text r.batch_id) (
                    field "payload" (or_null (load r.payload_json)) (
                      field "before_payload" (or_null (load r.before_payload_json))
                        (field "source_system" (text r.source_system) no_fields))))))))))

  abbrev pub quarantined_row : QuarantineReasonCode → Row → QuarantinedEvent
  quarantined_row c r = record {
    quarantine_code = c;
    raw_record = dictionary (raw_record r);
    event_id = text r.event_id;
    table_name = text r.table_name;
    source_file = text r.source_file;
    batch_id = text r.batch_id;
  }

  abbrev pub event_of : Row → NormalizedCdcEvent
  event_of r = record {
    event_id = r.event_id;
    table_name = r.table_name;
    operation = r.operation;
    business_key = r.business_key;
    business_key_canonical = r.business_key_canonical;
    entity_sequence_key = r.entity_sequence_key;
    sequence_number = r.sequence_number;
    event_timestamp = r.event_timestamp;
    source_commit_timestamp = r.source_commit_timestamp;
    batch_id = r.batch_id;
    source_system = r.source_system;
    payload = load r.payload_json;
    before_payload = load r.before_payload_json;
    event_fingerprint = r.event_fingerprint;
    ingestion_batch_id = r.ingestion_batch_id;
    source_file = r.source_file;
    is_late_arrival = r.is_late_arrival;
  }

  -- Steps 4 to 7.
  unfoldable pub process_rows : List Row → Processed
  process_rows rows =
      let doubled = keep (conflicts rows) rows in
      let clashing = keep (λ r. ltb 1 (collisions (retained rows) r)) (retained rows) in
      record {
        accepted = map event_of (accepted_rows (retained rows));
        quarantined =
            map (quarantined_row duplicate_event_conflict) doubled
            ++ map (quarantined_row sequence_conflict) clashing;
        exact_duplicates_dropped = length (keep (exact_duplicate rows) rows);
        duplicate_event_conflicts = length doubled;
        sequence_conflicts = length clashing;
      }

  abbrev pub process_frame : Option (List Row) → Option Processed
  process_frame none = none
  process_frame (some rows) = some (process_rows rows)

  abbrev pub process_enriched : Option (List Row) → Option Processed
  process_enriched none = none
  process_enriched (some rows) = process_frame (create_data_frame rows)

  -- `process`; `none` is an exception.
  unfoldable pub process : List Fields → Option Processed
  process [] = some (record {
    accepted = [];
    quarantined = [];
    exact_duplicates_dropped = 0;
    duplicate_event_conflicts = 0;
    sequence_conflicts = 0;
  })
  process (r ∷ records) = process_enriched (
      enrich_rows x (prior_maxima x (r ∷ records) (sorted_batch_ids x (r ∷ records)) none)
        (r ∷ records))
