-- ===== src/Normalization/Tests.antt =====
-- A record, a file and a few rows, and the theorems of normalization at them.
use incremental_cdc_data_pla.Base.{
  ℕ, ◌+◌, ◌≤◌, String, ◌≡◌, ◌↔◌, refl, true, false, none, some, List, [], ◌∷◌, keep, All, length,
  ◌==◌, arith, lookup, insert, strip, lstrip, rstrip, sort_by, insert_sorted, text_lt,
  if◌then◌else◌,
}
use incremental_cdc_data_pla.Cdc.{
  pos, Value, null, integer, real, text, dictionary, Fields, no_fields, field, get, has,
  CdcOperation, operation_of, Table, table_of,
}
use incremental_cdc_data_pla.Normalization.{IntResult, number, no_integer, overflow, Python}
use incremental_cdc_data_pla.Normalization.Fingerprint.{
  value, decode_error, strings, compute_event_fingerprint,
}
use incremental_cdc_data_pla.Normalization.{NormalizedCdcEvent}
use incremental_cdc_data_pla.Normalization.Event.{
  event_to_dict, event_from_dict, event_from_dict-to_dict,
}
use incremental_cdc_data_pla.Normalization.Validator.{
  valid, raises, check_images, carries, check_rest, validate_raw_cdc_record,
}
use incremental_cdc_data_pla.Normalization.Validator.Fits.{IsAcceptable}
use incremental_cdc_data_pla.Normalization.Validator.Rules.{validate_raw_cdc_record-valid}
use incremental_cdc_data_pla.Normalization.Enrichment.{
  External, Row, distinct, running_max, prior_maxima, enrich, enrich_rows, max_long, is_long,
  create_data_frame,
}
use incremental_cdc_data_pla.Normalization.Processor.{
  same_id, retained, same_slot, accepted_rows, process_rows, process,
}
use incremental_cdc_data_pla.Normalization.Processor.Unique.{
  accepted_rows-one_of_id, accepted_rows_unique,
}
use incremental_cdc_data_pla.Normalization.Reader.{
  RawFile, set_field, strip_ingestion_metadata, read_lines, read_raw_cdc_files,
}
use incremental_cdc_data_pla.Normalization.Reader.Returns.{line_count}
use incremental_cdc_data_pla.Normalization.Pipeline.{
  Outcome, code_name, extreme_by_table, validate_records, run_pipeline,
}
use incremental_cdc_data_pla.Normalization.Pipeline.Accounts.{run_pipeline-accounts}

-- Names what an operation computes through.
runs : Unit {0}
unfolding lookup insert strip lstrip rstrip sort_by insert_sorted text_lt get has operation_of
    table_of strings compute_event_fingerprint check_images carries check_rest
    validate_raw_cdc_record distinct running_max prior_maxima enrich enrich_rows process_rows
    process create_data_frame is_long max_long set_field strip_ingestion_metadata read_lines
    read_raw_cdc_files code_name extreme_by_table validate_records run_pipeline
runs = tt

integer_of : Value → IntResult
integer_of (integer n) = number n
integer_of _ = no_integer

abbrev python : Python
python = record {
  str = λ v. "?";
  upper = λ s. if s == "insert" then "INSERT" else s;
  int = integer_of;
  reads_timestamp = λ s. true;
}

-- An account, by its name, inserted at the sequence number 1.
abbrev raw : String → Fields
raw s = field "event_id" (text s) (
    field "table_name" (text "accounts") (
      field "operation" (text "insert") (
        field "business_key" (dictionary (field "account_id" (text s) no_fields)) (
          field "sequence_number" (integer (pos 1)) (
            field "event_timestamp" (text "t") (
              field "source_commit_timestamp" (text "t") (
                field "source_system" (text "s") (
                  field "payload" (dictionary (field "account_id" (text s) no_fields))
                    no_fields))))))))

accepted_test : validate_raw_cdc_record python (raw "a") ≡ valid
unfolding runs integer_of
accepted_test = refl

null_key_test :
    validate_raw_cdc_record python (
      set_field "business_key"
        (dictionary (field "account_id" null no_fields))
        (set_field "payload" (dictionary (field "account_id" null no_fields)) (raw "a")))
    ≡ valid
unfolding runs integer_of
null_key_test = refl

overflow_test : validate_raw_cdc_record (record python { int = λ v. overflow }) (raw "a") ≡ raises
unfolding runs
overflow_test = refl

validate_raw_cdc_record-valid_example :
    (validate_raw_cdc_record python (raw "a") ≡ valid)
    ↔ ((t : Table) × (o : CdcOperation) × (key : Fields) × IsAcceptable python (raw "a") t o key)
validate_raw_cdc_record-valid_example = validate_raw_cdc_record-valid python (raw "a")

abbrev external : External
external = record {
  python = python;
  json = record {
    dumps = λ d. "{}";
    loads = λ s. if s == "{" then decode_error else value (dictionary (raw s));
    sha256 = λ s. s;
  };
  instant = λ s. none;
  dump_image = λ v. "{}";
  load_image = λ s. no_fields;
}

abbrev file : RawFile
file = record { batch_id_hint = "b"; logical_source_file = "f"; lines = "a" ∷ "{" ∷ "" ∷ "c" ∷ [] }

run_pipeline-accounts_example :
    (o : Outcome) × (run_pipeline external "p" (file ∷ []) ≡ some o)
    × (o.metrics.raw_records_seen
        ≡ length o.accepted_events + (length o.all_quarantine + o.metrics.exact_duplicates_dropped))
unfolding runs integer_of max_long line_count
run_pipeline-accounts_example =
    run_pipeline-accounts external (λ n. refl) "p" (file ∷ [])
      ((refl, (refl, (refl, (refl, tt)))), tt) (omega arith)

abbrev row : String → ℕ → Row
row s n = record {
  event_id = s;
  table_name = "accounts";
  operation = "INSERT";
  business_key = no_fields;
  business_key_canonical = s;
  entity_sequence_key = s;
  sequence_number = pos 1;
  event_timestamp = "t";
  source_commit_timestamp = "t";
  batch_id = "b";
  payload_json = none;
  before_payload_json = none;
  source_system = "s";
  source_file = "f";
  ingestion_batch_id = "b";
  ingestion_order = pos n;
  event_fingerprint = s;
  is_late_arrival = false;
}

abbrev rows : List Row
rows = row "a" 1 ∷ row "b" 2 ∷ row "a" 3 ∷ []

-- A sequence number of 64 bits and more passes the validator, and the processor raises.
too_long_test :
    process external
      (set_field "sequence_number" (integer (pos 9_223_372_036_854_775_808)) (raw "a") ∷ [])
    ≡ none
unfolding runs integer_of
too_long_test = refl

-- `int` cuts a fraction off, so the validator accepts one.
fraction_test :
    validate_raw_cdc_record
      (record python { int = λ v. number (pos 1) })
      (set_field "sequence_number" (real true "1.5") (raw "a"))
    ≡ valid
unfolding runs
fraction_test = refl

retained_test : length (accepted_rows (retained rows)) ≡ 2
unfolding runs
retained_test = refl

accepted_rows-one_of_id_example :
    length (keep (λ s. s.event_id == "a") (accepted_rows (retained rows))) ≤ 1
accepted_rows-one_of_id_example =
    accepted_rows-one_of_id "a" rows ((refl, (refl, tt)), ((refl, tt), (tt, tt)))

accepted_rows_unique_example :
    All
      (λ r.
        (length (keep (same_slot r) (accepted_rows (retained rows))) ≤ 1)
        × All (λ s. same_id r s ≡ true → s.event_fingerprint == r.event_fingerprint ≡ true) rows)
      (accepted_rows (retained rows))
accepted_rows_unique_example = accepted_rows_unique rows

abbrev event : NormalizedCdcEvent
event = record {
  event_id = "e";
  table_name = "accounts";
  operation = "DELETE";
  business_key = field "account_id" (text "a") no_fields;
  business_key_canonical = "a";
  entity_sequence_key = "accounts:a";
  sequence_number = pos 2;
  event_timestamp = "t";
  source_commit_timestamp = "t";
  batch_id = "b";
  source_system = "s";
  payload = none;
  before_payload = some (field "account_id" (text "a") no_fields);
  event_fingerprint = "h";
  ingestion_batch_id = "b";
  source_file = "f";
  is_late_arrival = true;
}

event_from_dict-to_dict_example :
    event_from_dict python (λ v. none) (event_to_dict event) ≡ some event
unfolding integer_of
event_from_dict-to_dict_example = event_from_dict-to_dict python (λ v. none) event refl
