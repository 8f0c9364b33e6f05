-- ===== src/Cdc/Tests.antt =====
-- The validator and the mutation engine on small inputs, and their theorems at concrete inputs.
use incremental_cdc_data_pla.Base.{
  ◌≡◌, refl, ◌↔◌, true, false, not, ◌&&◌, ◌==◌, some, none, List, [], ◌∷◌, map, lookup, insert,
  erase, text_lt, sort_by, strip, if◌then◌else◌,
}
use incremental_cdc_data_pla.Cdc.{
  pos, text, dictionary, sequence, no_elements, Fields, no_fields, field, get, has, operation_of,
  CdcEvent, to_dict, accounts, table_of,
}
use incremental_cdc_data_pla.Cdc.Validator.{
  sequence_invalid, ValidationResult, add_error_if, check_table, check_operation, check_key,
  check_timestamp, check_images, check_head, check_tail, replace_z, parse_iso_timestamp,
  validate_data, validate, lacks_fields,
}
use incremental_cdc_data_pla.Cdc.Validator.Rules.{IsWellFormed, validate_lem}
use incremental_cdc_data_pla.Cdc.Validator.Raises.{is_unhashable, validate_data_raises}
use incremental_cdc_data_pla.Cdc.Engine.{
  External, Engine, set_table, is_seen, mark_seen, current_sequence, mutate, write_event,
  with_updated_at, entity_of, apply_to, apply_event, MutationResult, batch_step, apply_all,
  event_lt, apply_batch,
}
use incremental_cdc_data_pla.Cdc.Engine.Snapshot.{get_record, load_snapshot}
use incremental_cdc_data_pla.Cdc.Event.{Casts, raw, apply_incoming_batch, apply_incoming_batch-raw}
use incremental_cdc_data_pla.Cdc.Engine.Batch.{Rises, total}
use incremental_cdc_data_pla.Cdc.Engine.Replay.{apply_each, apply_batch_lem, apply_batch_replay}

-- Names what a run of the engine computes through.
runs : Unit {0}
unfolding get has operation_of to_dict table_of add_error_if check_table check_operation check_key
    check_timestamp check_images check_head check_tail replace_z parse_iso_timestamp validate_data
    validate strip set_table is_seen mark_seen current_sequence mutate write_event with_updated_at
    entity_of apply_to apply_event batch_step apply_all event_lt apply_batch get_record
    load_snapshot lookup insert erase sort_by text_lt
runs = tt

abbrev pub external : External
external = record {
  timestamps = λ s. if s == "2026-01-01T00:00:00+00:00" then true else false;
  str = λ v. "";
  key_text = λ d. "";
}

abbrev row : Fields
row = field "account_id" (text "A") (field "name" (text "Acme") no_fields)

abbrev pub created : CdcEvent
created = record {
  event_id = "e1";
  table_name = "accounts";
  operation = "INSERT";
  business_key = field "account_id" (text "A") no_fields;
  sequence_number = pos 1;
  event_timestamp = "2026-01-01T00:00:00Z";
  source_commit_timestamp = "2026-01-01T00:00:00Z";
  batch_id = "b";
  payload = some row;
  before_payload = none;
  source_system = "crm";
}

abbrev deleted : CdcEvent
deleted = record created {
  event_id = "e2";
  operation = "DELETE";
  sequence_number = pos 2;
  payload = none;
  before_payload = some row;
}

abbrev bad : CdcEvent
bad = record created { event_id = "e3"; sequence_number = pos 0 }

abbrev empty : Engine
empty = record { tables = λ t. []; entity_sequences = λ t. []; seen_event_ids = [] }

abbrev events : List CdcEvent
events = deleted ∷ bad ∷ created ∷ created ∷ []

abbrev result : MutationResult
result = record {
  applied_count = 2;
  duplicate_count = 1;
  stale_sequence_count = 0;
  invalid_count = 1;
  errors = sequence_invalid ∷ [];
}

abbrev final : Engine
final = (elim (apply_batch external true events empty) [ none ↦ empty | some (m, s) ↦ s ])

-- Sorted by sequence, the row is created, then deleted.
batch_test : apply_batch external true events empty ≡ some (result, final)
unfolding runs
batch_test = refl

record_test : get_record accounts "A" final ≡ none
unfolding runs
record_test = refl

validate_lem_example :
    (r : ValidationResult) × (validate external.timestamps deleted ≡ some r)
    × ((r.is_valid ≡ true) ↔ IsWellFormed external.timestamps deleted)
validate_lem_example = validate_lem external.timestamps deleted

apply_batch_lem_example :
    (m : MutationResult) × (s' : Engine) × (apply_batch external true events empty ≡ some (m, s'))
    × (total m ≡ 4)
    × Rises empty s'
    × (apply_each external (sort_by (event_lt external) events) empty ≡ some s')
apply_batch_lem_example = apply_batch_lem external true events empty

apply_batch_replay_example :
    (m' : MutationResult) × (apply_batch external false events final ≡ some (m', final))
    × (m'.applied_count ≡ 0)
apply_batch_replay_example =
    apply_batch_replay external true false events empty final result batch_test

abbrev odd : Fields
odd =
    field "table_name" (sequence no_elements)
      (field "business_key" (dictionary (field "account_id" (text "A") no_fields)) no_fields)

-- An event whose table name is a list makes the validator raise.
odd_test : validate_data external.timestamps odd ≡ none
unfolding runs
odd_test = refl

validate_data_raises_example :
    (validate_data external.timestamps odd ≡ none)
    ↔ ((is_unhashable (get "table_name" odd) && not (lacks_fields (get "business_key" odd))) ≡ true)
validate_data_raises_example = validate_data_raises external.timestamps odd

abbrev casts : Casts
casts = record { str = λ v. ""; int = λ v. none; dict = λ v. none }

apply_incoming_batch-raw_example :
    apply_incoming_batch casts external true (map (λ e. raw (to_dict e)) events) empty
    ≡ apply_batch external true events empty
apply_incoming_batch-raw_example = apply_incoming_batch-raw casts external true events empty
