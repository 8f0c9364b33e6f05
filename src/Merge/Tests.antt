-- ===== src/Merge/Tests.antt =====
-- A small wave on a small table, and the theorems of the merge at it.
mod Runs
use incremental_cdc_data_pla.Base.{
  String, ◌≡◌, refl, true, false, none, some, List, [], ◌∷◌, lookup, find_where, update_where,
  length, strip, lstrip, rstrip, sort_by, insert_sorted,
}
use incremental_cdc_data_pla.Cdc.{pos, text, Fields, no_fields, field, get, table_of, accounts}
use incremental_cdc_data_pla.Cdc.Engine.{set_table}
use incremental_cdc_data_pla.Normalization.{NormalizedCdcEvent}
use incremental_cdc_data_pla.Delta.{new_rows, rows_delta, rows_delta-IsDelta}
use incremental_cdc_data_pla.Delta.Keys.{row_at}
use incremental_cdc_data_pla.Merge.{
  External, TargetRow, schema_of, convert_value, convert_columns, event_value, is_delete, row_of,
  convert_rows, convert_events, row_key, event_key,
}
use incremental_cdc_data_pla.Merge.Ledger.{
  largest, get_pending_records, get_ledger_record_by_event_id, get_applied_max_sequences,
  record_pending_events, mark_events_applied,
}
use incremental_cdc_data_pla.Merge.Ledger.Applied.{applied_in}
use incremental_cdc_data_pla.Merge.Engine.{
  hard, ok, is_ambiguous, is_upsert, counts_of, apply_upserts, apply_deletes, mutate_wave,
  merge_wave,
}
use incremental_cdc_data_pla.Merge.Engine.Rows.{event_at}
use incremental_cdc_data_pla.Merge.Engine.Effect.{after_event}
use incremental_cdc_data_pla.Merge.Engine.Wave.{mutate_wave_lem}
use incremental_cdc_data_pla.Merge.Engine.Replay.{mutate_wave_twice}
use incremental_cdc_data_pla.Merge.Engine.{Targets}
use incremental_cdc_data_pla.Merge.Classify.{
  incoming, check_pending, classify_event, classify_all, wave_keys, check_waves,
}
use incremental_cdc_data_pla.Merge.Pipeline.{run_wave, run_waves, run_events, run}

-- Names what an operation computes through.
pub runs : Unit {0}
unfolding lookup find_where update_where strip lstrip rstrip sort_by insert_sorted get table_of
    set_table new_rows schema_of convert_value convert_columns event_value is_delete row_of
    convert_rows convert_events row_key event_key largest get_pending_records
    get_ledger_record_by_event_id get_applied_max_sequences record_pending_events
    mark_events_applied applied_in is_ambiguous is_upsert counts_of apply_upserts apply_deletes
    mutate_wave merge_wave incoming check_pending classify_event classify_all wave_keys check_waves
    run_wave run_waves run_events run
runs = tt

abbrev pub external : External
external = record {
  decimal = λ s. some (text s);
  date = λ s. some (text s);
  timestamp = λ s. some (text s);
  str = λ v. "?";
  accepts = λ t rows. true;
}

abbrev pub account : String → String → Fields
account i name = field "account_id" (text i) (field "account_name" (text name) no_fields)

abbrev pub event : String → String → String → NormalizedCdcEvent
event op i name = record {
  event_id = name;
  table_name = "accounts";
  operation = op;
  business_key = field "account_id" (text i) no_fields;
  business_key_canonical = i;
  entity_sequence_key = i;
  sequence_number = pos 2;
  event_timestamp = "t";
  source_commit_timestamp = "t";
  batch_id = "b";
  source_system = "s";
  payload = some (account i name);
  before_payload = none;
  event_fingerprint = name;
  ingestion_batch_id = "b";
  source_file = "f";
  is_late_arrival = false;
}

abbrev pub wave : List NormalizedCdcEvent
wave = event "INSERT" "a" "first" ∷ event "DELETE" "b" "second" ∷ []

abbrev after_wave : List TargetRow
after_wave = (mutate_wave rows_delta external accounts "p" hard wave []).1

wave_test : length after_wave ≡ 1
unfolding runs
wave_test = refl

mutate_wave_lem_example :
    row_at (row_key accounts) "a" after_wave
    ≡ after_event external accounts "p" hard (event_at external accounts "a" wave) none
unfolding runs
mutate_wave_lem_example =
    mutate_wave_lem rows_delta rows_delta-IsDelta external accounts "p" hard wave [] after_wave "a"
      ((refl, refl), ((refl, refl), tt)) refl refl

mutate_wave_twice_example :
    (twice : List TargetRow) × (mutate_wave rows_delta external accounts "p" hard wave after_wave
      ≡ (true, twice))
    × ((k : String) → row_at (row_key accounts) k twice ≡ row_at (row_key accounts) k after_wave)
unfolding runs
mutate_wave_twice_example =
    mutate_wave_twice rows_delta external accounts "p" rows_delta-IsDelta hard wave [] after_wave
      ((refl, refl), ((refl, refl), tt)) refl refl
