-- ===== src/Watermark/Pipeline/Tests.antt =====
-- Runs of `run_table_extraction`, and the theorems about it at concrete inputs.
use incremental_cdc_data_pla.Base.{
  find_where, update_where, count_where, String, ◌≡◌, refl, ◌⊎◌, Dict, Bool, true, false, ◌||◌,
  Option, none, some, List, [], ◌∷◌, arith, All, lookup, insert, erase, text_lt, strip, sort_by,
  ◌==◌, if◌then◌else◌, ◌≢◌, eq_iff,
}
use incremental_cdc_data_pla.Watermark.Models.{
  CompositeWatermark, initial, is_initial, tuple_lt, as_tuple, tuple_eq, running, watermark_lt,
  watermark_le, watermark_eq, watermark_gt,
}
use incremental_cdc_data_pla.Watermark.Store.{
  runtime_error, WatermarkState, WatermarkRunAudit, Result, ok, raise, state_of, is_candidate,
  is_eligible, order_desc, get_or_create_watermark_state, update_run_audit_window,
  get_recoverable_window, start_run_audit,
}
use incremental_cdc_data_pla.Watermark.Store.Commit.{
  commit_successful_run, complete_run_audit, mark_superseded,
}
use incremental_cdc_data_pla.Watermark.Store.Laws.{IsValid}
use incremental_cdc_data_pla.Watermark.Source.{
  Row, window_rows, cursor_of, max_cursor, in_window, extract_bounded_window, row_lt,
  get_primary_key_column, get_current_source_records, capture_source_high_watermark,
}
use incremental_cdc_data_pla.Watermark.Landing.{
  External, ReadsBack, target_file, temp_file, write_watermark_batch_jsonl,
  read_watermark_batch_jsonl, generate_deterministic_batch_id,
}
use incremental_cdc_data_pla.Watermark.Landing.RoundTrip.{read-write}
use incremental_cdc_data_pla.Watermark.Pipeline.{
  World, Call, Window, ExtractionResult, extract, run_table_extraction, success_result, ◌>>=◌,
  run_hook,
}
use incremental_cdc_data_pla.Watermark.Pipeline.Keeps.{Keeps, Keeps-pure}
use incremental_cdc_data_pla.Watermark.Pipeline.Safety.{failed_run_keeps_checkpoints}
use incremental_cdc_data_pla.Watermark.Pipeline.All.{run_tables, run_all_tables}
use incremental_cdc_data_pla.Watermark.Pipeline.Progress.{extract_succeeds}
use incremental_cdc_data_pla.Watermark.Pipeline.Success.{NoData, Advances, in_source, extract_lem}

abbrev at : String → String → CompositeWatermark
at t k = record { timestamp = some t; key = some k }

abbrev row : String → String → Row
row t k = ("updated_at", some t) ∷ ("account_id", some k) ∷ []

abbrev rows : List Row
rows = row "2" "b" ∷ row "1" "a" ∷ []

-- A stand-in for `json` on the two rows of the test.
abbrev dumps : Row → String
dumps ((c, some t) ∷ r) = if t == "2" then "{b}" else "{a}"
dumps r = "{}"

abbrev loads : String → Option Row
loads s = if s == "{b}" then some (row "2" "b") else if s == "{a}" then some (row "1" "a") else none

abbrev external : External
external = record { dumps = dumps; loads = loads; sha256_16 = λ s. s }

json : All (ReadsBack external) rows
unfolding strip
json = (
  (refl, refl, ground (arith, eq_iff "{b}" "")),
  ((refl, refl, ground (arith, eq_iff "{a}" "")), tt),
)

abbrev state : WatermarkState
state = record {
  table_name = "accounts";
  watermark_column = "updated_at";
  tie_breaker_column = "account_id";
  last_watermark = at "1" "a";
  version = 2;
  last_success_run_id = none;
  updated_at = "now";
}

abbrev audit : WatermarkRunAudit
audit = record {
  run_id = "run_1";
  table_name = "accounts";
  expected_version = none;
  batch_id = none;
  low_watermark = initial;
  high_watermark = initial;
  status = running;
  rows_extracted = 0;
  landing_path = none;
  started_at = "now";
  completed_at = none;
  error_message = none;
}

abbrev world : World
world = record {
  store = record { states = state ∷ []; audits = audit ∷ [] };
  files = [];
  source = record {
    tables = ("accounts", rows) ∷ [];
    primary_keys = ("accounts", "account_id") ∷ [];
  };
  landing_path_str = none;
}

abbrev call : String → Bool → Call
call run_id fails = record {
  table_name = "accounts";
  watermark_column = "updated_at";
  post_capture_hook = none;
  fail_before_landing = false;
  fail_before_commit = fails;
  run_id = run_id;
  pid = "7";
  base_dir = "landing";
  started = "now";
  now = "now";
  write_fault = false;
}

abbrev window : Window
window = record { low = at "1" "a"; high = at "2" "b"; batch = "batch"; version = 2 }

world-IsValid : IsValid world.store
unfolding find_where
world-IsValid = record { tables = (refl, tt); runs = (refl, tt) }

-- Names what a run computes through.
runs : Unit {0}
unfolding tuple_lt as_tuple tuple_eq watermark_lt watermark_le watermark_eq watermark_gt is_initial
    text_lt get_recoverable_window get_or_create_watermark_state order_desc is_candidate is_eligible
    find_where update_where count_where update_run_audit_window commit_successful_run
    complete_run_audit mark_superseded start_run_audit window_rows in_window row_lt sort_by lookup
    insert erase strip cursor_of max_cursor get_primary_key_column capture_source_high_watermark
    extract_bounded_window write_watermark_batch_jsonl read_watermark_batch_jsonl target_file
    temp_file generate_deterministic_batch_id run_table_extraction run_hook ◌>>=◌
runs = tt

abbrev path : String
path = target_file "landing" "accounts" "batch"

read-write_example :
    let (r, files) =
      write_watermark_batch_jsonl external "landing" "accounts" "batch" "7" false rows [] in
    (r ≡ ok path) × (read_watermark_batch_jsonl external path files ≡ ok rows)
read-write_example = read-write external "landing" "accounts" "batch" "7" rows [] json

paths_differ : path ≢ temp_file "landing" "accounts" "batch" "7"
unfolding target_file temp_file
paths_differ = ground (
  arith,
  eq_iff "landing/table=accounts/batch_id=batch/data.jsonl"
      "landing/table=accounts/batch_id=batch/data.jsonl.tmp.7",
)

abbrev landed : Result ExtractionResult × World
landed = extract external (call "run_1" false) window world

abbrev landed_result : ExtractionResult
landed_result = success_result (call "run_1" false) window path (row "2" "b" ∷ [])

landed_runs : landed ≡ (ok landed_result, landed.1)
unfolding extract runs
landed_runs = refl

extract_lem_example :
    (NoData external (call "run_1" false) window world landed_result landed.1
      × (((is_initial window.high || watermark_le window.high window.low) ≡ true)
          ⊎ (in_source external (call "run_1" false) window world.source rows ≡ [])))
    ⊎ Advances external
        (call "run_1" false)
        window
        (in_source external (call "run_1" false) window world.source rows)
        world
        landed_result
        landed.1
unfolding lookup get_current_source_records
extract_lem_example =
    extract_lem external (call "run_1" false) window rows world landed.1 landed_result json
      world-IsValid refl landed_runs

hook_Keeps : Keeps (run_hook (call "run_2" true).post_capture_hook)
unfolding run_hook
hook_Keeps = Keeps-pure tt

abbrev crashed : Result ExtractionResult × World
crashed = run_table_extraction external (call "run_2" true) world

crashed_raises : crashed ≡ (raise runtime_error, crashed.1)
unfolding runs
crashed_raises = refl

failed_run_keeps_checkpoints_example :
    (state_of "accounts" world.store ≡ none)
    ⊎ (state_of "accounts" crashed.1.store ≡ state_of "accounts" world.store)
failed_run_keeps_checkpoints_example =
    failed_run_keeps_checkpoints external (call "run_2" true) hook_Keeps world crashed.1
      runtime_error "accounts" crashed_raises

extract_succeeds_example :
    (u : World) × (extract external (call "run_1" false) window world ≡ (ok landed_result, u))
    × Advances external (call "run_1" false) window (row "2" "b" ∷ []) world landed_result u
unfolding lookup get_current_source_records find_where runs
extract_succeeds_example =
    extract_succeeds external (call "run_1" false) window rows (row "2" "b") [] world state audit
      json refl world-IsValid refl refl refl refl refl refl

abbrev all_run : Result (Dict ExtractionResult) × World
all_run = run_all_tables external (λ n. call "run_2" false) "updated_at" ("accounts" ∷ []) world

abbrev all_results : Dict ExtractionResult
all_results = (elim all_run.0 [ ok results ↦ results | raise e ↦ [] ])

all_run_ok : all_run ≡ (ok all_results, all_run.1)
unfolding runs run_all_tables run_tables
all_run_ok = refl
