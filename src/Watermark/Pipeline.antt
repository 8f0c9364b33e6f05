-- ===== src/Watermark/Pipeline.antt =====
-- src/watermark/pipeline.py: `run_table_extraction`. A program changes the
-- control store, the landing files and, through the hook of the caller, the source.
pub mod Keeps
pub mod Safety
pub mod Success
pub mod Progress
pub mod All
mod Tests
use incremental_cdc_data_pla.Base.{
  ℕ, String, Bool, not, ◌||◌, Option, none, some, List, [], ◌∷◌, length, eqb, contains,
  if◌then◌else◌,
}
use incremental_cdc_data_pla.Watermark.Models.{
  WatermarkRunStatus, running, success, no_data, failed, CompositeWatermark, initial, is_initial,
  watermark_le,
}
use incremental_cdc_data_pla.Watermark.Store.{
  Error, watermark_error, runtime_error, of_error, WatermarkRunAudit, ControlStore, Result, ok,
  raise, Action, get_or_create_watermark_state, start_run_audit, update_run_audit_window,
  get_recoverable_window,
}
use incremental_cdc_data_pla.Watermark.Store.Commit.{
  mark_superseded, complete_run_audit, commit_successful_run,
}
use incremental_cdc_data_pla.Watermark.Source.{
  Row, SourceAdapter, get_primary_key_column, capture_source_high_watermark, extract_bounded_window,
}
use incremental_cdc_data_pla.Watermark.Landing.{
  External, Files, generate_deterministic_batch_id, write_watermark_batch_jsonl,
  read_watermark_batch_jsonl,
}

-- The state of a run: what it shares with other runs, and its variable `landing_path_str`.
pub record World : Type 0 where
  pub store : ControlStore
  pub files : Files
  pub source : SourceAdapter
  pub landing_path_str : Option String

abbrev pub Program : Type 0 → Type 0
Program A = World → Result A × World

unfoldable pub pure : {A : Type 0} → A → Program A
pure a w = (ok a, w)

unfoldable pub on_store : {A : Type 0} → Action A → Program A
on_store m w = let (r, s) = m w.store in (r, record w { store = s })

unfoldable pub from_source : {A : Type 0} → (SourceAdapter → Result A) → Program A
from_source f w = (f w.source, w)

unfoldable pub raise_when : Bool → Error → Program Unit
raise_when c e w = (if c then raise e else ok tt, w)

-- `if not path.exists(): raise …`
unfoldable pub require_file : String → Program Unit
require_file path w = (if contains path w.files then ok tt else raise watermark_error, w)

abbrev pub continue : {A B : Type 0} → Result A → (A → Program B) → Program B
continue (ok a) f w = f a w
continue (raise e) f w = (raise e, w)

infixl 5 ◌>>=◌ ◌>>◌
unfoldable pub ◌>>=◌ : {A B : Type 0} → Program A → (A → Program B) → Program B
unfolding pure on_store from_source raise_when require_file
◌>>=◌ m f w = let (r, w') = m w in continue r f w'

abbrev pub ◌>>◌ : {A B : Type 0} → Program A → Program B → Program B
m >> k = m >>= λ _. k

pub record ExtractionResult : Type 0 where
  pub table_name : String
  pub run_id : String
  pub batch_id : String
  pub status : WatermarkRunStatus
  pub low_watermark : CompositeWatermark
  pub high_watermark : CompositeWatermark
  pub rows_extracted : ℕ
  pub landing_path : Option String
  pub records : List Row

-- The arguments of one call, and what it takes from its surroundings: the fresh identifier, the
-- process, the clock readings, and whether the operating system fails the landing write.
pub record Call : Type 0 where
  pub table_name : String
  pub watermark_column : String
  pub post_capture_hook : Option (Program Unit)
  pub fail_before_landing : Bool
  pub fail_before_commit : Bool
  pub run_id : String
  pub pid : String
  pub base_dir : String
  pub started : String
  pub now : String
  pub write_fault : Bool

-- The window that steps 2 to 4 resolve.
pub record Window : Type 0 where
  pub low : CompositeWatermark
  pub high : CompositeWatermark
  pub batch : String
  pub version : ℕ

unfoldable pub init_audit : Call → WatermarkRunAudit
init_audit c = record {
  run_id = c.run_id;
  table_name = c.table_name;
  expected_version = none;
  batch_id = none;
  low_watermark = initial;
  high_watermark = initial;
  status = running;
  rows_extracted = 0;
  landing_path = none;
  started_at = c.started;
  completed_at = none;
  error_message = none;
}

unfoldable pub run_hook : Option (Program Unit) → Program Unit
run_hook none = pure tt
run_hook (some hook) = hook

abbrev pub supersede_if_running : WatermarkRunStatus → String → String → String → Action Unit
supersede_if_running running r new_run now s = mark_superseded r new_run now s
supersede_if_running _ r new_run now s = (ok tt, s)

abbrev pub no_data_result : Call → Window → ExtractionResult
no_data_result c v = record {
  table_name = c.table_name;
  run_id = c.run_id;
  batch_id = v.batch;
  status = no_data;
  low_watermark = v.low;
  high_watermark = v.high;
  rows_extracted = 0;
  landing_path = none;
  records = [];
}

abbrev pub success_result : Call → Window → String → List Row → ExtractionResult
success_result c v path records = record {
  table_name = c.table_name;
  run_id = c.run_id;
  batch_id = v.batch;
  status = success;
  low_watermark = v.low;
  high_watermark = v.high;
  rows_extracted = length records;
  landing_path = some path;
  records = records;
}

unfoldable pub finish_no_data : Call → Window → Program ExtractionResult
finish_no_data c v = do
  on_store (complete_run_audit c.run_id no_data 0 none none c.now)
  pure (no_data_result c v)

-- The window of a recoverable audit; `batch_id is not None` is tested again.
abbrev pub reusable : Option WatermarkRunAudit → Option (WatermarkRunAudit × String)
reusable none = none
reusable (some a) = elim a.batch_id [ none ↦ none | some b ↦ some (a, b) ]

module _ (x : External) (c : Call) where
  -- Step 3: the HIGH and batch of a recoverable run, or fresh ones.
  unfoldable pub resolve_high :
      CompositeWatermark
      → Option (WatermarkRunAudit × String)
      → Program (CompositeWatermark × String)
  resolve_high low (some (a, batch)) = do
    on_store (supersede_if_running a.status a.run_id c.run_id c.now)
    pure (a.high_watermark, batch)
  resolve_high low none = do
    high ← from_source (λ src. capture_source_high_watermark src c.table_name c.watermark_column)
    run_hook c.post_capture_hook
    pure (high, generate_deterministic_batch_id x c.table_name low high)

  -- Steps 2 to 4.
  unfoldable pub open_window : Program Window
  unfolding resolve_high
  open_window = do
    pk ← from_source (λ src. ok (get_primary_key_column src c.table_name))
    state ← on_store (get_or_create_watermark_state c.table_name c.watermark_column pk c.now)
    recoverable ← on_store (get_recoverable_window c.table_name c.now)
    (high, batch) ← resolve_high state.last_watermark (reusable recoverable)
    on_store (update_run_audit_window c.run_id state.version state.last_watermark high batch)
    pure
        (record { low = state.last_watermark; high = high; batch = batch; version = state.version })

  -- Step 8 sets `landing_path_str`.
  unfoldable pub write_landing : Window → List Row → Program String
  write_landing v rows w =
      let (r, files) =
        write_watermark_batch_jsonl x c.base_dir c.table_name v.batch c.pid c.write_fault rows
          w.files in
      elim r [
        | ok path ↦ (ok path, record w { files = files; landing_path_str = some path })
        | raise e ↦ (raise e, record w { files = files })
      ]

  unfoldable pub read_landing : String → Program (List Row)
  read_landing path w = (read_watermark_batch_jsonl x path w.files, w)

  -- Steps 7 to 11, for the rows that step 6 extracted.
  unfoldable pub land_and_commit : Window → List Row → Program ExtractionResult
  unfolding write_landing read_landing
  land_and_commit v [] = finish_no_data c v
  land_and_commit v (row ∷ rows) = do
    raise_when c.fail_before_landing runtime_error
    path ← write_landing v (row ∷ rows)
    require_file path
    landed ← read_landing path
    raise_when (not (eqb (length landed) (length (row ∷ rows)))) watermark_error
    raise_when c.fail_before_commit runtime_error
    on_store (
        commit_successful_run c.table_name v.version v.high c.run_id (length (row ∷ rows)) path
          c.now c.now)
    pure (success_result c v path (row ∷ rows))

  -- Steps 5 and 6.
  unfoldable pub extract : Window → Program ExtractionResult
  unfolding land_and_commit
  extract v = if is_initial v.high || watermark_le v.high v.low then finish_no_data c v else do
    records ←
        from_source (λ src. extract_bounded_window src c.table_name v.low v.high c.watermark_column)
    land_and_commit v records

  unfoldable pub run_body : Program ExtractionResult
  unfolding open_window extract
  run_body = do v ← open_window; extract v

  -- `except Exception as e`: the audit of the run is closed as FAILED, and the error goes on.
  unfoldable pub close_audit : Result ExtractionResult × World → Result ExtractionResult × World
  close_audit (ok r, w) = (ok r, w)
  close_audit (raise e, w) =
      let (done, s) =
        complete_run_audit c.run_id failed 0 w.landing_path_str (some (of_error e)) c.now w.store in
      (raise e, record w { store = s })

  unfoldable pub guarded_body : Program ExtractionResult
  unfolding run_body close_audit
  guarded_body w = close_audit (run_body w)

  unfoldable pub run_table_extraction : World → Result ExtractionResult × World
  unfolding guarded_body init_audit
  run_table_extraction w =
      let fresh = record w { landing_path_str = none } in
      (do on_store (start_run_audit (init_audit c)); guarded_body) fresh
