-- ===== src/Watermark/Store/Commit.antt =====
-- The writes of src/watermark/control_store.py that end a run: `mark_superseded`,
-- `commit_successful_run`, `commit_watermark_checkpoint`, `complete_run_audit`.
use incremental_cdc_data_pla.Base.{
  update_where, count_where, ℕ, ◌+◌, String, Bool, true, false, ◌&&◌, Option, none, some, eqb,
}
use incremental_cdc_data_pla.Watermark.Models.{
  WatermarkRunStatus, running, success, failed, CompositeWatermark,
}
use incremental_cdc_data_pla.Watermark.Store.{
  commit_error, concurrency_error, Message, superseded_by, WatermarkState, WatermarkRunAudit,
  Action, ok, ◌>>◌, transaction, or_commit_error, raise_if, or_raise, update_audits, is_table,
  is_run, state_of,
}

abbrev pub is_running : WatermarkRunStatus → Bool
is_running running = true
is_running _ = false

abbrev pub fail_superseded : String → String → WatermarkRunAudit → WatermarkRunAudit
fail_superseded new_run now a = record a {
  status = failed;
  completed_at = some now;
  error_message = some (superseded_by new_run);
}

unfoldable pub mark_superseded : String → String → String → Action Unit
unfolding update_audits
mark_superseded r new_run now = or_commit_error (
    transaction
      (update_audits (λ a. is_run r a && is_running a.status) (fail_superseded new_run now)))

-- `COALESCE(?, landing_path)`
abbrev pub coalesce : Option String → Option String → Option String
coalesce none old = old
coalesce (some p) old = some p

abbrev pub set_completed :
    WatermarkRunStatus
    → ℕ
    → Option String
    → Option Message
    → String
    → WatermarkRunAudit
    → WatermarkRunAudit
set_completed status rows path message done a = record a {
  status = status;
  rows_extracted = rows;
  landing_path = coalesce path a.landing_path;
  completed_at = some done;
  error_message = message;
}

unfoldable pub complete_run_audit :
    String → WatermarkRunStatus → ℕ → Option String → Option Message → String → Action Unit
unfolding update_audits
complete_run_audit r status rows path message done =
    or_commit_error
      (transaction (update_audits (is_run r) (set_completed status rows path message done)))

-- `WHERE table_name = ? AND version = ?`
abbrev pub is_table_at : String → ℕ → WatermarkState → Bool
is_table_at t v s = is_table t s && eqb s.version v

abbrev pub advance : CompositeWatermark → String → String → WatermarkState → WatermarkState
advance w run now s = record s {
  last_watermark = w;
  version = s.version + 1;
  last_success_run_id = some run;
  updated_at = now;
}

-- The compare-and-swap update; `rowcount == 0` raises.
swap_watermark : String → ℕ → CompositeWatermark → String → String → Action Unit
swap_watermark t v w run now = do
  (λ s. raise_if (eqb (count_where (is_table_at t v) s.states) 0) concurrency_error s)
  (λ s. (ok tt, record s { states = update_where (is_table_at t v) (advance w run now) s.states }))

abbrev pub set_success : ℕ → String → String → WatermarkRunAudit → WatermarkRunAudit
set_success rows path done a = record a {
  status = success;
  rows_extracted = rows;
  landing_path = some path;
  completed_at = some done;
  error_message = none;
}

set_audit_success : String → ℕ → String → String → Action Unit
unfolding update_audits
set_audit_success run rows path done = do
  (λ s. raise_if (eqb (count_where (is_run run) s.audits) 0) commit_error s)
  update_audits (is_run run) (set_success rows path done)

unfoldable pub commit_successful_run :
    String → ℕ → CompositeWatermark → String → ℕ → String → String → String → Action WatermarkState
unfolding swap_watermark set_audit_success
commit_successful_run t v w run rows path done now = transaction do
  swap_watermark t v w run now
  set_audit_success run rows path done
  (λ s. or_raise (state_of t s) commit_error s)

unfoldable pub commit_watermark_checkpoint :
    String → ℕ → CompositeWatermark → String → String → Action WatermarkState
unfolding swap_watermark
commit_watermark_checkpoint t v w run now =
    transaction do swap_watermark t v w run now; (λ s. or_raise (state_of t s) commit_error s)
