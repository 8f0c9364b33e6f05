-- ===== src/Watermark/Tests.antt =====
-- Runs of the watermark subsystem on small inputs, and its theorems at concrete inputs.
use mathlib.Core.List.{Perm}
use incremental_cdc_data_pla.Base.{
  find_where, String, ◌≡◌, refl, none, some, List, [], ◌∷◌, ◌++◌, keep, All, lookup, text_lt,
  sort_by,
}
use incremental_cdc_data_pla.Watermark.Models.{
  CompositeWatermark, initial, tuple_lt, as_tuple, tuple_eq, failed, watermark_lt, watermark_le,
  watermark_eq, watermark_gt,
}
use incremental_cdc_data_pla.Watermark.Store.{
  WatermarkState, WatermarkRunAudit, ControlStore, state_of, is_candidate, order_desc, is_eligible,
  get_or_create_watermark_state, get_recoverable_window,
}
use incremental_cdc_data_pla.Watermark.Store.Commit.{commit_successful_run}
use incremental_cdc_data_pla.Watermark.Store.Laws.{IsValid}
use incremental_cdc_data_pla.Watermark.Store.Atomic.{Commits, commit_successful_run_lem}
use incremental_cdc_data_pla.Watermark.Store.History.{NotBefore}
use incremental_cdc_data_pla.Watermark.Store.Steps.{Reaches, here, next, commit, Reaches-IsValid}
use incremental_cdc_data_pla.Watermark.Store.Monotone.{IsOlder, Reaches-IsOlder}
use incremental_cdc_data_pla.Watermark.Store.Recovery.{IsRecoverable, get_recoverable_window_sound}
use incremental_cdc_data_pla.Watermark.Source.{
  Row, window_rows, cursor_of, max_cursor, in_window, row_lt,
}
use incremental_cdc_data_pla.Watermark.Source.Windows.{windows_adjoin, window_complete}

-- Names what a run on cursors computes through.
cursors : Unit {0}
unfolding tuple_lt as_tuple tuple_eq watermark_lt watermark_le watermark_eq watermark_gt text_lt
cursors = tt

-- Names what a query of the control store computes through.
queries : Unit {0}
unfolding cursors get_recoverable_window get_or_create_watermark_state order_desc is_candidate
    is_eligible find_where
queries = tt

abbrev at : String → String → CompositeWatermark
at t k = record { timestamp = some t; key = some k }

abbrev row : String → String → Row
row t k = ("updated_at", some t) ∷ ("account_id", some k) ∷ []

abbrev rows : List Row
rows = row "2026-01-02" "b" ∷ row "2026-01-01" "a" ∷ row "2026-01-02" "a" ∷ []

abbrev state : WatermarkState
state = record {
  table_name = "accounts";
  watermark_column = "updated_at";
  tie_breaker_column = "account_id";
  last_watermark = at "2026-01-01" "a";
  version = 2;
  last_success_run_id = some "run_0";
  updated_at = "2026-01-03";
}

abbrev audit : WatermarkRunAudit
audit = record {
  run_id = "run_1";
  table_name = "accounts";
  expected_version = some 2;
  batch_id = some "batch_1";
  low_watermark = at "2026-01-01" "a";
  high_watermark = at "2026-01-02" "b";
  status = failed;
  rows_extracted = 0;
  landing_path = none;
  started_at = "2026-01-03";
  completed_at = none;
  error_message = none;
}

abbrev store : ControlStore
store = record { states = state ∷ []; audits = audit ∷ [] }

store-IsValid : IsValid store
unfolding find_where
store-IsValid = record { tables = (refl, tt); runs = (refl, tt) }

-- Equal timestamps are told apart by the key, and the rows come back in order.
window_test :
    window_rows "updated_at" "account_id" (at "2026-01-01" "a") (at "2026-01-02" "a") rows
    ≡ row "2026-01-02" "a" ∷ []
unfolding window_rows in_window cursor_of row_lt sort_by lookup cursors
window_test = refl

commit_successful_run_lem_example :
    Commits "accounts" 2
      (at "2026-01-02" "b")
      "run_1"
      2
      "file"
      "now"
      "now"
      store
      (commit_successful_run "accounts" 2 (at "2026-01-02" "b") "run_1" 2 "file" "now" "now" store)
commit_successful_run_lem_example =
    commit_successful_run_lem "accounts" 2 (at "2026-01-02" "b") "run_1" 2 "file" "now" "now" store
      store-IsValid

-- Two workers commit at the same version: the second is refused.
abbrev after_one : ControlStore
after_one =
    (commit_successful_run "accounts" 2 (at "2026-01-02" "b") "run_1" 2 "file" "now" "now" store).1

abbrev after_both : ControlStore
after_both =
    (commit_successful_run "accounts" 2 (at "2026-01-02" "a") "run_1" 1 "file" "now" "now"
      after_one).1

both : Reaches store after_both
both =
    next (next here (commit "accounts" 2 (at "2026-01-02" "b") "run_1" 2 "file" "now" "now"))
      (commit "accounts" 2 (at "2026-01-02" "a") "run_1" 1 "file" "now" "now")

Reaches-IsOlder_example :
    (st : WatermarkState) × (state_of "accounts" after_both ≡ some st) × IsOlder state st
unfolding find_where
Reaches-IsOlder_example = Reaches-IsOlder "accounts" state both refl

Reaches-IsValid_example : IsValid after_both
Reaches-IsValid_example = Reaches-IsValid store-IsValid both

get_recoverable_window_sound_example :
    (store ≡ store)
    × IsRecoverable "accounts" state audit
    × All (NotBefore audit) (keep (is_candidate "accounts") store.audits)
unfolding queries
get_recoverable_window_sound_example =
    get_recoverable_window_sound "accounts" "now" store store state audit refl refl

windows_adjoin_example :
    Perm (window_rows "updated_at" "account_id" initial (at "2026-01-02" "b") rows) (
      window_rows "updated_at" "account_id" initial (at "2026-01-02" "a") rows
      ++ window_rows "updated_at" "account_id" (at "2026-01-02" "a") (at "2026-01-02" "b") rows)
unfolding cursors
windows_adjoin_example =
    windows_adjoin "updated_at" "account_id" initial (at "2026-01-02" "a") (at "2026-01-02" "b")
      rows refl refl

window_complete_example :
    Perm
      (window_rows "updated_at" "account_id"
        (at "2026-01-01" "a")
        (max_cursor "updated_at" "account_id" initial rows)
        rows)
      (keep (λ r. watermark_lt (at "2026-01-01" "a") (cursor_of "updated_at" "account_id" r)) rows)
window_complete_example = window_complete "updated_at" "account_id" (at "2026-01-01" "a") rows
