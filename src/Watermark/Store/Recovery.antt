-- ===== src/Watermark/Store/Recovery.antt =====
-- What `get_recoverable_window` of src/watermark/control_store.py promises about its answer.
use incremental_cdc_data_pla.Base.{
  String, ◌≡◌, ◌⊎◌, true, Option, none, some, arith, eq_iff, keep, All,
}
use incremental_cdc_data_pla.Watermark.Models.{running, failed, watermark_eq, watermark_lt}
use incremental_cdc_data_pla.Watermark.Models.Order.{watermark_gt-eq-lt}
use incremental_cdc_data_pla.Watermark.Store.{
  WatermarkState, WatermarkRunAudit, ControlStore, ok, state_of, is_candidate, order_desc,
  is_eligible, eligible_only, first, get_recoverable_window,
}
use incremental_cdc_data_pla.Watermark.Store.Outcomes.{create_known}
use incremental_cdc_data_pla.Watermark.Store.History.{NotBefore, candidate_lem}

-- The promise of `get_recoverable_window` about the audit `a` that it returns at the state `st`.
pub record IsRecoverable (t : String) (st : WatermarkState) (a : WatermarkRunAudit) : Type 0 where
  pub of_table : a.table_name ≡ t
  pub unfinished : (a.status ≡ failed) ⊎ (a.status ≡ running)
  pub at_version : a.expected_version ≡ some st.version
  pub from_watermark : watermark_eq a.low_watermark st.last_watermark ≡ true
  pub advances : watermark_lt a.low_watermark a.high_watermark ≡ true
  pub identified : (batch : String) × (a.batch_id ≡ some batch)

IsRecoverable-of :
    (t : String) (st : WatermarkState) (a : WatermarkRunAudit)
    → is_candidate t a ≡ true
    → is_eligible st a ≡ true
    → IsRecoverable t st a
unfolding is_candidate is_eligible
IsRecoverable-of t st a c e = record {
  of_table = ground (arith, eq_iff a.table_name t);
  unfinished = ground arith;
  at_version = ground arith;
  from_watermark = ground arith;
  advances = ground (arith, watermark_gt-eq-lt a.high_watermark a.low_watermark);
  identified = ground arith;
}

eligible_only-some :
    (st : WatermarkState) (o : Option WatermarkRunAudit) (a : WatermarkRunAudit)
    → eligible_only st o ≡ some a
    → (o ≡ some a) × (is_eligible st a ≡ true)
unfolding eligible_only
eligible_only-some st none a h = cc
eligible_only-some st (some b) a h = ground arith

IsRecoverable-from :
    (t : String) (s : ControlStore) (st : WatermarkState) (a : WatermarkRunAudit)
    → eligible_only st (first (order_desc (keep (is_candidate t) s.audits))) ≡ some a
    → IsRecoverable t st a × All (NotBefore a) (keep (is_candidate t) s.audits)
IsRecoverable-from t s st a h =
    let (found, fits) = eligible_only-some st _ a h in
    let (listed, newest) = candidate_lem t s.audits a found in
    (IsRecoverable-of t st a listed fits, newest)

recover_known :
    (t now : String) (s : ControlStore) (st : WatermarkState)
    → state_of t s ≡ some st
    → get_recoverable_window t now s
      ≡ (ok (eligible_only st (first (order_desc (keep (is_candidate t) s.audits)))), s)
unfolding get_recoverable_window
recover_known t now s st e = ground (arith, create_known t "updated_at" "id" now s st e)

-- A window that is returned belongs to an unfinished run of the table that started at the table's
-- present version and watermark and whose HIGH lies above its LOW, and no audit that fits the query
-- started later. The store is left alone.
pub get_recoverable_window_sound :
    (t now : String) (s s' : ControlStore) (st : WatermarkState) (a : WatermarkRunAudit)
    → state_of t s ≡ some st
    → get_recoverable_window t now s ≡ (ok (some a), s')
    → (s' ≡ s) × IsRecoverable t st a × All (NotBefore a) (keep (is_candidate t) s.audits)
get_recoverable_window_sound t now s s' st a found h =
    let run = recover_known t now s st found in
    let both = IsRecoverable-from t s st a (ground (arith, run, h)) in
    (ground (arith, run, h), both.0, both.1)
