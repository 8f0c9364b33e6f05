-- ===== src/Merge/Reconciliation/Tests.antt =====
-- The reconciliation of a small table, and its theorem there.
use incremental_cdc_data_pla.Base.{
  String, ◌≡◌, refl, Bool, true, false, none, some, List, [], ◌∷◌, All, Dict, lookup, insert, ◌↔◌,
}
use incremental_cdc_data_pla.Cdc.{
  Fields, get, has, pos, Table, accounts, subscriptions, invoices, payments, primary_key,
}
use incremental_cdc_data_pla.Cdc.Engine.{Engine}
use incremental_cdc_data_pla.Cdc.Engine.Snapshot.{values_of, get_snapshot_state}
use incremental_cdc_data_pla.Merge.{TargetRow}
use incremental_cdc_data_pla.Merge.Engine.{Targets}
use incremental_cdc_data_pla.Merge.Target.{TargetResult, returned, failed, read_current_table}
use incremental_cdc_data_pla.Merge.Tests.{account, external}
use incremental_cdc_data_pla.Merge.Reconciliation.{
  Normalizer, norm_dict, Report, index_by_key, diffs, check_oracle, check_unexpected,
  reconcile_tables, reconcile,
}
use incremental_cdc_data_pla.Merge.Reconciliation.Index.{last_with}
use incremental_cdc_data_pla.Merge.Reconciliation.Agrees.{agrees}
use incremental_cdc_data_pla.Merge.Reconciliation.Equal.{delta_dicts, reconcile_lem}

abbrev kept : TargetRow
kept = record {
  columns = account "a" "Acme";
  last_sequence_number = pos 1;
  last_event_id = "e";
  last_operation = "INSERT";
  last_event_fingerprint = "f";
  last_source_commit_timestamp = "t";
  last_processing_id = "p";
  is_deleted = false;
  deleted_at = none;
}

abbrev buried : TargetRow
buried = record kept { columns = account "b" "Gone"; is_deleted = true }

target_rows : Table → List TargetRow
target_rows accounts = kept ∷ buried ∷ []
target_rows _ = []

golden : String → Table → Dict Fields
golden name accounts = ("a", account "a" name) ∷ []
golden name _ = []

abbrev engine : String → Engine
engine name = record { tables = golden name; entity_sequences = λ t. []; seen_event_ids = [] }

abbrev targets : Targets
targets t = some (target_rows t)

verdict : TargetResult Report → Bool
verdict (failed e) = false
verdict (returned r) = r.is_reconciled

abbrev as_is : Normalizer
as_is v = v

reconciled_test : verdict (reconcile external as_is targets (engine "Acme")) ≡ true
unfolding verdict golden target_rows get has get_snapshot_state read_current_table norm_dict
    index_by_key diffs check_oracle check_unexpected reconcile_tables reconcile lookup insert
reconciled_test = refl

differs_test : verdict (reconcile external as_is targets (engine "Other")) ≡ false
unfolding verdict golden target_rows get has get_snapshot_state read_current_table norm_dict
    index_by_key diffs check_oracle check_unexpected reconcile_tables reconcile lookup insert
differs_test = refl

keyed_golden : (t : Table) → All (λ r. has (primary_key t) r ≡ true) (values_of (golden "Acme" t))
unfolding golden has
keyed_golden accounts = (refl, tt)
keyed_golden subscriptions = tt
keyed_golden invoices = tt
keyed_golden payments = tt

keyed_target : (t : Table) → All (λ r. has (primary_key t) r.columns ≡ true) (target_rows t)
unfolding target_rows has
keyed_target accounts = (refl, (refl, tt))
keyed_target subscriptions = tt
keyed_target invoices = tt
keyed_target payments = tt

reconcile_lem_example :
    (r : Report) × (reconcile external as_is targets (engine "Acme") ≡ returned r)
    × ((r.is_reconciled ≡ true) ↔ (
        (t : Table) (k : String)
        → agrees external
            (last_with external (primary_key t) k (values_of (golden "Acme" t)))
            (last_with external (primary_key t) k (delta_dicts as_is (target_rows t)))
          ≡ true))
reconcile_lem_example =
    reconcile_lem external as_is targets (engine "Acme") target_rows (λ t. refl) keyed_golden
      keyed_target
