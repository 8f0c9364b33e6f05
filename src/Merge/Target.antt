-- ===== src/Merge/Target.antt =====
-- src/merge/target_store.py: the bootstrap of the current-state tables and the queries of one. A
-- table is its rows; its path, its history and its earlier versions are not part of the model.
use incremental_cdc_data_pla.Base.{
  ℕ, String, Bool, false, not, ◌||◌, Option, none, some, List, [], ◌∷◌, keep, length, is_some, Dict,
  if◌then◌else◌,
}
use incremental_cdc_data_pla.Cdc.{
  pos, Fields, get, truthy, Table, accounts, subscriptions, invoices, payments, table_of,
  primary_key,
}
use incremental_cdc_data_pla.Cdc.Engine.{set_table}
use incremental_cdc_data_pla.Merge.{
  External, TargetRow, str_of, schema_of, convert_columns, add_row, accepted,
}
use incremental_cdc_data_pla.Merge.Engine.{Targets}

-- What the store raises.
pub data TargetError : Type 0 where
  target_already_initialized conversion_failed table_not_found unknown_table : TargetError
  row_without_key : TargetError

pub data TargetResult {ℓ} (A : Type ℓ) : Type ℓ where
  returned : A → TargetResult A
  failed : TargetError → TargetResult A

unfoldable pub table_exists : Table → Targets → Bool
table_exists t targets = is_some (targets t)

-- `str(r.get("created_at") or "2026-05-11T00:00:00Z")`
abbrev pub created_at_str : External → Fields → String
created_at_str x r =
    if truthy (get "created_at" r) then str_of x (get "created_at" r) else "2026-05-11T00:00:00Z"

abbrev pub snapshot_row : External → Fields → Option Fields → Option TargetRow
snapshot_row x r none = none
snapshot_row x r (some columns) = some (record {
  columns = columns;
  last_sequence_number = pos 0;
  last_event_id = "snapshot_init";
  last_operation = "SNAPSHOT";
  last_event_fingerprint = "snapshot_init";
  last_source_commit_timestamp = created_at_str x r;
  last_processing_id = "snapshot_bootstrap";
  is_deleted = false;
  deleted_at = none;
})

unfoldable pub snapshot_rows : External → Table → List Fields → Option (List TargetRow)
snapshot_rows x t [] = some []
snapshot_rows x t (r ∷ rows) =
    let rest = snapshot_rows x t rows in
    add_row (snapshot_row x r (convert_columns x (λ c. get c r) (schema_of t))) rest

-- One table of the snapshot: a row that cannot be converted is a raise.
abbrev pub write_table :
    String → Table → Option (List TargetRow) → Targets → TargetResult (String × ℕ) × Targets
write_table name t none targets = (failed conversion_failed, targets)
write_table name t (some rows) targets =
    (returned (name, length rows), set_table t (some rows) targets)

abbrev pub add_count : String × ℕ → TargetResult (Dict ℕ) → TargetResult (Dict ℕ)
add_count c (failed e) = failed e
add_count c (returned counts) = returned (c ∷ counts)

abbrev pub and_rest :
    TargetResult (String × ℕ) × Targets
    → (Targets → TargetResult (Dict ℕ) × Targets)
    → TargetResult (Dict ℕ) × Targets
and_rest (failed e, targets) rest = (failed e, targets)
and_rest (returned c, targets) rest = (add_count c (rest targets).0, (rest targets).1)

abbrev pub write_known :
    External
    → String
    → List Fields
    → Option Table
    → Targets
    → (Targets → TargetResult (Dict ℕ) × Targets)
    → TargetResult (Dict ℕ) × Targets
write_known x name rows none targets rest = rest targets
write_known x name rows (some t) targets rest =
    and_rest (write_table name t (accepted x t (snapshot_rows x t rows)) targets) rest

-- The loop over the tables of the snapshot; a name that is not in the schemas is passed over.
unfoldable pub write_snapshot :
    External → Dict (List Fields) → Targets → TargetResult (Dict ℕ) × Targets
write_snapshot x [] targets = (returned [], targets)
write_snapshot x ((name, rows) ∷ snapshot) targets =
    write_known x name rows (table_of name) targets (write_snapshot x snapshot)

abbrev pub some_exists : Targets → Bool
some_exists targets =
    table_exists accounts targets
    || (table_exists subscriptions targets
        || (table_exists invoices targets || table_exists payments targets))

unfoldable pub initialize_targets :
    External → Dict (List Fields) → Bool → Targets → TargetResult (Dict ℕ) × Targets
initialize_targets x snapshot overwrite targets =
    if not overwrite
    then if some_exists targets
      then (failed target_already_initialized, targets)
      else write_snapshot x snapshot targets
    else write_snapshot x snapshot targets

abbrev pub visible_rows : Bool → List TargetRow → List TargetRow
visible_rows include_deleted rows =
    if include_deleted then rows else keep (λ r. not r.is_deleted) rows

abbrev pub read_rows : Bool → Option (List TargetRow) → TargetResult (List TargetRow)
read_rows include_deleted none = failed table_not_found
read_rows include_deleted (some rows) = returned (visible_rows include_deleted rows)

-- `read_current_table` with its metadata columns.
unfoldable pub read_current_table : Table → Bool → Targets → TargetResult (List TargetRow)
read_current_table t include_deleted targets = read_rows include_deleted (targets t)

abbrev pub primary_of : Option Table → TargetResult String
primary_of none = failed unknown_table
primary_of (some t) = returned (primary_key t)

unfoldable pub get_primary_key : String → TargetResult String
get_primary_key name = primary_of (table_of name)
