-- ===== src/Merge/Reconciliation.antt =====
-- src/merge/reconciliation.py: the comparison of the current-state tables with the golden state of
-- src/source/mutation_engine.py.
pub mod Index
pub mod Agrees
pub mod Equal
mod Tests
use incremental_cdc_data_pla.Base.{
  ℕ, String, Bool, true, false, not, ◌||◌, Option, none, some, List, [], ◌∷◌, ◌++◌, map, length,
  eqb, ◌==◌, is_some, Dict, lookup, insert, if◌then◌else◌,
}
use incremental_cdc_data_pla.Cdc.{
  Value, null, Fields, no_fields, field, get, has, Table, accounts, subscriptions, invoices,
  payments, primary_key,
}
use incremental_cdc_data_pla.Cdc.Engine.{Engine}
use incremental_cdc_data_pla.Cdc.Engine.Snapshot.{get_snapshot_state}
use incremental_cdc_data_pla.Merge.{External, TargetRow, str_of}
use incremental_cdc_data_pla.Merge.Engine.{Targets}
use incremental_cdc_data_pla.Merge.Target.{
  TargetResult, returned, failed, row_without_key, read_current_table,
}

-- What a value of a Delta row becomes, by its type: a decimal with two places, a time or a date in
-- ISO format, and the text of another value that is no number.
abbrev pub Normalizer : Type 0
Normalizer = Value → Value

abbrev pub norm_value : Normalizer → Value → Value
norm_value f null = null
norm_value f v = f v

unfoldable pub norm_dict : Normalizer → Fields → Fields
norm_dict f no_fields = no_fields
norm_dict f (field k v d) = field k (norm_value f v) (norm_dict f d)

-- What is wrong with a primary key: `oracle` and `delta` of the rows, or the columns that differ.
pub data Mismatch : Type 0 where
  missing : String → Fields → Mismatch
  differs : String → List (String × Value × Value) → Mismatch
  unexpected : String → Fields → Mismatch

abbrev pub Counts : Type 0
Counts = ℕ × ℕ

pub record Report : Type 0 where
  pub is_reconciled : Bool
  pub counts : Dict Counts
  pub mismatches : Dict (List Mismatch)

-- `oracle_state.get(table_name, [])`
abbrev pub or_no_rows : Option (List Fields) → List Fields
or_no_rows none = []
or_no_rows (some rows) = rows

module _ (x : External) where
  -- `{str(r[pk]): r for r in rows}`; a row without the primary key raises.
  unfoldable pub index_by_key : String → List Fields → Dict Fields → Option (Dict Fields)
  index_by_key pk [] d = some d
  index_by_key pk (r ∷ rows) d =
      let rest = index_by_key pk rows (insert (str_of x (get pk r)) r d) in
      if has pk r then rest else none

  -- The columns of the oracle's row that differ as texts.
  unfoldable pub diffs : Fields → Fields → List (String × Value × Value)
  diffs no_fields d = []
  diffs (field c v o) d =
      let rest = diffs o d in
      if str_of x v == str_of x (get c d) then rest else (c, v, get c d) ∷ rest

  abbrev pub compare_columns :
      String → List (String × Value × Value) → List Mismatch → List Mismatch
  compare_columns k [] rest = rest
  compare_columns k (c ∷ cs) rest = differs k (c ∷ cs) ∷ rest

  abbrev pub compare_row : String → Fields → Option Fields → List Mismatch → List Mismatch
  compare_row k o none rest = missing k o ∷ rest
  compare_row k o (some d) rest = compare_columns k (diffs o d) rest

  -- The loop over the oracle's rows, and the one over the rows of the table.
  unfoldable pub check_oracle : Dict Fields → Dict Fields → List Mismatch
  unfolding diffs
  check_oracle [] delta = []
  check_oracle ((k, o) ∷ oracle) delta =
      let rest = check_oracle oracle delta in compare_row k o (lookup k delta) rest

  unfoldable pub check_unexpected : Dict Fields → Dict Fields → List Mismatch
  check_unexpected oracle [] = []
  check_unexpected oracle ((k, d) ∷ delta) =
      let rest = check_unexpected oracle delta in
      if not (is_some (lookup k oracle)) then unexpected k d ∷ rest else rest

  abbrev pub table_mismatches : Dict Fields → Dict Fields → List Mismatch
  table_mismatches oracle delta = check_oracle oracle delta ++ check_unexpected oracle delta

  abbrev pub any_mismatch : List Mismatch → Bool
  any_mismatch [] = false
  any_mismatch (m ∷ ms) = true

  -- A table's part of the report, before those of the tables that follow.
  abbrev pub add_table : String → Dict Fields → Dict Fields → Report → Report
  add_table name oracle delta r =
      let wrong =
        any_mismatch (table_mismatches oracle delta) || not (eqb (length delta) (length oracle)) in
      record {
        is_reconciled = if wrong then false else r.is_reconciled;
        counts = (name, (length delta, length oracle)) ∷ r.counts;
        mismatches =
            if wrong then (name, table_mismatches oracle delta) ∷ r.mismatches else r.mismatches;
      }

  abbrev pub and_report : TargetResult Report → (Report → Report) → TargetResult Report
  and_report (failed e) f = failed e
  and_report (returned r) f = returned (f r)

  abbrev pub compare_tables :
      String → Dict Fields → Option (Dict Fields) → TargetResult Report → TargetResult Report
  compare_tables name oracle none rest = failed row_without_key
  compare_tables name oracle (some delta) rest = and_report rest (add_table name oracle delta)

  abbrev pub delta_index :
      Normalizer → String → TargetResult (List TargetRow) → TargetResult (Option (Dict Fields))
  delta_index f pk (failed e) = failed e
  delta_index f pk (returned rows) =
      returned (index_by_key pk (map (λ r. norm_dict f r.columns) rows) [])

  abbrev pub compare_read :
      String
      → Option (Dict Fields)
      → TargetResult (Option (Dict Fields))
      → TargetResult Report
      → TargetResult Report
  compare_read name none delta rest = failed row_without_key
  compare_read name (some oracle) (failed e) rest = failed e
  compare_read name (some oracle) (returned delta) rest = compare_tables name oracle delta rest

  abbrev pub table_names : List (String × Table)
  table_names =
      ("accounts", accounts)
      ∷ ("subscriptions", subscriptions)
      ∷ ("invoices", invoices)
      ∷ ("payments", payments)
      ∷ []

  -- The loop over the tables.
  unfoldable pub reconcile_tables :
      Normalizer → Dict (List Fields) → Targets → List (String × Table) → TargetResult Report
  unfolding index_by_key norm_dict check_oracle check_unexpected
  reconcile_tables f state targets [] =
      returned (record { is_reconciled = true; counts = []; mismatches = [] })
  reconcile_tables f state targets ((name, t) ∷ names) =
      let rest = reconcile_tables f state targets names in
      compare_read name (index_by_key (primary_key t) (or_no_rows (lookup name state)) [])
        (delta_index f (primary_key t) (read_current_table t false targets)) rest

  unfoldable pub reconcile : Normalizer → Targets → Engine → TargetResult Report
  unfolding reconcile_tables
  reconcile f targets s = reconcile_tables f (get_snapshot_state s) targets table_names
