-- ===== src/Cdc/Engine/Snapshot.antt =====
-- src/source/mutation_engine.py: the queries on the golden state, and the loading of a snapshot.
use incremental_cdc_data_pla.Base.{
  ℕ, String, Option, none, some, List, [], ◌∷◌, map, Dict, lookup, insert, if◌then◌else◌, length,
}
use incremental_cdc_data_pla.Cdc.{
  ℤ, pos, Fields, get, has, Table, accounts, subscriptions, invoices, payments, table_of,
  primary_key,
}
use incremental_cdc_data_pla.Cdc.Engine.{External, Engine, str_of, set_table}

-- The queries.
unfoldable pub get_record : Table → String → Engine → Option Fields
get_record t k s = lookup k (s.tables t)

unfoldable pub get_table_row_count : Table → Engine → ℕ
get_table_row_count t s = length (s.tables t)

-- `list(d.values())`
abbrev pub values_of : Dict Fields → List Fields
values_of d = map (λ e. e.1) d

-- `none` is the `KeyError` of an unknown table.
abbrev pub records_of : Option Table → Engine → Option (List Fields)
records_of none s = none
records_of (some t) s = some (values_of (s.tables t))

unfoldable pub get_table_records : String → Engine → Option (List Fields)
get_table_records name s = records_of (table_of name) s

unfoldable pub get_snapshot_state : Engine → Dict (List Fields)
get_snapshot_state s =
    ("accounts", values_of (s.tables accounts))
    ∷ ("subscriptions", values_of (s.tables subscriptions))
    ∷ ("invoices", values_of (s.tables invoices))
    ∷ ("payments", values_of (s.tables payments))
    ∷ []

abbrev pub load_row :
    External → Table → Fields → Dict Fields × Dict ℤ → Option (Dict Fields × Dict ℤ)
load_row x t d (rows, sequences) =
    if has (primary_key t) d
    then (let k = str_of x (get (primary_key t) d) in
        some (insert k d rows, insert k (pos 0) sequences))
    else none

unfoldable pub load_rows :
    External → Table → List Fields → Dict Fields × Dict ℤ → Option (Dict Fields × Dict ℤ)
load_rows x t [] at = some at
load_rows x t (d ∷ ds) at = elim (load_row x t d at) [
  | none ↦ none
  | some at' ↦ load_rows x t ds at'
]

abbrev pub load_table : External → Option Table → List Fields → Engine → Option Engine
load_table x none ds s = some s
load_table x (some t) ds s = elim (load_rows x t ds ([], [])) [
  | none ↦ none
  | some (rows, sequences) ↦ some (record s {
    tables = set_table t rows s.tables;
    entity_sequences = set_table t sequences s.entity_sequences;
  })
]

-- Unknown tables are passed over; a row without its primary key raises.
unfoldable pub load_snapshot : External → Dict (List Fields) → Engine → Option Engine
unfolding load_rows
load_snapshot x [] s = some s
load_snapshot x ((name, ds) ∷ l) s = elim (load_table x (table_of name) ds s) [
  | none ↦ none
  | some s' ↦ load_snapshot x l s'
]
