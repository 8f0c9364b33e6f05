-- ===== src/Lakeflow/Registration/Wired.antt =====
-- databricks/lakeflow/pipeline.py: what is registered fits together.
use incremental_cdc_data_pla.Base.{
  String, ◌≡◌, refl, Bool, true, not, ◌&&◌, ◌||◌, List, [], ◌∷◌, map, if◌then◌else◌,
}
use incremental_cdc_data_pla.Cdc.{Table, accounts, subscriptions, invoices, payments, primary_key}
use incremental_cdc_data_pla.Merge.{schema_of}
use incremental_cdc_data_pla.Merge.Ledger.{is_one_of}
use incremental_cdc_data_pla.Lakeflow.{
  spec_of, LakeType, StructField, expected_lakeflow_projection_schema, LakeflowConfig,
}
use incremental_cdc_data_pla.Lakeflow.Registration.{
  View, build_snapshot_projection, build_cdc_projection, Action, temporary_view,
  create_streaming_table, create_auto_cdc_flow, register_auto_cdc_flows_for_spec,
  register_lakeflow_table, register_lakeflow_pipeline,
}

-- What was registered so far: the names of views, tables and flows, and the tables with a hydration.
pub record Registered : Type 0 where
  pub views : List String
  pub tables : List String
  pub flows : List String
  pub hydrated : List String

abbrev pub nothing : Registered
nothing = record { views = []; tables = []; flows = []; hydrated = [] }

-- A name is registered once; a flow reads a registered view and writes a registered table; and a
-- table is hydrated before changes are applied to it.
unfoldable pub is_wired : Registered → List Action → Bool
is_wired r [] = true
is_wired r (temporary_view v ∷ actions) =
    let rest = is_wired (record r { views = v.name ∷ r.views }) actions in
    not (is_one_of r.views v.name) && rest
is_wired r (create_streaming_table t seconds ∷ actions) =
    let rest = is_wired (record r { tables = t ∷ r.tables }) actions in
    not (is_one_of r.tables t) && rest
is_wired r (create_auto_cdc_flow f ∷ actions) =
    let s = record r {
      flows = f.name ∷ r.flows;
      hydrated = if f.once then f.target ∷ r.hydrated else r.hydrated;
    } in
    let rest = is_wired s actions in
    not (is_one_of r.flows f.name)
    && (is_one_of r.views f.source
        && (is_one_of r.tables f.target && ((f.once || is_one_of r.hydrated f.target) && rest)))

-- The names and types of the columns of a view, and of a schema.
abbrev pub selected_types : View → List (String × LakeType)
selected_types v = map (λ s. (s.alias, s.cast)) v.columns

abbrev pub field_types : List StructField → List (String × LakeType)
field_types fields = map (λ f. (f.name, f.type)) fields

-- What a table's specification and views agree on with its schema.
pub record IsAligned (c : LakeflowConfig) (t : Table) : Type 0 where
  pub keyed : (spec_of t).primary_key ≡ primary_key t
  pub covers : (spec_of t).business_columns ≡ map (λ f. f.0) (schema_of t)
  pub snapshot_types :
      selected_types (build_snapshot_projection t c)
      ≡ field_types (expected_lakeflow_projection_schema t)
  pub cdc_types :
      selected_types (build_cdc_projection t c)
      ≡ field_types (expected_lakeflow_projection_schema t)

aligned : (c : LakeflowConfig) (t : Table) → IsAligned c t
unfolding spec_of schema_of build_snapshot_projection build_cdc_projection
    expected_lakeflow_projection_schema
aligned c accounts = record { keyed = refl; covers = refl; snapshot_types = refl; cdc_types = refl }
aligned c subscriptions = record {
  keyed = refl;
  covers = refl;
  snapshot_types = refl;
  cdc_types = refl;
}
aligned c invoices = record { keyed = refl; covers = refl; snapshot_types = refl; cdc_types = refl }
aligned c payments = record { keyed = refl; covers = refl; snapshot_types = refl; cdc_types = refl }

-- Under any configuration: each name is registered once, each flow reads a view and writes a table
-- that were registered before it, and a table is hydrated from the snapshot before changes are
-- applied to it. For each table, the key of its specification is its primary key, the business
-- columns are those of its schema, and both views have the names and types of the projection schema.
pub register_lakeflow_pipeline_lem :
    (c : LakeflowConfig)
    → (is_wired nothing (register_lakeflow_pipeline c) ≡ true) × ((t : Table) → IsAligned c t)
unfolding is_wired register_lakeflow_pipeline register_lakeflow_table
    register_auto_cdc_flows_for_spec spec_of build_snapshot_projection build_cdc_projection
register_lakeflow_pipeline_lem c = (refl, aligned c)
