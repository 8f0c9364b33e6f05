-- ===== src/Lakeflow/Registration.antt =====
-- databricks/lakeflow/pipeline.py: the views, tables and flows that are registered, as the list
-- of the calls of the pipelines library.
pub mod Wired
use Prim.Native.String.{◌++◌ as concat}
use incremental_cdc_data_pla.Base.{
  ℕ, String, Bool, true, false, not, ◌&&◌, Option, none, some, List, [], ◌∷◌, ◌++◌, map, keep, ◌==◌,
  if◌then◌else◌,
}
use incremental_cdc_data_pla.Cdc.{
  ℤ, Value, null, text, integer, pos, Table, accounts, subscriptions, invoices, payments,
}
use incremental_cdc_data_pla.Merge.{string_type, Schema, schema_of}
use incremental_cdc_data_pla.Lakeflow.{
  TableCdcSpec, spec_of, LakeType, business, long_type, LakeflowConfig,
}

-- `F.col(…)`, `F.lit(…)` and `F.coalesce(…)`.
pub data Expression : Type 0 where
  column : String → Expression
  literal : Value → Expression
  coalesce : List String → Expression

-- `….cast(cast).alias(alias)`
pub record Selected : Type 0 where
  pub expression : Expression
  pub cast : LakeType
  pub alias : String

abbrev pub selected : Expression → LakeType → String → Selected
selected e t a = record { expression = e; cast = t; alias = a }

-- The columns that a view selects; it keeps the rows whose sequence number and key are not null.
pub record View : Type 0 where
  pub name : String
  pub path : String
  pub source_table : Option String
  pub columns : List Selected
  pub not_null : List String

-- `build_snapshot_directory`
unfoldable pub build_snapshot_directory : String → LakeflowConfig → String
build_snapshot_directory name c = concat c.snapshot_base_path (concat "/" name)

unfoldable pub build_snapshot_projection : Table → LakeflowConfig → View
unfolding spec_of schema_of build_snapshot_directory
build_snapshot_projection t c =
    let spec = spec_of t in
    record {
      name = spec.snapshot_source_name;
      path = build_snapshot_directory spec.source_table c;
      source_table = none;
      columns =
          map (λ f. selected (column f.0) (business f.1) f.0) (schema_of t)
          ++ selected (literal (text "SNAPSHOT")) (business string_type) "operation"
            ∷ selected (literal (integer (pos 0))) long_type "sequence_number"
            ∷ selected (literal null) (business string_type) "latest_event_id"
            ∷ selected (literal null) (business string_type) "latest_event_fingerprint"
            ∷ selected (literal null) (business string_type) "latest_source_commit_timestamp"
            ∷ [];
      not_null = "sequence_number" ∷ spec.primary_key ∷ [];
    }

-- The primary key of an event is that of the first image that has it.
abbrev pub key_columns : String → Schema → List Selected
key_columns pk schema =
    map
      (λ f.
        selected
          (coalesce
            (concat "payload." pk ∷ concat "before_payload." pk ∷ concat "business_key." pk ∷ []))
          (business f.1) pk)
      (keep (λ f. f.0 == pk) schema)

abbrev pub other_columns : String → Schema → List Selected
other_columns pk schema =
    map (λ f. selected (column (concat "payload." f.0)) (business f.1) f.0)
      (keep (λ f. not (f.0 == pk)) schema)

unfoldable pub build_cdc_projection : Table → LakeflowConfig → View
unfolding spec_of schema_of
build_cdc_projection t c =
    let spec = spec_of t in
    record {
      name = spec.cdc_source_name;
      path = concat c.normalized_cdc_base_path "/*/accepted.jsonl";
      source_table = some spec.source_table;
      columns =
          key_columns spec.primary_key (schema_of t)
          ++ other_columns spec.primary_key (schema_of t)
          ++ selected (column "operation") (business string_type) "operation"
            ∷ selected (column "sequence_number") long_type "sequence_number"
            ∷ selected (column "event_id") (business string_type) "latest_event_id"
            ∷ selected (column "event_fingerprint") (business string_type)
                "latest_event_fingerprint"
            ∷ selected (column "source_commit_timestamp") (business string_type)
                "latest_source_commit_timestamp"
            ∷ [];
      not_null = "sequence_number" ∷ spec.primary_key ∷ [];
    }

-- The arguments of `create_auto_cdc_flow`; `deletes` is `apply_as_deletes`.
pub record Flow : Type 0 where
  pub name : String
  pub once : Bool
  pub target : String
  pub source : String
  pub keys : List String
  pub sequence_by : String
  pub deletes : Option String
  pub stored_as_scd_type : ℕ
  pub track_history_column_list : List String
  pub except_column_list : List String
  pub ignore_null_updates : Bool

pub data Action : Type 0 where
  temporary_view : View → Action
  create_streaming_table : String → ℤ → Action
  create_auto_cdc_flow : Flow → Action

module _ (spec : TableCdcSpec) (c : LakeflowConfig) where
  abbrev pub hydration : String → String → ℕ → List String → Flow
  hydration name target scd track = record {
    name = name;
    once = true;
    target = target;
    source = spec.snapshot_source_name;
    keys = spec.primary_key ∷ [];
    sequence_by = "sequence_number";
    deletes = none;
    stored_as_scd_type = scd;
    track_history_column_list = track;
    except_column_list = spec.excluded_columns;
    ignore_null_updates = c.ignore_null_updates;
  }

  abbrev pub continuous : String → String → ℕ → List String → Flow
  continuous name target scd track = record {
    name = name;
    once = false;
    target = target;
    source = spec.cdc_source_name;
    keys = spec.primary_key ∷ [];
    sequence_by = "sequence_number";
    deletes = some "operation = 'DELETE'";
    stored_as_scd_type = scd;
    track_history_column_list = track;
    except_column_list = spec.excluded_columns;
    ignore_null_updates = c.ignore_null_updates;
  }

  abbrev pub target_actions : String → String → String → ℕ → List String → List Action
  target_actions target hydrates continues scd track =
      create_streaming_table target c.tombstone_gc_threshold_seconds
      ∷ create_auto_cdc_flow (hydration hydrates target scd track)
      ∷ create_auto_cdc_flow (continuous continues target scd track)
      ∷ []

  -- Only where all four values of the history are given, and none is empty.
  abbrev pub history_actions :
      Option String → Option String → Option String → Option (List String) → List Action
  history_actions (some target) (some hydrates) (some continues) (some (k ∷ track)) =
      if not (target == "") && (not (hydrates == "") && not (continues == ""))
      then target_actions target hydrates continues 2 (k ∷ track)
      else []
  history_actions target hydrates continues track = []

  unfoldable pub register_auto_cdc_flows_for_spec : List Action
  register_auto_cdc_flows_for_spec =
      target_actions spec.target_table_current spec.hydration_flow_name spec.continuous_flow_name 1
        []
      ++ history_actions spec.target_table_history spec.history_hydration_flow_name
          spec.history_continuous_flow_name spec.history_track_columns

unfoldable pub register_lakeflow_table : LakeflowConfig → Table → List Action
unfolding build_snapshot_projection build_cdc_projection register_auto_cdc_flows_for_spec spec_of
register_lakeflow_table c t =
    temporary_view (build_snapshot_projection t c)
    ∷ temporary_view (build_cdc_projection t c)
    ∷ register_auto_cdc_flows_for_spec (spec_of t) c

unfoldable pub register_lakeflow_pipeline : LakeflowConfig → List Action
unfolding register_lakeflow_table
register_lakeflow_pipeline c =
    register_lakeflow_table c accounts
    ++ register_lakeflow_table c subscriptions
    ++ register_lakeflow_table c invoices
    ++ register_lakeflow_table c payments
