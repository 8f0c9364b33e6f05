-- ===== src/Lakeflow.antt =====
-- databricks/lakeflow/contracts.py and config.py: the specification of each table, and the
-- deployment configuration.
pub mod Registration
pub mod Config
mod Tests
use incremental_cdc_data_pla.Base.{
  ℕ, String, Bool, true, false, Option, none, some, List, [], ◌∷◌, ◌++◌, map, ◌==◌,
}
use incremental_cdc_data_pla.Cdc.{
  ℤ, Table, accounts, subscriptions, invoices, payments, primary_key,
}
use incremental_cdc_data_pla.Merge.{ColumnType, string_type, Schema, schema_of}

pub record TableCdcSpec : Type 0 where
  pub source_table : String
  pub primary_key : String
  pub business_columns : List String
  pub target_table_current : String
  pub snapshot_source_name : String
  pub cdc_source_name : String
  pub hydration_flow_name : String
  pub continuous_flow_name : String
  pub target_table_history : Option String
  pub history_hydration_flow_name : Option String
  pub history_continuous_flow_name : Option String
  pub history_track_columns : Option (List String)
  pub excluded_columns : List String

-- The types of `TABLE_SCHEMAS_MAP`, and `LongType`.
pub data LakeType : Type 0 where
  business : ColumnType → LakeType
  long_type : LakeType

pub record StructField : Type 0 where
  pub name : String
  pub type : LakeType
  pub nullable : Bool

abbrev pub struct_field : String → LakeType → Bool → StructField
struct_field n t b = record { name = n; type = t; nullable = b }

-- The fields of a table's schema; only the end date of a subscription may be null.
abbrev pub base_fields : Schema → List StructField
base_fields schema = map (λ c. struct_field c.0 (business c.1) (c.0 == "end_date")) schema

unfoldable pub expected_lakeflow_projection_schema : Table → List StructField
unfolding schema_of
expected_lakeflow_projection_schema t =
    base_fields (schema_of t)
    ++ struct_field "operation" (business string_type) false
      ∷ struct_field "sequence_number" long_type false
      ∷ struct_field "latest_event_id" (business string_type) true
      ∷ struct_field "latest_event_fingerprint" (business string_type) true
      ∷ struct_field "latest_source_commit_timestamp" (business string_type) true
      ∷ []

abbrev pub default_excluded : List String
default_excluded = "operation" ∷ "sequence_number" ∷ []

-- `TABLE_CDC_SPECS`
unfoldable pub spec_of : Table → TableCdcSpec
spec_of accounts = record {
  source_table = "accounts";
  primary_key = "account_id";
  business_columns =
      "account_id" ∷ "account_name" ∷ "industry" ∷ "country" ∷ "status" ∷ "created_at"
      ∷ "updated_at" ∷ [];
  target_table_current = "accounts_current";
  snapshot_source_name = "accounts_snapshot_source";
  cdc_source_name = "accounts_cdc_source";
  hydration_flow_name = "accounts_initial_hydration";
  continuous_flow_name = "accounts_continuous_cdc";
  target_table_history = none;
  history_hydration_flow_name = none;
  history_continuous_flow_name = none;
  history_track_columns = none;
  excluded_columns = default_excluded;
}
spec_of subscriptions = record {
  source_table = "subscriptions";
  primary_key = "subscription_id";
  business_columns =
      "subscription_id" ∷ "account_id" ∷ "plan_name" ∷ "billing_cycle" ∷ "monthly_amount" ∷ "status"
      ∷ "start_date" ∷ "end_date" ∷ "created_at" ∷ "updated_at" ∷ [];
  target_table_current = "subscriptions_current";
  snapshot_source_name = "subscriptions_snapshot_source";
  cdc_source_name = "subscriptions_cdc_source";
  hydration_flow_name = "subscriptions_initial_hydration";
  continuous_flow_name = "subscriptions_continuous_cdc";
  target_table_history = some "subscriptions_history";
  history_hydration_flow_name = some "subscriptions_history_initial_hydration";
  history_continuous_flow_name = some "subscriptions_history_continuous_cdc";
  history_track_columns = some (
      "account_id" ∷ "plan_name" ∷ "billing_cycle" ∷ "monthly_amount" ∷ "status" ∷ "start_date"
      ∷ "end_date" ∷ []);
  excluded_columns = default_excluded;
}
spec_of invoices = record {
  source_table = "invoices";
  primary_key = "invoice_id";
  business_columns =
      "invoice_id" ∷ "subscription_id" ∷ "invoice_date" ∷ "due_date" ∷ "invoice_amount"
      ∷ "invoice_status" ∷ "created_at" ∷ "updated_at" ∷ [];
  target_table_current = "invoices_current";
  snapshot_source_name = "invoices_snapshot_source";
  cdc_source_name = "invoices_cdc_source";
  hydration_flow_name = "invoices_initial_hydration";
  continuous_flow_name = "invoices_continuous_cdc";
  target_table_history = none;
  history_hydration_flow_name = none;
  history_continuous_flow_name = none;
  history_track_columns = none;
  excluded_columns = default_excluded;
}
spec_of payments = record {
  source_table = "payments";
  primary_key = "payment_id";
  business_columns =
      "payment_id" ∷ "invoice_id" ∷ "payment_date" ∷ "payment_amount" ∷ "payment_method"
      ∷ "payment_status" ∷ "created_at" ∷ "updated_at" ∷ [];
  target_table_current = "payments_current";
  snapshot_source_name = "payments_snapshot_source";
  cdc_source_name = "payments_cdc_source";
  hydration_flow_name = "payments_initial_hydration";
  continuous_flow_name = "payments_continuous_cdc";
  target_table_history = none;
  history_hydration_flow_name = none;
  history_continuous_flow_name = none;
  history_track_columns = none;
  excluded_columns = default_excluded;
}

pub record LakeflowConfig : Type 0 where
  pub catalog : String
  pub schema : String
  pub snapshot_base_path : String
  pub normalized_cdc_base_path : String
  pub tombstone_gc_threshold_seconds : ℤ
  pub ignore_null_updates : Bool
