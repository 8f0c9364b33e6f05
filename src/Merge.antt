-- ===== src/Merge.antt =====
-- src/merge/event_adapter.py and the schemas of src/source/schemas.py: the rows of the current-state
-- tables, and the conversion of events to rows. `Decimal` and the parsing of dates are parameters.
pub mod Ledger
pub mod Engine
pub mod Classify
pub mod Pipeline
pub mod Target
pub mod Files
pub mod Reconciliation
mod Tests
use incremental_cdc_data_pla.Base.{
  String, Bool, Option, none, some, List, [], ◌∷◌, map, keep, ◌==◌, if◌then◌else◌,
}
use incremental_cdc_data_pla.Cdc.{
  ℤ, Value, null, boolean, integer, real, text, sequence, dictionary, Fields, no_fields, field, get,
  Table, accounts, subscriptions, invoices, payments, primary_key,
}
use incremental_cdc_data_pla.Normalization.{NormalizedCdcEvent}

-- `Decimal(s)`, `parse_iso_date(s)` and `parse_iso_timestamp(s)` (`none`: a raise), and `str` of a
-- value that is no text.
pub record External : Type 0 where
  pub decimal : String → Option Value
  pub date : String → Option Value
  pub timestamp : String → Option Value
  pub str : Value → String
  -- Whether `createDataFrame` takes the rows for the schema of a table.
  pub accepts : Table → List Fields → Bool

abbrev pub str_of : External → Value → String
str_of x (text s) = s
str_of x v = x.str v

pub data ColumnType : Type 0 where
  string_type decimal_type date_type timestamp_type : ColumnType

abbrev pub Schema : Type 0
Schema = List (String × ColumnType)

-- `TABLE_SCHEMAS_MAP`: names and types of the columns.
unfoldable pub schema_of : Table → Schema
schema_of accounts =
    ("account_id", string_type)
    ∷ ("account_name", string_type)
    ∷ ("industry", string_type)
    ∷ ("country", string_type)
    ∷ ("status", string_type)
    ∷ ("created_at", timestamp_type)
    ∷ ("updated_at", timestamp_type)
    ∷ []
schema_of subscriptions =
    ("subscription_id", string_type)
    ∷ ("account_id", string_type)
    ∷ ("plan_name", string_type)
    ∷ ("billing_cycle", string_type)
    ∷ ("monthly_amount", decimal_type)
    ∷ ("status", string_type)
    ∷ ("start_date", date_type)
    ∷ ("end_date", date_type)
    ∷ ("created_at", timestamp_type)
    ∷ ("updated_at", timestamp_type)
    ∷ []
schema_of invoices =
    ("invoice_id", string_type)
    ∷ ("subscription_id", string_type)
    ∷ ("invoice_date", date_type)
    ∷ ("due_date", date_type)
    ∷ ("invoice_amount", decimal_type)
    ∷ ("invoice_status", string_type)
    ∷ ("created_at", timestamp_type)
    ∷ ("updated_at", timestamp_type)
    ∷ []
schema_of payments =
    ("payment_id", string_type)
    ∷ ("invoice_id", string_type)
    ∷ ("payment_date", date_type)
    ∷ ("payment_amount", decimal_type)
    ∷ ("payment_method", string_type)
    ∷ ("payment_status", string_type)
    ∷ ("created_at", timestamp_type)
    ∷ ("updated_at", timestamp_type)
    ∷ []

-- A row: the business columns, and `TARGET_METADATA_FIELDS`.
pub record TargetRow : Type 0 where
  pub columns : Fields
  pub last_sequence_number : ℤ
  pub last_event_id : String
  pub last_operation : String
  pub last_event_fingerprint : String
  pub last_source_commit_timestamp : String
  pub last_processing_id : String
  pub is_deleted : Bool
  pub deleted_at : Option String

-- The parser is applied to texts only.
abbrev pub parse_text : (String → Option Value) → Value → Option Value
parse_text parse (text s) = parse s
parse_text parse v = some v

abbrev pub typed : External → ColumnType → Value → Option Value
typed x string_type v = some (text (str_of x v))
typed x decimal_type v = x.decimal (str_of x v)
typed x date_type v = parse_text x.date v
typed x timestamp_type v = parse_text x.timestamp v

-- The branches on the type of a column; a null stays null.
unfoldable pub convert_value : External → ColumnType → Value → Option Value
convert_value x ty null = some null
convert_value x ty (boolean b) = typed x ty (boolean b)
convert_value x ty (integer n) = typed x ty (integer n)
convert_value x ty (real b s) = typed x ty (real b s)
convert_value x ty (text s) = typed x ty (text s)
convert_value x ty (sequence l) = typed x ty (sequence l)
convert_value x ty (dictionary d) = typed x ty (dictionary d)

abbrev pub add_column : String → Option Value → Option Fields → Option Fields
add_column c none rest = none
add_column c (some v) none = none
add_column c (some v) (some d) = some (field c v d)

-- The columns of a row, each taken from a dictionary by `value`.
unfoldable pub convert_columns : External → (String → Value) → Schema → Option Fields
convert_columns x value [] = some no_fields
convert_columns x value ((c, ty) ∷ schema) =
    let rest = convert_columns x value schema in add_column c (convert_value x ty (value c)) rest

abbrev pub or_else_value : Value → Value → Value
or_else_value null w = w
or_else_value v w = v

abbrev pub image : Option Fields → Option Fields → Fields
image (some after) before = after
image none (some before) = before
image none none = no_fields

-- The after-image, or else the before-image; a column that it lacks is looked up in the key.
unfoldable pub event_value : NormalizedCdcEvent → String → Value
event_value e c = or_else_value (get c (image e.payload e.before_payload)) (get c e.business_key)

unfoldable pub is_delete : NormalizedCdcEvent → Bool
is_delete e = e.operation == "DELETE"

abbrev pub row_with : String → NormalizedCdcEvent → Fields → TargetRow
row_with proc e columns = record {
  columns = columns;
  last_sequence_number = e.sequence_number;
  last_event_id = e.event_id;
  last_operation = e.operation;
  last_event_fingerprint = e.event_fingerprint;
  last_source_commit_timestamp = e.source_commit_timestamp;
  last_processing_id = proc;
  is_deleted = is_delete e;
  deleted_at = if is_delete e then some e.source_commit_timestamp else none;
}

abbrev pub row_from : String → NormalizedCdcEvent → Option Fields → Option TargetRow
row_from proc e none = none
row_from proc e (some columns) = some (row_with proc e columns)

unfoldable pub row_of : External → Table → String → NormalizedCdcEvent → Option TargetRow
row_of x t proc e = row_from proc e (convert_columns x (event_value e) (schema_of t))

abbrev pub add_row : Option TargetRow → Option (List TargetRow) → Option (List TargetRow)
add_row none rest = none
add_row (some r) none = none
add_row (some r) (some rows) = some (r ∷ rows)

unfoldable pub convert_rows :
    External → Table → String → List NormalizedCdcEvent → Option (List TargetRow)
convert_rows x t proc [] = some []
convert_rows x t proc (e ∷ es) =
    let rest = convert_rows x t proc es in add_row (row_of x t proc e) rest

abbrev pub accepted : External → Table → Option (List TargetRow) → Option (List TargetRow)
accepted x t none = none
accepted x t (some rows) = if x.accepts t (map (λ r. r.columns) rows) then some rows else none

abbrev pub table_name : Table → String
table_name accounts = "accounts"
table_name subscriptions = "subscriptions"
table_name invoices = "invoices"
table_name payments = "payments"

abbrev pub of_table : Table → NormalizedCdcEvent → Bool
of_table t e = e.table_name == table_name t

-- `convert_events_to_spark_df` of a known table; `none` is a raise.
unfoldable pub convert_events :
    External → Table → String → List NormalizedCdcEvent → Option (List TargetRow)
convert_events x t proc es = accepted x t (convert_rows x t proc (keep (of_table t) es))

-- The value of the primary key column, and the key of a row (`none`: a null).
abbrev pub text_key : Value → Option String
text_key (text s) = some s
text_key _ = none

unfoldable pub row_key : Table → TargetRow → Option String
row_key t r = text_key (get (primary_key t) r.columns)

-- `str(ev.business_key.get(pk))`
abbrev pub str_or_none : External → Value → String
str_or_none x null = "None"
str_or_none x v = str_of x v

unfoldable pub event_key : External → Table → NormalizedCdcEvent → String
event_key x t e = str_or_none x (get (primary_key t) e.business_key)
