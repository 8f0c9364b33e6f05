-- ===== src/Cdc.antt =====
-- src/cdc/models.py: change events, and the Python values that their dictionaries hold; and the
-- table names of src/source/schemas.py.
pub mod Validator
pub mod Engine
pub mod Generator
pub mod Event
pub mod Serialization
pub mod Tests
use incremental_cdc_data_pla.Base.{
  ℕ, String, Bool, true, false, not, Option, none, some, ◌==◌, ltb, leb, is_some, if◌then◌else◌,
}

pub data ℤ : Type 0 where
  pos negsuc : ℕ → ℤ

-- `a <= b`
abbrev pub le_int : ℤ → ℤ → Bool
le_int (pos a) (pos b) = leb a b
le_int (pos a) (negsuc b) = false
le_int (negsuc a) (pos b) = true
le_int (negsuc a) (negsuc b) = leb b a

-- What `json` can produce. A `float` is given by whether it differs from zero, and its text.
mutual
  pub data Value : Type 0 where
    null : Value
    boolean : Bool → Value
    integer : ℤ → Value
    real : Bool → String → Value
    text : String → Value
    sequence : Elements → Value
    dictionary : Fields → Value

  -- A dictionary, in insertion order.
  pub data Fields : Type 0 where
    no_fields : Fields
    field : String → Value → Fields → Fields

  -- What a list holds.
  pub data Elements : Type 0 where
    no_elements : Elements
    element : Value → Elements → Elements

-- `d.get(k)`, and `k in d`.
unfoldable pub get : String → Fields → Value
get k no_fields = null
get k (field j v d) = if j == k then v else get k d

unfoldable pub has : String → Fields → Bool
has k no_fields = false
has k (field j v d) = if j == k then true else has k d

-- `d[k] = v` of a key that `d` lacks.
unfoldable pub add_field : String → Value → Fields → Fields
add_field k v no_fields = field k v no_fields
add_field k v (field j w d) = field j w (add_field k v d)

-- `bool(v)`
abbrev pub truthy : Value → Bool
truthy null = false
truthy (boolean b) = b
truthy (integer (pos n)) = ltb 0 n
truthy (integer (negsuc n)) = true
truthy (real nonzero s) = nonzero
truthy (text s) = not (s == "")
truthy (sequence no_elements) = false
truthy (sequence (element v l)) = true
truthy (dictionary no_fields) = false
truthy (dictionary (field k v d)) = true

pub data CdcOperation : Type 0 where
  insert_op update_op delete_op : CdcOperation

-- The member with a value; `has_value` tells whether there is one.
unfoldable pub operation_of : String → Option CdcOperation
operation_of s =
    if s == "INSERT"
    then some insert_op
    else if s == "UPDATE"
    then some update_op
    else if s == "DELETE"
    then some delete_op
    else none

unfoldable pub has_value : String → Bool
unfolding operation_of
has_value s = is_some (operation_of s)

pub record CdcEvent : Type 0 where
  pub event_id : String
  pub table_name : String
  pub operation : String
  pub business_key : Fields
  pub sequence_number : ℤ
  pub event_timestamp : String
  pub source_commit_timestamp : String
  pub batch_id : String
  pub payload : Option Fields
  pub before_payload : Option Fields
  pub source_system : String

abbrev pub dictionary_or_null : Option Fields → Value
dictionary_or_null none = null
dictionary_or_null (some d) = dictionary d

unfoldable pub to_dict : CdcEvent → Fields
to_dict e = field "event_id" (text e.event_id) (
    field "table_name" (text e.table_name) (
      field "operation" (text e.operation) (
        field "business_key" (dictionary e.business_key) (
          field "sequence_number" (integer e.sequence_number) (
            field "event_timestamp" (text e.event_timestamp) (
              field "source_commit_timestamp" (text e.source_commit_timestamp) (
                field "batch_id" (text e.batch_id) (
                  field "payload" (dictionary_or_null e.payload) (
                    field "before_payload" (dictionary_or_null e.before_payload)
                      (field "source_system" (text e.source_system) no_fields))))))))))

-- The keys of `TABLE_SCHEMAS_MAP` and of `TABLE_PRIMARY_KEYS`.
pub data Table : Type 0 where
  accounts subscriptions invoices payments : Table

unfoldable pub table_of : String → Option Table
table_of s =
    if s == "accounts"
    then some accounts
    else if s == "subscriptions"
    then some subscriptions
    else if s == "invoices"
    then some invoices
    else if s == "payments"
    then some payments
    else none

abbrev pub primary_key : Table → String
primary_key accounts = "account_id"
primary_key subscriptions = "subscription_id"
primary_key invoices = "invoice_id"
primary_key payments = "payment_id"
