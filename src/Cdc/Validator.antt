-- ===== src/Cdc/Validator.antt =====
-- src/cdc/validator.py: the rules on a change event. Messages are told apart by constructors. The
-- standard library's acceptance of a timestamp is a parameter.
pub mod Rules
pub mod Raises
use Prim.Native.String.{◌++◌ as concat}
use incremental_cdc_data_pla.Base.{
  String, Bool, true, false, not, ◌||◌, Option, none, some, List, [], ◌∷◌, ◌++◌, ◌==◌, ltb, is_some,
  if◌then◌else◌, strip,
}
use incremental_cdc_data_pla.Cdc.{
  pos, Value, null, integer, text, sequence, dictionary, Fields, no_fields, field, get, has, truthy,
  CdcOperation, insert_op, update_op, delete_op, operation_of, CdcEvent, to_dict, Table, table_of,
  primary_key,
}

pub data Message : Type 0 where
  event_id_missing table_missing table_unsupported operation_missing : Message
  operation_unsupported key_missing key_without_primary sequence_invalid : Message
  event_timestamp_missing event_timestamp_malformed : Message
  commit_timestamp_missing commit_timestamp_malformed : Message
  batch_id_missing source_system_missing : Message
  insert_without_payload insert_with_before : Message
  update_without_payload update_without_before : Message
  delete_with_payload delete_without_before : Message

pub record ValidationResult : Type 0 where
  pub is_valid : Bool
  pub errors : List Message
  pub event_id : Value
  pub table_name : Value

unfoldable pub add_error : Message → ValidationResult → ValidationResult
add_error m r = record r { is_valid = false; errors = r.errors ++ m ∷ [] }

unfoldable pub add_error_if : Bool → Message → ValidationResult → ValidationResult
unfolding add_error
add_error_if c m r = if c then add_error m r else r

-- `datetime.fromisoformat(s)` and the conversion to UTC do not raise.
abbrev pub Timestamps : Type 0
Timestamps = String → Bool

-- `ts_str.replace("Z", "+00:00")` of src/utils/helpers.py.
unfoldable pub replace_z : String → String
replace_z String.[] = ""
replace_z (String.◌∷◌ c s) =
    let rest = replace_z s in
    if String.◌∷◌ c "" == "Z" then concat "+00:00" rest else String.◌∷◌ c rest

unfoldable pub parse_iso_timestamp : Timestamps → String → Bool
unfolding replace_z
parse_iso_timestamp x s = x (replace_z s)

-- `not v or not isinstance(v, str) or not v.strip()`
abbrev pub is_blank : Value → Bool
is_blank (text s) = s == "" || strip s == ""
is_blank _ = true

unfoldable pub check_table : Value → ValidationResult → ValidationResult
check_table (text s) r =
    if s == ""
    then add_error table_missing r
    else add_error_if (not (is_some (table_of s))) table_unsupported r
check_table _ r = add_error table_missing r

unfoldable pub check_operation : Value → ValidationResult → ValidationResult
check_operation (text s) r =
    if s == ""
    then add_error operation_missing r
    else add_error_if (not (is_some (operation_of s))) operation_unsupported r
check_operation _ r = add_error operation_missing r

abbrev pub needs_primary : Option Table → Fields → ValidationResult → ValidationResult
needs_primary none k r = r
needs_primary (some t) k r =
    add_error_if (not (has (primary_key t) k) || not (truthy (get (primary_key t) k)))
      key_without_primary r

-- `table_name in TABLE_PRIMARY_KEYS`: an unhashable table name raises (`none`).
abbrev pub needs_primary_of : Value → Fields → ValidationResult → Option ValidationResult
needs_primary_of (text s) k r = some (needs_primary (table_of s) k r)
needs_primary_of (sequence l) k r = none
needs_primary_of (dictionary d) k r = none
needs_primary_of _ k r = some r

unfoldable pub check_key : Value → Value → ValidationResult → Option ValidationResult
check_key t (dictionary no_fields) r = some (add_error key_missing r)
check_key t (dictionary (field j v d)) r = needs_primary_of t (field j v d) r
check_key t _ r = some (add_error key_missing r)

-- A boolean is no sequence number, although it is an `int`.
abbrev pub is_positive : Value → Bool
is_positive (integer (pos n)) = ltb 0 n
is_positive _ = false

unfoldable pub check_timestamp :
    Timestamps → Message → Message → Value → ValidationResult → ValidationResult
check_timestamp x missing malformed (text s) r =
    if s == ""
    then add_error missing r
    else add_error_if (not (parse_iso_timestamp x s)) malformed r
check_timestamp x missing malformed _ r = add_error missing r

-- `v is None or not isinstance(v, dict) or len(v) == 0`
abbrev pub lacks_fields : Value → Bool
lacks_fields (dictionary no_fields) = true
lacks_fields (dictionary (field k v d)) = false
lacks_fields _ = true

abbrev pub is_given : Value → Bool
is_given null = false
is_given _ = true

unfoldable pub check_images :
    Option CdcOperation → Value → Value → ValidationResult → ValidationResult
check_images none after before r = r
check_images (some insert_op) after before r =
    add_error_if (is_given before) insert_with_before
      (add_error_if (lacks_fields after) insert_without_payload r)
check_images (some update_op) after before r =
    add_error_if (lacks_fields before) update_without_before
      (add_error_if (lacks_fields after) update_without_payload r)
check_images (some delete_op) after before r =
    add_error_if (lacks_fields before) delete_without_before
      (add_error_if (is_given after) delete_with_payload r)

abbrev pub value_operation : Value → Option CdcOperation
value_operation (text s) = operation_of s
value_operation _ = none

-- Rules 1 to 3.
unfoldable pub check_head : Fields → ValidationResult
check_head d = check_operation (get "operation" d) (
    check_table (get "table_name" d) (
      add_error_if (is_blank (get "event_id" d)) event_id_missing (record {
        is_valid = true;
        errors = [];
        event_id = get "event_id" d;
        table_name = get "table_name" d;
      })))

-- Rules 5 to 8.
unfoldable pub check_tail : Timestamps → Fields → ValidationResult → ValidationResult
check_tail x d r =
    check_images (value_operation (get "operation" d)) (get "payload" d) (get "before_payload" d) (
      add_error_if (is_blank (get "source_system" d)) source_system_missing (
        add_error_if (is_blank (get "batch_id" d)) batch_id_missing (
          check_timestamp x commit_timestamp_missing commit_timestamp_malformed
            (get "source_commit_timestamp" d)
            (check_timestamp x event_timestamp_missing event_timestamp_malformed
              (get "event_timestamp" d)
              (add_error_if (not (is_positive (get "sequence_number" d))) sequence_invalid r)))))

unfoldable pub validate_data : Timestamps → Fields → Option ValidationResult
validate_data x d = elim (check_key (get "table_name" d) (get "business_key" d) (check_head d)) [
  | none ↦ none
  | some r ↦ some (check_tail x d r)
]

unfoldable pub validate : Timestamps → CdcEvent → Option ValidationResult
validate x e = validate_data x (to_dict e)
