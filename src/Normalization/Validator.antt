-- ===== src/Normalization/Validator.antt =====
-- src/normalization/validator.py: the rules on a raw change record.
pub mod Fits
pub mod Rules
pub mod Raises
use incremental_cdc_data_pla.Base.{
  String, Bool, true, not, ◌&&◌, ◌||◌, Option, none, some, ◌==◌, if◌then◌else◌, strip,
}
use incremental_cdc_data_pla.Cdc.{
  pos, le_int, Value, null, dictionary, Fields, field, get, has, truthy, CdcOperation, insert_op,
  update_op, delete_op, operation_of, Table, table_of, primary_key,
}
use incremental_cdc_data_pla.Cdc.Validator.{lacks_fields, is_given}
use incremental_cdc_data_pla.Normalization.{
  QuarantineReasonCode, missing_event_id, unknown_table, unsupported_operation,
  missing_business_key, invalid_business_key, missing_sequence, invalid_sequence,
  missing_event_timestamp, invalid_event_timestamp, missing_commit_timestamp,
  invalid_commit_timestamp, missing_source_system, missing_payload, missing_before_image,
  unexpected_delete_payload, business_key_payload_mismatch, IntResult, number, no_integer, overflow,
  Python, py_str,
}

-- A valid record, a record with its reason, or an exception that is not caught.
pub data Verdict : Type 0 where
  valid : Verdict
  quarantine : QuarantineReasonCode → Verdict
  raises : Verdict

-- `not v or not str(v).strip()`
abbrev pub is_empty : Python → Value → Bool
is_empty y v = not (truthy v) || strip (py_str y v) == ""

-- Rule 8.
unfoldable pub check_images : CdcOperation → Value → Value → Verdict
check_images insert_op payload before =
    if lacks_fields payload then quarantine missing_payload else valid
check_images update_op payload before =
    if lacks_fields payload
    then quarantine missing_payload
    else if lacks_fields before
    then quarantine missing_before_image
    else valid
check_images delete_op payload before =
    if lacks_fields before
    then quarantine missing_before_image
    else if is_given payload
    then quarantine unexpected_delete_payload
    else valid

-- Rule 9: an image that is a dictionary has the primary key, with the text of the business key.
unfoldable pub carries : Python → String → String → Value → Bool
carries y pk key (dictionary d) = has pk d && py_str y (get pk d) == key
carries y pk key _ = true

abbrev pub and_then_check : Verdict → Verdict → Verdict
and_then_check valid next = next
and_then_check (quarantine c) next = quarantine c
and_then_check raises next = raises

abbrev pub check_keys : Python → String → String → Value → Value → Verdict
check_keys y pk key payload before =
    if not (carries y pk key payload)
    then quarantine business_key_payload_mismatch
    else if not (carries y pk key before)
    then quarantine business_key_payload_mismatch
    else valid

-- Rules 6 to 9.
unfoldable pub check_rest : Python → Fields → CdcOperation → String → String → Verdict
check_rest y d o pk key =
    if is_empty y (get "event_timestamp" d)
    then quarantine missing_event_timestamp
    else if not (y.reads_timestamp (py_str y (get "event_timestamp" d)))
    then quarantine invalid_event_timestamp
    else if is_empty y (get "source_commit_timestamp" d)
    then quarantine missing_commit_timestamp
    else if not (y.reads_timestamp (py_str y (get "source_commit_timestamp" d)))
    then quarantine invalid_commit_timestamp
    else if is_empty y (get "source_system" d)
    then quarantine missing_source_system
    else and_then_check (check_images o (get "payload" d) (get "before_payload" d))
        (check_keys y pk key (get "payload" d) (get "before_payload" d))

abbrev pub check_number : IntResult → Verdict → Verdict
check_number (number n) next = if le_int n (pos 0) then quarantine invalid_sequence else next
check_number no_integer next = quarantine invalid_sequence
check_number overflow next = raises

-- Rule 5.
abbrev pub check_sequence : Python → Value → Verdict → Verdict
check_sequence y null next = quarantine missing_sequence
check_sequence y v next = check_number (y.int v) next

-- Rule 4.
abbrev pub check_primary : Python → Fields → Table → CdcOperation → Fields → Verdict
check_primary y d t o key =
    if not (has (primary_key t) key) || strip (py_str y (get (primary_key t) key)) == ""
    then quarantine invalid_business_key
    else check_sequence y (get "sequence_number" d)
        (check_rest y d o (primary_key t) (py_str y (get (primary_key t) key)))

abbrev pub check_key : Python → Fields → Table → CdcOperation → Value → Verdict
check_key y d t o (dictionary (field k v r)) = check_primary y d t o (field k v r)
check_key y d t o _ = quarantine missing_business_key

-- Rule 3.
abbrev pub known_operation : Python → Value → Option CdcOperation
known_operation y v = if truthy v then operation_of (y.upper (py_str y v)) else none

abbrev pub check_operation : Python → Fields → Table → Option CdcOperation → Verdict
check_operation y d t none = quarantine unsupported_operation
check_operation y d t (some o) = check_key y d t o (get "business_key" d)

abbrev pub check_table : Python → Fields → Option Table → Verdict
check_table y d none = quarantine unknown_table
check_table y d (some t) = check_operation y d t (known_operation y (get "operation" d))

unfoldable pub validate_raw_cdc_record : Python → Fields → Verdict
validate_raw_cdc_record y d =
    if is_empty y (get "event_id" d)
    then quarantine missing_event_id
    else if is_empty y (get "table_name" d)
    then quarantine unknown_table
    else check_table y d (table_of (py_str y (get "table_name" d)))
