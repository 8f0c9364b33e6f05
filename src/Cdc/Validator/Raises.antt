-- ===== src/Cdc/Validator/Raises.antt =====
-- When the validator of src/cdc/validator.py raises in place of reporting.
use incremental_cdc_data_pla.Base.{◌≡◌, ◌↔◌, Bool, true, false, not, ◌&&◌, none, arith}
use incremental_cdc_data_pla.Cdc.{
  Value, null, boolean, integer, real, text, sequence, dictionary, Fields, no_fields, field, get,
}
use incremental_cdc_data_pla.Cdc.Validator.{
  ValidationResult, Timestamps, lacks_fields, check_key, check_head, validate_data,
}

-- A list or a dictionary has no hash.
abbrev pub is_unhashable : Value → Bool
is_unhashable (sequence l) = true
is_unhashable (dictionary d) = true
is_unhashable _ = false

check_key-raises :
    (t k : Value) (r : ValidationResult)
    → (check_key t k r ≡ none) ↔ ((is_unhashable t && not (lacks_fields k)) ≡ true)
unfolding check_key
check_key-raises t null r = ground arith
check_key-raises t (boolean b) r = ground arith
check_key-raises t (integer n) r = ground arith
check_key-raises t (real b s) r = ground arith
check_key-raises t (text s) r = ground arith
check_key-raises t (sequence l) r = ground arith
check_key-raises t (dictionary no_fields) r = ground arith
check_key-raises null (dictionary (field j v d)) r = ground arith
check_key-raises (boolean b) (dictionary (field j v d)) r = ground arith
check_key-raises (integer n) (dictionary (field j v d)) r = ground arith
check_key-raises (real b s) (dictionary (field j v d)) r = ground arith
check_key-raises (text s) (dictionary (field j v d)) r = ground arith
check_key-raises (sequence l) (dictionary (field j v d)) r = ground arith
check_key-raises (dictionary c) (dictionary (field j v d)) r = ground arith

-- Validation of a raw dictionary raises exactly when its table name is a list or a dictionary and
-- its business key is a dictionary that is not empty.
pub validate_data_raises :
    (x : Timestamps) (d : Fields)
    → (validate_data x d ≡ none)
      ↔ ((is_unhashable (get "table_name" d) && not (lacks_fields (get "business_key" d))) ≡ true)
unfolding validate_data
validate_data_raises x d =
    ground (arith, check_key-raises (get "table_name" d) (get "business_key" d) (check_head d))
