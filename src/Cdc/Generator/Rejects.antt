-- ===== src/Cdc/Generator/Rejects.antt =====
-- src/cdc/generator.py and src/cdc/validator.py: what is wrong with each malformed event.
use incremental_cdc_data_pla.Base.{
  String, ◌≡◌, refl, Bool, false, Option, none, some, List, [], ◌∷◌, map, ◌==◌, strip,
}
use incremental_cdc_data_pla.Cdc.{get, has, operation_of, table_of}
use incremental_cdc_data_pla.Cdc.Validator.{
  Message, key_missing, operation_unsupported, insert_without_payload, sequence_invalid,
  table_missing, delete_without_before, ValidationResult, add_error, add_error_if, Timestamps,
  check_table, check_operation, check_key, check_timestamp, check_images, check_head, check_tail,
  validate_data,
}
use incremental_cdc_data_pla.Cdc.Validator.Rules.Each.{not_blank}
use incremental_cdc_data_pla.Source.{Runtime, format_iso_timestamp}
use incremental_cdc_data_pla.Cdc.Generator.Fixtures.{batch_3_of}
use incremental_cdc_data_pla.Cdc.Generator.Valid.{IsClock}

-- The verdict of the validator on a dictionary, and its errors.
abbrev pub verdict : Option ValidationResult → Option (Bool × List Message)
verdict none = none
verdict (some r) = some (r.is_valid, r.errors)

-- One reason for each of the malformed events, in their order.
abbrev pub rejections : List (Option (Bool × List Message))
rejections =
    some (false, key_missing ∷ [])
    ∷ some (false, operation_unsupported ∷ [])
    ∷ some (false, insert_without_payload ∷ [])
    ∷ some (false, sequence_invalid ∷ [])
    ∷ some (false, sequence_invalid ∷ [])
    ∷ some (false, table_missing ∷ [])
    ∷ some (false, delete_without_before ∷ [])
    ∷ []

-- The validator rejects each of the seven malformed events, for one reason each.
pub batch_3_of_lem :
    (x : Timestamps) (y : Runtime)
    → IsClock x y
    → (t2 : y.Datetime) (batch : String) → strip batch == "" ≡ false
    → map (λ d. verdict (validate_data x d)) (batch_3_of y t2 batch) ≡ rejections
unfolding batch_3_of format_iso_timestamp get has operation_of table_of add_error add_error_if
    check_table check_operation check_key check_timestamp check_images check_head check_tail
    validate_data strip
batch_3_of_lem x y clock t2 batch batched =
    rw (clock.filled, clock.parses, not_blank batch, batched) refl
