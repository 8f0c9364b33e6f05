-- ===== src/Cdc/Validator/Rules/Each.antt =====
-- The rules of src/cdc/validator.py one by one: which results stay valid under each.
use incremental_cdc_data_pla.Base.{
  String, ◌≡◌, refl, Bool, true, false, not, ◌&&◌, Option, none, some, arith, ◌==◌, eq_iff, is_some,
  strip, Bool-cases, inl, inr,
}
use incremental_cdc_data_pla.Cdc.{
  Value, text, dictionary, Fields, no_fields, field, get, has, truthy, CdcOperation, insert_op,
  update_op, delete_op, operation_of, dictionary_or_null, Table, table_of, primary_key,
}
use incremental_cdc_data_pla.Cdc.Validator.{
  Message, table_unsupported, operation_unsupported, ValidationResult, add_error, add_error_if,
  Timestamps, parse_iso_timestamp, is_blank, check_table, check_operation, check_key,
  check_timestamp, check_images, needs_primary,
}

abbrev pub has_fields : Option Fields → Bool
has_fields none = false
has_fields (some no_fields) = false
has_fields (some (field k v d)) = true

-- The images that an operation carries.
abbrev pub images_fit : CdcOperation → Option Fields → Option Fields → Bool
images_fit insert_op after before = has_fields after && not (is_some before)
images_fit update_op after before = has_fields after && has_fields before
images_fit delete_op after before = not (is_some after) && has_fields before

pub add_error_if-valid :
    (c : Bool) (m : Message) (r : ValidationResult)
    → (add_error_if c m r).is_valid ≡ (r.is_valid && not c)
unfolding add_error_if
add_error_if-valid c m r = ground arith

pub not_blank : (s : String) → is_blank (text s) ≡ (strip s == "")
unfolding strip
not_blank s = elim (Bool-cases (s == "")) [
  | inl e ↦ rw ((eq_iff s "").0 e) refl
  | inr e ↦ rw e refl
]

pub check_table-valid :
    (s : String) (r : ValidationResult)
    → (check_table (text s) r).is_valid ≡ (r.is_valid && is_some (table_of s))
unfolding check_table add_error table_of
check_table-valid s r = elim (Bool-cases (s == "")) [
  | inl e ↦ rw ((eq_iff s "").0 e) (ground arith)
  | inr e ↦ ground (arith, add_error_if-valid (not (is_some (table_of s))) table_unsupported r)
]

pub check_operation-valid :
    (s : String) (r : ValidationResult)
    → (check_operation (text s) r).is_valid ≡ (r.is_valid && is_some (operation_of s))
unfolding check_operation add_error operation_of
check_operation-valid s r = elim (Bool-cases (s == "")) [
  | inl e ↦ rw ((eq_iff s "").0 e) (ground arith)
  | inr e ↦
      ground (arith, add_error_if-valid (not (is_some (operation_of s))) operation_unsupported r)
]

pub check_timestamp-valid :
    (x : Timestamps) (m n : Message) (s : String) (r : ValidationResult)
    → (check_timestamp x m n (text s) r).is_valid
      ≡ (r.is_valid && (not (s == "") && parse_iso_timestamp x s))
unfolding check_timestamp add_error add_error_if
check_timestamp-valid x m n s r = ground arith

pub has_of_truthy : (k : String) (d : Fields) → truthy (get k d) ≡ true → has k d ≡ true
unfolding get has
has_of_truthy k no_fields h = h
has_of_truthy k (field j v d) h = ground (arith, has_of_truthy k d)

-- The validity of a key rule, for a table name that is a text.
unfoldable pub key_valid : Option Table → Fields → Bool
key_valid t no_fields = false
key_valid none (field k v d) = true
key_valid (some t) (field k v d) = truthy (get (primary_key t) (field k v d))

pub key_valid-some :
    (t : Table) (d : Fields) → key_valid (some t) d ≡ truthy (get (primary_key t) d)
unfolding key_valid get
key_valid-some t no_fields = refl
key_valid-some t (field k v d) = refl

pub needs_primary-valid :
    (t : Option Table) (j : String) (v : Value) (d : Fields) (r : ValidationResult)
    → (needs_primary t (field j v d) r).is_valid ≡ (r.is_valid && key_valid t (field j v d))
unfolding key_valid add_error_if
needs_primary-valid none j v d r = ground arith
needs_primary-valid (some t) j v d r = ground (arith, has_of_truthy (primary_key t) (field j v d))

pub check_key-runs :
    (s : String) (k : Fields) (r : ValidationResult)
    → (r' : ValidationResult) × (check_key (text s) (dictionary k) r ≡ some r')
      × (r'.is_valid ≡ (r.is_valid && key_valid (table_of s) k))
unfolding check_key key_valid add_error
check_key-runs s no_fields r = (_, refl, ground arith)
check_key-runs s (field j v d) r =
    (needs_primary (table_of s) (field j v d) r, refl, needs_primary-valid (table_of s) j v d r)

unfoldable pub images_valid : Option CdcOperation → Option Fields → Option Fields → Bool
images_valid none after before = true
images_valid (some op) after before = images_fit op after before

pub check_images-valid :
    (op : Option CdcOperation) (after before : Option Fields) (r : ValidationResult)
    → (check_images op (dictionary_or_null after) (dictionary_or_null before) r).is_valid
      ≡ (r.is_valid && images_valid op after before)
unfolding check_images add_error_if images_valid
check_images-valid none after before r = ground arith
check_images-valid (some op) after before r = ground arith
