-- ===== src/Cdc/Validator/Rules.antt =====
-- Which events src/cdc/validator.py accepts.
pub mod Each
use incremental_cdc_data_pla.Base.{
  ◌≡◌, refl, ◌↔◌, sym, ◌∙◌, Bool, true, false, not, ◌&&◌, Option, none, some, arith, ◌==◌, is_some,
  strip,
}
use incremental_cdc_data_pla.Cdc.{
  text, integer, get, truthy, CdcOperation, operation_of, CdcEvent, to_dict, Table, table_of,
  primary_key,
}
use incremental_cdc_data_pla.Cdc.Validator.{
  event_id_missing, source_system_missing, batch_id_missing, commit_timestamp_missing,
  commit_timestamp_malformed, event_timestamp_missing, event_timestamp_malformed, sequence_invalid,
  ValidationResult, add_error_if, Timestamps, parse_iso_timestamp, is_blank, check_key, is_positive,
  check_timestamp, check_head, check_tail, validate_data, validate,
}
use incremental_cdc_data_pla.Cdc.Validator.Rules.Each.{
  add_error_if-valid, not_blank, check_table-valid, check_operation-valid, check_timestamp-valid,
  key_valid, key_valid-some, check_key-runs, images_valid, check_images-valid, images_fit,
}

-- The contract of an event: it is identified, its table and operation exist, its key has the primary key of
-- the table, its sequence number is positive, its times parse, and it carries the images of its operation.
pub record IsWellFormed (x : Timestamps) (e : CdcEvent) : Type 0 where
  pub identified : (strip e.event_id == "") ≡ false
  pub table : Table
  pub table_known : table_of e.table_name ≡ some table
  pub keyed : truthy (get (primary_key table) e.business_key) ≡ true
  pub operation : CdcOperation
  pub operation_known : operation_of e.operation ≡ some operation
  pub images : images_fit operation e.payload e.before_payload ≡ true
  pub positive : is_positive (integer e.sequence_number) ≡ true
  pub event_time : (not (e.event_timestamp == "") && parse_iso_timestamp x e.event_timestamp) ≡ true
  pub commit_time :
      (not (e.source_commit_timestamp == "") && parse_iso_timestamp x e.source_commit_timestamp)
      ≡ true
  pub batched : (strip e.batch_id == "") ≡ false
  pub sourced : (strip e.source_system == "") ≡ false

module _ (x : Timestamps) (e : CdcEvent) where
  key_ok : Bool
  key_ok = key_valid (table_of e.table_name) e.business_key

  times_ok : Bool
  times_ok =
      (not (e.event_timestamp == "") && parse_iso_timestamp x e.event_timestamp)
      && (not (e.source_commit_timestamp == "") && parse_iso_timestamp x e.source_commit_timestamp)

  images_ok : Bool
  images_ok = images_valid (operation_of e.operation) e.payload e.before_payload

  head-valid : (check_head (to_dict e)).is_valid ≡ (
      not (strip e.event_id == "")
      && (is_some (table_of e.table_name) && is_some (operation_of e.operation)))
  unfolding check_head to_dict get
  head-valid =
      rw
        (
          check_operation-valid e.operation _,
          check_table-valid e.table_name _,
          add_error_if-valid (is_blank (text e.event_id)) event_id_missing _,
          not_blank e.event_id,
        )
        (ground arith)

  -- Rules 5 to 7.
  early : ValidationResult → ValidationResult
  early r = add_error_if (is_blank (text e.source_system)) source_system_missing (
      add_error_if (is_blank (text e.batch_id)) batch_id_missing (
        check_timestamp x commit_timestamp_missing commit_timestamp_malformed
          (text e.source_commit_timestamp)
          (check_timestamp x event_timestamp_missing event_timestamp_malformed
            (text e.event_timestamp)
            (add_error_if (not (is_positive (integer e.sequence_number))) sequence_invalid r))))

  early-valid :
      (r : ValidationResult)
      → (early r).is_valid ≡ (
          r.is_valid
          && (is_positive (integer e.sequence_number)
              && (times_ok && (not (strip e.batch_id == "") && not (strip e.source_system == "")))))
  unfolding early times_ok
  early-valid r =
      rw
        (
          add_error_if-valid (is_blank (text e.source_system)) source_system_missing _,
          add_error_if-valid (is_blank (text e.batch_id)) batch_id_missing _,
          check_timestamp-valid x commit_timestamp_missing commit_timestamp_malformed
              e.source_commit_timestamp _,
          check_timestamp-valid x event_timestamp_missing event_timestamp_malformed
              e.event_timestamp _,
          add_error_if-valid (not (is_positive (integer e.sequence_number))) sequence_invalid r,
          not_blank e.source_system,
          not_blank e.batch_id,
        )
        (ground arith)

  tail-valid :
      (r : ValidationResult)
      → (check_tail x (to_dict e) r).is_valid ≡ (
          r.is_valid
          && (is_positive (integer e.sequence_number)
              && (times_ok
                  && (not (strip e.batch_id == "")
                      && (not (strip e.source_system == "") && images_ok)))))
  unfolding check_tail to_dict get early images_ok
  tail-valid r =
      rw
        (
          check_images-valid (operation_of e.operation) e.payload e.before_payload (early r),
          early-valid r,
        )
        (ground arith)

  -- An event is valid under all the rules together, and validation never raises.
  valid_expression :
      (r : ValidationResult) × (validate x e ≡ some r)
      × (r.is_valid ≡ (
          not (strip e.event_id == "")
          && (is_some (table_of e.table_name)
              && (is_some (operation_of e.operation)
                  && (key_ok
                      && (is_positive (integer e.sequence_number)
                          && (times_ok
                              && (not (strip e.batch_id == "")
                                  && (not (strip e.source_system == "") && images_ok)))))))))
  unfolding validate validate_data key_ok get to_dict check_key check_tail
  valid_expression =
      let (r, runs, valid) = check_key-runs e.table_name e.business_key (check_head (to_dict e)) in
      (
        check_tail x (to_dict e) r,
        rw runs refl,
        rw (tail-valid r, valid, head-valid) (ground arith),
      )

  abbrev valid_with : Option Table → Option CdcOperation → Bool
  valid_with t op =
      not (strip e.event_id == "")
      && (is_some t
          && (is_some op
              && (key_valid t e.business_key
                  && (is_positive (integer e.sequence_number)
                      && (times_ok
                          && (not (strip e.batch_id == "")
                              && (not (strip e.source_system == "")
                                  && images_valid op e.payload e.before_payload)))))))

  well_formed :
      (t : Option Table) (op : Option CdcOperation)
      → table_of e.table_name ≡ t
      → operation_of e.operation ≡ op
      → valid_with t op ≡ true
      → IsWellFormed x e
  unfolding times_ok images_valid
  well_formed none op et eo h = absurd (ground arith)
  well_formed (some t) none et eo h = absurd (ground arith)
  well_formed (some t) (some op) et eo h = record {
    identified = ground arith;
    table = t;
    table_known = et;
    keyed = ground (arith, key_valid-some t e.business_key);
    operation = op;
    operation_known = eo;
    images = ground arith;
    positive = ground arith;
    event_time = ground arith;
    commit_time = ground arith;
    batched = ground arith;
    sourced = ground arith;
  }

  valid_of_well_formed :
      (f : IsWellFormed x e) → valid_with (table_of e.table_name) (operation_of e.operation) ≡ true
  unfolding times_ok images_valid
  valid_of_well_formed f =
      rw (f.table_known, f.operation_known)
        (ground (
          arith,
          f.identified,
          f.images,
          f.positive,
          f.event_time,
          f.commit_time,
          f.batched,
          f.sourced,
          f.keyed,
          key_valid-some f.table e.business_key,
        ))

-- Validation of an event never raises, and accepts the event exactly when it is well formed.
pub validate_lem :
    (x : Timestamps) (e : CdcEvent)
    → (r : ValidationResult) × (validate x e ≡ some r) × ((r.is_valid ≡ true) ↔ IsWellFormed x e)
unfolding key_ok images_ok
validate_lem x e =
    let (r, runs, valid) = valid_expression x e in
    (
      r,
      runs,
      (
        λ h.
            well_formed x e (table_of e.table_name) (operation_of e.operation) refl refl
              (sym valid ∙ h),
        λ f. valid ∙ valid_of_well_formed x e f,
      ),
    )
