-- ===== src/Normalization/Validator/Fits.antt =====
-- The rules of src/normalization/validator.py as a test on the fields of a record.
use incremental_cdc_data_pla.Base.{
  String, ◌≡◌, ◌↔◌, refl, ◌∙◌, ap, Bool, true, false, not, ◌&&◌, ◌||◌, some, arith, ◌==◌,
  if◌then◌else◌, strip,
}
use incremental_cdc_data_pla.Cdc.{
  pos, le_int, Value, null, boolean, integer, real, text, sequence, dictionary, Fields, get, has,
  CdcOperation, insert_op, update_op, delete_op, Table, table_of, primary_key,
}
use incremental_cdc_data_pla.Cdc.Validator.{lacks_fields, is_given}
use incremental_cdc_data_pla.Normalization.{
  invalid_business_key, missing_event_timestamp, invalid_event_timestamp, missing_commit_timestamp,
  invalid_commit_timestamp, missing_source_system, IntResult, number, no_integer, overflow, Python,
  py_str,
}
use incremental_cdc_data_pla.Normalization.Validator.{
  Verdict, valid, quarantine, raises, is_empty, check_images, carries, and_then_check, check_keys,
  check_rest, check_number, check_sequence, check_primary, known_operation,
}

-- What an operation demands of the images.
abbrev pub images_fit : CdcOperation → Value → Value → Bool
images_fit insert_op payload before = not (lacks_fields payload)
images_fit update_op payload before = not (lacks_fields payload) && not (lacks_fields before)
images_fit delete_op payload before = not (is_given payload) && not (lacks_fields before)

abbrev pub is_positive : IntResult → Bool
is_positive (number n) = not (le_int n (pos 0))
is_positive _ = false

abbrev pub reads : Python → Value → Bool
reads y v = not (is_empty y v) && y.reads_timestamp (py_str y v)

-- A record that is fit to be normalized, for a table, an operation and a business key.
pub record IsAcceptable (y : Python) (d : Fields) (t : Table) (o : CdcOperation) (key : Fields)
    : Type 0 where
  pub has_event_id : is_empty y (get "event_id" d) ≡ false
  pub has_table : is_empty y (get "table_name" d) ≡ false
  pub of_table : table_of (py_str y (get "table_name" d)) ≡ some t
  pub of_operation : known_operation y (get "operation" d) ≡ some o
  pub of_key : get "business_key" d ≡ dictionary key
  pub has_primary : has (primary_key t) key ≡ true
  pub primary_shows : strip (py_str y (get (primary_key t) key)) == "" ≡ false
  pub has_sequence : is_given (get "sequence_number" d) ≡ true
  pub sequence_positive : is_positive (y.int (get "sequence_number" d)) ≡ true
  pub event_timestamp : reads y (get "event_timestamp" d) ≡ true
  pub commit_timestamp : reads y (get "source_commit_timestamp" d) ≡ true
  pub has_source_system : is_empty y (get "source_system" d) ≡ false
  pub images : images_fit o (get "payload" d) (get "before_payload" d) ≡ true
  pub payload_key :
      carries y (primary_key t) (py_str y (get (primary_key t) key)) (get "payload" d) ≡ true
  pub before_key :
      carries y (primary_key t) (py_str y (get (primary_key t) key)) (get "before_payload" d) ≡ true

-- Rules 6 to 9.
abbrev pub rest_fits : Python → Fields → CdcOperation → String → String → Bool
rest_fits y d o pk key =
    not (is_empty y (get "event_timestamp" d))
    && (y.reads_timestamp (py_str y (get "event_timestamp" d))
        && (not (is_empty y (get "source_commit_timestamp" d))
            && (y.reads_timestamp (py_str y (get "source_commit_timestamp" d))
                && (not (is_empty y (get "source_system" d))
                    && (images_fit o (get "payload" d) (get "before_payload" d)
                        && (carries y pk key (get "payload" d)
                            && carries y pk key (get "before_payload" d)))))))

abbrev pub is_valid : Verdict → Bool
is_valid valid = true
is_valid (quarantine c) = false
is_valid raises = false

check_images-fits :
    (o : CdcOperation) (payload before : Value)
    → is_valid (check_images o payload before) ≡ images_fit o payload before
unfolding check_images
check_images-fits insert_op payload before = ground arith
check_images-fits update_op payload before = ground arith
check_images-fits delete_op payload before = ground arith

and_then_check-is_valid : (v w : Verdict) → is_valid (and_then_check v w) ≡ is_valid v && is_valid w
and_then_check-is_valid valid w = refl
and_then_check-is_valid (quarantine c) w = refl
and_then_check-is_valid raises w = refl

five_checks :
    (a b c d e : Bool) (v : Verdict) (z : Bool)
    → is_valid v ≡ z
    → is_valid (
        if a
        then quarantine missing_event_timestamp
        else if not b
        then quarantine invalid_event_timestamp
        else if c
        then quarantine missing_commit_timestamp
        else if not d
        then quarantine invalid_commit_timestamp
        else if e
        then quarantine missing_source_system
        else v)
      ≡ not a && (b && (not c && (d && (not e && z))))
five_checks a b c d e v z h = ground (arith, h)

two_checks :
    (a b : Bool) (v : Verdict)
    → is_valid (if not a || b then quarantine invalid_business_key else v)
      ≡ a && (not b && is_valid v)
two_checks a b v = ground arith

check_rest-fits :
    (y : Python) (d : Fields) (o : CdcOperation) (pk key : String)
    → is_valid (check_rest y d o pk key) ≡ rest_fits y d o pk key
unfolding check_rest
check_rest-fits y d o pk key =
    let payload = get "payload" d in
    let before = get "before_payload" d in
    let keys : is_valid (check_keys y pk key payload before)
        ≡ carries y pk key payload && carries y pk key before =
      ground arith in
    five_checks (is_empty y (get "event_timestamp" d))
      (y.reads_timestamp (py_str y (get "event_timestamp" d)))
      (is_empty y (get "source_commit_timestamp" d))
      (y.reads_timestamp (py_str y (get "source_commit_timestamp" d)))
      (is_empty y (get "source_system" d))
      (and_then_check (check_images o payload before) (check_keys y pk key payload before))
      (images_fit o payload before && (carries y pk key payload && carries y pk key before))
      (ground (
        arith,
        and_then_check-is_valid (check_images o payload before)
            (check_keys y pk key payload before),
        check_images-fits o payload before,
        keys,
      ))

check_number-positive :
    (n : IntResult) (next : Verdict)
    → is_valid (check_number n next) ≡ is_positive n && is_valid next
check_number-positive (number n) next = ground arith
check_number-positive no_integer next = refl
check_number-positive overflow next = refl

check_sequence-positive :
    (y : Python) (v : Value) (next : Verdict)
    → is_valid (check_sequence y v next) ≡ is_given v && (is_positive (y.int v) && is_valid next)
check_sequence-positive y null next = refl
check_sequence-positive y (boolean b) next = check_number-positive (y.int (boolean b)) next
check_sequence-positive y (integer n) next = check_number-positive (y.int (integer n)) next
check_sequence-positive y (real b s) next = check_number-positive (y.int (real b s)) next
check_sequence-positive y (text s) next = check_number-positive (y.int (text s)) next
check_sequence-positive y (sequence l) next = check_number-positive (y.int (sequence l)) next
check_sequence-positive y (dictionary d) next = check_number-positive (y.int (dictionary d)) next

-- The conditions of rules 4 to 9 for a table, an operation and a business key.
abbrev pub key_fits : Python → Fields → Table → CdcOperation → Fields → Bool
key_fits y d t o key =
    let pk = primary_key t in
    has pk key
    && (not (strip (py_str y (get pk key)) == "")
        && (is_given (get "sequence_number" d)
            && (is_positive (y.int (get "sequence_number" d))
                && rest_fits y d o pk (py_str y (get pk key)))))

pub check_primary-fits :
    (y : Python) (d : Fields) (t : Table) (o : CdcOperation) (key : Fields)
    → is_valid (check_primary y d t o key) ≡ key_fits y d t o key
check_primary-fits y d t o key =
    let pk = primary_key t in
    let rest = check_rest y d o pk (py_str y (get pk key)) in
    two_checks (has pk key) (strip (py_str y (get pk key)) == "")
      (check_sequence y (get "sequence_number" d) rest)
    ∙ ap (λ b. has pk key && (not (strip (py_str y (get pk key)) == "") && b))
        (check_sequence-positive y (get "sequence_number" d) rest
          ∙ ap
              (λ b.
                is_given (get "sequence_number" d)
                && (is_positive (y.int (get "sequence_number" d)) && b))
              (check_rest-fits y d o pk (py_str y (get pk key))))

pub valid-is_valid : (v : Verdict) → (v ≡ valid) ↔ (is_valid v ≡ true)
valid-is_valid valid = ((λ h. refl), (λ h. refl))
valid-is_valid (quarantine c) = ((λ h. ap is_valid h), (λ h. absurd (cc)))
valid-is_valid raises = ((λ h. ap is_valid h), (λ h. absurd (cc)))
