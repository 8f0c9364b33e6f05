-- ===== src/Normalization/Validator/Raises.antt =====
-- Where src/normalization/validator.py raises.
use incremental_cdc_data_pla.Base.{
  String, ◌≡◌, refl, sym, ◌∙◌, ap, Bool, true, false, not, ◌||◌, arith, ◌==◌, if◌then◌else◌, strip,
  Bool-cases, Option-cases, inl, inr,
}
use incremental_cdc_data_pla.Cdc.{
  pos, le_int, Value, null, boolean, integer, real, text, sequence, dictionary, Fields, no_fields,
  field, get, has, CdcOperation, insert_op, update_op, delete_op, Table, table_of, primary_key,
}
use incremental_cdc_data_pla.Normalization.{
  missing_event_timestamp, invalid_event_timestamp, missing_commit_timestamp,
  invalid_commit_timestamp, missing_source_system, IntResult, number, no_integer, overflow, Python,
  py_str,
}
use incremental_cdc_data_pla.Normalization.Validator.{
  Verdict, valid, quarantine, raises, is_empty, check_images, and_then_check, check_keys,
  check_rest, check_number, check_sequence, check_key, known_operation, validate_raw_cdc_record,
}

abbrev is_raise : Verdict → Bool
is_raise raises = true
is_raise valid = false
is_raise (quarantine c) = false

check_images-goes :
    (o : CdcOperation) (payload before : Value) → is_raise (check_images o payload before) ≡ false
unfolding check_images
check_images-goes insert_op payload before = ground arith
check_images-goes update_op payload before = ground arith
check_images-goes delete_op payload before = ground arith

and_then_check-goes :
    (v w : Verdict)
    → is_raise v ≡ false
    → is_raise w ≡ false
    → is_raise (and_then_check v w) ≡ false
and_then_check-goes valid w h k = k
and_then_check-goes (quarantine c) w h k = refl
and_then_check-goes raises w h k = h

five_checks :
    (a b c d e : Bool) (v : Verdict)
    → is_raise v ≡ false
    → is_raise (
        if a
        then quarantine missing_event_timestamp
        else if not b
        then quarantine invalid_event_timestamp
        else if c
        then quarantine missing_commit_timestamp
        else if not d
        then quarantine invalid_commit_timestamp
        else if e
        then quarantine missing_source_system
        else v)
      ≡ false
five_checks a b c d e v h = ground (arith, h)

check_rest-goes :
    (y : Python) (d : Fields) (o : CdcOperation) (pk key : String)
    → is_raise (check_rest y d o pk key) ≡ false
unfolding check_rest
check_rest-goes y d o pk key =
    let payload = get "payload" d in
    let before = get "before_payload" d in
    five_checks (is_empty y (get "event_timestamp" d))
      (y.reads_timestamp (py_str y (get "event_timestamp" d)))
      (is_empty y (get "source_commit_timestamp" d))
      (y.reads_timestamp (py_str y (get "source_commit_timestamp" d)))
      (is_empty y (get "source_system" d))
      (and_then_check (check_images o payload before) (check_keys y pk key payload before))
      (and_then_check-goes (check_images o payload before) (check_keys y pk key payload before)
        (check_images-goes o payload before) (ground arith))

check_number-raises :
    (n : IntResult) (next : Verdict)
    → is_raise next ≡ false
    → check_number n next ≡ raises
    → n ≡ overflow
check_number-raises (number n) next calm h = elim (Bool-cases (le_int n (pos 0))) [
  | inl low ↦ absurd (cc (ap is_raise (rw low at h)))
  | inr up ↦ absurd (cc (sym calm ∙ ap is_raise (rw up at h)))
]
check_number-raises no_integer next calm h = absurd (cc)
check_number-raises overflow next calm h = refl

check_sequence-raises :
    (y : Python) (v : Value) (next : Verdict)
    → is_raise next ≡ false
    → check_sequence y v next ≡ raises
    → y.int v ≡ overflow
check_sequence-raises y null next calm h = absurd (cc)
check_sequence-raises y (boolean b) next calm h =
    check_number-raises (y.int (boolean b)) next calm h
check_sequence-raises y (integer n) next calm h =
    check_number-raises (y.int (integer n)) next calm h
check_sequence-raises y (real b s) next calm h = check_number-raises (y.int (real b s)) next calm h
check_sequence-raises y (text s) next calm h = check_number-raises (y.int (text s)) next calm h
check_sequence-raises y (sequence l) next calm h =
    check_number-raises (y.int (sequence l)) next calm h
check_sequence-raises y (dictionary d) next calm h =
    check_number-raises (y.int (dictionary d)) next calm h

check_key-raises :
    (y : Python) (d : Fields) (t : Table) (o : CdcOperation) (v : Value)
    → check_key y d t o v ≡ raises
    → y.int (get "sequence_number" d) ≡ overflow
check_key-raises y d t o (dictionary (field k v r)) h =
    let key = field k v r in
    let pk = primary_key t in
    elim (Bool-cases (not (has pk key) || strip (py_str y (get pk key)) == "")) [
      | inl bad ↦ absurd (cc (ap is_raise (rw bad at h)))
      | inr good ↦
          check_sequence-raises y (get "sequence_number" d)
            (check_rest y d o pk (py_str y (get pk key)))
            (check_rest-goes y d o pk (py_str y (get pk key))) (rw good at h)
    ]
check_key-raises y d t o null h = absurd (cc)
check_key-raises y d t o (boolean b) h = absurd (cc)
check_key-raises y d t o (integer n) h = absurd (cc)
check_key-raises y d t o (real b s) h = absurd (cc)
check_key-raises y d t o (text s) h = absurd (cc)
check_key-raises y d t o (sequence l) h = absurd (cc)
check_key-raises y d t o (dictionary no_fields) h = absurd (cc)

-- A record at which the validator raises has a sequence number at which `int` overflows.
pub validate_raw_cdc_record-raises :
    (y : Python) (d : Fields)
    → validate_raw_cdc_record y d ≡ raises
    → y.int (get "sequence_number" d) ≡ overflow
unfolding validate_raw_cdc_record
validate_raw_cdc_record-raises y d h = elim (Bool-cases (is_empty y (get "event_id" d))) [
  | inl e ↦ absurd (cc (ap is_raise (rw e at h)))
  | inr id ↦ elim (Bool-cases (is_empty y (get "table_name" d))) [
    | inl e ↦ absurd (cc (ap is_raise (rw (id, e) at h)))
    | inr name ↦ elim (Option-cases (table_of (py_str y (get "table_name" d)))) [
      | inl e ↦ absurd (cc (ap is_raise (rw (id, name, e) at h)))
      | inr (t, table) ↦ elim (Option-cases (known_operation y (get "operation" d))) [
        | inl e ↦ absurd (cc (ap is_raise (rw (id, name, table, e) at h)))
        | inr (o, op) ↦
            check_key-raises y d t o (get "business_key" d) (rw (id, name, table, op) at h)
      ]
    ]
  ]
]
