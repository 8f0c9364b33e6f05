-- ===== src/Normalization/Validator/Rules.antt =====
-- The records that src/normalization/validator.py accepts.
use incremental_cdc_data_pla.Base.{
  ◌≡◌, ◌↔◌, refl, sym, ◌∙◌, ap, Bool, true, false, not, ◌&&◌, some, arith, Bool-cases, Option-cases,
  inl, inr,
}
use incremental_cdc_data_pla.Cdc.{
  Value, null, boolean, integer, real, text, sequence, dictionary, Fields, no_fields, field, get,
  has, CdcOperation, Table, table_of,
}
use incremental_cdc_data_pla.Normalization.{Python, py_str}
use incremental_cdc_data_pla.Normalization.Validator.{
  valid, is_empty, check_key, known_operation, validate_raw_cdc_record,
}
use incremental_cdc_data_pla.Normalization.Validator.Fits.{
  IsAcceptable, is_valid, key_fits, check_primary-fits, valid-is_valid,
}

check_key_sound :
    (y : Python) (d : Fields) (t : Table) (o : CdcOperation) (v : Value)
    → check_key y d t o v ≡ valid
    → (key : Fields) × (v ≡ dictionary key) × (key_fits y d t o key ≡ true)
check_key_sound y d t o null h = absurd (cc)
check_key_sound y d t o (boolean b) h = absurd (cc)
check_key_sound y d t o (integer n) h = absurd (cc)
check_key_sound y d t o (real b s) h = absurd (cc)
check_key_sound y d t o (text s) h = absurd (cc)
check_key_sound y d t o (sequence l) h = absurd (cc)
check_key_sound y d t o (dictionary no_fields) h = absurd (cc)
check_key_sound y d t o (dictionary (field k v r)) h =
    (field k v r, refl, sym (check_primary-fits y d t o (field k v r)) ∙ ap is_valid h)

check_key_complete :
    (y : Python) (d : Fields) (t : Table) (o : CdcOperation) (key : Fields)
    → key_fits y d t o key ≡ true
    → check_key y d t o (dictionary key) ≡ valid
unfolding has
check_key_complete y d t o no_fields h = absurd (cc (h))
check_key_complete y d t o (field k v r) h =
    (valid-is_valid (check_key y d t o (dictionary (field k v r)))).1
      (check_primary-fits y d t o (field k v r) ∙ h)

and_true : (a b : Bool) → a && b ≡ true → (a ≡ true) × (b ≡ true)
and_true true b h = (refl, h)
and_true false b h = absurd (cc)

true_and : (a b : Bool) → a ≡ true → b ≡ true → a && b ≡ true
true_and a b h k = ground (arith, h, k)

not-true : (a : Bool) → not a ≡ true → a ≡ false
not-true true h = absurd (cc)
not-true false h = refl

-- The conditions as a test, and as the fields of the record.
fits-IsAcceptable :
    (y : Python) (d : Fields) (t : Table) (o : CdcOperation) (key : Fields)
    → is_empty y (get "event_id" d) ≡ false
    → is_empty y (get "table_name" d) ≡ false
    → table_of (py_str y (get "table_name" d)) ≡ some t
    → known_operation y (get "operation" d) ≡ some o
    → get "business_key" d ≡ dictionary key
    → key_fits y d t o key ≡ true
    → IsAcceptable y d t o key
fits-IsAcceptable y d t o key id name table op k h =
    let (primary, h1) = and_true _ _ h in
    let (shows, h2) = and_true _ _ h1 in
    let (given, h3) = and_true _ _ h2 in
    let (positive, h4) = and_true _ _ h3 in
    let (event, h5) = and_true (not (is_empty y (get "event_timestamp" d))) _ h4 in
    let (event_reads, h6) =
      and_true (y.reads_timestamp (py_str y (get "event_timestamp" d))) _ h5 in
    let (commit, h7) = and_true (not (is_empty y (get "source_commit_timestamp" d))) _ h6 in
    let (commit_reads, h8) =
      and_true (y.reads_timestamp (py_str y (get "source_commit_timestamp" d))) _ h7 in
    let (system, h9) = and_true _ _ h8 in
    let (fit, h10) = and_true _ _ h9 in
    let (after, before) = and_true _ _ h10 in
    record {
      has_event_id = id;
      has_table = name;
      of_table = table;
      of_operation = op;
      of_key = k;
      has_primary = primary;
      primary_shows = not-true _ shows;
      has_sequence = given;
      sequence_positive = positive;
      event_timestamp = true_and _ _ event event_reads;
      commit_timestamp = true_and _ _ commit commit_reads;
      has_source_system = not-true _ system;
      images = fit;
      payload_key = after;
      before_key = before;
    }

IsAcceptable-fits :
    (y : Python) (d : Fields) (t : Table) (o : CdcOperation) (key : Fields)
    → IsAcceptable y d t o key
    → key_fits y d t o key ≡ true
IsAcceptable-fits y d t o key a = ground (
  arith, a.has_primary, a.primary_shows, a.has_sequence, a.sequence_positive, a.event_timestamp,
  a.commit_timestamp, a.has_source_system, a.images, a.payload_key, a.before_key,
)

abbrev Accepts : Python → Fields → Type 0
Accepts y d = (t : Table) × (o : CdcOperation) × (key : Fields) × IsAcceptable y d t o key

validate_sound : (y : Python) (d : Fields) → validate_raw_cdc_record y d ≡ valid → Accepts y d
unfolding validate_raw_cdc_record
validate_sound y d h = elim (Bool-cases (is_empty y (get "event_id" d))) [
  | inl e ↦ absurd (cc (ap is_valid (rw e at h)))
  | inr id ↦ elim (Bool-cases (is_empty y (get "table_name" d))) [
    | inl e ↦ absurd (cc (ap is_valid (rw (id, e) at h)))
    | inr name ↦ elim (Option-cases (table_of (py_str y (get "table_name" d)))) [
      | inl e ↦ absurd (cc (ap is_valid (rw (id, name, e) at h)))
      | inr (t, table) ↦ elim (Option-cases (known_operation y (get "operation" d))) [
        | inl e ↦ absurd (cc (ap is_valid (rw (id, name, table, e) at h)))
        | inr (o, op) ↦
            let (key, is_key, fits) =
              check_key_sound y d t o (get "business_key" d) (rw (id, name, table, op) at h) in
            (t, o, key, fits-IsAcceptable y d t o key id name table op is_key fits)
      ]
    ]
  ]
]

-- The validator accepts exactly the records that are fit to be normalized: they name an event and a
-- known table, have an operation, written in any case, and a business key with a primary key that
-- shows, a sequence number of which `int` makes a positive one (so that 1.5 counts as 1), timestamps that
-- parse, a source system, the images that the operation demands, and in each image the primary key of
-- the business key.
pub validate_raw_cdc_record-valid :
    (y : Python) (d : Fields)
    → (validate_raw_cdc_record y d ≡ valid)
      ↔ ((t : Table) × (o : CdcOperation) × (key : Fields) × IsAcceptable y d t o key)
unfolding validate_raw_cdc_record
validate_raw_cdc_record-valid y d = (
  validate_sound y d,
  (λ (t, o, key, a).
      rw (a.has_event_id, a.has_table, a.of_table, a.of_operation, a.of_key)
        (check_key_complete y d t o key (IsAcceptable-fits y d t o key a))),
)
