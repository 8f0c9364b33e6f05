-- ===== src/Normalization/Event.antt =====
-- src/normalization/models.py: normalized events as dictionaries, and read back from them.
use incremental_cdc_data_pla.Base.{
  String, ◌≡◌, refl, not, Option, none, some, List, [], ◌∷◌, any, if◌then◌else◌,
}
use incremental_cdc_data_pla.Cdc.{
  Value, null, boolean, integer, text, dictionary, Fields, no_fields, field, get, has, truthy,
  dictionary_or_null,
}
use incremental_cdc_data_pla.Normalization.{NormalizedCdcEvent, IntResult, number, Python, py_str}
use incremental_cdc_data_pla.Normalization.Fingerprint.{str_get}

unfoldable pub event_to_dict : NormalizedCdcEvent → Fields
event_to_dict e = field "event_id" (text e.event_id) (
    field "table_name" (text e.table_name) (
      field "operation" (text e.operation) (
        field "business_key" (dictionary e.business_key) (
          field "business_key_canonical" (text e.business_key_canonical) (
            field "entity_sequence_key" (text e.entity_sequence_key) (
              field "sequence_number" (integer e.sequence_number) (
                field "event_timestamp" (text e.event_timestamp) (
                  field "source_commit_timestamp" (text e.source_commit_timestamp) (
                    field "batch_id" (text e.batch_id) (
                      field "source_system" (text e.source_system) (
                        field "payload" (dictionary_or_null e.payload) (
                          field "before_payload" (dictionary_or_null e.before_payload) (
                            field "event_fingerprint" (text e.event_fingerprint) (
                              field "ingestion_batch_id" (text e.ingestion_batch_id) (
                                field "source_file" (text e.source_file) (
                                  field "is_late_arrival" (boolean e.is_late_arrival)
                                    no_fields))))))))))))))))

-- The keys that are taken by `data[...]`.
abbrev required_keys : List String
required_keys =
    "event_id" ∷ "table_name" ∷ "operation" ∷ "business_key" ∷ "business_key_canonical"
    ∷ "entity_sequence_key" ∷ "sequence_number" ∷ "event_timestamp" ∷ "source_commit_timestamp"
    ∷ "batch_id" ∷ "source_system" ∷ "event_fingerprint" ∷ []

-- `dict(v)`, where `cast` is what it does to a value that is no dictionary (`none`: an exception).
abbrev dict_of : (Value → Option Fields) → Value → Option Fields
dict_of cast (dictionary d) = some d
dict_of cast v = cast v

abbrev some_fields : Option Fields → Option (Option Fields)
some_fields none = none
some_fields (some d) = some (some d)

-- `dict(v) if v is not None else None`
abbrev image_of : (Value → Option Fields) → Value → Option (Option Fields)
image_of cast null = some none
image_of cast v = some_fields (dict_of cast v)

abbrev event_with :
    Python
    → Fields
    → Option Fields
    → IntResult
    → Option (Option Fields)
    → Option (Option Fields)
    → Option NormalizedCdcEvent
event_with y d (some key) (number n) (some payload) (some before) = some (record {
  event_id = py_str y (get "event_id" d);
  table_name = py_str y (get "table_name" d);
  operation = py_str y (get "operation" d);
  business_key = key;
  business_key_canonical = py_str y (get "business_key_canonical" d);
  entity_sequence_key = py_str y (get "entity_sequence_key" d);
  sequence_number = n;
  event_timestamp = py_str y (get "event_timestamp" d);
  source_commit_timestamp = py_str y (get "source_commit_timestamp" d);
  batch_id = py_str y (get "batch_id" d);
  source_system = py_str y (get "source_system" d);
  payload = payload;
  before_payload = before;
  event_fingerprint = py_str y (get "event_fingerprint" d);
  ingestion_batch_id = str_get y "ingestion_batch_id" "" d;
  source_file = str_get y "source_file" "" d;
  is_late_arrival = truthy (get "is_late_arrival" d);
})
event_with y d key n payload before = none

-- `NormalizedCDCEvent.from_dict`; `none` is an exception.
unfoldable pub event_from_dict :
    Python → (Value → Option Fields) → Fields → Option NormalizedCdcEvent
event_from_dict y cast d =
    if any (λ k. not (has k d)) required_keys
    then none
    else event_with y d (dict_of cast (get "business_key" d)) (y.int (get "sequence_number" d))
        (image_of cast (get "payload" d)) (image_of cast (get "before_payload" d))

image_of-dictionary_or_null :
    (cast : Value → Option Fields) (o : Option Fields)
    → image_of cast (dictionary_or_null o) ≡ some o
image_of-dictionary_or_null cast none = refl
image_of-dictionary_or_null cast (some d) = refl

-- An event that is written as a dictionary is read back as it was, if `int` returns its sequence
-- number as it is.
pub event_from_dict-to_dict :
    (y : Python) (cast : Value → Option Fields) (e : NormalizedCdcEvent)
    → y.int (integer e.sequence_number) ≡ number e.sequence_number
    → event_from_dict y cast (event_to_dict e) ≡ some e
unfolding event_from_dict event_to_dict get has
event_from_dict-to_dict y cast e exact =
    rw
      (
        exact,
        image_of-dictionary_or_null cast e.payload,
        image_of-dictionary_or_null cast e.before_payload,
      )
      refl
