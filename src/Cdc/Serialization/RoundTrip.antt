-- ===== src/Cdc/Serialization/RoundTrip.antt =====
-- src/cdc/serialization.py: what is read of a file of a batch.
use incremental_cdc_data_pla.Base.{
  ℕ, suc, String, ◌≡◌, refl, false, Option, none, some, List, [], ◌∷◌, map, All, ◌==◌, strip,
  map_option, if◌then◌else◌, text_lt,
}
use incremental_cdc_data_pla.Cdc.{
  Value, null, boolean, integer, real, text, sequence, dictionary, Fields, no_fields, field,
  Elements, no_elements, element, get, has, CdcEvent, to_dict,
}
use incremental_cdc_data_pla.Cdc.Event.{Casts, from_dict}
use incremental_cdc_data_pla.Cdc.Serialization.{
  Json, serialize_event_to_json, deserialize_event_from_json, events, parse_events,
}

-- A field in its place among sorted ones.
unfoldable pub insert_field : String → Value → Fields → Fields
insert_field k v no_fields = field k v no_fields
insert_field k v (field j w d) =
    let rest = insert_field k v d in if text_lt k j then field k v (field j w d) else field j w rest

-- A value with the keys of its dictionaries sorted, as `sort_keys=True` writes it.
unfoldable mutual
  unfolding insert_field

  pub sort_value : Value → Value
  sort_value null = null
  sort_value (boolean b) = boolean b
  sort_value (integer n) = integer n
  sort_value (real b s) = real b s
  sort_value (text s) = text s
  sort_value (sequence l) = sequence (sort_elements l)
  sort_value (dictionary d) = dictionary (sort_fields d)

  pub sort_fields : Fields → Fields
  sort_fields no_fields = no_fields
  sort_fields (field k v d) = insert_field k (sort_value v) (sort_fields d)

  pub sort_elements : Elements → Elements
  sort_elements no_elements = no_elements
  sort_elements (element v l) = element (sort_value v) (sort_elements l)

-- The event with the keys of its dictionaries sorted.
unfoldable pub canonical : CdcEvent → CdcEvent
unfolding sort_fields
canonical e = record e {
  business_key = sort_fields e.business_key;
  payload = map_option sort_fields e.payload;
  before_payload = map_option sort_fields e.before_payload;
}

-- What `json` documents of an event: its text has no space around it, is not empty, and is read as
-- the dictionary with sorted keys.
pub record ReadsBack (j : Json) (e : CdcEvent) : Type 0 where
  pub no_space : strip (j.dumps (to_dict e)) ≡ j.dumps (to_dict e)
  pub filled : (j.dumps (to_dict e) == "") ≡ false
  pub loaded : j.loads (j.dumps (to_dict e)) ≡ some (dictionary (sort_fields (to_dict e)))

from_sorted :
    (c : Casts) (e : CdcEvent) → from_dict c (sort_fields (to_dict e)) ≡ some (canonical e)
unfolding from_dict to_dict get has sort_fields insert_field canonical text_lt
from_sorted c e = images e.payload e.before_payload refl refl
  where
    images :
        (after before : Option Fields)
        → e.payload ≡ after
        → e.before_payload ≡ before
        → from_dict c (sort_fields (to_dict e)) ≡ some (canonical e)
    images none none ea eb = rw (ea, eb) refl
    images none (some b) ea eb = rw (ea, eb) refl
    images (some a) none ea eb = rw (ea, eb) refl
    images (some a) (some b) ea eb = rw (ea, eb) refl

module _ (j : Json) (c : Casts) where
  pub parse_events-serialize :
      (n : ℕ) (es : List CdcEvent)
      → All (ReadsBack j) es
      → parse_events j c n (map (serialize_event_to_json j) es) ≡ events (map canonical es)
  unfolding parse_events serialize_event_to_json deserialize_event_from_json
  parse_events-serialize n [] all = refl
  parse_events-serialize n (e ∷ es) all =
      rw
        (
          all.0.no_space,
          all.0.filled,
          all.0.loaded,
          from_sorted c e,
          parse_events-serialize (suc n) es all.1,
        )
        refl
