-- ===== src/Cdc/Event.antt =====
-- src/cdc/models.py: `from_dict`; and src/source/mutation_engine.py on raw dictionaries.
use incremental_cdc_data_pla.Base.{
  String, ◌≡◌, refl, Bool, Option, none, some, List, [], ◌∷◌, map, if◌then◌else◌,
}
use incremental_cdc_data_pla.Cdc.{
  ℤ, pos, Value, null, integer, text, dictionary, Fields, no_fields, get, has, CdcEvent,
  dictionary_or_null, to_dict,
}
use incremental_cdc_data_pla.Cdc.Engine.{External, Engine, MutationResult, apply_event, apply_batch}

-- `str`, `int` and `dict` of a value that is not of their type already (`none`: an exception).
pub record Casts : Type 0 where
  pub str : Value → String
  pub int : Value → Option ℤ
  pub dict : Value → Option Fields

abbrev pub cast_str : Casts → Value → String
cast_str c (text s) = s
cast_str c v = c.str v

abbrev pub cast_int : Casts → Value → Option ℤ
cast_int c (integer n) = some n
cast_int c v = c.int v

abbrev pub cast_dict : Casts → Value → Option Fields
cast_dict c (dictionary d) = some d
cast_dict c v = c.dict v

-- `data.get(k, v)`
abbrev pub get_or : String → Value → Fields → Value
get_or k v d = if has k d then get k d else v

-- `dict(data[k]) if data.get(k) is not None else None`
abbrev pub given_image : Casts → Value → Option (Option Fields)
given_image c null = some none
given_image c v = elim (cast_dict c v) [ none ↦ none | some d ↦ some (some d) ]

abbrev pub made_event :
    Casts
    → Fields
    → Option Fields
    → Option ℤ
    → Option (Option Fields)
    → Option (Option Fields)
    → Option CdcEvent
made_event c d (some key) (some n) (some after) (some before) = some (record {
  event_id = cast_str c (get_or "event_id" (text "") d);
  table_name = cast_str c (get_or "table_name" (text "") d);
  operation = cast_str c (get_or "operation" (text "") d);
  business_key = key;
  sequence_number = n;
  event_timestamp = cast_str c (get_or "event_timestamp" (text "") d);
  source_commit_timestamp = cast_str c (get_or "source_commit_timestamp" (text "") d);
  batch_id = cast_str c (get_or "batch_id" (text "") d);
  payload = after;
  before_payload = before;
  source_system = cast_str c (get_or "source_system" (text "b2b_saas_postgres") d);
})
made_event c d key n after before = none

unfoldable pub from_dict : Casts → Fields → Option CdcEvent
from_dict c d =
    made_event c d (cast_dict c (get_or "business_key" (dictionary no_fields) d))
      (cast_int c (get_or "sequence_number" (integer (pos 0)) d)) (given_image c (get "payload" d))
      (given_image c (get "before_payload" d))

given_image-dictionary_or_null :
    (c : Casts) (o : Option Fields) → given_image c (dictionary_or_null o) ≡ some o
given_image-dictionary_or_null c none = refl
given_image-dictionary_or_null c (some d) = refl

-- A change event written as a dictionary is read back as it was.
pub from_dict-to_dict : (c : Casts) (e : CdcEvent) → from_dict c (to_dict e) ≡ some e
unfolding from_dict to_dict get has
from_dict-to_dict c e =
    rw
      (
        given_image-dictionary_or_null c e.payload,
        given_image-dictionary_or_null c e.before_payload,
      )
      refl

-- What the engine is handed: an event, or a dictionary.
pub data Incoming : Type 0 where
  object : CdcEvent → Incoming
  raw : Fields → Incoming

unfoldable pub as_event : Casts → Incoming → Option CdcEvent
as_event c (object e) = some e
as_event c (raw d) = from_dict c d

abbrev pub apply_read : External → Bool → Option CdcEvent → Engine → Option (Bool × Engine)
apply_read x enforce none s = none
apply_read x enforce (some e) s = apply_event x enforce e s

unfoldable pub apply_incoming : Casts → External → Bool → Incoming → Engine → Option (Bool × Engine)
unfolding as_event
apply_incoming c x enforce i s = apply_read x enforce (as_event c i) s

abbrev pub add_event : Option CdcEvent → Option (List CdcEvent) → Option (List CdcEvent)
add_event none es = none
add_event (some e) none = none
add_event (some e) (some es) = some (e ∷ es)

-- All dictionaries are read before the first event is applied.
unfoldable pub as_events : Casts → List Incoming → Option (List CdcEvent)
unfolding as_event
as_events c [] = some []
as_events c (i ∷ is) = let rest = as_events c is in add_event (as_event c i) rest

abbrev pub apply_events :
    External → Bool → Option (List CdcEvent) → Engine → Option (MutationResult × Engine)
apply_events x sorts none s = none
apply_events x sorts (some es) s = apply_batch x sorts es s

unfoldable pub apply_incoming_batch :
    Casts → External → Bool → List Incoming → Engine → Option (MutationResult × Engine)
unfolding as_events
apply_incoming_batch c x sorts is s = apply_events x sorts (as_events c is) s

as_events-raw :
    (c : Casts) (es : List CdcEvent) → as_events c (map (λ e. raw (to_dict e)) es) ≡ some es
unfolding as_events as_event
as_events-raw c [] = refl
as_events-raw c (e ∷ es) = rw (from_dict-to_dict c e, as_events-raw c es) refl

-- Events that are handed over as their dictionaries have the effect of the events.
pub apply_incoming_batch-raw :
    (c : Casts) (x : External) (sorts : Bool) (es : List CdcEvent) (s : Engine)
    → apply_incoming_batch c x sorts (map (λ e. raw (to_dict e)) es) s ≡ apply_batch x sorts es s
unfolding apply_incoming_batch
apply_incoming_batch-raw c x sorts es s = rw (as_events-raw c es) refl
