-- ===== src/Normalization/Fingerprint.antt =====
-- src/normalization/fingerprint.py: canonical keys, entity keys and event fingerprints. `json` and
-- SHA-256 are parameters.
use Prim.Native.String.{◌++◌ as concat}
use incremental_cdc_data_pla.Base.{String, List, [], ◌∷◌, if◌then◌else◌}
use incremental_cdc_data_pla.Cdc.{Value, null, text, dictionary, Fields, no_fields, field, get, has}
use incremental_cdc_data_pla.Normalization.{Python, py_str}

-- What `json.loads` does: a value, a JSONDecodeError, or another exception (a plain ValueError of a
-- number of too many digits, a RecursionError).
pub data Parsed : Type 0 where
  value : Value → Parsed
  decode_error other_error : Parsed

-- `json.dumps(d, sort_keys=True, separators=(",", ":"))`, `json.loads(s)`, and the hexadecimal digest
-- of SHA-256.
pub record Json : Type 0 where
  pub dumps : Fields → String
  pub loads : String → Parsed
  pub sha256 : String → String

-- `{str(k): str(v) for k, v in d.items()}`
unfoldable pub strings : Python → Fields → Fields
strings y no_fields = no_fields
strings y (field k v d) = field k (text (py_str y v)) (strings y d)

-- A text that is the JSON of a dictionary, and else the text itself.
abbrev pub loaded : (Fields → String) → String → Parsed → String
loaded f s (value (dictionary d)) = f d
loaded f s _ = s

abbrev pub canonicalize_business_key : Python → Json → Value → String
canonicalize_business_key y j null = "{}"
canonicalize_business_key y j (text s) = loaded (λ d. j.dumps (strings y d)) s (j.loads s)
canonicalize_business_key y j (dictionary d) = j.dumps (strings y d)
canonicalize_business_key y j v = py_str y v

abbrev pub canonicalize_payload : Python → Json → Value → String
canonicalize_payload y j null = ""
canonicalize_payload y j (text s) = loaded j.dumps s (j.loads s)
canonicalize_payload y j (dictionary d) = j.dumps d
canonicalize_payload y j v = py_str y v

abbrev pub compute_entity_sequence_key : String → String → String
compute_entity_sequence_key name key = concat name (concat ":" key)

-- `str(d.get(k, default))`
abbrev pub str_get : Python → String → String → Fields → String
str_get y k default d = if has k d then py_str y (get k d) else default

-- `"|".join(parts)`
abbrev pub join : List String → String
join [] = ""
join (s ∷ []) = s
join (s ∷ t ∷ rest) = concat s (concat "|" (join (t ∷ rest)))

unfoldable pub compute_event_fingerprint : Python → Json → Fields → String
compute_event_fingerprint y j d = j.sha256 (
    join (
      str_get y "event_id" "" d
      ∷ str_get y "table_name" "" d
      ∷ str_get y "operation" "" d
      ∷ canonicalize_business_key y j (get "business_key" d)
      ∷ str_get y "sequence_number" "0" d
      ∷ str_get y "event_timestamp" "" d
      ∷ str_get y "source_commit_timestamp" "" d
      ∷ canonicalize_payload y j (get "payload" d)
      ∷ canonicalize_payload y j (get "before_payload" d)
      ∷ str_get y "source_system" "" d
      ∷ []))
