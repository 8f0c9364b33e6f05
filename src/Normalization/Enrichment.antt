-- ===== src/Normalization/Enrichment.antt =====
-- src/normalization/processor.py: the rows that `process` makes of the valid records, which of them
-- arrived late, and the Spark frame of the rows.
use incremental_cdc_data_pla.Base.{
  ℕ, String, Bool, false, not, ◌&&◌, Option, none, some, List, [], ◌∷◌, map, keep, ◌==◌, Dict,
  lookup, text_lt, sort_by, if◌then◌else◌,
}
use incremental_cdc_data_pla.Cdc.{
  ℤ, pos, negsuc, le_int, Value, null, dictionary, Fields, no_fields, get, has, truthy,
}
use incremental_cdc_data_pla.Normalization.{IntResult, number, Python, py_str}
use incremental_cdc_data_pla.Normalization.Fingerprint.{
  Json, strings, canonicalize_business_key, compute_entity_sequence_key, str_get,
  compute_event_fingerprint,
}

-- A row of `ENRICHED_CDC_SCHEMA`.
pub record Row : Type 0 where
  pub event_id : String
  pub table_name : String
  pub operation : String
  pub business_key : Fields
  pub business_key_canonical : String
  pub entity_sequence_key : String
  pub sequence_number : ℤ
  pub event_timestamp : String
  pub source_commit_timestamp : String
  pub batch_id : String
  pub payload_json : Option String
  pub before_payload_json : Option String
  pub source_system : String
  pub source_file : String
  pub ingestion_batch_id : String
  pub ingestion_order : ℤ
  pub event_fingerprint : String
  pub is_late_arrival : Bool

-- `parse_iso_timestamp` as the number of an instant (`none`: an exception), `json.dumps(v,
-- sort_keys=True)` of an image, and `json.loads` of such a text, where an image is a dictionary.
pub record External : Type 0 where
  pub python : Python
  pub json : Json
  pub instant : String → Option ℤ
  pub dump_image : Value → String
  pub load_image : String → Fields

module _ (x : External) where
  abbrev y : Python
  y = x.python

  -- `str(r.get("ingestion_batch_id") or r.get("batch_id") or "")`
  abbrev pub observed_batch : Fields → String
  observed_batch r =
      if truthy (get "ingestion_batch_id" r)
      then py_str y (get "ingestion_batch_id" r)
      else if truthy (get "batch_id" r)
      then py_str y (get "batch_id" r)
      else ""

  -- Each text once.
  unfoldable pub distinct : List String → List String
  distinct [] = []
  distinct (s ∷ l) = let rest = distinct l in s ∷ keep (λ t. not (t == s)) rest

  abbrev pub sorted_batch_ids : List Fields → List String
  sorted_batch_ids records = sort_by text_lt (distinct (map observed_batch records))

  -- `str(br.get("event_timestamp"))` as an instant.
  abbrev pub event_instant : Fields → Option ℤ
  event_instant r = x.instant (py_str y (get "event_timestamp" r))

  abbrev pub later_of : Option ℤ → Option ℤ → Option ℤ
  later_of m none = m
  later_of none (some n) = some n
  later_of (some m) (some n) = if le_int n m then some m else some n

  -- The running maximum over the records of a batch.
  unfoldable pub running_max : String → List Fields → Option ℤ → Option ℤ
  running_max b [] m = m
  running_max b (r ∷ records) m =
      running_max b records (if observed_batch r == b then later_of m (event_instant r) else m)

  -- `prior_max_ts_by_batch`
  unfoldable pub prior_maxima : List Fields → List String → Option ℤ → Dict (Option ℤ)
  prior_maxima records [] m = []
  prior_maxima records (b ∷ batches) m =
      (b, m) ∷ prior_maxima records batches (running_max b records m)

  abbrev pub before_max : Option (Option ℤ) → Option ℤ → Bool
  before_max (some (some m)) (some n) = not (le_int m n)
  before_max _ _ = false

  abbrev pub is_late : Dict (Option ℤ) → Fields → Bool
  is_late maxima r = before_max (lookup (observed_batch r) maxima) (event_instant r)

  abbrev pub dumped : Value → Option String
  dumped null = none
  dumped v = some (x.dump_image v)

  abbrev pub fields_of : Value → Fields
  fields_of (dictionary d) = d
  fields_of _ = no_fields

  abbrev pub default_order : Fields → IntResult
  default_order r =
      if has "ingestion_order" r then y.int (get "ingestion_order" r) else number (pos 0)

  abbrev pub enriched : Dict (Option ℤ) → Fields → IntResult → IntResult → Option Row
  enriched maxima r (number n) (number k) =
      let key = strings y (fields_of (get "business_key" r)) in
      let canonical = canonicalize_business_key y x.json (dictionary key) in
      some (record {
        event_id = str_get y "event_id" "" r;
        table_name = str_get y "table_name" "" r;
        operation = str_get y "operation" "" r;
        business_key = key;
        business_key_canonical = canonical;
        entity_sequence_key = compute_entity_sequence_key (py_str y (get "table_name" r)) canonical;
        sequence_number = n;
        event_timestamp = str_get y "event_timestamp" "" r;
        source_commit_timestamp = str_get y "source_commit_timestamp" "" r;
        batch_id = str_get y "batch_id" "" r;
        payload_json = dumped (get "payload" r);
        before_payload_json = dumped (get "before_payload" r);
        source_system = str_get y "source_system" "" r;
        source_file = str_get y "source_file" "" r;
        ingestion_batch_id = str_get y "ingestion_batch_id" "" r;
        ingestion_order = k;
        event_fingerprint = compute_event_fingerprint y x.json r;
        is_late_arrival = is_late maxima r;
      })
  enriched maxima r n k = none

  -- Step 2; `none` is an exception.
  unfoldable pub enrich : Dict (Option ℤ) → Fields → Option Row
  enrich maxima r = enriched maxima r (y.int (get "sequence_number" r)) (default_order r)

  abbrev pub add_row : Option Row → Option (List Row) → Option (List Row)
  add_row (some r) (some rows) = some (r ∷ rows)
  add_row _ _ = none

  unfoldable pub enrich_rows : Dict (Option ℤ) → List Fields → Option (List Row)
  enrich_rows maxima [] = some []
  enrich_rows maxima (r ∷ records) =
      let rest = enrich_rows maxima records in add_row (enrich maxima r) rest

-- The largest `LongType`.
unfoldable pub max_long : ℕ
max_long = 9_223_372_036_854_775_807

-- A number of 64 bits.
unfoldable pub is_long : ℤ → Bool
is_long n = le_int n (pos max_long) && le_int (negsuc max_long) n

abbrev pub add_frame_row : Row → Option (List Row) → Option (List Row)
add_frame_row r none = none
add_frame_row r (some rows) = some (r ∷ rows)

-- `createDataFrame` with `ENRICHED_CDC_SCHEMA` raises at a number that is no `LongType`.
unfoldable pub create_data_frame : List Row → Option (List Row)
create_data_frame [] = some []
create_data_frame (r ∷ rows) =
    let rest = create_data_frame rows in
    if is_long r.sequence_number && is_long r.ingestion_order then add_frame_row r rest else none
