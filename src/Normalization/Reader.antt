-- ===== src/Normalization/Reader.antt =====
-- src/normalization/reader.py: raw lines as records, with the malformed ones set apart. A file is the
-- batch id of its path, its logical name and its lines.
pub mod Returns
use incremental_cdc_data_pla.Base.{
  ℕ, suc, String, List, [], ◌∷◌, ◌++◌, Option, none, some, ◌==◌, strip, if◌then◌else◌,
}
use incremental_cdc_data_pla.Cdc.{
  pos, Value, null, integer, text, dictionary, Fields, no_fields, field, get, truthy,
}
use incremental_cdc_data_pla.Normalization.{QuarantinedEvent, malformed_json}
use incremental_cdc_data_pla.Normalization.Fingerprint.{Json, Parsed, value, other_error}

pub record RawFile : Type 0 where
  pub batch_id_hint : String
  pub logical_source_file : String
  pub lines : List String

-- `d[k] = v`
unfoldable pub set_field : String → Value → Fields → Fields
set_field k v no_fields = field k v no_fields
set_field k v (field j w d) =
    let rest = set_field k v d in if j == k then field j v d else field j w rest

-- `strip_ingestion_metadata` of a dictionary.
unfoldable pub strip_ingestion_metadata : Fields → Fields
strip_ingestion_metadata no_fields = no_fields
strip_ingestion_metadata (field k v d) =
    let rest = strip_ingestion_metadata d in
    if k == "source_file"
    then rest
    else if k == "ingestion_batch_id"
    then rest
    else if k == "ingestion_order"
    then rest
    else field k v rest

pub record Reading : Type 0 where
  pub parsed_records : List Fields
  pub quarantined_events : List QuarantinedEvent

abbrev or_hint : String → Value → Value
or_hint hint v = if truthy v then v else text hint

abbrev pub with_provenance : RawFile → ℕ → Fields → Fields
with_provenance f n d =
    let named = set_field "source_file" (text f.logical_source_file) d in
    set_field "ingestion_order" (integer (pos n))
      (set_field "ingestion_batch_id" (or_hint f.batch_id_hint (get "batch_id" named)) named)

abbrev pub malformed : RawFile → String → QuarantinedEvent
malformed f line = record {
  quarantine_code = malformed_json;
  raw_record = text line;
  event_id = null;
  table_name = null;
  source_file = text f.logical_source_file;
  batch_id = text f.batch_id_hint;
}

abbrev pub add_line : RawFile → ℕ → String → Parsed → Reading → Reading
add_line f n line (value (dictionary d)) r = record r {
  parsed_records = with_provenance f n d ∷ r.parsed_records;
}
add_line f n line _ r = record r { quarantined_events = malformed f line ∷ r.quarantined_events }

-- Only a JSONDecodeError is caught.
abbrev pub take_line : RawFile → ℕ → String → Parsed → Option (Reading × ℕ) → Option (Reading × ℕ)
take_line f n line other_error rest = none
take_line f n line p none = none
take_line f n line p (some (r, last)) = some (add_line f n line p r, last)

abbrev pub no_reading : Reading
no_reading = record { parsed_records = []; quarantined_events = [] }

-- The lines of a file, after `n` records; `none` is an exception.
unfoldable pub read_lines : Json → RawFile → ℕ → List String → Option (Reading × ℕ)
read_lines j f n [] = some (no_reading, n)
read_lines j f n (line ∷ lines) =
    let clean = strip line in
    let rest = read_lines j f (if clean == "" then n else suc n) lines in
    if clean == "" then rest else take_line f (suc n) clean (j.loads clean) rest

abbrev pub add_reading : Reading → Option Reading → Option Reading
add_reading r none = none
add_reading r (some s) = some (record {
  parsed_records = r.parsed_records ++ s.parsed_records;
  quarantined_events = r.quarantined_events ++ s.quarantined_events;
})

abbrev pub read_then : Option (Reading × ℕ) → (ℕ → Option Reading) → Option Reading
read_then none rest = none
read_then (some (r, last)) rest = add_reading r (rest last)

-- `read_raw_cdc_files` of files that exist, after `n` records; `none` is an exception.
unfoldable pub read_raw_cdc_files : Json → ℕ → List RawFile → Option Reading
read_raw_cdc_files j n [] = some no_reading
read_raw_cdc_files j n (f ∷ files) =
    read_then (read_lines j f n f.lines) (λ last. read_raw_cdc_files j last files)
