-- ===== src/Watermark/Landing.antt =====
-- src/watermark/landing.py: batch identities, and the files of the landing area. A file is the list
-- of its lines. `json` and SHA-256 are parameters.
pub mod RoundTrip
use Prim.Native.String.{◌++◌ as concat}
use incremental_cdc_data_pla.Base.{
  String, ◌≡◌, ◌≢◌, Bool, Option, none, some, List, [], ◌∷◌, map, Dict, lookup, insert, erase,
  strip, ◌==◌, if◌then◌else◌,
}
use incremental_cdc_data_pla.Watermark.Models.{CompositeWatermark}
use incremental_cdc_data_pla.Watermark.Store.{Result, ok, raise, runtime_error, file_not_found}
use incremental_cdc_data_pla.Watermark.Source.{Row, map_result}

-- `json.dumps` and `json.loads` on rows, and `hashlib.sha256(…).hexdigest()[:16]`.
pub record External : Type 0 where
  pub dumps : Row → String
  pub loads : String → Option Row
  pub sha256_16 : String → String

-- What `json` documents of a row: it is written as an object on one line, which begins and ends
-- with a brace, and is read back as the same row. It is written with sorted keys, so this is of a row
-- whose keys are sorted, as dictionaries compare equal in any order of their keys.
abbrev pub ReadsBack : External → Row → Type 0
ReadsBack x r = (x.loads (x.dumps r) ≡ some r) × (strip (x.dumps r) ≡ x.dumps r) × (x.dumps r ≢ "")

abbrev pub Files : Type 0
Files = Dict (List String)

-- `x or 'MIN'`: an empty text is false too.
abbrev or_min : Option String → String
or_min none = "MIN"
or_min (some s) = if s == "" then "MIN" else s

-- `target_file` and `temp_file` in the directory of a batch.
landing_dir : String → String → String → String
landing_dir base t batch = concat base (concat "/table=" (concat t (concat "/batch_id=" batch)))

unfoldable pub target_file : String → String → String → String
unfolding landing_dir
target_file base t batch = concat (landing_dir base t batch) "/data.jsonl"

unfoldable pub temp_file : String → String → String → String → String
unfolding landing_dir
temp_file base t batch pid = concat (landing_dir base t batch) (concat "/data.jsonl.tmp." pid)

-- The window as `generate_deterministic_batch_id` spells it for the digest.
unfoldable pub window_text : String → CompositeWatermark → CompositeWatermark → String
window_text t low high = concat t (
    concat ":" (
      concat (or_min low.timestamp) (
        concat ":" (
          concat (or_min low.key)
            (concat ":" (concat (or_min high.timestamp) (concat ":" (or_min high.key))))))))

module _ (x : External) where
  open x use {dumps, loads, sha256_16}

  unfoldable pub generate_deterministic_batch_id :
      String → CompositeWatermark → CompositeWatermark → String
  unfolding window_text
  generate_deterministic_batch_id t low high =
      concat "batch_" (concat t (concat "_" (sha256_16 (window_text t low high))))

  -- The temporary file is written and then renamed. `fault`: the operating system fails before the
  -- rename, and the handler removes the temporary file.
  unfoldable pub write_watermark_batch_jsonl :
      String → String → String → String → Bool → List Row → Files → Result String × Files
  write_watermark_batch_jsonl base t batch pid fault rows files =
      let temp = temp_file base t batch pid in
      let written = insert temp (map dumps rows) files in
      if fault then (raise runtime_error, erase temp written) else (
        ok (target_file base t batch),
        insert (target_file base t batch) (map dumps rows) (erase temp written),
      )

  abbrev cons_result : Option Row → Result (List Row) → Result (List Row)
  cons_result none rest = raise runtime_error
  cons_result (some r) rest = map_result (◌∷◌ r) rest

  -- Blank lines are passed over; a line that is no JSON raises.
  unfoldable pub parse_lines : List String → Result (List Row)
  parse_lines [] = ok []
  parse_lines (line ∷ lines) =
      let rest = parse_lines lines in
      if strip line == "" then rest else cons_result (loads (strip line)) rest

  abbrev parse_file : Option (List String) → Result (List Row)
  parse_file none = raise file_not_found
  parse_file (some lines) = parse_lines lines

  unfoldable pub read_watermark_batch_jsonl : String → Files → Result (List Row)
  unfolding parse_lines
  read_watermark_batch_jsonl path files = parse_file (lookup path files)
