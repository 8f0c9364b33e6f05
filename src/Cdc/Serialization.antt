-- ===== src/Cdc/Serialization.antt =====
-- src/cdc/serialization.py: change events in files of lines. A file is the list of its lines; `json`
-- is a parameter, and so is the path of the file of a batch and a table.
pub mod RoundTrip
pub mod Groups
mod Tests
use Prim.Native.String.{◌++◌ as concat}
use incremental_cdc_data_pla.Base.{
  ℕ, suc, String, Bool, not, ◌&&◌, Option, none, some, List, [], ◌∷◌, map, keep, ◌==◌, strip, Dict,
  lookup, insert, if◌then◌else◌,
}
use incremental_cdc_data_pla.Cdc.{Value, dictionary, Fields, CdcEvent, to_dict}
use incremental_cdc_data_pla.Cdc.Event.{Casts, from_dict}

-- `json.dumps(…, sort_keys=True)` of a dictionary, and `json.loads` (`none`: an exception).
pub record Json : Type 0 where
  pub dumps : Fields → String
  pub loads : String → Option Value

unfoldable pub serialize_event_to_json : Json → CdcEvent → String
serialize_event_to_json j e = j.dumps (to_dict e)

-- `from_dict` of a value that is no dictionary raises.
abbrev pub event_from : Casts → Option Value → Option CdcEvent
event_from c (some (dictionary d)) = from_dict c d
event_from c _ = none

unfoldable pub deserialize_event_from_json : Json → Casts → String → Option CdcEvent
deserialize_event_from_json j c s = event_from c (j.loads s)

abbrev pub Files : Type 0
Files = Dict (List String)

abbrev pub GroupKey : Type 0
GroupKey = String × String

abbrev pub group_key : CdcEvent → GroupKey
group_key e = (e.batch_id, e.table_name)

abbrev pub in_group : GroupKey → CdcEvent → Bool
in_group (b, t) e = e.batch_id == b && e.table_name == t

-- The keys of `grouped_events`, in the order of their first event; a group keeps the order too.
unfoldable pub group_keys : List CdcEvent → List GroupKey
group_keys [] = []
group_keys (e ∷ es) = let rest = group_keys es in group_key e ∷ keep (λ k. not (in_group k e)) rest

module _ (j : Json) (path : String → String → String) where
  -- `open(file_path, "w")` and the lines of the group.
  unfoldable pub write_group : List CdcEvent → GroupKey → Files → Files
  write_group es (b, t) files =
      insert (path b t) (map (serialize_event_to_json j) (keep (in_group (b, t)) es)) files

  unfoldable pub write_groups : List CdcEvent → List GroupKey → Files → Files
  unfolding write_group
  write_groups es [] files = files
  write_groups es (k ∷ keys) files = write_groups es keys (write_group es k files)

  -- `written_paths`, by batch and table.
  unfoldable pub written_paths : List GroupKey → Dict String → Dict String
  written_paths [] paths = paths
  written_paths ((b, t) ∷ keys) paths =
      written_paths keys (insert (concat b (concat "/" t)) (path b t) paths)

  unfoldable pub write_cdc_batch_jsonl : List CdcEvent → Files → Dict String × Files
  unfolding write_groups group_keys written_paths
  write_cdc_batch_jsonl es files =
      (written_paths (group_keys es) [], write_groups es (group_keys es) files)

-- The events, or the missing file, or the number of the line that cannot be parsed.
pub data ReadResult : Type 0 where
  events : List CdcEvent → ReadResult
  file_not_found : ReadResult
  parse_failed : ℕ → ReadResult

abbrev pub add_read : ℕ → Option CdcEvent → ReadResult → ReadResult
add_read n none rest = parse_failed n
add_read n (some e) (events es) = events (e ∷ es)
add_read n (some e) file_not_found = file_not_found
add_read n (some e) (parse_failed m) = parse_failed m

-- The loop over the lines, from the line number `n`.
unfoldable pub parse_events : Json → Casts → ℕ → List String → ReadResult
unfolding deserialize_event_from_json
parse_events j c n [] = events []
parse_events j c n (line ∷ lines) =
    let rest = parse_events j c (suc n) lines in
    if strip line == ""
    then rest
    else add_read n (deserialize_event_from_json j c (strip line)) rest

abbrev pub read_file : Json → Casts → Option (List String) → ReadResult
read_file j c none = file_not_found
read_file j c (some lines) = parse_events j c 1 lines

unfoldable pub read_cdc_batch_jsonl : Json → Casts → String → Files → ReadResult
unfolding parse_events
read_cdc_batch_jsonl j c path files = read_file j c (lookup path files)
