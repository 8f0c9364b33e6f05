-- ===== src/Merge/Files.antt =====
-- The reading of a file of accepted events of src/merge/event_adapter.py, and `run_from_file` of
-- src/merge/pipeline.py. A file is its lines, and `none` where it does not exist.
use incremental_cdc_data_pla.Base.{
  String, not, Option, none, some, List, [], ◌∷◌, ◌==◌, strip, if◌then◌else◌,
}
use incremental_cdc_data_pla.Cdc.{Value, dictionary, Fields}
use incremental_cdc_data_pla.Normalization.{NormalizedCdcEvent, Python}
use incremental_cdc_data_pla.Normalization.Event.{event_from_dict}
use incremental_cdc_data_pla.Merge.Engine.{
  value_error, file_not_found, conversion_error, Result, raise,
}
use incremental_cdc_data_pla.Merge.Pipeline.{World, Setup, Call, MergePipelineResult, run}

-- `json.loads` (`none`: an exception), and what `str`, `int` and `dict` do.
pub record Loading : Type 0 where
  pub python : Python
  pub cast : Value → Option Fields
  pub loads : String → Option Value

abbrev event_of_value : Loading → Option Value → Option NormalizedCdcEvent
event_of_value j (some (dictionary d)) = event_from_dict j.python j.cast d
event_of_value j _ = none

abbrev add_event :
    Option NormalizedCdcEvent → Option (List NormalizedCdcEvent) → Option (List NormalizedCdcEvent)
add_event (some e) (some es) = some (e ∷ es)
add_event _ _ = none

unfoldable pub load_accepted_events : Loading → List String → Option (List NormalizedCdcEvent)
load_accepted_events j [] = some []
load_accepted_events j (line ∷ lines) =
    let rest = load_accepted_events j lines in
    if strip line == "" then rest else add_event (event_of_value j (j.loads (strip line))) rest

abbrev run_loaded :
    Setup → Call → Option (List NormalizedCdcEvent) → World → Result MergePipelineResult × World
run_loaded p c none w = (raise conversion_error, w)
run_loaded p c (some events) w = run p c events w

abbrev run_derived :
    Loading
    → Setup
    → Call
    → Option String
    → List String
    → World
    → Result MergePipelineResult × World
run_derived j p c none lines w = (raise value_error, w)
run_derived j p c (some id) lines w =
    if id == ""
    then (raise value_error, w)
    else run_loaded p (record c { processing_id = id }) (load_accepted_events j lines) w

-- The processing id of the call, which is empty where it was not given, or else the one that the
-- path has.
unfoldable pub run_from_file :
    Loading
    → Setup
    → Call
    → Option String
    → Option (List String)
    → World
    → Result MergePipelineResult × World
run_from_file j p c derived none w = (raise file_not_found, w)
run_from_file j p c derived (some lines) w =
    if not (strip c.processing_id == "")
    then run_loaded p (record c { processing_id = strip c.processing_id })
        (load_accepted_events j lines) w
    else run_derived j p c derived lines w
