-- ===== src/Merge/Classify.antt =====
-- src/merge/pipeline.py, steps 1 to 3 of `run`: the check of what an interrupted run left, the
-- classification of the events, and their waves.
pub mod Waves
pub mod Sorted
pub mod Checks
use incremental_cdc_data_pla.Base.{
  String, Bool, true, false, not, ◌&&◌, Option, none, some, List, [], ◌∷◌, ◌++◌, keep, any, ◌==◌,
  Dict, lookup, is_some, if◌then◌else◌, text_lt, sort_by,
}
use incremental_cdc_data_pla.Cdc.{ℤ, le_int, table_of, Table}
use incremental_cdc_data_pla.Normalization.{NormalizedCdcEvent}
use incremental_cdc_data_pla.Merge.{External}
use incremental_cdc_data_pla.Merge.Ledger.{
  LedgerStatus, pending, applied, EventLedgerRecord, Ledger, get_ledger_record_by_event_id,
}
use incremental_cdc_data_pla.Merge.Engine.{
  key_error, merge_ambiguity, pending_recovery, event_conflict, sequence_conflict, Result, ok,
  raise, is_ambiguous,
}

pub data EventClassification : Type 0 where
  fresh recovery_pending exact_replay_applied stale_skipped : EventClassification

-- `incoming_events_by_id`: of the events with an id the last one.
abbrev pub or_this :
    Bool → NormalizedCdcEvent → Option NormalizedCdcEvent → Option NormalizedCdcEvent
or_this b e (some f) = some f
or_this true e none = some e
or_this false e none = none

unfoldable pub incoming : String → List NormalizedCdcEvent → Option NormalizedCdcEvent
incoming i [] = none
incoming i (e ∷ es) = let rest = incoming i es in or_this (e.event_id == i) e rest

abbrev pub has_fingerprint : String → Option NormalizedCdcEvent → Bool
has_fingerprint f none = false
has_fingerprint f (some e) = f == e.event_fingerprint

-- Step 1: what was left pending is of this processing id, comes again, and is unchanged.
unfoldable pub check_pending :
    String → List EventLedgerRecord → List NormalizedCdcEvent → Result (Unit {0})
check_pending proc left events =
    if any (λ p. not (p.processing_id == proc)) left
    then raise pending_recovery
    else if any (λ p. not (is_some (incoming p.event_id events))) left
    then raise pending_recovery
    else if any (λ p. not (has_fingerprint p.event_fingerprint (incoming p.event_id events))) left
    then raise event_conflict
    else ok tt

-- An event that the ledger has.
abbrev pub classify_known :
    String → LedgerStatus → EventLedgerRecord → NormalizedCdcEvent → Result EventClassification
classify_known proc applied r e =
    if r.event_fingerprint == e.event_fingerprint
    then ok exact_replay_applied
    else raise event_conflict
classify_known proc pending r e =
    if not (r.event_fingerprint == e.event_fingerprint)
    then raise event_conflict
    else if not (r.processing_id == proc)
    then raise pending_recovery
    else ok recovery_pending

-- An event that the ledger lacks, by the largest applied sequence of its entity.
abbrev pub classify_new : Option ℤ → NormalizedCdcEvent → Result EventClassification
classify_new none e = ok fresh
classify_new (some m) e =
    if not (le_int m e.sequence_number)
    then ok stale_skipped
    else if le_int e.sequence_number m
    then raise sequence_conflict
    else ok fresh

abbrev pub classify_by :
    String → Dict ℤ → Option EventLedgerRecord → NormalizedCdcEvent → Result EventClassification
classify_by proc maxima (some r) e = classify_known proc r.status r e
classify_by proc maxima none e = classify_new (lookup e.entity_sequence_key maxima) e

unfoldable pub classify_event :
    String → Ledger → Dict ℤ → NormalizedCdcEvent → Result EventClassification
classify_event proc l maxima e =
    classify_by proc maxima (get_ledger_record_by_event_id e.event_id l) e

pub record Classified : Type 0 where
  pub fresh_events : List NormalizedCdcEvent
  pub recovery_events : List NormalizedCdcEvent
  pub replay_events : List NormalizedCdcEvent
  pub stale_events : List NormalizedCdcEvent

abbrev pub add_class : NormalizedCdcEvent → EventClassification → Classified → Classified
add_class e fresh c = record c { fresh_events = e ∷ c.fresh_events }
add_class e recovery_pending c = record c { recovery_events = e ∷ c.recovery_events }
add_class e exact_replay_applied c = record c { replay_events = e ∷ c.replay_events }
add_class e stale_skipped c = record c { stale_events = e ∷ c.stale_events }

abbrev pub add_classified :
    NormalizedCdcEvent → Result EventClassification → Result Classified → Result Classified
add_classified e (raise f) rest = raise f
add_classified e (ok k) (raise f) = raise f
add_classified e (ok k) (ok c) = ok (add_class e k c)

-- Step 2. Each list keeps the order of the events.
unfoldable pub classify_all : String → Ledger → Dict ℤ → List NormalizedCdcEvent → Result Classified
classify_all proc l maxima [] =
    ok (record { fresh_events = []; recovery_events = []; replay_events = []; stale_events = [] })
classify_all proc l maxima (e ∷ es) =
    let rest = classify_all proc l maxima es in
    add_classified e (classify_event proc l maxima e) rest

abbrev pub actionable : Classified → List NormalizedCdcEvent
actionable c = c.fresh_events ++ c.recovery_events

-- Step 3: the key of a wave is the table and the sequence number.
abbrev pub WaveKey : Type 0
WaveKey = String × ℤ

abbrev pub wave_key : NormalizedCdcEvent → WaveKey
wave_key e = (e.table_name, e.sequence_number)

abbrev pub same_wave : WaveKey → WaveKey → Bool
same_wave (t, n) (u, m) = t == u && (le_int n m && le_int m n)

abbrev pub in_wave : WaveKey → NormalizedCdcEvent → Bool
in_wave k e = same_wave k (wave_key e)

-- The keys of `waves_by_key`, in the order of their first event.
unfoldable pub wave_keys : List NormalizedCdcEvent → List WaveKey
wave_keys [] = []
wave_keys (e ∷ es) = let rest = wave_keys es in wave_key e ∷ keep (λ k. not (in_wave k e)) rest

abbrev pub wave_lt : WaveKey → WaveKey → Bool
wave_lt (t, n) (u, m) = if text_lt t u then true else if t == u then not (le_int m n) else false

abbrev pub sorted_wave_keys : List NormalizedCdcEvent → List WaveKey
sorted_wave_keys events = sort_by wave_lt (wave_keys events)

abbrev pub check_wave :
    External → Option Table → List NormalizedCdcEvent → Result (Unit {0}) → Result (Unit {0})
check_wave x none group rest = raise key_error
check_wave x (some t) group rest = if is_ambiguous x t [] group then raise merge_ambiguity else rest

-- The ambiguity check across the waves.
unfoldable pub check_waves : External → List NormalizedCdcEvent → List WaveKey → Result (Unit {0})
check_waves x events [] = ok tt
check_waves x events ((t, n) ∷ keys) =
    let rest = check_waves x events keys in
    check_wave x (table_of t) (keep (in_wave (t, n)) events) rest
