-- ===== src/Merge/Ledger.antt =====
-- src/merge/event_ledger.py: the ledger of applied events, a Delta table. `none` is a table that
-- was not created yet.
pub mod Lookup
pub mod Applied
pub mod Agrees
use incremental_cdc_data_pla.Base.{
  String, Bool, true, false, not, ◌&&◌, Option, none, some, List, [], ◌∷◌, map, keep, any, ◌==◌,
  ◌≡◌, Dict, lookup, find_where, if◌then◌else◌,
}
use incremental_cdc_data_pla.Cdc.{ℤ, le_int}
use incremental_cdc_data_pla.Delta.{Delta}
use incremental_cdc_data_pla.Normalization.{NormalizedCdcEvent}

pub data LedgerStatus : Type 0 where
  pending applied : LedgerStatus

pub record EventLedgerRecord : Type 0 where
  pub event_id : String
  pub event_fingerprint : String
  pub entity_sequence_key : String
  pub table_name : String
  pub business_key_canonical : String
  pub sequence_number : ℤ
  pub operation : String
  pub source_commit_timestamp : String
  pub processing_id : String
  pub source_file : String
  pub status : LedgerStatus

abbrev pub Ledger : Type 0
Ledger = Option (List EventLedgerRecord)

abbrev pub is_pending : EventLedgerRecord → Bool
is_pending r = elim r.status [ pending ↦ true | applied ↦ false ]

-- `initialize_ledger`
abbrev pub initialize_ledger : Bool → Ledger → Ledger
initialize_ledger overwrite none = some []
initialize_ledger true (some rows) = some []
initialize_ledger false (some rows) = some rows

abbrev pub get_all_ledger_records : Ledger → List EventLedgerRecord
get_all_ledger_records none = []
get_all_ledger_records (some rows) = rows

unfoldable pub get_pending_records : Ledger → List EventLedgerRecord
get_pending_records l = keep is_pending (get_all_ledger_records l)

unfoldable pub get_ledger_record_by_event_id : String → Ledger → Option EventLedgerRecord
get_ledger_record_by_event_id i l = find_where (λ r. r.event_id == i) (get_all_ledger_records l)

abbrev pub greater : ℤ → Option ℤ → ℤ
greater n none = n
greater n (some m) = if le_int m n then n else m

-- The largest number under a key, which `groupBy(key).agg(max(…))` gives.
unfoldable pub largest : String → List EventLedgerRecord → Option ℤ
largest k [] = none
largest k (r ∷ rows) =
    let rest = largest k rows in
    if r.entity_sequence_key == k then some (greater r.sequence_number rest) else rest

-- `groupBy("entity_sequence_key").agg(max("sequence_number"))`, collected.
abbrev pub GroupMax : Type 0
GroupMax = List EventLedgerRecord → Dict ℤ

abbrev pub IsGroupMax : GroupMax → Type 0
IsGroupMax g = (rows : List EventLedgerRecord) (k : String) → lookup k (g rows) ≡ largest k rows

unfoldable pub get_applied_max_sequences : GroupMax → Ledger → Dict ℤ
get_applied_max_sequences g none = []
get_applied_max_sequences g (some rows) = g (keep (λ r. not (is_pending r)) rows)

abbrev pub pending_record : String → NormalizedCdcEvent → EventLedgerRecord
pending_record proc e = record {
  event_id = e.event_id;
  event_fingerprint = e.event_fingerprint;
  entity_sequence_key = e.entity_sequence_key;
  table_name = e.table_name;
  business_key_canonical = e.business_key_canonical;
  sequence_number = e.sequence_number;
  operation = e.operation;
  source_commit_timestamp = e.source_commit_timestamp;
  processing_id = proc;
  source_file = e.source_file;
  status = pending;
}

abbrev pub same_event : EventLedgerRecord → EventLedgerRecord → Bool
same_event a b = a.event_id == b.event_id

abbrev pub is_one_of : List String → String → Bool
is_one_of ids i = any (λ j. j == i) ids

abbrev pub set_applied : EventLedgerRecord → EventLedgerRecord
set_applied r = record r { status = applied }

module _ (d : Delta EventLedgerRecord) where
  -- An event that the ledger has keeps its row. The processing id is not empty where the pipeline
  -- calls it.
  unfoldable pub record_pending_events : List NormalizedCdcEvent → String → Ledger → Ledger
  record_pending_events [] proc l = l
  record_pending_events (e ∷ es) proc l =
      some (d.insert_all same_event (map (pending_record proc) (e ∷ es)) (get_all_ledger_records l))

  unfoldable pub mark_events_applied : List String → Ledger → Ledger
  mark_events_applied [] l = l
  mark_events_applied (i ∷ ids) l = some (
      d.update (λ r. is_one_of (i ∷ ids) r.event_id && is_pending r) set_applied
        (get_all_ledger_records l))
