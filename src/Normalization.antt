-- ===== src/Normalization.antt =====
-- src/normalization/models.py: the event that normalization hands to the merge, and the reasons of a
-- quarantine; and what the parts of normalization take from Python.
mod Tests
pub mod Event
pub mod Validator
pub mod Fingerprint
pub mod Enrichment
pub mod Processor
pub mod Reader
pub mod Pipeline
use incremental_cdc_data_pla.Base.{String, Bool, Option}
use incremental_cdc_data_pla.Cdc.{ℤ, Value, null, text, Fields}

pub record NormalizedCdcEvent : Type 0 where
  pub event_id : String
  pub table_name : String
  pub operation : String
  pub business_key : Fields
  pub business_key_canonical : String
  pub entity_sequence_key : String
  pub sequence_number : ℤ
  pub event_timestamp : String
  pub source_commit_timestamp : String
  pub batch_id : String
  pub source_system : String
  pub payload : Option Fields
  pub before_payload : Option Fields
  pub event_fingerprint : String
  pub ingestion_batch_id : String
  pub source_file : String
  pub is_late_arrival : Bool

pub data QuarantineReasonCode : Type 0 where
  missing_event_id unknown_table unsupported_operation : QuarantineReasonCode
  missing_business_key invalid_business_key : QuarantineReasonCode
  missing_sequence invalid_sequence : QuarantineReasonCode
  missing_event_timestamp invalid_event_timestamp : QuarantineReasonCode
  missing_commit_timestamp invalid_commit_timestamp missing_source_system : QuarantineReasonCode
  missing_payload missing_before_image unexpected_delete_payload : QuarantineReasonCode
  business_key_payload_mismatch duplicate_event_conflict sequence_conflict : QuarantineReasonCode
  malformed_json : QuarantineReasonCode

pub record QuarantinedEvent : Type 0 where
  pub quarantine_code : QuarantineReasonCode
  pub raw_record : Value
  pub event_id : Value
  pub table_name : Value
  pub source_file : Value
  pub batch_id : Value

-- What `int(v)` does: a number, a ValueError or TypeError, or an OverflowError (of an infinity).
pub data IntResult : Type 0 where
  number : ℤ → IntResult
  no_integer overflow : IntResult

-- `str` of a value that is neither a text nor None, `str.upper`, `int`, and whether
-- `parse_iso_timestamp` returns.
pub record Python : Type 0 where
  pub str : Value → String
  pub upper : String → String
  pub int : Value → IntResult
  pub reads_timestamp : String → Bool

abbrev pub py_str : Python → Value → String
py_str y null = "None"
py_str y (text s) = s
py_str y v = y.str v
