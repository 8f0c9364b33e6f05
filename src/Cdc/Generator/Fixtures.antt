-- ===== src/Cdc/Generator/Fixtures.antt =====
-- src/cdc/generator.py: the malformed events, as raw dictionaries; and all batches.
use incremental_cdc_data_pla.Base.{String, Option, some, List, [], ◌∷◌}
use incremental_cdc_data_pla.Cdc.{
  ℤ, pos, negsuc, Value, null, integer, text, dictionary, Fields, no_fields, field, CdcEvent,
}
use incremental_cdc_data_pla.Cdc.Engine.{External}
use incremental_cdc_data_pla.Source.{Runtime, format_iso_timestamp, time_text, days, ◌>>=◌}
use incremental_cdc_data_pla.Cdc.Generator.{Scenarios, key_field, generate_batch_1}
use incremental_cdc_data_pla.Cdc.Generator.Advanced.{generate_batch_2}

module _ (y : Runtime) where
  -- The fields from the event time on, which the fixtures share.
  abbrev pub rest_of : y.Datetime → String → Value → Value → Fields
  rest_of at batch after before = field "event_timestamp" (time_text y at) (
      field "source_commit_timestamp" (time_text y at) (
        field "batch_id" (text batch) (
          field "payload" after (
            field "before_payload" before
              (field "source_system" (text "b2b_saas_postgres") no_fields)))))

  abbrev pub head_of : String → String → String → Fields → Fields → Fields
  head_of id table op key rest = field "event_id" (text id) (
      field "table_name" (text table)
        (field "operation" (text op) (field "business_key" (dictionary key) rest)))

  abbrev pub numbered : ℤ → Fields → Fields
  numbered n rest = field "sequence_number" (integer n) rest

  abbrev pub two_fields : String → String → String → String → Value
  two_fields k v j w = dictionary (field k (text v) (field j (text w) no_fields))

  unfoldable pub batch_3_of : y.Datetime → String → List Fields
  unfolding format_iso_timestamp
  batch_3_of t2 batch =
      head_of "evt_inv_001_missing_pk" "accounts" "INSERT" no_fields (
        numbered (pos 1) (
          rest_of t2 batch (two_fields "account_id" "ACC-9999" "account_name" "Malformed Co") null))
      ∷ head_of "evt_inv_002_unsupported_op" "accounts" "TRUNCATE"
          (key_field y "account_id" "ACC-0001") (numbered (pos 100) (rest_of t2 batch null null))
      ∷ head_of "evt_inv_003_null_insert_payload" "subscriptions" "INSERT"
          (key_field y "subscription_id" "SUB-9999") (numbered (pos 1) (rest_of t2 batch null null))
      ∷ head_of "evt_inv_004_invalid_seq" "invoices" "UPDATE" (key_field y "invoice_id" "INV-0001")
          (numbered (negsuc 4) (
            rest_of t2 batch (two_fields "invoice_id" "INV-0001" "invoice_status" "VOID")
              (two_fields "invoice_id" "INV-0001" "invoice_status" "ISSUED")))
      ∷ head_of "evt_inv_005_missing_seq_key" "accounts" "INSERT"
          (key_field y "account_id" "ACC-9998")
          (rest_of t2 batch (two_fields "account_id" "ACC-9998" "account_name" "No Seq Co") null)
      ∷ head_of "evt_inv_006_missing_table" "" "INSERT" (key_field y "id" "1")
          (numbered (pos 1) (rest_of t2 batch (dictionary (field "id" (text "1") no_fields)) null))
      ∷ head_of "evt_inv_007_delete_missing_before" "payments" "DELETE"
          (key_field y "payment_id" "PAY-0005") (numbered (pos 50) (rest_of t2 batch null null))
      ∷ []

  unfoldable pub generate_batch_3 : Scenarios y → String → Option (List Fields)
  unfolding batch_3_of
  generate_batch_3 g batch = do t2 ← y.plus g.base_time (days 5); some (batch_3_of t2 batch)

  pub record Batches : Type 0 where
    pub batch_001 : List CdcEvent
    pub batch_002 : List CdcEvent
    pub batch_003_quarantine : List Fields

  unfoldable pub generate_all_batches : External → Scenarios y → Option Batches
  unfolding generate_batch_1 generate_batch_2 generate_batch_3
  generate_all_batches x g = do
    first ← generate_batch_1 y g "batch_001"
    second ← generate_batch_2 y x g "batch_002"
    third ← generate_batch_3 g "batch_003_quarantine"
    some (record { batch_001 = first; batch_002 = second; batch_003_quarantine = third })
