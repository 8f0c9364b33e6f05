-- ===== src/Cdc/Generator.antt =====
-- src/cdc/generator.py: the scenarios of change events that are derived from the snapshot of the
-- source. `none` is a raise: a row that the snapshot lacks, or a time out of range.
pub mod Advanced
pub mod Fixtures
pub mod Valid
pub mod Stocked
pub mod Rejects
pub mod Index
pub mod Complete
mod Tests
use incremental_cdc_data_pla.Base.{
  ℕ, String, Bool, false, Option, none, some, List, [], ◌∷◌, ◌==◌, Dict, lookup, insert,
  if◌then◌else◌,
}
use incremental_cdc_data_pla.Cdc.{
  pos, Value, null, text, sequence, dictionary, Fields, no_fields, field, get, has, CdcEvent,
}
use incremental_cdc_data_pla.Source.{
  ◌>>=◌, Runtime, format_iso_timestamp, time_text, date_text, minutes, hours, days,
}
use incremental_cdc_data_pla.Source.Generator.{Random, SnapshotConfig}
use incremental_cdc_data_pla.Source.Generator.Snapshot.{generate_snapshot_dicts}

-- `d[k]`
unfoldable pub item : String → Fields → Option Value
item k d = if has k d then some (get k d) else none

-- `d[k] = v`
unfoldable pub set_field : String → Value → Fields → Fields
set_field k v no_fields = field k v no_fields
set_field k v (field j w d) =
    let rest = set_field k v d in if j == k then field j v d else field j w rest

-- `v == s`
abbrev pub is_text : String → Value → Bool
is_text s (text t) = t == s
is_text s v = false

-- A key that is no text is found under no text; one that is a list or a dictionary raises.
abbrev pub add_row : Value → Fields → Dict Fields → Option (Dict Fields)
add_row (text k) row d = some (insert k row d)
add_row (sequence l) row d = none
add_row (dictionary m) row d = none
add_row v row d = some d

-- `{r[pk]: deepcopy(r) for r in rows}`
unfoldable pub index_rows : String → List Fields → Dict Fields → Option (Dict Fields)
index_rows pk [] d = some d
index_rows pk (row ∷ rows) d = do k ← item pk row; d' ← add_row k row d; index_rows pk rows d'

pub record Scenarios (y : Runtime) : Type 0 where
  pub base_time : y.Datetime
  pub accounts : Dict Fields
  pub subscriptions : Dict Fields
  pub invoices : Dict Fields
  pub payments : Dict Fields

-- `__init__` and `_init_snapshot_state`.
unfoldable pub init_snapshot_state :
    (y : Runtime) → y.Datetime → Dict (List Fields) → Option (Scenarios y)
unfolding index_rows
init_snapshot_state y base_time raw = do
  account_rows ← lookup "accounts" raw
  accounts ← index_rows "account_id" account_rows []
  subscription_rows ← lookup "subscriptions" raw
  subscriptions ← index_rows "subscription_id" subscription_rows []
  invoice_rows ← lookup "invoices" raw
  invoices ← index_rows "invoice_id" invoice_rows []
  payment_rows ← lookup "payments" raw
  payments ← index_rows "payment_id" payment_rows []
  some (record {
    base_time = base_time;
    accounts = accounts;
    subscriptions = subscriptions;
    invoices = invoices;
    payments = payments;
  })

unfoldable pub init_scenarios : (y : Runtime) (r : Random) → SnapshotConfig y → Option (Scenarios y)
unfolding init_snapshot_state
init_scenarios y r c = do
  base_time ← y.plus c.base_timestamp (days 130)
  raw ← generate_snapshot_dicts y r c
  init_snapshot_state y base_time raw

module _ (y : Runtime) where
  -- `t + timedelta(…)`, and some seconds later the commit.
  unfoldable pub event_times : y.Datetime → ℕ → ℕ → Option (y.Datetime × y.Datetime)
  event_times t n delay = do at ← y.plus t n; commit ← y.plus at delay; some (at, commit)

  -- What the events share.
  abbrev pub change :
      String
      → String
      → String
      → Fields
      → ℕ
      → y.Datetime
      → y.Datetime
      → String
      → Option Fields
      → Option Fields
      → CdcEvent
  change id table op key n at commit batch after before = record {
    event_id = id;
    table_name = table;
    operation = op;
    business_key = key;
    sequence_number = pos n;
    event_timestamp = format_iso_timestamp y at;
    source_commit_timestamp = format_iso_timestamp y commit;
    batch_id = batch;
    payload = after;
    before_payload = before;
    source_system = "b2b_saas_postgres";
  }

  abbrev pub key_field : String → String → Fields
  key_field k v = field k (text v) no_fields

  -- 1, and the duplicate of it in the second batch.
  unfoldable pub new_account : y.Datetime → y.Datetime → String → CdcEvent
  unfolding format_iso_timestamp
  new_account at commit batch =
      change "evt_ins_acc_0041" "accounts" "INSERT" (key_field "account_id" "ACC-0041") 1 at commit
        batch
        (some (
          field "account_id" (text "ACC-0041") (
            field "account_name" (text "Apex Cloud Analytics") (
              field "industry" (text "Fintech") (
                field "country" (text "US") (
                  field "status" (text "ACTIVE") (
                    field "created_at" (time_text y at)
                      (field "updated_at" (time_text y at) no_fields))))))))
        none

  unfoldable pub new_subscription : y.Datetime → y.Datetime → String → CdcEvent
  unfolding format_iso_timestamp
  new_subscription at commit batch =
      change "evt_ins_sub_0061" "subscriptions" "INSERT" (key_field "subscription_id" "SUB-0061") 1
        at commit batch
        (some (
          field "subscription_id" (text "SUB-0061") (
            field "account_id" (text "ACC-0041") (
              field "plan_name" (text "GROWTH") (
                field "billing_cycle" (text "MONTHLY") (
                  field "monthly_amount" (text "199.00") (
                    field "status" (text "ACTIVE") (
                      field "start_date" (date_text y (y.date at)) (
                        field "end_date" null (
                          field "created_at" (time_text y at)
                            (field "updated_at" (time_text y at) no_fields)))))))))))
        none

  unfoldable pub new_invoice : y.Datetime → y.Datetime → y.Date → String → CdcEvent
  unfolding format_iso_timestamp
  new_invoice at commit due batch =
      change "evt_ins_inv_0121" "invoices" "INSERT" (key_field "invoice_id" "INV-0121") 1 at commit
        batch
        (some (
          field "invoice_id" (text "INV-0121") (
            field "subscription_id" (text "SUB-0061") (
              field "invoice_date" (date_text y (y.date at)) (
                field "due_date" (date_text y due) (
                  field "invoice_amount" (text "199.00") (
                    field "invoice_status" (text "ISSUED") (
                      field "created_at" (time_text y at)
                        (field "updated_at" (time_text y at) no_fields)))))))))
        none

  unfoldable pub new_payment : y.Datetime → y.Datetime → String → CdcEvent
  unfolding format_iso_timestamp
  new_payment at commit batch =
      change "evt_ins_pay_0091" "payments" "INSERT" (key_field "payment_id" "PAY-0091") 1 at commit
        batch
        (some (
          field "payment_id" (text "PAY-0091") (
            field "invoice_id" (text "INV-0121") (
              field "payment_date" (date_text y (y.date at)) (
                field "payment_amount" (text "199.00") (
                  field "payment_method" (text "CREDIT_CARD") (
                    field "payment_status" (text "SUCCESS") (
                      field "created_at" (time_text y at)
                        (field "updated_at" (time_text y at) no_fields)))))))))
        none

  -- The two values between which a status is toggled.
  abbrev pub toggle : String → String → Value → Value
  toggle from to v = if is_text from v then text to else text from

  -- 5 to 8: the row before and after an update.
  unfoldable pub account_update : y.Datetime → y.Datetime → String → Fields → Value → CdcEvent
  unfolding format_iso_timestamp set_field
  account_update at commit batch before status =
      change "evt_upd_acc_0001" "accounts" "UPDATE" (key_field "account_id" "ACC-0001") 10 at commit
        batch
        (some (
          set_field "updated_at" (time_text y at)
            (set_field "status" (toggle "SUSPENDED" "ACTIVE" status) before)))
        (some before)

  unfoldable pub subscription_update : y.Datetime → y.Datetime → String → Fields → CdcEvent
  unfolding format_iso_timestamp set_field
  subscription_update at commit batch before =
      change "evt_upd_sub_0001" "subscriptions" "UPDATE" (key_field "subscription_id" "SUB-0001") 15
        at commit batch
        (some (
          set_field "updated_at" (time_text y at) (
            set_field "monthly_amount" (text "1299.00")
              (set_field "plan_name" (text "ENTERPRISE") before))))
        (some before)

  unfoldable pub invoice_update : y.Datetime → y.Datetime → String → Fields → Value → CdcEvent
  unfolding format_iso_timestamp set_field
  invoice_update at commit batch before status =
      change "evt_upd_inv_0001" "invoices" "UPDATE" (key_field "invoice_id" "INV-0001") 20 at commit
        batch
        (some (
          set_field "updated_at" (time_text y at)
            (set_field "invoice_status" (toggle "PAID" "VOID" status) before)))
        (some before)

  unfoldable pub payment_update : y.Datetime → y.Datetime → String → Fields → CdcEvent
  unfolding format_iso_timestamp set_field
  payment_update at commit batch before =
      change "evt_upd_pay_0001" "payments" "UPDATE" (key_field "payment_id" "PAY-0001") 25 at commit
        batch
        (some (
          set_field "updated_at" (time_text y at)
            (set_field "payment_status" (text "REFUNDED") before)))
        (some before)

  -- The events, from their times and the rows that the updates start from.
  unfoldable pub batch_1_of :
      (w1 w2 w3 w4 w5 w6 w7 w8 : y.Datetime × y.Datetime)
      → y.Date
      → String
      → Fields
      → Value
      → Fields
      → Fields
      → Value
      → Fields
      → List CdcEvent
  unfolding new_account new_subscription new_invoice new_payment account_update subscription_update
      invoice_update payment_update
  batch_1_of w1 w2 w3 w4 w5 w6 w7 w8 due batch account status subscription invoice invoice_status
        payment =
      new_account w1.0 w1.1 batch
      ∷ new_subscription w2.0 w2.1 batch
      ∷ new_invoice w3.0 w3.1 due batch
      ∷ new_payment w4.0 w4.1 batch
      ∷ account_update w5.0 w5.1 batch account status
      ∷ subscription_update w6.0 w6.1 batch subscription
      ∷ invoice_update w7.0 w7.1 batch invoice invoice_status
      ∷ payment_update w8.0 w8.1 batch payment
      ∷ []

  unfoldable pub generate_batch_1 : Scenarios y → String → Option (List CdcEvent)
  unfolding batch_1_of event_times
  generate_batch_1 g batch = do
    t0 ← y.plus g.base_time (hours 1)
    w1 ← event_times t0 (minutes 5) 1
    w2 ← event_times t0 (minutes 10) 1
    w3 ← event_times t0 (minutes 15) 2
    due ← y.plus_days (y.date w3.0) 15
    w4 ← event_times t0 (minutes 20) 1
    account ← lookup "ACC-0001" g.accounts
    status ← item "status" account
    w5 ← event_times t0 (minutes 30) 2
    subscription ← lookup "SUB-0001" g.subscriptions
    w6 ← event_times t0 (minutes 35) 1
    invoice ← lookup "INV-0001" g.invoices
    invoice_status ← item "invoice_status" invoice
    w7 ← event_times t0 (minutes 40) 3
    payment ← lookup "PAY-0001" g.payments
    w8 ← event_times t0 (minutes 45) 1
    some (
        batch_1_of w1 w2 w3 w4 w5 w6 w7 w8 due batch account status subscription invoice
          invoice_status payment)
