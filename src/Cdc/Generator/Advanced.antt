-- ===== src/Cdc/Generator/Advanced.antt =====
-- src/cdc/generator.py: the batch with a delete, a duplicate, an arrival out of order and a late one.
use Prim.Native.String.{◌++◌ as concat}
use incremental_cdc_data_pla.Base.{◌+◌, String, Option, none, some, List, [], ◌∷◌, lookup}
use incremental_cdc_data_pla.Cdc.{Value, text, Fields, CdcEvent}
use incremental_cdc_data_pla.Cdc.Engine.{External, str_of}
use incremental_cdc_data_pla.Source.{
  Runtime, format_iso_timestamp, time_text, minutes, hours, days, ◌>>=◌,
}
use incremental_cdc_data_pla.Cdc.Generator.{
  item, set_field, Scenarios, change, key_field, new_account, event_times,
}

module _ (y : Runtime) where
  unfoldable pub payment_delete : y.Datetime → y.Datetime → String → Fields → CdcEvent
  unfolding format_iso_timestamp
  payment_delete at commit batch before =
      change y "evt_del_pay_0002" "payments" "DELETE" (key_field y "payment_id" "PAY-0002") 30 at
        commit batch none (some before)

  -- The state after sequence 101, and the one after sequence 102.
  unfoldable pub first_state : y.Datetime → Fields → Fields
  unfolding format_iso_timestamp set_field
  first_state at s0 = set_field "updated_at" (time_text y at) (set_field "country" (text "GB") s0)

  unfoldable pub second_state : External → y.Datetime → Value → Fields → Fields
  unfolding format_iso_timestamp set_field
  second_state x at name s1 = set_field "updated_at" (time_text y at) (
      set_field "account_name" (text (concat (str_of x name) " Inc"))
        (set_field "status" (text "TRIAL") s1))

  unfoldable pub first_update : y.Datetime → y.Datetime → String → Fields → Fields → CdcEvent
  unfolding format_iso_timestamp
  first_update at commit batch s0 s1 =
      change y "evt_ooo_acc_0002_seq101" "accounts" "UPDATE" (key_field y "account_id" "ACC-0002")
        101 at commit batch (some s1) (some s0)

  unfoldable pub second_update : y.Datetime → y.Datetime → String → Fields → Fields → CdcEvent
  unfolding format_iso_timestamp
  second_update at commit batch s1 s2 =
      change y "evt_ooo_acc_0002_seq102" "accounts" "UPDATE" (key_field y "account_id" "ACC-0002")
        102 at commit batch (some s2) (some s1)

  unfoldable pub late_update : y.Datetime → y.Datetime → String → Fields → CdcEvent
  unfolding format_iso_timestamp set_field
  late_update at commit batch before =
      change y "evt_late_sub_0002" "subscriptions" "UPDATE"
        (key_field y "subscription_id" "SUB-0002") 5 at commit batch
        (some (
          set_field "updated_at" (time_text y at)
            (set_field "billing_cycle" (text "ANNUAL") before)))
        (some before)

  -- The events, from their times and the rows that the changes start from. Sequence 102 arrives
  -- before 101.
  unfoldable pub batch_2_of :
      (w1 w2 w3 w4 w5 : y.Datetime × y.Datetime)
      → String
      → Fields
      → Fields
      → Fields
      → Fields
      → Fields
      → List CdcEvent
  unfolding new_account payment_delete first_update second_update late_update
  batch_2_of w1 w2 w3 w4 w5 batch payment s0 s1 s2 subscription =
      payment_delete w1.0 w1.1 batch payment
      ∷ new_account y w2.0 w2.1 batch
      ∷ second_update w4.0 w4.1 batch s1 s2
      ∷ first_update w3.0 w3.1 batch s0 s1
      ∷ late_update w5.0 w5.1 batch subscription
      ∷ []

  unfoldable pub late_times : y.Datetime → Option (y.Datetime × y.Datetime)
  late_times base = do at ← y.minus base (days 5); commit ← y.plus at 5; some (at, commit)

  unfoldable pub generate_batch_2 : External → Scenarios y → String → Option (List CdcEvent)
  unfolding batch_2_of first_state second_state event_times late_times
  generate_batch_2 x g batch = do
    t1 ← y.plus g.base_time (days 2)
    payment ← lookup "PAY-0002" g.payments
    w1 ← event_times y t1 (minutes 5) 1
    w2 ← event_times y g.base_time (hours 1 + minutes 5) 1
    s0 ← lookup "ACC-0002" g.accounts
    w3 ← event_times y t1 (minutes 15) 1
    let s1 = first_state w3.0 s0
    w4 ← event_times y t1 (minutes 20) 2
    name ← item "account_name" s1
    let s2 = second_state x w4.0 name s1
    subscription ← lookup "SUB-0002" g.subscriptions
    w5 ← late_times g.base_time
    some (batch_2_of w1 w2 w3 w4 w5 batch payment s0 s1 s2 subscription)
