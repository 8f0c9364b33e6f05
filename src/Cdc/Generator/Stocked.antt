-- ===== src/Cdc/Generator/Stocked.antt =====
-- src/cdc/generator.py: the first two batches over a snapshot that has the rows they start from.
use incremental_cdc_data_pla.Base.{
  ℕ, suc, ◌+◌, ◌<◌, ◌≤◌, arith, String, ◌≡◌, refl, true, false, some, List, All, ◌==◌, strip,
  lookup,
}
use incremental_cdc_data_pla.Cdc.{Value, Fields, get, has, CdcEvent}
use incremental_cdc_data_pla.Cdc.Validator.{Timestamps}
use incremental_cdc_data_pla.Cdc.Validator.Rules.Each.{has_fields}
use incremental_cdc_data_pla.Cdc.Engine.{External}
use incremental_cdc_data_pla.Source.{Runtime, minutes, hours, days}
use incremental_cdc_data_pla.Source.Calendar.{last_day, IsCalendar}
use incremental_cdc_data_pla.Source.Generator.Gives.{Gives, Gives-bind}
use incremental_cdc_data_pla.Cdc.Generator.{Scenarios, event_times, batch_1_of, generate_batch_1}
use incremental_cdc_data_pla.Cdc.Generator.Fixtures.{batch_3_of, generate_batch_3}
use incremental_cdc_data_pla.Cdc.Generator.Advanced.{
  first_state, second_state, batch_2_of, late_times, generate_batch_2,
}
use incremental_cdc_data_pla.Cdc.Generator.Valid.{
  IsClock, IsAccepted, set_field-has_fields, has-has_fields, has-set_field, item_there,
  batch_1_of-IsAccepted, batch_2_of-IsAccepted,
}

-- The rows that the scenarios start from.
pub record IsStocked (y : Runtime) (g : Scenarios y) : Type 0 where
  pub account : Fields
  pub account_there : lookup "ACC-0001" g.accounts ≡ some account
  pub status_there : has "status" account ≡ true
  pub other_account : Fields
  pub other_account_there : lookup "ACC-0002" g.accounts ≡ some other_account
  pub name_there : has "account_name" other_account ≡ true
  pub subscription : Fields
  pub subscription_there : lookup "SUB-0001" g.subscriptions ≡ some subscription
  pub subscription_filled : has_fields (some subscription) ≡ true
  pub other_subscription : Fields
  pub other_subscription_there : lookup "SUB-0002" g.subscriptions ≡ some other_subscription
  pub other_subscription_filled : has_fields (some other_subscription) ≡ true
  pub invoice : Fields
  pub invoice_there : lookup "INV-0001" g.invoices ≡ some invoice
  pub invoice_status_there : has "invoice_status" invoice ≡ true
  pub payment : Fields
  pub payment_there : lookup "PAY-0001" g.payments ≡ some payment
  pub payment_filled : has_fields (some payment) ≡ true
  pub other_payment : Fields
  pub other_payment_there : lookup "PAY-0002" g.payments ≡ some other_payment
  pub other_payment_filled : has_fields (some other_payment) ≡ true

-- The years up to 9999 have room for the times of the scenarios.
pub record IsTimely (y : Runtime) (cal : IsCalendar y) (base : y.Datetime) : Type 0 where
  pub from_start : days 6 ≤ cal.moment base
  pub to_end : cal.moment base + days 20 < days (suc last_day)

-- The times of an event that is planned in the days that are left.
event_times-Gives :
    (y : Runtime) (cal : IsCalendar y) (t : y.Datetime) (n delay : ℕ)
    → cal.moment t + n + delay < days (suc last_day)
    → Gives (λ w. cal.moment w.0 ≡ cal.moment t + n) (event_times y t n delay)
unfolding event_times
event_times-Gives y cal t n delay h =
    Gives-bind _ _ (y.plus t n) _ (cal.plus_within t n (omega (arith, h))) λ at p.
      Gives-bind _ _ (y.plus at delay) _ (cal.plus_within at delay (omega (arith, h, p)))
        λ commit q. (_, refl, p)

late_times-Gives :
    (y : Runtime) (cal : IsCalendar y) (base : y.Datetime)
    → IsTimely y cal base
    → Gives (λ w. Unit {0}) (late_times y base)
unfolding late_times
late_times-Gives y cal base timely =
    Gives-bind _ _ (y.minus base (days 5)) _
      (cal.minus_within base (days 5) (omega (arith, timely.from_start)))
      λ at p.
        Gives-bind _ _ (y.plus at 5) _ (cal.plus_within at 5 (omega (arith, p, timely.to_end)))
          λ commit q. (_, refl, tt)

module _ (x : Timestamps) (y : Runtime) (clock : IsClock x y) where
  first_state-has_fields :
      (at : y.Datetime) (s : Fields) → has_fields (some (first_state y at s)) ≡ true
  unfolding first_state
  first_state-has_fields at s = rw set_field-has_fields refl

  second_state-has_fields :
      (z : External) (at : y.Datetime) (name : Value) (s : Fields)
      → has_fields (some (second_state y z at name s)) ≡ true
  unfolding second_state
  second_state-has_fields z at name s = rw set_field-has_fields refl

  batch_1-runs :
      (g : Scenarios y) (batch : String) (s : IsStocked y g) (t0 : y.Datetime)
      (w1 w2 w3 w4 w5 w6 w7 w8 : y.Datetime × y.Datetime) (due : y.Date)
      → y.plus g.base_time (hours 1) ≡ some t0
      → event_times y t0 (minutes 5) 1 ≡ some w1
      → event_times y t0 (minutes 10) 1 ≡ some w2
      → event_times y t0 (minutes 15) 2 ≡ some w3
      → y.plus_days (y.date w3.0) 15 ≡ some due
      → event_times y t0 (minutes 20) 1 ≡ some w4
      → event_times y t0 (minutes 30) 2 ≡ some w5
      → event_times y t0 (minutes 35) 1 ≡ some w6
      → event_times y t0 (minutes 40) 3 ≡ some w7
      → event_times y t0 (minutes 45) 1 ≡ some w8
      → generate_batch_1 y g batch
        ≡ some (
            batch_1_of y w1 w2 w3 w4 w5 w6 w7 w8 due batch s.account
              (get "status" s.account)
              s.subscription
              s.invoice
              (get "invoice_status" s.invoice)
              s.payment)
  unfolding generate_batch_1
  batch_1-runs g batch s t0 w1 w2 w3 w4 w5 w6 w7 w8 due e0 e1 e2 e3 ed e4 e5 e6 e7 e8 =
      rw
        (
          e0,
          e1,
          e2,
          e3,
          ed,
          e4,
          s.account_there,
          item_there "status" s.account s.status_there,
          e5,
          s.subscription_there,
          e6,
          s.invoice_there,
          item_there "invoice_status" s.invoice s.invoice_status_there,
          e7,
          s.payment_there,
          e8,
        )
        refl

  module _ (cal : IsCalendar y) where
    -- Over a stocked snapshot, in time, both batches are generated, and their events are accepted.
    pub batch_1-IsAccepted :
        (g : Scenarios y) (batch : String)
        → IsStocked y g
        → IsTimely y cal g.base_time
        → strip batch == "" ≡ false
        → (es : List CdcEvent) × (generate_batch_1 y g batch ≡ some es) × All (IsAccepted x) es
    unfolding generate_batch_1
    batch_1-IsAccepted g batch s timely batched =
        let (t0, e0, p0) = cal.plus_within g.base_time (hours 1) (omega (arith, timely.to_end)) in
        let (w1, e1, p1) =
          event_times-Gives y cal t0 (minutes 5) 1 (omega (arith, timely.to_end, p0)) in
        let (w2, e2, p2) =
          event_times-Gives y cal t0 (minutes 10) 1 (omega (arith, timely.to_end, p0)) in
        let (w3, e3, p3) =
          event_times-Gives y cal t0 (minutes 15) 2 (omega (arith, timely.to_end, p0)) in
        let (due, ed, pd) =
          cal.plus_days_within (y.date w3.0) 15
            (omega (arith, timely.to_end, p0, p3, cal.date_of w3.0)) in
        let (w4, e4, p4) =
          event_times-Gives y cal t0 (minutes 20) 1 (omega (arith, timely.to_end, p0)) in
        let (w5, e5, p5) =
          event_times-Gives y cal t0 (minutes 30) 2 (omega (arith, timely.to_end, p0)) in
        let (w6, e6, p6) =
          event_times-Gives y cal t0 (minutes 35) 1 (omega (arith, timely.to_end, p0)) in
        let (w7, e7, p7) =
          event_times-Gives y cal t0 (minutes 40) 3 (omega (arith, timely.to_end, p0)) in
        let (w8, e8, p8) =
          event_times-Gives y cal t0 (minutes 45) 1 (omega (arith, timely.to_end, p0)) in
        (
          batch_1_of y w1 w2 w3 w4 w5 w6 w7 w8 due batch s.account (get "status" s.account)
              s.subscription s.invoice (get "invoice_status" s.invoice) s.payment,
          batch_1-runs g batch s t0 w1 w2 w3 w4 w5 w6 w7 w8 due e0 e1 e2 e3 ed e4 e5 e6 e7 e8,
          batch_1_of-IsAccepted x y clock w1 w2 w3 w4 w5 w6 w7 w8 due _ _ (get "status" s.account) _
              _ (get "invoice_status" s.invoice) _ batched
              (has-has_fields "status" s.account s.status_there) s.subscription_filled
              (has-has_fields "invoice_status" s.invoice s.invoice_status_there) s.payment_filled,
        )

    pub batch_2-IsAccepted :
        (z : External) (g : Scenarios y) (batch : String)
        → IsStocked y g
        → IsTimely y cal g.base_time
        → strip batch == "" ≡ false
        → (es : List CdcEvent) × (generate_batch_2 y z g batch ≡ some es) × All (IsAccepted x) es
    unfolding generate_batch_2 first_state second_state
    batch_2-IsAccepted z g batch s timely batched =
        let (t1, e0, p0) = cal.plus_within g.base_time (days 2) (omega (arith, timely.to_end)) in
        let (w1, e1, p1) =
          event_times-Gives y cal t1 (minutes 5) 1 (omega (arith, timely.to_end, p0)) in
        let (w2, e2, p2) =
          event_times-Gives y cal g.base_time (hours 1 + minutes 5) 1
            (omega (arith, timely.to_end)) in
        let (w3, e3, p3) =
          event_times-Gives y cal t1 (minutes 15) 1 (omega (arith, timely.to_end, p0)) in
        let (w4, e4, p4) =
          event_times-Gives y cal t1 (minutes 20) 2 (omega (arith, timely.to_end, p0)) in
        let (w5, e5, p5) = late_times-Gives y cal g.base_time timely in
        let s1 = first_state y w3.0 s.other_account in
        let s2 = second_state y z w4.0 (get "account_name" s1) s1 in
        (
          batch_2_of y w1 w2 w3 w4 w5 batch s.other_payment s.other_account s1 s2
              s.other_subscription,
          rw
              (
                e0,
                s.other_payment_there,
                e1,
                e2,
                s.other_account_there,
                e3,
                e4,
                item_there "account_name" s1 (
                    has-set_field "account_name" "updated_at" _ _
                      (has-set_field "account_name" "country" _ s.other_account s.name_there)),
                s.other_subscription_there,
                e5,
              )
              refl,
          batch_2_of-IsAccepted x y clock w1 w2 w3 w4 w5 _ _ _ _ _ _ batched s.other_payment_filled
              (has-has_fields "account_name" s.other_account s.name_there)
              (first_state-has_fields w3.0 s.other_account)
              (second_state-has_fields z w4.0 (get "account_name" s1) s1)
              s.other_subscription_filled,
        )

    pub batch_3-Gives :
        (g : Scenarios y) (batch : String)
        → IsTimely y cal g.base_time
        → (t2 : y.Datetime) × (generate_batch_3 y g batch ≡ some (batch_3_of y t2 batch))
    unfolding generate_batch_3
    batch_3-Gives g batch timely =
        let (t2, e, p) = cal.plus_within g.base_time (days 5) (omega (arith, timely.to_end)) in
        (t2, rw e refl)
