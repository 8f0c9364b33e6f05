-- ===== src/Source/Generator/Snapshot.antt =====
-- src/source/generator.py: the rows that refer to others, and the whole snapshot.
use Prim.Native.String.{◌++◌ as concat}
use Prim.Native.Nat.{◌/◌, ◌*◌}
use incremental_cdc_data_pla.Base.{
  ℕ, ◌-◌, String, Option, none, some, List, [], ◌∷◌, map, length, ◌==◌, Dict, lookup, insert,
  if◌then◌else◌,
}
use incremental_cdc_data_pla.Cdc.{Fields}
use incremental_cdc_data_pla.Source.{
  Runtime, Account, Subscription, Invoice, Payment, account_to_dict, subscription_to_dict,
  invoice_to_dict, payment_to_dict, hours, days, ◌>>=◌,
}
use incremental_cdc_data_pla.Source.Generator.{
  plan_tiers, billing_cycles, subscription_statuses, invoice_statuses, payment_methods,
  payment_statuses, Random, cycled, SnapshotConfig, pick, each, account_row,
}

-- `{row.id: row for row in rows}`, and `list(d.keys())`
unfoldable pub index_by : {A : Type 0} → (A → String) → List A → Dict A → Dict A
index_by id [] d = d
index_by id (x ∷ xs) d = index_by id xs (insert (id x) x d)

abbrev pub keys : {A : Type 0} → Dict A → List String
keys d = map (λ e. e.0) d

pub record Snapshot (y : Runtime) : Type 0 where
  pub accounts : List (Account y)
  pub subscriptions : List (Subscription y)
  pub invoices : List (Invoice y)
  pub payments : List (Payment y)

-- The amount of an invoice: a year of the plan, or a month.
abbrev pub invoice_amount_of : (y : Runtime) → Subscription y → y.Decimal
invoice_amount_of y s =
    if s.billing_cycle == "ANNUAL"
    then y.times s.monthly_amount (y.decimal "12.00")
    else s.monthly_amount

abbrev pub some_date : {A : Type 0} → Option A → Option (Option A)
some_date none = none
some_date (some d) = some (some d)

-- A year after the start, of a cancelled subscription; the outer `none` is a raise.
abbrev pub end_date_of : (y : Runtime) → String → y.Date → Option (Option y.Date)
end_date_of y status start =
    if status == "CANCELLED" then some_date (y.plus_days start 365) else some none

module _ (y : Runtime) (r : Random) (c : SnapshotConfig y) where
  unfoldable pub generate_accounts : r.State → Option (List (Account y) × r.State)
  generate_accounts s = each y r c (account_row y r c) c.num_accounts 1 s

  unfoldable pub subscription_row : List String → ℕ → r.State → Option (Subscription y × r.State)
  subscription_row acc_ids i s = do
    acc_id ← cycled (i - 1) acc_ids
    (plan, s1) ← pick y r c plan_tiers s
    (cycle, s2) ← pick y r c billing_cycles s1
    (status, s3) ← pick y r c subscription_statuses s2
    let (d, s4) = r.randint 5 75 s3
    let (h, s5) = r.randint 0 24 s4
    start_time ← y.plus c.base_timestamp (days d)
    let start = y.date start_time
    ended ← end_date_of y status start
    updated_at ← y.plus (y.midnight start) (hours h)
    some (
      record {
        subscription_id = concat "SUB-" (y.four_digits i);
        account_id = acc_id;
        plan_name = plan.0;
        billing_cycle = cycle;
        monthly_amount = y.decimal plan.1;
        status = status;
        start_date = start;
        end_date = ended;
        created_at = y.midnight start;
        updated_at = updated_at;
      },
      s5,
    )

  unfoldable pub generate_subscriptions :
      List (Account y) → r.State → Option (List (Subscription y) × r.State)
  generate_subscriptions accounts s =
      each y r c (subscription_row (map (λ a. a.account_id) accounts)) c.num_subscriptions 1 s

  unfoldable pub invoice_row : Dict (Subscription y) → ℕ → r.State → Option (Invoice y × r.State)
  invoice_row sub_map i s = do
    sub_id ← cycled (i - 1) (keys sub_map)
    parent ← lookup sub_id sub_map
    (status, s1) ← pick y r c invoice_statuses s
    let (d, s2) = r.randint 1 10 s1
    inv_date ← y.plus_days parent.start_date ((i - 1) / length (keys sub_map) * 30)
    due_date ← y.plus_days inv_date 15
    updated_at ← y.plus (y.midnight inv_date) (days d)
    some (
      record {
        invoice_id = concat "INV-" (y.four_digits i);
        subscription_id = sub_id;
        invoice_date = inv_date;
        due_date = due_date;
        invoice_amount = invoice_amount_of y parent;
        invoice_status = status;
        created_at = y.midnight inv_date;
        updated_at = updated_at;
      },
      s2,
    )

  unfoldable pub generate_invoices :
      List (Subscription y) → r.State → Option (List (Invoice y) × r.State)
  generate_invoices subscriptions s =
      each y r c (invoice_row (index_by (λ u. u.subscription_id) subscriptions [])) c.num_invoices 1
        s

  -- A paid invoice has a successful payment; only for another one a status is drawn.
  abbrev pub payment_status_of : Invoice y → r.State → Option (String × r.State)
  payment_status_of parent s =
      if parent.invoice_status == "PAID" then some ("SUCCESS", s) else pick y r c payment_statuses s

  unfoldable pub payment_row : Dict (Invoice y) → ℕ → r.State → Option (Payment y × r.State)
  payment_row inv_map i s = do
    inv_id ← cycled (i - 1) (keys inv_map)
    parent ← lookup inv_id inv_map
    let (d, s1) = r.randint 1 14 s
    (method, s2) ← pick y r c payment_methods s1
    (status, s3) ← payment_status_of parent s2
    let (h, s4) = r.randint 0 6 s3
    pay_date ← y.plus_days parent.invoice_date d
    updated_at ← y.plus (y.midnight pay_date) (hours h)
    some (
      record {
        payment_id = concat "PAY-" (y.four_digits i);
        invoice_id = inv_id;
        payment_date = pay_date;
        payment_amount = parent.invoice_amount;
        payment_method = method;
        payment_status = status;
        created_at = y.midnight pay_date;
        updated_at = updated_at;
      },
      s4,
    )

  unfoldable pub generate_payments :
      List (Invoice y) → r.State → Option (List (Payment y) × r.State)
  generate_payments invoices s =
      each y r c (payment_row (index_by (λ i. i.invoice_id) invoices [])) c.num_payments 1 s

  -- Every call starts the random numbers again from the seed.
  unfoldable pub generate_snapshot_entities : Option (Snapshot y)
  generate_snapshot_entities = do
    (accounts, s1) ← generate_accounts (r.seeded c.seed)
    (subscriptions, s2) ← generate_subscriptions accounts s1
    (invoices, s3) ← generate_invoices subscriptions s2
    (payments, s4) ← generate_payments invoices s3
    some (record {
      accounts = accounts;
      subscriptions = subscriptions;
      invoices = invoices;
      payments = payments;
    })

  unfoldable pub generate_snapshot_dicts : Option (Dict (List Fields))
  unfolding account_to_dict subscription_to_dict invoice_to_dict payment_to_dict
  generate_snapshot_dicts = do
    q ← generate_snapshot_entities
    some (
        ("accounts", map (account_to_dict y) q.accounts)
        ∷ ("subscriptions", map (subscription_to_dict y) q.subscriptions)
        ∷ ("invoices", map (invoice_to_dict y) q.invoices)
        ∷ ("payments", map (payment_to_dict y) q.payments)
        ∷ [])
