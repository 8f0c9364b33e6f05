-- ===== src/Source/Generator/Integrity.antt =====
-- src/source/generator.py: the generated rows refer to one another.
use Prim.Native.String.{◌++◌ as concat}
use mathlib.Core.List.{Memᴰ}
use incremental_cdc_data_pla.Base.{ℕ, String, ◌≡◌, some, List, map, All}
use incremental_cdc_data_pla.Source.{Runtime, Account, Subscription, Invoice, Payment}
use incremental_cdc_data_pla.Source.Generator.{
  industries, countries, account_statuses, plan_tiers, SnapshotConfig,
}
use incremental_cdc_data_pla.Source.Generator.Snapshot.{Snapshot, invoice_amount_of, end_date_of}
use incremental_cdc_data_pla.Source.Generator.Gives.{numbered}

module _ (y : Runtime) where
  -- The ids of the rows, by their number.
  abbrev pub account_name : ℕ → String
  account_name i = concat "ACC-" (y.four_digits i)

  abbrev pub subscription_name : ℕ → String
  subscription_name i = concat "SUB-" (y.four_digits i)

  abbrev pub invoice_name : ℕ → String
  invoice_name i = concat "INV-" (y.four_digits i)

  abbrev pub payment_name : ℕ → String
  payment_name i = concat "PAY-" (y.four_digits i)

  -- The account of a subscription, and the values that it is drawn from.
  pub record IsSubscription (accounts : List (Account y)) (s : Subscription y) : Type 0 where
    pub account : Account y
    pub account_there : Memᴰ account accounts
    pub refers : s.account_id ≡ account.account_id
    pub plan : String × String
    pub plan_there : Memᴰ plan plan_tiers
    pub plan_name : s.plan_name ≡ plan.0
    pub plan_amount : s.monthly_amount ≡ y.decimal plan.1
    pub starts : s.created_at ≡ y.midnight s.start_date
    pub ends : end_date_of y s.status s.start_date ≡ some s.end_date

  -- The subscription of an invoice, whose amount it has.
  pub record IsInvoice (subscriptions : List (Subscription y)) (i : Invoice y) : Type 0 where
    pub subscription : Subscription y
    pub subscription_there : Memᴰ subscription subscriptions
    pub refers : i.subscription_id ≡ subscription.subscription_id
    pub amount : i.invoice_amount ≡ invoice_amount_of y subscription
    pub due : y.plus_days i.invoice_date 15 ≡ some i.due_date

  -- The invoice of a payment, whose amount it has; the payment of a paid one is a success.
  pub record IsPayment (invoices : List (Invoice y)) (p : Payment y) : Type 0 where
    pub invoice : Invoice y
    pub invoice_there : Memᴰ invoice invoices
    pub refers : p.invoice_id ≡ invoice.invoice_id
    pub amount : p.payment_amount ≡ invoice.invoice_amount
    pub paid : invoice.invoice_status ≡ "PAID" → p.payment_status ≡ "SUCCESS"

  -- The values of an account are of the lists.
  pub record IsAccount (a : Account y) : Type 0 where
    pub industry_there : Memᴰ a.industry industries
    pub country_there : Memᴰ a.country countries
    pub status_there : Memᴰ a.status account_statuses

  -- Rows numbered from 1, as many as configured, each of which refers to a row of the snapshot.
  pub record IsSnapshot (c : SnapshotConfig y) (q : Snapshot y) : Type 0 where
    pub account_ids : map (λ a. a.account_id) q.accounts ≡ numbered account_name c.num_accounts 1
    pub subscription_ids :
        map (λ s. s.subscription_id) q.subscriptions
        ≡ numbered subscription_name c.num_subscriptions 1
    pub invoice_ids : map (λ i. i.invoice_id) q.invoices ≡ numbered invoice_name c.num_invoices 1
    pub payment_ids : map (λ p. p.payment_id) q.payments ≡ numbered payment_name c.num_payments 1
    pub all_accounts : All IsAccount q.accounts
    pub all_subscriptions : All (IsSubscription q.accounts) q.subscriptions
    pub all_invoices : All (IsInvoice q.subscriptions) q.invoices
    pub all_payments : All (IsPayment q.invoices) q.payments
