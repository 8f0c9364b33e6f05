-- ===== src/Source/Generator/Complete.antt =====
-- src/source/generator.py: a snapshot is generated, whole.
use incremental_cdc_data_pla.Base.{
  ℕ, suc, ◌<◌, String, ◌≡◌, refl, sym, subst, List, [], map, length, All-map, arith,
}
use incremental_cdc_data_pla.Source.{Runtime}
use incremental_cdc_data_pla.Source.Calendar.{IsCalendar}
use incremental_cdc_data_pla.Source.Generator.{Random, SnapshotConfig, each, account_row}
use incremental_cdc_data_pla.Source.Generator.Snapshot.{
  index_by, generate_accounts, subscription_row, generate_subscriptions, invoice_row,
  generate_invoices, payment_row, generate_payments, generate_snapshot_entities,
}
use incremental_cdc_data_pla.Source.Generator.Gives.{
  Gives, Gives-bind, IsRandom, each-Gives, numbered, numbered-length,
}
use incremental_cdc_data_pla.Source.Generator.Integrity.{
  account_name, subscription_name, invoice_name, payment_name, IsAccount, IsSubscription, IsInvoice,
  IsPayment, IsSnapshot,
}
use incremental_cdc_data_pla.Source.Generator.Room.{HasRoom, StartsEarly, IsEarly}
use incremental_cdc_data_pla.Source.Generator.Rows.{
  account_row-Gives, subscription_row-Gives, invoice_row-Gives, payment_row-Gives,
}

-- Rows that are numbered as configured are there.
some_named :
    {A : Type 0} (id : A → String) (name : ℕ → String) (n : ℕ) (xs : List A)
    → map id xs ≡ numbered name n 1
    → 0 < n
    → 0 < length xs
some_named id name n xs h some_there =
    subst (λ k. 0 < k) (sym (numbered-length id name n 1 xs h)) some_there

-- With a generator of random numbers between their bounds, with at least one account, one subscription
-- and one invoice configured, and where the dates up to the year 9999 reach 440 days past the base
-- timestamp and 30 days more for each invoice, the generation of a snapshot returns one: as many rows of
-- each table as configured, their ids numbered from 1; accounts with values of the lists; subscriptions
-- of accounts of the snapshot, at the amount of a plan, with an end date exactly where they are
-- cancelled; invoices of subscriptions of the snapshot, at a month's or a year's amount, due 15 days
-- later; and payments of invoices of the snapshot, at the invoice's amount, successful where the invoice
-- is paid.
pub generate_snapshot_entities_lem :
    (y : Runtime) (r : Random) (c : SnapshotConfig y) (cal : IsCalendar y)
    → IsRandom r
    → HasRoom y cal c
    → 0 < c.num_accounts
    → 0 < c.num_subscriptions
    → 0 < c.num_invoices
    → Gives (IsSnapshot y c) (generate_snapshot_entities y r c)
unfolding generate_snapshot_entities generate_accounts generate_subscriptions generate_invoices
    generate_payments
generate_snapshot_entities_lem y r c cal random room some_accounts some_subscriptions
      some_invoices =
    Gives-bind _ _ (each y r c (account_row y r c) c.num_accounts 1 (r.seeded c.seed)) _
      (each-Gives y r c (IsAccount y) (λ a. a.account_id) (account_name y) (account_row y r c)
        (suc c.num_accounts) (λ i s h. account_row-Gives y r c random cal room i s) c.num_accounts 1
        (r.seeded c.seed) (omega arith))
      λ accounts p.
        Gives-bind _ _
          (each y r c (subscription_row y r c (map (λ a. a.account_id) accounts.0))
            c.num_subscriptions 1 accounts.1)
          _
          (each-Gives y r c (λ s. IsSubscription y accounts.0 s × StartsEarly y c cal s)
            (λ s. s.subscription_id) (subscription_name y)
            (subscription_row y r c (map (λ a. a.account_id) accounts.0)) (suc c.num_subscriptions)
            (λ i s h. subscription_row-Gives y r c random cal room accounts.0 i s (
              some_named (λ a. a.account_id) (account_name y) c.num_accounts accounts.0 p.0
                some_accounts))
            c.num_subscriptions 1 accounts.1 (omega arith))
          λ subscriptions q.
            Gives-bind _ _
              (each y r c (invoice_row y r c (index_by (λ u. u.subscription_id) subscriptions.0 []))
                c.num_invoices 1 subscriptions.1)
              _
              (each-Gives y r c (λ i. IsInvoice y subscriptions.0 i × IsEarly y c cal i)
                (λ i. i.invoice_id) (invoice_name y)
                (invoice_row y r c (index_by (λ u. u.subscription_id) subscriptions.0 []))
                (suc c.num_invoices)
                (λ i s h.
                  invoice_row-Gives y r c random cal room subscriptions.0 i s
                    (some_named (λ a. a.subscription_id) (subscription_name y) c.num_subscriptions
                      subscriptions.0 q.0 some_subscriptions)
                    (All-map _ _ subscriptions.0 (λ a k. k.1) q.1) h)
                c.num_invoices 1 subscriptions.1 (omega arith))
              λ invoices u.
                Gives-bind _ _
                  (each y r c (payment_row y r c (index_by (λ v. v.invoice_id) invoices.0 []))
                    c.num_payments 1 invoices.1)
                  _
                  (each-Gives y r c (IsPayment y invoices.0) (λ p. p.payment_id) (payment_name y)
                    (payment_row y r c (index_by (λ v. v.invoice_id) invoices.0 []))
                    (suc c.num_payments)
                    (λ i s h.
                      payment_row-Gives y r c random cal room invoices.0 i s
                        (some_named (λ a. a.invoice_id) (invoice_name y) c.num_invoices invoices.0
                          u.0 some_invoices)
                        (All-map _ _ invoices.0 (λ a k. k.1) u.1))
                    c.num_payments 1 invoices.1 (omega arith))
                  λ payments v. (
                    _,
                    refl,
                    record {
                      account_ids = p.0;
                      subscription_ids = q.0;
                      invoice_ids = u.0;
                      payment_ids = v.0;
                      all_accounts = p.1;
                      all_subscriptions = All-map _ _ subscriptions.0 (λ a k. k.0) q.1;
                      all_invoices = All-map _ _ invoices.0 (λ a k. k.0) u.1;
                      all_payments = v.1;
                    },
                  )
