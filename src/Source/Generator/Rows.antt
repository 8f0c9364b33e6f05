-- ===== src/Source/Generator/Rows.antt =====
-- src/source/generator.py: what each row of a snapshot is made of.
use mathlib.Core.List.Memᴰ
use mathlib.Core.List.{Memᴰ}
use incremental_cdc_data_pla.Base.{
  ℕ, suc, ◌+◌, ◌-◌, ◌<◌, ◌≤◌, ◌∷◌, subst, All, String, ◌≡◌, refl, sym, ◌∙◌, List, [], map, length,
  arith, ◌==◌, eq_iff, lookup, inl, inr, Bool-cases,
}
use Prim.Native.Nat.{◌*◌, ◌/◌}
use native.Mathlib.Nat.{div-le_self}
use incremental_cdc_data_pla.Source.{Runtime, Account, Subscription, Invoice, hours, days}
use incremental_cdc_data_pla.Source.Calendar.{IsCalendar}
use incremental_cdc_data_pla.Source.Generator.{
  industries, countries, account_statuses, plan_tiers, billing_cycles, subscription_statuses,
  invoice_statuses, payment_methods, payment_statuses, Random, cycled, SnapshotConfig, pick,
  account_row,
}
use incremental_cdc_data_pla.Source.Generator.Snapshot.{
  index_by, keys, subscription_row, end_date_of, invoice_row, payment_status_of, payment_row,
}
use incremental_cdc_data_pla.Source.Generator.Gives.{
  Gives, Gives-bind, IsRandom, cycled-Gives, length-index_by, index_by-lookup, keys-lookup,
  pick-Gives, length-map,
}
use incremental_cdc_data_pla.Source.Generator.Integrity.{
  account_name, subscription_name, invoice_name, payment_name, IsAccount, IsSubscription, IsInvoice,
  IsPayment,
}
use incremental_cdc_data_pla.Source.Generator.Room.{
  HasRoom, StartsEarly, IsEarly, end_date_of-Gives, due_date-Gives,
}

-- What is found for a key of an index is one of the rows, and has the key as its id.
parent-Gives :
    {A : Type 0} (id : A → String) (xs : List A) (k : String)
    → Memᴰ k (keys (index_by id xs []))
    → Gives (λ x. Memᴰ x xs × (id x ≡ k)) (lookup k (index_by id xs []))
unfolding lookup
parent-Gives id xs k m =
    let (x, e, found) = keys-lookup k (index_by id xs []) m in
    elim (index_by-lookup id xs [] k x found) [
      | inl there ↦ (x, e, there)
      | inr absent ↦ absurd (cc)
    ]

-- What is of each row is of one that is there.
All-there : {A : Type 0} (P : A → Type 0) (xs : List A) (x : A) → All P xs → Memᴰ x xs → P x
All-there P [] x all m = absurd (Memᴰ.not-nil m)
All-there P (z ∷ xs) x all m = elim (Memᴰ.cases_cons m) [
  | inl same ↦ subst P (sym same) all.0
  | inr later ↦ All-there P xs x all.1 later
]

module _ (y : Runtime) (r : Random) (c : SnapshotConfig y) (random : IsRandom r)
    (cal : IsCalendar y) (room : HasRoom y cal c) where
  pub account_row-Gives :
      (i : ℕ) (s : r.State)
      → Gives (λ q. IsAccount y q.0 × (q.0.account_id ≡ account_name y i)) (account_row y r c i s)
  unfolding account_row
  account_row-Gives i s =
      Gives-bind _ _ (cycled (i - 1) industries) _ (cycled-Gives (i - 1) industries (omega arith))
        λ industry m.
          Gives-bind _ _ (cycled (i - 1) countries) _ (cycled-Gives (i - 1) countries (omega arith))
            λ country n.
              Gives-bind _ _ (pick y r c account_statuses s) _
                (pick-Gives y r c account_statuses s random (omega arith))
                λ status k.
                  let d = r.randint 0 60 status.1 in
                  let h = r.randint 0 23 d.1 in
                  let u = r.randint 0 12 h.1 in
                  let d_up = random.at_most 0 60 status.1 (omega arith) in
                  let h_up = random.at_most 0 23 d.1 (omega arith) in
                  let u_up = random.at_most 0 12 h.1 (omega arith) in
                  Gives-bind _ _ (y.plus c.base_timestamp (days d.0 + hours h.0)) _
                    (cal.plus_within c.base_timestamp (days d.0 + hours h.0)
                      (omega (arith, room, d_up, h_up)))
                    λ created p.
                      Gives-bind _ _ (y.plus created (hours u.0)) _
                        (cal.plus_within created (hours u.0)
                          (omega (arith, room, d_up, h_up, u_up, p)))
                        λ updated q. (
                          _,
                          refl,
                          (
                            record { industry_there = m; country_there = n; status_there = k },
                            refl,
                          ),
                        )

  pub subscription_row-Gives :
      (accounts : List (Account y)) (i : ℕ) (s : r.State)
      → 0 < length accounts
      → Gives
          (λ q.
            (IsSubscription y accounts q.0 × StartsEarly y c cal q.0)
            × (q.0.subscription_id ≡ subscription_name y i))
          (subscription_row y r c (map (λ a. a.account_id) accounts) i s)
  unfolding subscription_row
  subscription_row-Gives accounts i s h =
      Gives-bind _ _ (cycled (i - 1) (map (λ a. a.account_id) accounts)) _
        (cycled-Gives (i - 1) (map (λ a. a.account_id) accounts)
          (rw (length-map (λ a. a.account_id) accounts) h))
        λ acc_id m.
          Gives-bind _ _ (pick y r c plan_tiers s) _
            (pick-Gives y r c plan_tiers s random (omega arith))
            λ plan n.
              Gives-bind _ _ (pick y r c billing_cycles plan.1) _
                (pick-Gives y r c billing_cycles plan.1 random (omega arith))
                λ cycle k.
                  Gives-bind _ _ (pick y r c subscription_statuses cycle.1) _
                    (pick-Gives y r c subscription_statuses cycle.1 random (omega arith))
                    λ status j.
                      let (account, there, refers) = Memᴰ.of_map (λ a. a.account_id) accounts m in
                      let d = r.randint 5 75 status.1 in
                      let h = r.randint 0 24 d.1 in
                      let d_up = random.at_most 5 75 status.1 (omega arith) in
                      let h_up = random.at_most 0 24 d.1 (omega arith) in
                      Gives-bind _ _ (y.plus c.base_timestamp (days d.0)) _
                        (cal.plus_within c.base_timestamp (days d.0) (omega (arith, room, d_up)))
                        λ start p.
                          let early : days (cal.ordinal (y.date start))
                              ≤ cal.moment c.base_timestamp + days 75 =
                            omega (arith, cal.date_of start, p, d_up) in
                          Gives-bind _ _ (end_date_of y status.0 (y.date start)) _
                            (end_date_of-Gives y c cal room status.0 (y.date start) early)
                            λ ended ends.
                              Gives-bind _ _ (y.plus (y.midnight (y.date start)) (hours h.0)) _
                                (cal.plus_within (y.midnight (y.date start)) (hours h.0) (
                                  omega (arith, room, early, h_up, cal.midnight_of (y.date start))))
                                λ updated q. (
                                  _,
                                  refl,
                                  (
                                    (
                                      record {
                                        account = account;
                                        account_there = there;
                                        refers = sym refers;
                                        plan = plan.0;
                                        plan_there = n;
                                        plan_name = refl;
                                        plan_amount = refl;
                                        starts = refl;
                                        ends = ends;
                                      },
                                      early,
                                    ),
                                    refl,
                                  ),
                                )

  pub invoice_row-Gives :
      (subscriptions : List (Subscription y)) (i : ℕ) (s : r.State)
      → 0 < length subscriptions
      → All (StartsEarly y c cal) subscriptions
      → i < suc c.num_invoices
      → Gives
          (λ q.
            (IsInvoice y subscriptions q.0 × IsEarly y c cal q.0)
            × (q.0.invoice_id ≡ invoice_name y i))
          (invoice_row y r c (index_by (λ u. u.subscription_id) subscriptions []) i s)
  unfolding invoice_row
  invoice_row-Gives subscriptions i s h all below =
      let ids = keys (index_by (λ u. u.subscription_id) subscriptions []) in
      Gives-bind _ _ (cycled (i - 1) ids) _
        (cycled-Gives (i - 1) ids (length-index_by (λ u. u.subscription_id) subscriptions h))
        λ sub_id m.
          Gives-bind _ _ (lookup sub_id (index_by (λ u. u.subscription_id) subscriptions [])) _
            (parent-Gives (λ u. u.subscription_id) subscriptions sub_id m)
            λ parent n.
              Gives-bind _ _ (pick y r c invoice_statuses s) _
                (pick-Gives y r c invoice_statuses s random (omega arith))
                λ status k.
                  let later = (i - 1) / length ids * 30 in
                  let start = All-there (StartsEarly y c cal) subscriptions parent all n.0 in
                  let later_up = div-le_self (i - 1) (length ids) in
                  let d_up = random.at_most 1 10 status.1 (omega arith) in
                  Gives-bind _ _ (y.plus_days parent.start_date later) _
                    (cal.plus_days_within parent.start_date later
                      (omega (arith, room, start, later_up, below)))
                    λ inv_date p.
                      let early : days (cal.ordinal inv_date)
                          ≤ cal.moment c.base_timestamp + days (75 + c.num_invoices * 30) =
                        omega (arith, p, start, later_up, below) in
                      Gives-bind _ _ (y.plus_days inv_date 15) _
                        (due_date-Gives y c cal room inv_date early)
                        λ due_date due.
                          Gives-bind _ _
                            (y.plus (y.midnight inv_date) (days (r.randint 1 10 status.1).0)) _
                            (cal.plus_within (y.midnight inv_date)
                              (days (r.randint 1 10 status.1).0)
                              (omega (arith, room, early, d_up, cal.midnight_of inv_date)))
                            λ updated q. (
                              _,
                              refl,
                              (
                                (
                                  record {
                                    subscription = parent;
                                    subscription_there = n.0;
                                    refers = sym n.1;
                                    amount = refl;
                                    due = due;
                                  },
                                  early,
                                ),
                                refl,
                              ),
                            )

  payment_status_of-Gives :
      (parent : Invoice y) (s : r.State)
      → Gives
          (λ q. parent.invoice_status ≡ "PAID" → q.0 ≡ "SUCCESS")
          (payment_status_of y r c parent s)
  payment_status_of-Gives parent s = elim (Bool-cases (parent.invoice_status == "PAID")) [
    | inl paid ↦ rw paid (("SUCCESS", s), refl, (λ h. refl))
    | inr unpaid ↦
        let (q, e, m) = pick-Gives y r c payment_statuses s random (omega arith) in
        rw unpaid
          (q, e, (λ h. absurd (cc (sym unpaid ∙ (eq_iff parent.invoice_status "PAID").1 h))))
  ]

  pub payment_row-Gives :
      (invoices : List (Invoice y)) (i : ℕ) (s : r.State)
      → 0 < length invoices
      → All (IsEarly y c cal) invoices
      → Gives
          (λ q. IsPayment y invoices q.0 × (q.0.payment_id ≡ payment_name y i))
          (payment_row y r c (index_by (λ v. v.invoice_id) invoices []) i s)
  unfolding payment_row
  payment_row-Gives invoices i s h all =
      let ids = keys (index_by (λ v. v.invoice_id) invoices []) in
      Gives-bind _ _ (cycled (i - 1) ids) _
        (cycled-Gives (i - 1) ids (length-index_by (λ v. v.invoice_id) invoices h))
        λ inv_id m.
          Gives-bind _ _ (lookup inv_id (index_by (λ v. v.invoice_id) invoices [])) _
            (parent-Gives (λ v. v.invoice_id) invoices inv_id m)
            λ parent n.
              Gives-bind _ _ (pick y r c payment_methods (r.randint 1 14 s).1) _
                (pick-Gives y r c payment_methods (r.randint 1 14 s).1 random (omega arith))
                λ method k.
                  Gives-bind _ _ (payment_status_of y r c parent method.1) _
                    (payment_status_of-Gives parent method.1)
                    λ status j.
                      let d = r.randint 1 14 s in
                      let u = r.randint 0 6 status.1 in
                      let d_up = random.at_most 1 14 s (omega arith) in
                      let u_up = random.at_most 0 6 status.1 (omega arith) in
                      let early = All-there (IsEarly y c cal) invoices parent all n.0 in
                      Gives-bind _ _ (y.plus_days parent.invoice_date d.0) _
                        (cal.plus_days_within parent.invoice_date d.0
                          (omega (arith, room, early, d_up)))
                        λ pay_date p.
                          Gives-bind _ _ (y.plus (y.midnight pay_date) (hours u.0)) _
                            (cal.plus_within (y.midnight pay_date) (hours u.0)
                              (omega (arith, room, early, d_up, u_up, p, cal.midnight_of pay_date)))
                            λ updated q. (
                              _,
                              refl,
                              (
                                record {
                                  invoice = parent;
                                  invoice_there = n.0;
                                  refers = sym n.1;
                                  amount = refl;
                                  paid = j;
                                },
                                refl,
                              ),
                            )
