-- ===== src/Cdc/Generator/Complete.antt =====
-- src/cdc/generator.py over src/source/generator.py: the scenarios of a generated snapshot.
use Prim.Native.String.{◌++◌ as concat}
use mathlib.Core.List.{Memᴰ}
use incremental_cdc_data_pla.Base.{
  ℕ, zero, suc, ◌<◌, String, ◌≡◌, refl, sym, ap, subst, some, List, [], ◌∷◌, All, map, arith,
  lookup, strip,
}
use incremental_cdc_data_pla.Cdc.{text, get, has}
use incremental_cdc_data_pla.Cdc.Validator.{Timestamps, validate_data}
use incremental_cdc_data_pla.Cdc.Engine.{External}
use incremental_cdc_data_pla.Source.{
  Runtime, account_to_dict, subscription_to_dict, invoice_to_dict, payment_to_dict, days,
}
use incremental_cdc_data_pla.Source.Calendar.{IsCalendar}
use incremental_cdc_data_pla.Source.Generator.Room.{HasRoom}
use incremental_cdc_data_pla.Source.Generator.{Random, SnapshotConfig}
use incremental_cdc_data_pla.Source.Generator.Snapshot.{Snapshot, generate_snapshot_dicts}
use incremental_cdc_data_pla.Source.Generator.Gives.{IsRandom, numbered}
use incremental_cdc_data_pla.Source.Generator.Integrity.{IsSnapshot}
use incremental_cdc_data_pla.Source.Generator.Complete.{generate_snapshot_entities_lem}
use incremental_cdc_data_pla.Cdc.Generator.{item, Scenarios, init_snapshot_state, init_scenarios}
use incremental_cdc_data_pla.Cdc.Generator.Fixtures.{Batches, batch_3_of, generate_all_batches}
use incremental_cdc_data_pla.Cdc.Generator.Valid.{IsClock, IsAccepted}
use incremental_cdc_data_pla.Cdc.Generator.Stocked.{
  IsStocked, IsTimely, batch_1-IsAccepted, batch_2-IsAccepted, batch_3-Gives,
}
use incremental_cdc_data_pla.Cdc.Generator.Rejects.{verdict, rejections, batch_3_of_lem}
use incremental_cdc_data_pla.Cdc.Generator.Index.{index_rows_lem}

first_name :
    (name : ℕ → String) (n : ℕ) (s : String) (ids : List String)
    → ids ≡ numbered name n 1
    → 0 < n
    → s ≡ name 1
    → Memᴰ s ids
first_name name zero s ids e h same = absurd (omega (arith, h))
first_name name (suc n) s ids e h same = subst (Memᴰ s) (sym e) (Memᴰ.head same)

second_name :
    (name : ℕ → String) (n : ℕ) (s : String) (ids : List String)
    → ids ≡ numbered name n 1
    → 1 < n
    → s ≡ name 2
    → Memᴰ s ids
second_name name zero s ids e h same = absurd (omega (arith, h))
second_name name (suc zero) s ids e h same = absurd (omega (arith, h))
second_name name (suc (suc n)) s ids e h same = subst (Memᴰ s) (sym e) (Memᴰ.tail (Memᴰ.head same))

module _ (y : Runtime) where
  account-keyed : (a : _) → item "account_id" (account_to_dict y a) ≡ some (text a.account_id)
  unfolding item get has account_to_dict
  account-keyed a = refl

  subscription-keyed :
      (s : _) → item "subscription_id" (subscription_to_dict y s) ≡ some (text s.subscription_id)
  unfolding item get has subscription_to_dict
  subscription-keyed s = refl

  invoice-keyed : (i : _) → item "invoice_id" (invoice_to_dict y i) ≡ some (text i.invoice_id)
  unfolding item get has invoice_to_dict
  invoice-keyed i = refl

  payment-keyed : (p : _) → item "payment_id" (payment_to_dict y p) ≡ some (text p.payment_id)
  unfolding item get has payment_to_dict
  payment-keyed p = refl

  -- A snapshot with two rows of each table but the invoices has what the scenarios start from.
  snapshot-IsStocked :
      (base : y.Datetime) (c : SnapshotConfig y) (q : Snapshot y)
      → IsSnapshot y c q
      → y.four_digits 1 ≡ "0001"
      → y.four_digits 2 ≡ "0002"
      → 1 < c.num_accounts
      → 1 < c.num_subscriptions
      → 0 < c.num_invoices
      → 1 < c.num_payments
      → (g : Scenarios y) × (init_snapshot_state y base (
            ("accounts", map (account_to_dict y) q.accounts)
            ∷ ("subscriptions", map (subscription_to_dict y) q.subscriptions)
            ∷ ("invoices", map (invoice_to_dict y) q.invoices)
            ∷ ("payments", map (payment_to_dict y) q.payments)
            ∷ [])
          ≡ some g)
        × IsStocked y g
        × (g.base_time ≡ base)
  unfolding init_snapshot_state lookup has account_to_dict subscription_to_dict invoice_to_dict
      payment_to_dict
  snapshot-IsStocked base c q s one two accounts subscriptions invoices payments =
      let (da, ea, fa) =
        index_rows_lem (λ a. a.account_id) (account_to_dict y) "account_id" account-keyed
          q.accounts in
      let (ds, es, fs) =
        index_rows_lem (λ a. a.subscription_id) (subscription_to_dict y) "subscription_id"
          subscription-keyed q.subscriptions in
      let (di, ei, fi) =
        index_rows_lem (λ a. a.invoice_id) (invoice_to_dict y) "invoice_id" invoice-keyed
          q.invoices in
      let (dp, ep, fp) =
        index_rows_lem (λ a. a.payment_id) (payment_to_dict y) "payment_id" payment-keyed
          q.payments in
      let (a1, there_a1) = fa "ACC-0001" (
        first_name _ c.num_accounts "ACC-0001" _ s.account_ids (omega (arith, accounts))
          (ap (concat "ACC-") (sym one))) in
      let (a2, there_a2) = fa "ACC-0002" (
        second_name _ c.num_accounts "ACC-0002" _ s.account_ids accounts
          (ap (concat "ACC-") (sym two))) in
      let (s1, there_s1) = fs "SUB-0001" (
        first_name _ c.num_subscriptions "SUB-0001" _ s.subscription_ids
          (omega (arith, subscriptions)) (ap (concat "SUB-") (sym one))) in
      let (s2, there_s2) = fs "SUB-0002" (
        second_name _ c.num_subscriptions "SUB-0002" _ s.subscription_ids subscriptions
          (ap (concat "SUB-") (sym two))) in
      let (i1, there_i1) = fi "INV-0001" (
        first_name _ c.num_invoices "INV-0001" _ s.invoice_ids invoices
          (ap (concat "INV-") (sym one))) in
      let (p1, there_p1) = fp "PAY-0001" (
        first_name _ c.num_payments "PAY-0001" _ s.payment_ids (omega (arith, payments))
          (ap (concat "PAY-") (sym one))) in
      let (p2, there_p2) = fp "PAY-0002" (
        second_name _ c.num_payments "PAY-0002" _ s.payment_ids payments
          (ap (concat "PAY-") (sym two))) in
      (
        record {
          base_time = base;
          accounts = da;
          subscriptions = ds;
          invoices = di;
          payments = dp;
        },
        rw (ea, es, ei, ep) refl,
        record {
          account = account_to_dict y a1;
          account_there = there_a1;
          status_there = refl;
          other_account = account_to_dict y a2;
          other_account_there = there_a2;
          name_there = refl;
          subscription = subscription_to_dict y s1;
          subscription_there = there_s1;
          subscription_filled = refl;
          other_subscription = subscription_to_dict y s2;
          other_subscription_there = there_s2;
          other_subscription_filled = refl;
          invoice = invoice_to_dict y i1;
          invoice_there = there_i1;
          invoice_status_there = refl;
          payment = payment_to_dict y p1;
          payment_there = there_p1;
          payment_filled = refl;
          other_payment = payment_to_dict y p2;
          other_payment_there = there_p2;
          other_payment_filled = refl;
        },
        refl,
      )

-- With times, naive or of UTC, whose text is not empty and is read back, with random numbers between
-- their bounds, with numbers 1 and 2 printed as four digits, with at least two accounts, subscriptions
-- and payments and one invoice configured, and where the dates up to the year 9999 reach 440 days past
-- the base timestamp and 30 days more for each invoice: the generator starts from the snapshot of the
-- source and produces all its batches, the validator accepts each event of the first two, and it rejects
-- each dictionary of the third, for the one reason that the dictionary is made for.
pub generate_all_batches_lem :
    (x : Timestamps) (y : Runtime) (r : Random) (c : SnapshotConfig y) (z : External)
    (cal : IsCalendar y)
    → IsClock x y
    → IsRandom r
    → HasRoom y cal c
    → y.four_digits 1 ≡ "0001"
    → y.four_digits 2 ≡ "0002"
    → 1 < c.num_accounts
    → 1 < c.num_subscriptions
    → 0 < c.num_invoices
    → 1 < c.num_payments
    → (g : Scenarios y) × (b : Batches y) × (init_scenarios y r c ≡ some g)
      × (generate_all_batches y z g ≡ some b)
      × All (IsAccepted x) b.batch_001
      × All (IsAccepted x) b.batch_002
      × (map (λ d. verdict (validate_data x d)) b.batch_003_quarantine ≡ rejections)
unfolding init_scenarios generate_snapshot_dicts generate_all_batches strip
generate_all_batches_lem x y r c z cal clock random room one two accounts subscriptions invoices
      payments =
    let (q, made, is) =
      generate_snapshot_entities_lem y r c cal random room (omega (arith, accounts))
        (omega (arith, subscriptions)) invoices in
    let (base, ahead, later) = cal.plus_within c.base_timestamp (days 130) (omega (arith, room)) in
    let timely : IsTimely y cal base = record {
      from_start = omega (arith, later);
      to_end = omega (arith, later, room);
    } in
    let (g, starts, stocked, same) =
      snapshot-IsStocked y base c q is one two accounts subscriptions invoices payments in
    let in_time : IsTimely y cal g.base_time = subst (IsTimely y cal) (sym same) timely in
    let (first, runs_first, all_first) =
      batch_1-IsAccepted x y clock cal g "batch_001" stocked in_time refl in
    let (second, runs_second, all_second) =
      batch_2-IsAccepted x y clock cal z g "batch_002" stocked in_time refl in
    let (t2, runs_third) = batch_3-Gives x y clock cal g "batch_003_quarantine" in_time in
    (
      g,
      record {
        batch_001 = first;
        batch_002 = second;
        batch_003_quarantine = batch_3_of y t2 "batch_003_quarantine";
      },
      rw (ahead, made, starts) refl,
      rw (runs_first, runs_second, runs_third) refl,
      all_first,
      all_second,
      batch_3_of_lem x y clock t2 "batch_003_quarantine" refl,
    )
