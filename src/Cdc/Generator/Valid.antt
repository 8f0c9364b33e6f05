-- ===== src/Cdc/Generator/Valid.antt =====
-- src/cdc/generator.py and src/cdc/validator.py: the events of the first two batches are accepted.
use incremental_cdc_data_pla.Base.{
  ℕ, String, ◌≡◌, refl, true, false, not, ◌&&◌, Option, some, All, ◌==◌, eq_iff, arith, ltb, strip,
  Bool-cases, inl, inr,
}
use incremental_cdc_data_pla.Cdc.{
  Value, Fields, no_fields, field, get, has, CdcOperation, insert_op, update_op, delete_op,
  operation_of, CdcEvent, Table, accounts, subscriptions, invoices, payments, table_of, primary_key,
}
use incremental_cdc_data_pla.Cdc.Validator.{
  ValidationResult, Timestamps, parse_iso_timestamp, validate,
}
use incremental_cdc_data_pla.Cdc.Validator.Rules.{validate_lem}
use incremental_cdc_data_pla.Cdc.Validator.Rules.Each.{has_fields, images_fit}
use incremental_cdc_data_pla.Source.{Runtime, format_iso_timestamp}
use incremental_cdc_data_pla.Cdc.Generator.{
  item, set_field, change, key_field, new_account, new_subscription, new_invoice, new_payment,
  account_update, subscription_update, invoice_update, payment_update, batch_1_of,
}
use incremental_cdc_data_pla.Cdc.Generator.Advanced.{
  payment_delete, first_update, second_update, late_update, batch_2_of,
}

-- The text of a time is not empty, and is read back as a time.
pub record IsClock (x : Timestamps) (y : Runtime) : Type 0 where
  pub filled : (t : y.Datetime) → y.strftime t == "" ≡ false
  pub parses : (t : y.Datetime) → parse_iso_timestamp x (y.strftime t) ≡ true

-- The validator returns, and accepts the event.
abbrev pub IsAccepted : Timestamps → CdcEvent → Type 0
IsAccepted x e = (r : ValidationResult) × (validate x e ≡ some r) × (r.is_valid ≡ true)

pub set_field-has_fields :
    (k : String) (v : Value) (d : Fields) → has_fields (some (set_field k v d)) ≡ true
unfolding set_field
set_field-has_fields k v no_fields = refl
set_field-has_fields k v (field j w d) = elim (Bool-cases (j == k)) [
  | inl here ↦ rw here refl
  | inr other ↦ rw other refl
]

pub has-has_fields : (k : String) (d : Fields) → has k d ≡ true → has_fields (some d) ≡ true
unfolding has
has-has_fields k no_fields h = absurd (cc)
has-has_fields k (field j v d) h = refl

pub has-set_field :
    (k j : String) (v : Value) (d : Fields) → has k d ≡ true → has k (set_field j v d) ≡ true
unfolding has set_field
has-set_field k j v no_fields h = absurd (cc)
has-set_field k j v (field i w d) h =
    ground (arith, has-set_field k j v d, h, eq_iff i j, eq_iff i k)

pub item_there : (k : String) (d : Fields) → has k d ≡ true → item k d ≡ some (get k d)
unfolding item
item_there k d h = rw h refl

module _ (x : Timestamps) (y : Runtime) (clock : IsClock x y) where
  time_ok :
      (at : y.Datetime)
      → (not (format_iso_timestamp y at == "") && parse_iso_timestamp x (format_iso_timestamp y at))
        ≡ true
  unfolding format_iso_timestamp
  time_ok at = rw (clock.filled, clock.parses) refl

  -- An event of the generator with a known table and operation, the primary key of the table and
  -- the images of the operation is accepted.
  pub change-IsAccepted :
      (id table op k v : String) (n : ℕ) (at commit : y.Datetime) (batch : String)
      (after before : Option Fields) (t : Table) (o : CdcOperation)
      → strip id == "" ≡ false
      → table_of table ≡ some t
      → operation_of op ≡ some o
      → primary_key t == k ≡ true
      → v == "" ≡ false
      → ltb 0 n ≡ true
      → strip batch == "" ≡ false
      → images_fit o after before ≡ true
      → IsAccepted x (change y id table op (key_field y k v) n at commit batch after before)
  unfolding get strip
  change-IsAccepted id table op k v n at commit batch after before t o named known oper keyed given
        positive batched images =
      let (r, runs, valid) =
        validate_lem x (change y id table op (key_field y k v) n at commit batch after before) in
      (
        r,
        runs,
        valid.1 (record {
          identified = named;
          table = t;
          table_known = known;
          keyed = ground (arith, eq_iff k (primary_key t), eq_iff (primary_key t) k, keyed, given);
          operation = o;
          operation_known = oper;
          images = images;
          positive = positive;
          event_time = time_ok at;
          commit_time = time_ok commit;
          batched = batched;
          sourced = refl;
        }),
      )

  pub batch_1_of-IsAccepted :
      (w1 w2 w3 w4 w5 w6 w7 w8 : y.Datetime × y.Datetime) (due : y.Date) (batch : String)
      (account : Fields) (status : Value) (subscription invoice : Fields) (invoice_status : Value)
      (payment : Fields)
      → strip batch == "" ≡ false
      → has_fields (some account) ≡ true
      → has_fields (some subscription) ≡ true
      → has_fields (some invoice) ≡ true
      → has_fields (some payment) ≡ true
      → All (IsAccepted x) (
          batch_1_of y w1 w2 w3 w4 w5 w6 w7 w8 due batch account status subscription invoice
            invoice_status payment)
  unfolding batch_1_of new_account new_subscription new_invoice new_payment account_update
      subscription_update invoice_update payment_update strip table_of operation_of
  batch_1_of-IsAccepted w1 w2 w3 w4 w5 w6 w7 w8 due batch account status subscription invoice
        invoice_status payment batched filled_account filled_subscription filled_invoice
        filled_payment =
      (
        change-IsAccepted _ _ _ _ _ _ _ _ _ _ _ accounts insert_op refl refl refl refl refl refl
            batched refl,
        (
          change-IsAccepted _ _ _ _ _ _ _ _ _ _ _ subscriptions insert_op refl refl refl refl refl
              refl batched refl,
          (
            change-IsAccepted _ _ _ _ _ _ _ _ _ _ _ invoices insert_op refl refl refl refl refl refl
                batched refl,
            (
              change-IsAccepted _ _ _ _ _ _ _ _ _ _ _ payments insert_op refl refl refl refl refl
                  refl batched refl,
              (
                change-IsAccepted _ _ _ _ _ _ _ _ _ _ _ accounts update_op refl refl refl refl refl
                    refl batched (rw (set_field-has_fields, filled_account) refl),
                (
                  change-IsAccepted _ _ _ _ _ _ _ _ _ _ _ subscriptions update_op refl refl refl
                      refl refl refl batched (rw (set_field-has_fields, filled_subscription) refl),
                  (
                    change-IsAccepted _ _ _ _ _ _ _ _ _ _ _ invoices update_op refl refl refl refl
                        refl refl batched (rw (set_field-has_fields, filled_invoice) refl),
                    (
                      change-IsAccepted _ _ _ _ _ _ _ _ _ _ _ payments update_op refl refl refl refl
                          refl refl batched (rw (set_field-has_fields, filled_payment) refl),
                      tt,
                    ),
                  ),
                ),
              ),
            ),
          ),
        ),
      )

  pub batch_2_of-IsAccepted :
      (w1 w2 w3 w4 w5 : y.Datetime × y.Datetime) (batch : String)
      (payment s0 s1 s2 subscription : Fields)
      → strip batch == "" ≡ false
      → has_fields (some payment) ≡ true
      → has_fields (some s0) ≡ true
      → has_fields (some s1) ≡ true
      → has_fields (some s2) ≡ true
      → has_fields (some subscription) ≡ true
      → All (IsAccepted x) (batch_2_of y w1 w2 w3 w4 w5 batch payment s0 s1 s2 subscription)
  unfolding batch_2_of new_account payment_delete first_update second_update late_update strip
      table_of operation_of
  batch_2_of-IsAccepted w1 w2 w3 w4 w5 batch payment s0 s1 s2 subscription batched filled_payment
        filled_s0 filled_s1 filled_s2 filled_subscription =
      (
        change-IsAccepted _ _ _ _ _ _ _ _ _ _ _ payments delete_op refl refl refl refl refl refl
            batched filled_payment,
        (
          change-IsAccepted _ _ _ _ _ _ _ _ _ _ _ accounts insert_op refl refl refl refl refl refl
              batched refl,
          (
            change-IsAccepted _ _ _ _ _ _ _ _ _ _ _ accounts update_op refl refl refl refl refl refl
                batched (rw (filled_s1, filled_s2) refl),
            (
              change-IsAccepted _ _ _ _ _ _ _ _ _ _ _ accounts update_op refl refl refl refl refl
                  refl batched (rw (filled_s0, filled_s1) refl),
              (
                change-IsAccepted _ _ _ _ _ _ _ _ _ _ _ subscriptions update_op refl refl refl refl
                    refl refl batched (rw (set_field-has_fields, filled_subscription) refl),
                tt,
              ),
            ),
          ),
        ),
      )
