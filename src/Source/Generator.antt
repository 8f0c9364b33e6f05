-- ===== src/Source/Generator.antt =====
-- src/source/generator.py: the rows of the initial snapshot. `none` is a raise. The random numbers
-- are the standard library's: `randint a b` in a state of the generator.
pub mod Snapshot
pub mod Gives
pub mod Integrity
pub mod Room
pub mod Rows
pub mod Complete
pub mod Tests
use Prim.Native.String.{◌++◌ as concat}
use Prim.Native.Nat.{◌%◌}
use incremental_cdc_data_pla.Base.{
  ℕ, zero, suc, ◌+◌, ◌-◌, String, Option, none, some, List, [], ◌∷◌, length, eqb, if◌then◌else◌,
}
use incremental_cdc_data_pla.Source.{Runtime, Account, hours, days, ◌>>=◌}

abbrev pub industries : List String
industries =
    "Fintech" ∷ "Healthcare" ∷ "E-commerce" ∷ "SaaS" ∷ "Cybersecurity" ∷ "Logistics" ∷ "Edtech"
    ∷ "Manufacturing" ∷ []

abbrev pub countries : List String
countries = "US" ∷ "CA" ∷ "GB" ∷ "DE" ∷ "FR" ∷ "AU" ∷ "SG" ∷ "IN" ∷ "JP" ∷ "BR" ∷ []

abbrev pub account_statuses : List String
account_statuses = "ACTIVE" ∷ "ACTIVE" ∷ "ACTIVE" ∷ "ACTIVE" ∷ "TRIAL" ∷ "SUSPENDED" ∷ []

abbrev pub plan_tiers : List (String × String)
plan_tiers =
    ("STARTER", "49.00")
    ∷ ("GROWTH", "199.00")
    ∷ ("SCALE", "499.00")
    ∷ ("ENTERPRISE", "1299.00")
    ∷ []

abbrev pub billing_cycles : List String
billing_cycles = "MONTHLY" ∷ "MONTHLY" ∷ "MONTHLY" ∷ "ANNUAL" ∷ []

abbrev pub subscription_statuses : List String
subscription_statuses = "ACTIVE" ∷ "ACTIVE" ∷ "ACTIVE" ∷ "PAUSED" ∷ "CANCELLED" ∷ []

abbrev pub invoice_statuses : List String
invoice_statuses = "PAID" ∷ "PAID" ∷ "PAID" ∷ "ISSUED" ∷ "OVERDUE" ∷ []

abbrev pub payment_methods : List String
payment_methods = "CREDIT_CARD" ∷ "CREDIT_CARD" ∷ "ACH" ∷ "WIRE_TRANSFER" ∷ []

abbrev pub payment_statuses : List String
payment_statuses = "SUCCESS" ∷ "SUCCESS" ∷ "SUCCESS" ∷ "FAILED" ∷ []

-- `random.Random`: `seeded` is `Random(seed)`.
pub record Random : Type 1 where
  pub State : Type 0
  pub seeded : ℕ → State
  pub randint : ℕ → ℕ → State → ℕ × State

-- `xs[i]`
unfoldable pub item_at {ℓ} : {A : Type ℓ} → ℕ → List A → Option A
item_at i [] = none
item_at zero (x ∷ xs) = some x
item_at (suc i) (x ∷ xs) = item_at i xs

-- `xs[i % len(xs)]`, which raises where `xs` is empty.
unfoldable pub cycled {ℓ} : {A : Type ℓ} → ℕ → List A → Option A
unfolding item_at
cycled i xs = if eqb (length xs) 0 then none else item_at (i % length xs) xs

pub record SnapshotConfig (y : Runtime) : Type 0 where
  pub num_accounts : ℕ
  pub num_subscriptions : ℕ
  pub num_invoices : ℕ
  pub num_payments : ℕ
  pub seed : ℕ
  pub base_timestamp : y.Datetime

module _ (y : Runtime) (r : Random) (c : SnapshotConfig y) where
  -- `xs[self.rng.randint(0, len(xs) - 1)]`
  abbrev pub picked : {A : Type 0} → List A → ℕ × r.State → Option (A × r.State)
  picked xs (i, s) = item_at i xs >>= λ x. some (x, s)

  abbrev pub pick : {A : Type 0} → List A → r.State → Option (A × r.State)
  pick xs s = picked xs (r.randint 0 (length xs - 1) s)

  -- The loop `for i in range(1, count + 1)`, from the round `i`.
  unfoldable pub each :
      {A : Type 0}
      → (ℕ → r.State → Option (A × r.State))
      → ℕ
      → ℕ
      → r.State
      → Option (List A × r.State)
  each row zero i s = some ([], s)
  each row (suc n) i s = do (x, s') ← row i s; (xs, s'') ← each row n (suc i) s'; some (x ∷ xs, s'')

  unfoldable pub account_row : ℕ → r.State → Option (Account y × r.State)
  account_row i s = do
    industry ← cycled (i - 1) industries
    country ← cycled (i - 1) countries
    (status, s1) ← pick account_statuses s
    let (d, s2) = r.randint 0 60 s1
    let (h, s3) = r.randint 0 23 s2
    let (u, s4) = r.randint 0 12 s3
    created_at ← y.plus c.base_timestamp (days d + hours h)
    updated_at ← y.plus created_at (hours u)
    some (
      record {
        account_id = concat "ACC-" (y.four_digits i);
        account_name = concat industry (concat " Solutions " (y.str i));
        industry = industry;
        country = country;
        status = status;
        created_at = created_at;
        updated_at = updated_at;
      },
      s4,
    )
