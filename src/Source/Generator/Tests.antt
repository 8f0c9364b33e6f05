-- ===== src/Source/Generator/Tests.antt =====
-- The generator of the snapshot over small numbers.
use incremental_cdc_data_pla.Base.{
  ℕ, suc, ◌+◌, ◌-◌, ◌<◌, ◌≤◌, String, ◌≡◌, refl, Bool, true, false, Option, none, some, List, [],
  ◌∷◌, map, leb, ltb, eqb, arith, insert, lookup, if◌then◌else◌,
}
use Prim.Native.Nat.{◌*◌, ◌/◌}
use native.Mathlib.Nat.{div-mul-le_self}
use incremental_cdc_data_pla.Source.{Runtime}
use incremental_cdc_data_pla.Source.Calendar.{last_day, IsCalendar}
use incremental_cdc_data_pla.Source.Generator.{
  Random, SnapshotConfig, item_at, cycled, each, account_row,
}
use incremental_cdc_data_pla.Source.Generator.Snapshot.{
  Snapshot, index_by, generate_accounts, subscription_row, generate_subscriptions, invoice_row,
  generate_invoices, payment_row, generate_payments, generate_snapshot_entities,
}
use incremental_cdc_data_pla.Source.Generator.Gives.{Gives, IsRandom}
use incremental_cdc_data_pla.Source.Generator.Integrity.{IsSnapshot}
use incremental_cdc_data_pla.Source.Generator.Complete.{generate_snapshot_entities_lem}

abbrev end_of_time : ℕ
end_of_time = 3_652_060 * 86_400

-- Times are seconds, dates are days, and every time prints as one text.
abbrev pub runtime : Runtime
runtime = record {
  Datetime = ℕ;
  Date = ℕ;
  Decimal = String;
  is_naive = λ t. false;
  replace_utc = λ t. t;
  astimezone_utc = λ t. t;
  strftime = λ t. "2026-01-01T00:00:00Z";
  plus = λ t n. if ltb (t + n) end_of_time then some (t + n) else none;
  minus = λ t n. if leb (n + 86_400) t then some (t - n) else none;
  date = λ t. t / 86_400;
  midnight = λ d. d * 86_400;
  plus_days = λ d n. if leb (d + n) 3_652_059 then some (d + n) else none;
  isoformat = λ d. "2026-01-01";
  decimal = λ s. s;
  times = λ a b. a;
  two_places = λ a. a;
  str = λ n. "n";
  four_digits = λ n. if eqb n 1 then "0001" else if eqb n 2 then "0002" else "0003";
}

pub ltb_of : (m n : ℕ) → m < n → ltb m n ≡ true
ltb_of m n h = ground (arith, h)

pub leb_of : (m n : ℕ) → m ≤ n → leb m n ≡ true
leb_of m n h = ground (arith, h)

pub given :
    {P : ℕ → Type 0} (v : ℕ) (b : Bool) → P v → b ≡ true → Gives P (if b then some v else none)
given v b p h = rw h (v, refl, p)

unfoldable pub calendar : IsCalendar runtime
unfolding last_day
calendar = record {
  ordinal = λ d. d;
  moment = λ t. t;
  plus_within = λ t n h. given (t + n) (ltb (t + n) end_of_time) refl (ltb_of (t + n) _ h);
  minus_within = λ t n h.
      given (t - n) (leb (n + 86_400) t) (omega (arith, h))
        (leb_of (n + 86_400) t (omega (arith, h)));
  plus_days_within = λ d n h. given (d + n) (leb (d + n) 3_652_059) refl (leb_of (d + n) _ h);
  date_of = λ t. div-mul-le_self t 86_400;
  midnight_of = λ d. refl;
}

-- Numbers that climb to their bound.
abbrev pub random : Random
random = record {
  State = ℕ;
  seeded = λ n. n;
  randint = λ a b s. (if leb (a + s) b then a + s else b, suc s);
}

pub random-IsRandom : IsRandom random
random-IsRandom = record {
  at_least = λ a b s h. ground (arith, h);
  at_most = λ a b s h. ground (arith, h);
}

abbrev pub config : SnapshotConfig runtime
config = record {
  num_accounts = 2;
  num_subscriptions = 3;
  num_invoices = 4;
  num_payments = 2;
  seed = 0;
  base_timestamp = 63_902_908_800;
}

refers_to : Option (Snapshot runtime) → List String
refers_to none = []
refers_to (some q) = map (λ s. s.account_id) q.subscriptions

-- Three subscriptions go round two accounts.
generate_test :
    refers_to (generate_snapshot_entities runtime random config)
    ≡ "ACC-0001" ∷ "ACC-0002" ∷ "ACC-0001" ∷ []
unfolding refers_to item_at cycled each account_row index_by generate_accounts subscription_row
    generate_subscriptions invoice_row generate_invoices payment_row generate_payments
    generate_snapshot_entities insert lookup
generate_test = refl

generate_snapshot_entities_lem_example :
    Gives (IsSnapshot runtime config) (generate_snapshot_entities runtime random config)
unfolding last_day calendar
generate_snapshot_entities_lem_example =
    generate_snapshot_entities_lem runtime random config calendar random-IsRandom (omega arith)
      (omega arith) (omega arith) (omega arith)
