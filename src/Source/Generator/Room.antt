-- ===== src/Source/Generator/Room.antt =====
-- src/source/generator.py: the dates of a snapshot are in range.
use incremental_cdc_data_pla.Base.{
  suc, ◌+◌, ◌<◌, ◌≤◌, none, some, String, ◌≡◌, refl, arith, ◌==◌, inl, inr, Bool-cases,
}
use Prim.Native.Nat.{◌*◌}
use incremental_cdc_data_pla.Source.{Runtime, Subscription, Invoice, days}
use incremental_cdc_data_pla.Source.Calendar.{last_day, IsCalendar}
use incremental_cdc_data_pla.Source.Generator.{SnapshotConfig}
use incremental_cdc_data_pla.Source.Generator.Snapshot.{end_date_of}
use incremental_cdc_data_pla.Source.Generator.Gives.{Gives}

-- The years up to 9999 have room for the snapshot: 440 days after the base timestamp, and 30 days more for
-- each invoice.
abbrev pub HasRoom : (y : Runtime) → IsCalendar y → SnapshotConfig y → Type 0
HasRoom y cal c =
    cal.moment c.base_timestamp + days (440 + c.num_invoices * 30) < days (suc last_day)

module _ (y : Runtime) (c : SnapshotConfig y) (cal : IsCalendar y) where
  -- A subscription starts up to 75 days after the base timestamp, and an invoice is up to 30 days later
  -- for each one configured.
  abbrev pub StartsEarly : Subscription y → Type 0
  StartsEarly s = days (cal.ordinal s.start_date) ≤ cal.moment c.base_timestamp + days 75

  abbrev pub IsEarly : Invoice y → Type 0
  IsEarly i =
      days (cal.ordinal i.invoice_date)
      ≤ cal.moment c.base_timestamp + days (75 + c.num_invoices * 30)

  module _ (room : HasRoom y cal c) where
    pub end_date_of-Gives :
        (status : String) (start : y.Date)
        → days (cal.ordinal start) ≤ cal.moment c.base_timestamp + days 75
        → Gives (λ e. end_date_of y status start ≡ some e) (end_date_of y status start)
    end_date_of-Gives status start early = elim (Bool-cases (status == "CANCELLED")) [
      | inl cancelled ↦
          let (e, runs, p) = cal.plus_days_within start 365 (omega (arith, room, early)) in
          rw cancelled (some e, rw runs refl, rw runs refl)
      | inr runs_on ↦ rw runs_on (none, refl, refl)
    ]

    pub due_date-Gives :
        (d : y.Date)
        → days (cal.ordinal d) ≤ cal.moment c.base_timestamp + days (75 + c.num_invoices * 30)
        → Gives (λ e. y.plus_days d 15 ≡ some e) (y.plus_days d 15)
    due_date-Gives d early =
        let (e, runs, p) = cal.plus_days_within d 15 (omega (arith, room, early)) in (e, runs, runs)
