-- ===== src/Source/Calendar.antt =====
-- What the standard library documents of the dates and times that src/source/generator.py computes
-- with: they reach to the end of the year 9999.
use incremental_cdc_data_pla.Base.{ℕ, suc, ◌+◌, ◌<◌, ◌≤◌, ◌≡◌}
use incremental_cdc_data_pla.Source.{Runtime, days}
use incremental_cdc_data_pla.Source.Generator.Gives.{Gives}

-- `date.max.toordinal()`
unfoldable pub last_day : ℕ
last_day = 3_652_059

-- `ordinal` is `toordinal`, and `moment` the whole seconds up to a time, of a day's ordinal 86,400 each.
pub record IsCalendar (y : Runtime) : Type 0 where
  pub ordinal : y.Date → ℕ
  pub moment : y.Datetime → ℕ
  pub plus_within :
      (t : y.Datetime) (n : ℕ)
      → moment t + n < days (suc last_day)
      → Gives (λ u. moment u ≡ moment t + n) (y.plus t n)
  pub minus_within :
      (t : y.Datetime) (n : ℕ)
      → days 1 + n ≤ moment t
      → Gives (λ u. moment u + n ≡ moment t) (y.minus t n)
  pub plus_days_within :
      (d : y.Date) (n : ℕ)
      → ordinal d + n ≤ last_day
      → Gives (λ e. ordinal e ≡ ordinal d + n) (y.plus_days d n)
  pub date_of : (t : y.Datetime) → days (ordinal (y.date t)) ≤ moment t
  pub midnight_of : (d : y.Date) → moment (y.midnight d) ≡ days (ordinal d)
