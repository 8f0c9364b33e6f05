-- ===== src/Source.antt =====
-- src/source/schemas.py: the rows of the source tables as dictionaries; and the formats of
-- src/utils/helpers.py. Dates, times and decimals are the standard library's.
pub mod Generator
pub mod Calendar
use incremental_cdc_data_pla.Base.{ℕ, String, Bool, Option, none, some, if◌then◌else◌}
use Prim.Native.Nat.{◌*◌}
use incremental_cdc_data_pla.Cdc.{Value, null, text, Fields, no_fields, field}

-- What the code uses of `datetime`, `decimal` and of the formatting of numbers. A `timedelta` is a
-- number of seconds, or of days where it is added to a date; `none` is the OverflowError of a time that
-- is out of range. Times are naive or of UTC, which `astimezone` takes as they are.
pub record Runtime : Type 1 where
  pub Datetime : Type 0
  pub Date : Type 0
  pub Decimal : Type 0
  pub is_naive : Datetime → Bool
  pub replace_utc : Datetime → Datetime
  pub astimezone_utc : Datetime → Datetime
  pub strftime : Datetime → String
  pub plus : Datetime → ℕ → Option Datetime
  pub minus : Datetime → ℕ → Option Datetime
  pub date : Datetime → Date
  pub midnight : Date → Datetime
  pub plus_days : Date → ℕ → Option Date
  pub isoformat : Date → String
  pub decimal : String → Decimal
  pub times : Decimal → Decimal → Decimal
  pub two_places : Decimal → String
  pub str : ℕ → String
  pub four_digits : ℕ → String

abbrev pub minutes : ℕ → ℕ
minutes n = n * 60

abbrev pub hours : ℕ → ℕ
hours n = n * 3_600

abbrev pub days : ℕ → ℕ
days n = n * 86_400

infixl 5 ◌>>=◌
abbrev pub ◌>>=◌ {ℓ κ} : {A : Type ℓ} {B : Type κ} → Option A → (A → Option B) → Option B
none >>= f = none
some a >>= f = f a

module _ (y : Runtime) where
  unfoldable pub format_iso_timestamp : y.Datetime → String
  format_iso_timestamp t = y.strftime (if y.is_naive t then y.replace_utc t else y.astimezone_utc t)

  pub record Account : Type 0 where
    pub account_id : String
    pub account_name : String
    pub industry : String
    pub country : String
    pub status : String
    pub created_at : y.Datetime
    pub updated_at : y.Datetime

  pub record Subscription : Type 0 where
    pub subscription_id : String
    pub account_id : String
    pub plan_name : String
    pub billing_cycle : String
    pub monthly_amount : y.Decimal
    pub status : String
    pub start_date : y.Date
    pub end_date : Option y.Date
    pub created_at : y.Datetime
    pub updated_at : y.Datetime

  pub record Invoice : Type 0 where
    pub invoice_id : String
    pub subscription_id : String
    pub invoice_date : y.Date
    pub due_date : y.Date
    pub invoice_amount : y.Decimal
    pub invoice_status : String
    pub created_at : y.Datetime
    pub updated_at : y.Datetime

  pub record Payment : Type 0 where
    pub payment_id : String
    pub invoice_id : String
    pub payment_date : y.Date
    pub payment_amount : y.Decimal
    pub payment_method : String
    pub payment_status : String
    pub created_at : y.Datetime
    pub updated_at : y.Datetime

  abbrev pub time_text : y.Datetime → Value
  time_text t = text (format_iso_timestamp t)

  abbrev pub date_text : y.Date → Value
  date_text d = text (y.isoformat d)

  abbrev date_or_null : Option y.Date → Value
  date_or_null none = null
  date_or_null (some d) = date_text d

  unfoldable pub account_to_dict : Account → Fields
  unfolding format_iso_timestamp
  account_to_dict a = field "account_id" (text a.account_id) (
      field "account_name" (text a.account_name) (
        field "industry" (text a.industry) (
          field "country" (text a.country) (
            field "status" (text a.status) (
              field "created_at" (time_text a.created_at)
                (field "updated_at" (time_text a.updated_at) no_fields))))))

  unfoldable pub subscription_to_dict : Subscription → Fields
  unfolding format_iso_timestamp
  subscription_to_dict s = field "subscription_id" (text s.subscription_id) (
      field "account_id" (text s.account_id) (
        field "plan_name" (text s.plan_name) (
          field "billing_cycle" (text s.billing_cycle) (
            field "monthly_amount" (text (y.two_places s.monthly_amount)) (
              field "status" (text s.status) (
                field "start_date" (date_text s.start_date) (
                  field "end_date" (date_or_null s.end_date) (
                    field "created_at" (time_text s.created_at)
                      (field "updated_at" (time_text s.updated_at) no_fields)))))))))

  unfoldable pub invoice_to_dict : Invoice → Fields
  unfolding format_iso_timestamp
  invoice_to_dict i = field "invoice_id" (text i.invoice_id) (
      field "subscription_id" (text i.subscription_id) (
        field "invoice_date" (date_text i.invoice_date) (
          field "due_date" (date_text i.due_date) (
            field "invoice_amount" (text (y.two_places i.invoice_amount)) (
              field "invoice_status" (text i.invoice_status) (
                field "created_at" (time_text i.created_at)
                  (field "updated_at" (time_text i.updated_at) no_fields)))))))

  unfoldable pub payment_to_dict : Payment → Fields
  unfolding format_iso_timestamp
  payment_to_dict p = field "payment_id" (text p.payment_id) (
      field "invoice_id" (text p.invoice_id) (
        field "payment_date" (date_text p.payment_date) (
          field "payment_amount" (text (y.two_places p.payment_amount)) (
            field "payment_method" (text p.payment_method) (
              field "payment_status" (text p.payment_status) (
                field "created_at" (time_text p.created_at)
                  (field "updated_at" (time_text p.updated_at) no_fields)))))))
