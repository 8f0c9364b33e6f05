-- ===== src/Cdf.antt =====
-- src/cdf/state_store.py: the checkpoints of the change-feed consumer, one SQLite table. Every
-- operation that raises does so before it writes.
pub mod Checkpoints
pub mod Consume
mod Tests
use incremental_cdc_data_pla.Base.{
  find_where, update_where, ◌-◌, suc, String, Bool, Option, none, some, List, [], ◌∷◌, ◌++◌, ◌==◌,
  eqb, if◌then◌else◌, text_lt, sort_by,
}
use incremental_cdc_data_pla.Cdc.{ℤ, pos, negsuc, le_int}

-- The classes under `CDFError` that the store raises.
pub data Error : Type 0 where
  source_not_found already_registered invalid_range : Error

pub record Registration : Type 0 where
  pub source_table : String
  pub source_path : String
  pub cdf_start_version : ℤ
  pub last_processed_version : ℤ
  pub registered_at : String
  pub last_updated_at : String

-- The rows of `cdf_consumer_state`.
abbrev pub State : Type 0
State = List Registration

pub data Result : Type 0 where
  ok : Registration → Result
  raise : Error → Result

-- `n - 1`
unfoldable pub previous : ℤ → ℤ
previous (pos n) = if eqb n 0 then negsuc 0 else pos (n - 1)
previous (negsuc n) = negsuc (suc n)

abbrev pub is_source : String → Registration → Bool
is_source t r = r.source_table == t

abbrev pub get_source : String → State → Option Registration
get_source t s = find_where (is_source t) s

-- `ORDER BY source_table ASC`
unfoldable pub list_sources : State → List Registration
list_sources s = sort_by (λ a b. text_lt a.source_table b.source_table) s

unfoldable pub new_registration : String → String → ℤ → String → Registration
new_registration t path start now = record {
  source_table = t;
  source_path = path;
  cdf_start_version = start;
  last_processed_version = previous start;
  registered_at = now;
  last_updated_at = now;
}

abbrev pub existing_or_raise : Bool → Registration → Result
existing_or_raise ignore r = if ignore then ok r else raise already_registered

abbrev pub register_absent : Option Registration → Registration → Bool → State → Result × State
register_absent (some r) fresh ignore s = (existing_or_raise ignore r, s)
register_absent none fresh ignore s = (ok fresh, s ++ fresh ∷ [])

-- `path` is the resolved path, and `ignore` whether `if_exists` is 'ignore'.
unfoldable pub register_source : String → String → ℤ → Bool → String → State → Result × State
register_source t path start ignore now s =
    if le_int (pos 0) start
    then register_absent (get_source t s) (new_registration t path start now) ignore s
    else (raise invalid_range, s)

abbrev pub set_checkpoint : ℤ → String → Registration → Registration
set_checkpoint v now r = record r { last_processed_version = v; last_updated_at = now }

abbrev pub advance_existing : Option Registration → String → ℤ → String → State → Result × State
advance_existing none t v now s = (raise source_not_found, s)
advance_existing (some r) t v now s =
    if le_int r.last_processed_version v
    then (ok (set_checkpoint v now r), update_where (is_source t) (set_checkpoint v now) s)
    else (raise invalid_range, s)

unfoldable pub advance_checkpoint : String → ℤ → String → State → Result × State
advance_checkpoint t v now s = advance_existing (get_source t s) t v now s
