-- ===== src/Cdf/Consume/All.antt =====
-- src/cdf/pipeline.py: `register_table`, `consume_all` and `replay_range`.
use incremental_cdc_data_pla.Base.{
  String, Bool, false, Option, none, some, List, [], ◌∷◌, if◌then◌else◌,
}
use incremental_cdc_data_pla.Cdc.{ℤ}
use incremental_cdc_data_pla.Cdf.{
  source_not_found, Registration, State, Result, raise, get_source, list_sources, register_source,
}
use incremental_cdc_data_pla.Cdf.Consume.{
  Delta, Consumer, Consumption, Outcome, done, failed, read_changes, consume_table,
}

-- A Delta table as the reader sees it: its path, whether its change feed is on, its version, and the
-- version of the commit that would turn the feed on.
pub record DeltaTable : Type 0 where
  pub path : String
  pub cdf_enabled : Bool
  pub version : ℤ
  pub enabling_version : ℤ

-- `none` is a table that does not exist.
unfoldable pub register_table : Option DeltaTable → String → Bool → String → State → Result × State
register_table none t ignore now s = (raise source_not_found, s)
register_table (some delta) t ignore now s =
    register_source t delta.path
      (if delta.cdf_enabled then delta.version else delta.enabling_version) ignore now s

module _ {Row : Type 0} (d : Delta Row) (now : String) (target : Option ℤ) where
  abbrev add_result :
      Consumption → Option (List Consumption) × Consumer → Option (List Consumption) × Consumer
  add_result r (none, c) = (none, c)
  add_result r (some results, c) = (some (r ∷ results), c)

  -- What follows a table; `none` is a raise.
  abbrev after_table :
      Outcome × Consumer
      → (Consumer → Option (List Consumption) × Consumer)
      → Option (List Consumption) × Consumer
  after_table (failed, c) rest = (none, c)
  after_table (done r, c) rest = add_result r (rest c)

  unfoldable pub consume_tables :
      List Registration → Consumer → Option (List Consumption) × Consumer
  consume_tables [] c = (some [], c)
  consume_tables (r ∷ registered) c =
      after_table (consume_table d false r.source_table now target c) (consume_tables registered)

  unfoldable pub consume_all : Consumer → Option (List Consumption) × Consumer
  consume_all c = consume_tables (list_sources c.state) c

abbrev registered_path : String → Option Registration → String
registered_path path none = path
registered_path path (some r) = r.source_path

-- `path` is the resolved path of the table; nothing is written.
unfoldable pub replay_range :
    {Row : Type 0} → Delta Row → String → String → ℤ → ℤ → State → Option (List Row)
replay_range d path t start end s = read_changes d (registered_path path (get_source t s)) start end
