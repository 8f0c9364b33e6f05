-- ===== src/Delta.antt =====
-- Delta tables and Spark aggregates, as src/merge and src/cdf use them. The operations are
-- parameters; their laws state the documented effect of each on the rows that `collect` returns.
pub mod Keys
use incremental_cdc_data_pla.Base.{
  ◌≡◌, refl, Bool, true, not, Option, none, some, List, ◌++◌, map, keep, All, length, leb, is_some,
  find_where, update_where,
}

-- The row that WHEN MATCHED UPDATE makes of a row `t` of the table and what it matches.
abbrev pub set_from : {Row : Type 0} → (Row → Row → Row) → Row → Option Row → Row
set_from set t none = t
set_from set t (some s) = set t s

module _ {Row : Type 0} (on : Row → Row → Bool) where
  abbrev pub update_by : (Row → Row → Row) → List Row → Row → Row
  update_by set source t = set_from set t (find_where (on t) source)

  -- The rows of the source that match no row of the table.
  unfoldable pub new_rows : List Row → List Row → List Row
  new_rows source table = keep (λ s. not (is_some (find_where (λ t. on t s) table))) source

  -- MERGE raises when two rows of the source match one row of the table.
  abbrev pub IsUnambiguous : List Row → List Row → Type 0
  IsUnambiguous source table = All (λ t. leb (length (keep (on t) source)) 1 ≡ true) table

-- MERGE on a condition between a row of the table and a row of the source, by its WHEN clauses, and
-- `DeltaTable.update`.
pub record Delta (Row : Type 0) : Type 0 where
  -- WHEN NOT MATCHED INSERT ALL
  pub insert_all : (Row → Row → Bool) → List Row → List Row → List Row
  -- WHEN MATCHED UPDATE, WHEN NOT MATCHED INSERT
  pub upsert : (Row → Row → Bool) → (Row → Row → Row) → (Row → Row) → List Row → List Row → List Row
  -- WHEN MATCHED UPDATE
  pub merge_update : (Row → Row → Bool) → (Row → Row → Row) → List Row → List Row → List Row
  -- WHEN MATCHED DELETE
  pub merge_delete : (Row → Row → Bool) → List Row → List Row → List Row
  pub update : (Row → Bool) → (Row → Row) → List Row → List Row

pub record IsDelta {Row : Type 0} (d : Delta Row) : Type 0 where
  pub insert_all-rows :
      (on : Row → Row → Bool) (source table : List Row)
      → d.insert_all on source table ≡ table ++ new_rows on source table
  pub upsert-rows :
      (on : Row → Row → Bool) (set : Row → Row → Row) (values : Row → Row) (source table : List Row)
      → IsUnambiguous on source table
      → d.upsert on set values source table
        ≡ map (update_by on set source) table ++ map values (new_rows on source table)
  pub merge_update-rows :
      (on : Row → Row → Bool) (set : Row → Row → Row) (source table : List Row)
      → IsUnambiguous on source table
      → d.merge_update on set source table ≡ map (update_by on set source) table
  pub merge_delete-rows :
      (on : Row → Row → Bool) (source table : List Row)
      → d.merge_delete on source table ≡ keep (λ t. not (is_some (find_where (on t) source))) table
  pub update-rows :
      (p : Row → Bool) (f : Row → Row) (table : List Row)
      → d.update p f table ≡ update_where p f table

-- Tables that are lists of rows meet the laws.
abbrev pub rows_delta : {Row : Type 0} → Delta Row
rows_delta = record {
  insert_all = λ on source table. table ++ new_rows on source table;
  upsert = λ on set values source table.
      map (update_by on set source) table ++ map values (new_rows on source table);
  merge_update = λ on set source table. map (update_by on set source) table;
  merge_delete = λ on source table. keep (λ t. not (is_some (find_where (on t) source))) table;
  update = update_where;
}

pub rows_delta-IsDelta : {Row : Type 0} → IsDelta (rows_delta {Row = Row})
rows_delta-IsDelta = record {
  insert_all-rows = λ on source table. refl;
  upsert-rows = λ on set values source table h. refl;
  merge_update-rows = λ on set source table h. refl;
  merge_delete-rows = λ on source table. refl;
  update-rows = λ p f table. refl;
}
