-- ===== src/Cdf/Consume.antt =====
-- src/cdf/pipeline.py: `consume_table`, with `read_changes` of src/cdf/reader.py and `write_changes`
-- of src/cdf/archive.py. Delta and Spark are parameters: the history of a table, its change feed,
-- and the derivation of change identities.
pub mod Order
pub mod Archive
pub mod All
use incremental_cdc_data_pla.Base.{
  ℕ, ◌+◌, ◌-◌, String, Bool, true, false, not, Option, none, some, List, [], ◌∷◌, ◌++◌, ◌==◌, eqb,
  keep, any, length, Dict, lookup, insert, if◌then◌else◌,
}
use incremental_cdc_data_pla.Cdc.{ℤ, pos, negsuc, le_int, Table, table_of, primary_key}
use incremental_cdc_data_pla.Cdf.{
  Registration, State, Result, ok, raise, get_source, advance_checkpoint,
}

-- A prepared row, with its `_change_id`.
pub record Change : Type 0 where
  pub change_id : String
  pub values : String

-- The feed of a path between two versions (`none`: there is no Delta table or no feed), the current
-- version of a table, and the rows of a feed with their change identities, for a table and its
-- primary key (`none`: a raise).
pub record Delta (Row : Type 0) : Type 0 where
  pub feed : String → ℤ → ℤ → Option (List Row)
  pub version : String → Option ℤ
  pub prepare : String → String → List Row → Option (List Change)

pub record Consumer : Type 0 where
  pub state : State
  pub archive : Dict (List Change)

pub record Consumption : Type 0 where
  pub start_version : ℤ
  pub end_version : ℤ
  pub input_change_rows : ℕ
  pub archive_rows_inserted : ℕ
  pub checkpoint_before : ℤ
  pub checkpoint_after : ℤ
  pub no_op : Bool

pub data Outcome : Type 0 where
  done : Consumption → Outcome
  failed : Outcome

-- `n + 1`, and `min` with an optional bound.
unfoldable pub following : ℤ → ℤ
following (pos n) = pos (n + 1)
following (negsuc n) = if eqb n 0 then pos 0 else negsuc (n - 1)

abbrev pub bounded : Option ℤ → ℤ → ℤ
bounded none v = v
bounded (some t) v = if le_int t v then t else v

abbrev pub has_change : String → List Change → Bool
has_change i l = any (λ c. c.change_id == i) l

-- The rows of a MERGE that inserts what matches no row of the archive.
unfoldable pub unmatched : List Change → List Change → List Change
unmatched old new = keep (λ c. not (has_change c.change_id old)) new

abbrev pub archived : Option (List Change) → List Change → List Change
archived none new = new
archived (some old) new = old ++ unmatched old new

abbrev pub inserted : Option (List Change) → List Change → ℕ
inserted none new = length new
inserted (some old) new = length (old ++ unmatched old new) - length old

unfoldable pub write_changes : String → List Change → Dict (List Change) → ℕ × Dict (List Change)
write_changes t [] a = (0, a)
write_changes t (c ∷ cs) a =
    (inserted (lookup t a) (c ∷ cs), insert t (archived (lookup t a) (c ∷ cs)) a)

-- `read_changes`; `none` is a raise.
unfoldable pub read_changes : {Row : Type 0} → Delta Row → String → ℤ → ℤ → Option (List Row)
read_changes d path start end =
    if le_int (pos 0) start
    then (if le_int start end then d.feed path start end else none)
    else none

-- The result of a window, by how the checkpoint moved.
abbrev pub finish : Consumption → Result × State → Dict (List Change) → Outcome × Consumer
finish r (ok reg, s) a = (done r, record { state = s; archive = a })
finish r (raise e, s) a = (failed, record { state = s; archive = a })

module _ {Row : Type 0} (d : Delta Row) (fails : Bool) (t now : String) where
  -- The archive is written before the checkpoint; the hook stands between them.
  abbrev pub store_changes :
      Registration → ℤ → ℕ → Option (List Change) → Consumer → Outcome × Consumer
  store_changes reg end rows none c = (failed, c)
  store_changes reg end rows (some changes) c =
      let (written, archive) = write_changes t changes c.archive in
      if fails
      then (failed, record { state = c.state; archive = archive })
      else finish
          (record {
            start_version = following reg.last_processed_version;
            end_version = end;
            input_change_rows = rows;
            archive_rows_inserted = written;
            checkpoint_before = reg.last_processed_version;
            checkpoint_after = end;
            no_op = false;
          })
          (advance_checkpoint t end now c.state) archive

  abbrev pub prepare_changes : Option Table → List Row → Option (List Change)
  prepare_changes none rows = none
  prepare_changes (some table) rows = d.prepare t (primary_key table) rows

  abbrev pub consume_rows : Registration → ℤ → Option (List Row) → Consumer → Outcome × Consumer
  consume_rows reg end none c = (failed, c)
  consume_rows reg end (some []) c =
      finish
        (record {
          start_version = following reg.last_processed_version;
          end_version = end;
          input_change_rows = 0;
          archive_rows_inserted = 0;
          checkpoint_before = reg.last_processed_version;
          checkpoint_after = end;
          no_op = false;
        })
        (advance_checkpoint t end now c.state) c.archive
  consume_rows reg end (some (row ∷ rows)) c =
      store_changes reg end (length (row ∷ rows)) (prepare_changes (table_of t) (row ∷ rows)) c

  abbrev pub consume_to : Registration → ℤ → Consumer → Outcome × Consumer
  consume_to reg end c =
      let start = following reg.last_processed_version in
      if le_int start end
      then consume_rows reg end (read_changes d reg.source_path start end) c
      else (
        done (record {
          start_version = start;
          end_version = end;
          input_change_rows = 0;
          archive_rows_inserted = 0;
          checkpoint_before = reg.last_processed_version;
          checkpoint_after = reg.last_processed_version;
          no_op = true;
        }),
        c,
      )

  abbrev pub consume_registered :
      Option ℤ → Option Registration → Option ℤ → Consumer → Outcome × Consumer
  consume_registered target none v c = (failed, c)
  consume_registered target (some reg) none c = (failed, c)
  consume_registered target (some reg) (some v) c = consume_to reg (bounded target v) c

  unfoldable pub consume_table : Option ℤ → Consumer → Outcome × Consumer
  consume_table target c = consume_registered target (get_source t c.state) (d.version t) c
