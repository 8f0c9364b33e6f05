-- ===== src/Merge/Engine.antt =====
-- src/merge/merge_engine.py: one wave of events on a current-state table.
pub mod Rows
pub mod Effect
pub mod Wave
pub mod Replay
use incremental_cdc_data_pla.Base.{
  ℕ, String, Bool, true, false, ◌||◌, Option, none, some, List, [], ◌∷◌, keep, length, ◌==◌, ◌≡◌,
  refl, ap, ◌⊎◌, inl, inr, if◌then◌else◌,
}
use incremental_cdc_data_pla.Cdc.{Table, table_of}
use incremental_cdc_data_pla.Cdc.Engine.{set_table}
use incremental_cdc_data_pla.Delta.{Delta}
use incremental_cdc_data_pla.Delta.Keys.{on}
use incremental_cdc_data_pla.Normalization.{NormalizedCdcEvent}
use incremental_cdc_data_pla.Merge.{
  External, TargetRow, convert_events, row_key, event_key, is_delete,
}
use incremental_cdc_data_pla.Merge.Ledger.{is_one_of}

pub data DeletePolicy : Type 0 where
  hard soft : DeletePolicy

-- What the merge raises. A conversion error is what Python raises in the adapter.
pub data Error : Type 0 where
  value_error key_error file_not_found conversion_error merge_error : Error
  merge_ambiguity pending_recovery event_conflict sequence_conflict : Error

pub data Result {ℓ} (A : Type ℓ) : Type ℓ where
  ok : A → Result A
  raise : Error → Result A

pub Result-cases {ℓ} :
    {A : Type ℓ} (r : Result A) → ((e : Error) × (r ≡ raise e)) ⊎ ((a : A) × (r ≡ ok a))
Result-cases (raise e) = inl (e, refl)
Result-cases (ok a) = inr (a, refl)

abbrev ok_or {ℓ} : {A : Type ℓ} → A → Result A → A
ok_or d (ok a) = a
ok_or d (raise e) = d

pub ok_injective {ℓ} : {A : Type ℓ} {a b : A} → ok a ≡ ok b → a ≡ b
ok_injective {a} h = ap (ok_or a) h

-- `val in pks_seen` for some event of the list.
unfoldable pub is_ambiguous : External → Table → List String → List NormalizedCdcEvent → Bool
is_ambiguous x t seen [] = false
is_ambiguous x t seen (e ∷ es) =
    is_one_of seen (event_key x t e) || is_ambiguous x t (event_key x t e ∷ seen) es

unfoldable pub is_upsert : NormalizedCdcEvent → Bool
is_upsert e = e.operation == "INSERT" || e.operation == "UPDATE"

-- `update_set`, `insert_set`: every column of the source, and no tombstone.
abbrev pub live : TargetRow → TargetRow
live s = record s { is_deleted = false; deleted_at = none }

-- `soft_delete_set`: the columns stay, and the row becomes a tombstone.
abbrev pub bury : TargetRow → TargetRow → TargetRow
bury t s = record s {
  columns = t.columns;
  is_deleted = true;
  deleted_at = some s.last_source_commit_timestamp;
}

module _ (d : Delta TargetRow) (x : External) (t : Table) (proc : String) where
  abbrev upsert_rows : Option (List TargetRow) → List TargetRow → Option (List TargetRow)
  upsert_rows none rows = none
  upsert_rows (some source) rows = some (d.upsert (on (row_key t)) (λ r s. live s) live source rows)

  unfoldable pub apply_upserts : List NormalizedCdcEvent → List TargetRow → Option (List TargetRow)
  apply_upserts [] rows = some rows
  apply_upserts (e ∷ es) rows = upsert_rows (convert_events x t proc (e ∷ es)) rows

  abbrev delete_rows :
      DeletePolicy → Option (List TargetRow) → List TargetRow → Option (List TargetRow)
  delete_rows policy none rows = none
  delete_rows hard (some source) rows = some (d.merge_delete (on (row_key t)) source rows)
  delete_rows soft (some source) rows = some (d.merge_update (on (row_key t)) bury source rows)

  unfoldable pub apply_deletes :
      DeletePolicy → List NormalizedCdcEvent → List TargetRow → Option (List TargetRow)
  apply_deletes policy [] rows = some rows
  apply_deletes policy (e ∷ es) rows = delete_rows policy (convert_events x t proc (e ∷ es)) rows

  abbrev after_deletes : List TargetRow → Option (List TargetRow) → Bool × List TargetRow
  after_deletes upserted none = (false, upserted)
  after_deletes upserted (some final) = (true, final)

  -- The upserts are written before the deletes; a raise between them leaves the upserts written.
  abbrev after_upserts :
      DeletePolicy
      → List NormalizedCdcEvent
      → List TargetRow
      → Option (List TargetRow)
      → Bool × List TargetRow
  after_upserts policy deletes rows none = (false, rows)
  after_upserts policy deletes rows (some upserted) =
      after_deletes upserted (apply_deletes policy deletes upserted)

  -- The mutations of a wave, and whether they came to their end.
  unfoldable pub mutate_wave :
      DeletePolicy → List NormalizedCdcEvent → List TargetRow → Bool × List TargetRow
  mutate_wave policy events rows =
      after_upserts policy (keep is_delete events) rows (apply_upserts (keep is_upsert events) rows)

pub record Counts : Type 0 where
  pub inserts : ℕ
  pub updates : ℕ
  pub deletes : ℕ

unfoldable pub counts_of : List NormalizedCdcEvent → Counts
counts_of events = record {
  inserts = length (keep (λ e. e.operation == "INSERT") events);
  updates = length (keep (λ e. e.operation == "UPDATE") events);
  deletes = length (keep is_delete events);
}

-- The current-state tables; `none` is a table that does not exist.
abbrev pub Targets : Type 0
Targets = Table → Option (List TargetRow)

abbrev pub wave_result :
    Table → Targets → List NormalizedCdcEvent → Bool × List TargetRow → Result Counts × Targets
wave_result t targets events (true, rows) = (ok (counts_of events), set_table t (some rows) targets)
wave_result t targets events (false, rows) =
    (raise conversion_error, set_table t (some rows) targets)

module _ (d : Delta TargetRow) (x : External) (policy : DeletePolicy) (proc : String) where
  abbrev pub merge_existing :
      Table → List NormalizedCdcEvent → Option (List TargetRow) → Targets → Result Counts × Targets
  merge_existing t events none targets = (raise file_not_found, targets)
  merge_existing t events (some rows) targets =
      if is_ambiguous x t [] events
      then (raise merge_ambiguity, targets)
      else wave_result t targets events (mutate_wave d x t proc policy events rows)

  abbrev merge_known : Option Table → List NormalizedCdcEvent → Targets → Result Counts × Targets
  merge_known none events targets = (raise key_error, targets)
  merge_known (some t) events targets = merge_existing t events (targets t) targets

  unfoldable pub merge_wave : String → List NormalizedCdcEvent → Targets → Result Counts × Targets
  merge_wave name [] targets = (ok (counts_of []), targets)
  merge_wave name (e ∷ es) targets = merge_known (table_of name) (e ∷ es) targets
