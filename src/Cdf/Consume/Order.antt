-- ===== src/Cdf/Consume/Order.antt =====
-- The archive before the checkpoint: what a call of `consume_table` (src/cdf/pipeline.py) leaves.
use incremental_cdc_data_pla.Base.{
  ℕ, String, ◌≡◌, refl, Bool, true, Option, none, some, List, [], ◌∷◌, arith, Dict, eq_refl,
  Bool-cases, Option-cases, inl, inr,
}
use incremental_cdc_data_pla.Cdc.{ℤ, le_int, table_of}
use incremental_cdc_data_pla.Cdc.Engine.Batch.{le_int_refl}
use incremental_cdc_data_pla.Cdf.{
  Registration, State, Result, ok, raise, get_source, advance_checkpoint,
}
use incremental_cdc_data_pla.Cdf.Checkpoints.{Checkpoints, advance_checkpoint_lem}
use incremental_cdc_data_pla.Cdf.Consume.{
  Change, Delta, Consumer, Consumption, Outcome, done, failed, following, bounded, read_changes,
  finish, store_changes, prepare_changes, consume_rows, consume_to, consume_table,
}

-- What a call has done to the checkpoints, by how it ended.
abbrev pub Consumed : String → Consumer → Outcome × Consumer → Type 0
Consumed t c (failed, c') = c'.state ≡ c.state
Consumed t c (done r, c') =
    (reg : Registration) × (reg' : Registration) × (get_source t c.state ≡ some reg)
    × (get_source t c'.state ≡ some reg')
    × (r.checkpoint_before ≡ reg.last_processed_version)
    × (r.checkpoint_after ≡ reg'.last_processed_version)
    × (le_int r.checkpoint_before r.checkpoint_after ≡ true)

finish_lem :
    (t now : String) (end : ℤ) (c : Consumer) (r : Consumption) (reg : Registration)
    (a : Dict (List Change)) (p : Result × State)
    → get_source t c.state ≡ some reg
    → r.checkpoint_before ≡ reg.last_processed_version
    → r.checkpoint_after ≡ end
    → Checkpoints t end now c.state p
    → Consumed t c (finish r p a)
finish_lem t now end c r reg a (raise e, s) found before after h = h.0
finish_lem t now end c r reg a (ok q, s) found before after (old, at, above, moved, view) =
    let is : old ≡ reg = ground (arith, at, found) in
    (
      reg,
      q,
      found,
      ground (arith, view t, eq_refl t),
      before,
      ground (arith, moved, after),
      rw (before, after, ← is) above,
    )

module _ {Row : Type 0} (d : Delta Row) (fails : Bool) (t now : String) (c : Consumer)
    (reg : Registration) (found : get_source t c.state ≡ some reg) where
  store_lem :
      (end : ℤ) (n : ℕ) (changes : Option (List Change))
      → Consumed t c (store_changes d fails t now reg end n changes c)
  store_lem end n none = refl
  store_lem end n (some changes) = elim (Bool-cases fails) [
    | inl stops ↦ rw stops refl
    | inr runs ↦ rw runs (
        finish_lem t now end c _ reg _ (advance_checkpoint t end now c.state) found refl refl
          (advance_checkpoint_lem t end now c.state))
  ]

  rows_lem :
      (end : ℤ) (rows : Option (List Row))
      → Consumed t c (consume_rows d fails t now reg end rows c)
  rows_lem end none = refl
  rows_lem end (some []) =
      finish_lem t now end c _ reg c.archive (advance_checkpoint t end now c.state) found refl refl
        (advance_checkpoint_lem t end now c.state)
  rows_lem end (some (row ∷ rows)) =
      store_lem end _ (prepare_changes d fails t now (table_of t) (row ∷ rows))

  to_lem : (end : ℤ) → Consumed t c (consume_to d fails t now reg end c)
  to_lem end = elim (Bool-cases (le_int (following reg.last_processed_version) end)) [
    | inl runs ↦
        rw runs
          (rows_lem end (read_changes d reg.source_path (following reg.last_processed_version) end))
    | inr idle ↦
        rw idle (reg, reg, found, found, refl, refl, le_int_refl reg.last_processed_version)
  ]

-- A call that fails, at the hook or before it, leaves every checkpoint as it was. A call that
-- returns found the table registered and leaves it registered at the checkpoint that it reports,
-- which is not below the one that it started from.
pub consume_table_lem :
    {Row : Type 0} (d : Delta Row) (fails : Bool) (t now : String) (target : Option ℤ)
    (c : Consumer)
    → Consumed t c (consume_table d fails t now target c)
unfolding consume_table
consume_table_lem d fails t now target c = elim (Option-cases (get_source t c.state)) [
  | inl e ↦ rw e refl
  | inr (reg, e) ↦ elim (Option-cases (d.version t)) [
    | inl unknown ↦ rw (e, unknown) refl
    | inr (v, known) ↦ rw (e, known) (to_lem d fails t now c reg e (bounded target v))
  ]
]
