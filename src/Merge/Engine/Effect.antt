-- ===== src/Merge/Engine/Effect.antt =====
-- What a wave of src/merge/merge_engine.py is to leave of one key.
use incremental_cdc_data_pla.Base.{
  String, ◌≡◌, refl, true, false, Option, none, some, ◌==◌, eq_iff, map_option, if◌then◌else◌,
  Bool-cases, inl, inr,
}
use incremental_cdc_data_pla.Cdc.{Table}
use incremental_cdc_data_pla.Normalization.{NormalizedCdcEvent}
use incremental_cdc_data_pla.Merge.{External, TargetRow, row_of, is_delete}
use incremental_cdc_data_pla.Merge.Engine.{DeletePolicy, hard, soft, is_upsert, live, bury}

-- What an upsert leaves of a key, and what a deletion leaves.
abbrev pub upserted : Option TargetRow → Option TargetRow → Option TargetRow
upserted none old = old
upserted (some s) old = some (live s)

abbrev pub deleted : DeletePolicy → Option TargetRow → Option TargetRow → Option TargetRow
deleted policy none old = old
deleted hard (some s) old = none
deleted soft (some s) old = map_option (λ r. bury r s) old

-- What a wave leaves of a key, by the event that it has for the key.
abbrev pub after_event :
    External
    → Table
    → String
    → DeletePolicy
    → Option NormalizedCdcEvent
    → Option TargetRow
    → Option TargetRow
after_event x t proc policy none old = old
after_event x t proc policy (some e) old =
    if is_upsert e
    then upserted (row_of x t proc e) old
    else if is_delete e
    then deleted policy (row_of x t proc e) old
    else old

pub upsert_no_delete : (e : NormalizedCdcEvent) → is_upsert e ≡ true → is_delete e ≡ false
unfolding is_upsert is_delete
upsert_no_delete e h = elim (Bool-cases (e.operation == "DELETE")) [
  | inr other ↦ other
  | inl same ↦ absurd (cc (rw ((eq_iff e.operation "DELETE").0 same) at h))
]

upserted_twice : (o old : Option TargetRow) → upserted o (upserted o old) ≡ upserted o old
upserted_twice none old = refl
upserted_twice (some s) old = refl

deleted_twice :
    (policy : DeletePolicy) (o old : Option TargetRow)
    → deleted policy o (deleted policy o old) ≡ deleted policy o old
deleted_twice policy none old = refl
deleted_twice hard (some s) old = refl
deleted_twice soft (some s) none = refl
deleted_twice soft (some s) (some r) = refl

-- The effect of an event is idempotent.
pub after_event_twice :
    (x : External) (t : Table) (proc : String) (policy : DeletePolicy)
    (o : Option NormalizedCdcEvent) (old : Option TargetRow)
    → after_event x t proc policy o (after_event x t proc policy o old)
      ≡ after_event x t proc policy o old
after_event_twice x t proc policy none old = refl
after_event_twice x t proc policy (some e) old = elim (Bool-cases (is_upsert e)) [
  | inl h ↦ rw h (upserted_twice (row_of x t proc e) old)
  | inr h ↦ elim (Bool-cases (is_delete e)) [
    | inl g ↦ rw (h, g) (deleted_twice policy (row_of x t proc e) old)
    | inr g ↦ rw (h, g) refl
  ]
]
