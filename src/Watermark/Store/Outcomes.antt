-- ===== src/Watermark/Store/Outcomes.antt =====
-- What each operation of the control store returns and leaves, by cases on the rows it reads.
use incremental_cdc_data_pla.Base.{
  find_where, update_where, find_where-append, ℕ, String, ◌≡◌, ◌⊎◌, none, some, [], ◌∷◌, ◌++◌,
  arith, eq_iff,
}
use incremental_cdc_data_pla.Watermark.Models.{CompositeWatermark}
use incremental_cdc_data_pla.Watermark.Store.{
  WatermarkState, WatermarkRunAudit, ControlStore, ok, raise, commit_error, is_table, state_of,
  get_run_audit, get_or_create_watermark_state, start_run_audit, new_state,
}
use incremental_cdc_data_pla.Watermark.Store.Commit.{
  commit_successful_run, commit_watermark_checkpoint, advance, is_table_at,
}
use incremental_cdc_data_pla.Watermark.Store.Atomic.{committed}

-- The store with a fresh row for a table.
abbrev pub with_table : String → String → String → String → ControlStore → ControlStore
with_table t wc tc now s = record s { states = s.states ++ new_state t wc tc now ∷ [] }

-- The store with a fresh audit.
abbrev pub with_audit : WatermarkRunAudit → ControlStore → ControlStore
with_audit a s = record s { audits = s.audits ++ a ∷ [] }

pub create_known :
    (t wc tc now : String) (s : ControlStore) (st : WatermarkState)
    → state_of t s ≡ some st
    → get_or_create_watermark_state t wc tc now s ≡ (ok st, s)
unfolding get_or_create_watermark_state
create_known t wc tc now s st e = ground arith

found_new :
    (t wc tc now : String) (s : ControlStore)
    → state_of t s ≡ none
    → state_of t (with_table t wc tc now s) ≡ some (new_state t wc tc now)
unfolding find_where new_state
found_new t wc tc now s e =
    ground (arith, find_where-append (is_table t) s.states (new_state t wc tc now ∷ []), eq_iff t t)

pub create_new :
    (t wc tc now : String) (s : ControlStore)
    → state_of t s ≡ none
    → get_or_create_watermark_state t wc tc now s
      ≡ (ok (new_state t wc tc now), with_table t wc tc now s)
unfolding get_or_create_watermark_state
create_new t wc tc now s e = ground (arith, found_new t wc tc now s e)

pub start_known :
    (a b : WatermarkRunAudit) (s : ControlStore)
    → get_run_audit a.run_id s ≡ some b
    → start_run_audit a s ≡ (raise commit_error, s)
unfolding start_run_audit
start_known a b s e = ground arith

pub start_new :
    (a : WatermarkRunAudit) (s : ControlStore)
    → get_run_audit a.run_id s ≡ none
    → start_run_audit a s ≡ (ok tt, with_audit a s)
unfolding start_run_audit
start_new a s e = ground arith

pub commit_after :
    (t : String) (v : ℕ) (w : CompositeWatermark) (run : String) (rows : ℕ) (path done now : String)
    (s : ControlStore)
    → ((commit_successful_run t v w run rows path done now s).1 ≡ s)
      ⊎ ((commit_successful_run t v w run rows path done now s).1
          ≡ committed t v w run rows path done now s)
unfolding commit_successful_run
commit_after t v w run rows path done now s = ground arith

-- The store that a successful checkpoint leaves.
abbrev pub checkpointed :
    String → ℕ → CompositeWatermark → String → String → ControlStore → ControlStore
checkpointed t v w run now s = record s {
  states = update_where (is_table_at t v) (advance w run now) s.states;
}

pub checkpoint_after :
    (t : String) (v : ℕ) (w : CompositeWatermark) (run now : String) (s : ControlStore)
    → ((commit_watermark_checkpoint t v w run now s).1 ≡ s)
      ⊎ ((commit_watermark_checkpoint t v w run now s).1 ≡ checkpointed t v w run now s)
unfolding commit_watermark_checkpoint
checkpoint_after t v w run now s = ground arith
