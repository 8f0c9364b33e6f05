-- ===== src/Watermark/Store/Monotone.antt =====
-- Interleaved operations on the control store (src/watermark/control_store.py) never set a table
-- back.
use incremental_cdc_data_pla.Base.{
  update_where, find_where-append, find_where-update_where, ◌<◌, String, ◌≡◌, refl, inl, inr, ◌⊎◌,
  Bool, Bool-cases, Option-cases, some, List, [], ◌∷◌, arith,
}
use incremental_cdc_data_pla.Watermark.Models.{CompositeWatermark}
use incremental_cdc_data_pla.Watermark.Store.{
  WatermarkState, WatermarkRunAudit, ControlStore, is_table, state_of, get_run_audit,
  get_or_create_watermark_state, start_run_audit, update_run_audit_window, new_state,
}
use incremental_cdc_data_pla.Watermark.Store.Commit.{
  mark_superseded, complete_run_audit, advance, is_table_at,
}
use incremental_cdc_data_pla.Watermark.Store.Atomic.{committed}
use incremental_cdc_data_pla.Watermark.Store.Outcomes.{
  create_known, create_new, start_known, start_new, commit_after, checkpoint_after,
}
use incremental_cdc_data_pla.Watermark.Store.Steps.{
  Step, create, start, window, supersede, commit, checkpoint, complete, Reaches, here, next,
}

-- Between two states of a table's row the version has grown, or neither the version nor the
-- watermark has changed.
abbrev pub IsOlder : WatermarkState → WatermarkState → Type 0
IsOlder st st' =
    (st.version < st'.version)
    ⊎ ((st.version ≡ st'.version) × (st.last_watermark ≡ st'.last_watermark))

-- Every table that has a row keeps one, which is not older.
abbrev pub Grows : ControlStore → ControlStore → Type 0
Grows s u =
    (t : String) (st : WatermarkState)
    → state_of t s ≡ some st
    → (st' : WatermarkState) × (state_of t u ≡ some st') × IsOlder st st'

IsOlder-refl : (st : WatermarkState) → IsOlder st st
IsOlder-refl st = inr (refl, refl)

IsOlder-advance :
    (w : CompositeWatermark) (run now : String) (st : WatermarkState)
    → IsOlder st (advance w run now st)
IsOlder-advance w run now st = inl (omega arith)

Grows-update :
    (p : WatermarkState → Bool) (w : CompositeWatermark) (run now : String) (s : ControlStore)
    (audits : List WatermarkRunAudit)
    → Grows s (record { states = update_where p (advance w run now) s.states; audits = audits })
Grows-update p w run now s audits t st e =
    let found = find_where-update_where p (is_table t) (advance w run now) s.states (λ a. refl) in
    elim (Bool-cases (p st)) [
      | inl yes_p ↦ (advance w run now st, ground (arith, found), IsOlder-advance w run now st)
      | inr no_p ↦ (st, ground (arith, found), IsOlder-refl st)
    ]

Grows-refl : (s : ControlStore) → Grows s s
Grows-refl s t st e = (st, e, IsOlder-refl st)

create-Grows :
    (t wc tc now : String) (s : ControlStore)
    → Grows s (get_or_create_watermark_state t wc tc now s).1
create-Grows t wc tc now s = elim (Option-cases (state_of t s)) [
  | inl e ↦ rw (create_new t wc tc now s e) (λ u st found. (
    st,
    ground (arith, find_where-append (is_table u) s.states (new_state t wc tc now ∷ [])),
    IsOlder-refl st,
  ))
  | inr (st, e) ↦ rw (create_known t wc tc now s st e) (Grows-refl s)
]

start-Grows : (a : WatermarkRunAudit) (s : ControlStore) → Grows s (start_run_audit a s).1
start-Grows a s = elim (Option-cases (get_run_audit a.run_id s)) [
  | inl e ↦ rw (start_new a s e) (Grows-refl s)
  | inr (b, e) ↦ rw (start_known a b s e) (Grows-refl s)
]

Step-Grows : {s u : ControlStore} → Step s u → Grows s u
unfolding update_run_audit_window mark_superseded complete_run_audit
Step-Grows {s} (create t wc tc now) = create-Grows t wc tc now s
Step-Grows {s} (start a) = start-Grows a s
Step-Grows {s} (window r v low high batch) = Grows-refl s
Step-Grows {s} (supersede r n now) = Grows-refl s
Step-Grows {s} (commit t v w run rows path done now) =
    elim (commit_after t v w run rows path done now s) [
      | inl e ↦ rw e (Grows-refl s)
      | inr e ↦ rw e (
          Grows-update (is_table_at t v) w run now s
            (committed t v w run rows path done now s).audits)
    ]
Step-Grows {s} (checkpoint t v w run now) = elim (checkpoint_after t v w run now s) [
  | inl e ↦ rw e (Grows-refl s)
  | inr e ↦ rw e (Grows-update (is_table_at t v) w run now s s.audits)
]
Step-Grows {s} (complete r status rows path message done) = Grows-refl s

IsOlder-trans : (a b c : WatermarkState) → IsOlder a b → IsOlder b c → IsOlder a c
IsOlder-trans a b c h k = ground arith

Grows-trans : (s u v : ControlStore) → Grows s u → Grows u v → Grows s v
Grows-trans s u v g h t st e =
    let (st', found, old) = g t st e in
    let (st'', found', old') = h t st' found in (st'', found', IsOlder-trans st st' st'' old old')

Reaches-Grows : {s u : ControlStore} → Reaches s u → Grows s u
Reaches-Grows {s} here = Grows-refl s
Reaches-Grows {s} (next {u = u} {v = v} r step) =
    Grows-trans s u v (Reaches-Grows r) (Step-Grows step)

-- However the operations of several workers interleave, a table that has a row keeps one; either
-- its version has grown, or neither its version nor its watermark has changed.
pub Reaches-IsOlder :
    {s u : ControlStore} (t : String) (st : WatermarkState)
    → Reaches s u
    → state_of t s ≡ some st
    → (st' : WatermarkState) × (state_of t u ≡ some st') × IsOlder st st'
Reaches-IsOlder t st r e = Reaches-Grows r t st e
