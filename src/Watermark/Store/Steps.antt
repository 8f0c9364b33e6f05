-- ===== src/Watermark/Store/Steps.antt =====
-- Any sequence of operations on the control store (src/watermark/control_store.py), by any number
-- of workers: each operation is one step, since it is one SQL transaction.
use incremental_cdc_data_pla.Base.{ℕ, String, refl, inl, inr, Option-cases, Option}
use incremental_cdc_data_pla.Watermark.Models.{WatermarkRunStatus, CompositeWatermark}
use incremental_cdc_data_pla.Watermark.Store.{
  Message, WatermarkRunAudit, ControlStore, is_run, state_of, get_run_audit,
  get_or_create_watermark_state, start_run_audit, update_run_audit_window, new_state,
}
use incremental_cdc_data_pla.Watermark.Store.Commit.{
  mark_superseded, complete_run_audit, commit_successful_run, commit_watermark_checkpoint,
}
use incremental_cdc_data_pla.Watermark.Store.Laws.{
  IsValid, update_where-HasUniqueKeys, append-HasUniqueKeys,
}
use incremental_cdc_data_pla.Watermark.Store.Outcomes.{
  create_known, create_new, start_known, start_new, commit_after, checkpoint_after,
}

pub data Step (s : ControlStore) : ControlStore → Type 0 where
  create : (t wc tc now : String) → Step s (get_or_create_watermark_state t wc tc now s).1
  start : (a : WatermarkRunAudit) → Step s (start_run_audit a s).1
  window :
      (r : String) (v : ℕ) (low high : CompositeWatermark) (batch : String)
      → Step s (update_run_audit_window r v low high batch s).1
  supersede : (r new_run now : String) → Step s (mark_superseded r new_run now s).1
  commit :
      (t : String) (v : ℕ) (w : CompositeWatermark) (run : String) (rows : ℕ)
      (path done now : String)
      → Step s (commit_successful_run t v w run rows path done now s).1
  checkpoint :
      (t : String) (v : ℕ) (w : CompositeWatermark) (run now : String)
      → Step s (commit_watermark_checkpoint t v w run now s).1
  complete :
      (r : String) (status : WatermarkRunStatus) (rows : ℕ) (path : Option String)
      (message : Option Message) (done : String)
      → Step s (complete_run_audit r status rows path message done s).1

pub data Reaches (s : ControlStore) : ControlStore → Type 0 where
  here : Reaches s s
  next : {u v : ControlStore} → Reaches s u → Step u v → Reaches s v

create-IsValid :
    (t wc tc now : String) (s : ControlStore)
    → IsValid s
    → IsValid (get_or_create_watermark_state t wc tc now s).1
create-IsValid t wc tc now s h = elim (Option-cases (state_of t s)) [
  | inl e ↦ rw (create_new t wc tc now s e) (record {
    tables =
        append-HasUniqueKeys (λ a. a.table_name) s.states (new_state t wc tc now) h.tables
          (unfold new_state in e);
    runs = h.runs;
  })
  | inr (st, e) ↦ rw (create_known t wc tc now s st e) h
]

start-IsValid :
    (a : WatermarkRunAudit) (s : ControlStore) → IsValid s → IsValid (start_run_audit a s).1
start-IsValid a s h = elim (Option-cases (get_run_audit a.run_id s)) [
  | inl e ↦ rw (start_new a s e) (record {
    tables = h.tables;
    runs = append-HasUniqueKeys (λ b. b.run_id) s.audits a h.runs e;
  })
  | inr (b, e) ↦ rw (start_known a b s e) h
]

window-IsValid :
    (r : String) (v : ℕ) (low high : CompositeWatermark) (batch : String) (s : ControlStore)
    → IsValid s
    → IsValid (update_run_audit_window r v low high batch s).1
unfolding update_run_audit_window
window-IsValid r v low high batch s h = record {
  tables = h.tables;
  runs = update_where-HasUniqueKeys (λ a. a.run_id) (is_run r) _ s.audits (λ a. refl) h.runs;
}

supersede-IsValid :
    (r new_run now : String) (s : ControlStore)
    → IsValid s
    → IsValid (mark_superseded r new_run now s).1
unfolding mark_superseded
supersede-IsValid r new_run now s h = record {
  tables = h.tables;
  runs = update_where-HasUniqueKeys (λ a. a.run_id) _ _ s.audits (λ a. refl) h.runs;
}

commit-IsValid :
    (t : String) (v : ℕ) (w : CompositeWatermark) (run : String) (rows : ℕ) (path done now : String)
    (s : ControlStore)
    → IsValid s
    → IsValid (commit_successful_run t v w run rows path done now s).1
commit-IsValid t v w run rows path done now s h =
    elim (commit_after t v w run rows path done now s) [
      | inl e ↦ rw e h
      | inr e ↦ rw e (record {
        tables = update_where-HasUniqueKeys (λ a. a.table_name) _ _ s.states (λ a. refl) h.tables;
        runs = update_where-HasUniqueKeys (λ a. a.run_id) _ _ s.audits (λ a. refl) h.runs;
      })
    ]

checkpoint-IsValid :
    (t : String) (v : ℕ) (w : CompositeWatermark) (run now : String) (s : ControlStore)
    → IsValid s
    → IsValid (commit_watermark_checkpoint t v w run now s).1
checkpoint-IsValid t v w run now s h = elim (checkpoint_after t v w run now s) [
  | inl e ↦ rw e h
  | inr e ↦ rw e (record {
    tables = update_where-HasUniqueKeys (λ a. a.table_name) _ _ s.states (λ a. refl) h.tables;
    runs = h.runs;
  })
]

complete-IsValid :
    (r : String) (status : WatermarkRunStatus) (rows : ℕ) (path : Option String)
    (message : Option Message) (done : String) (s : ControlStore)
    → IsValid s
    → IsValid (complete_run_audit r status rows path message done s).1
unfolding complete_run_audit
complete-IsValid r status rows path message done s h = record {
  tables = h.tables;
  runs = update_where-HasUniqueKeys (λ a. a.run_id) (is_run r) _ s.audits (λ a. refl) h.runs;
}

Step-IsValid : {s u : ControlStore} → Step s u → IsValid s → IsValid u
Step-IsValid {s} (create t wc tc now) h = create-IsValid t wc tc now s h
Step-IsValid {s} (start a) h = start-IsValid a s h
Step-IsValid {s} (window r v low high batch) h = window-IsValid r v low high batch s h
Step-IsValid {s} (supersede r n now) h = supersede-IsValid r n now s h
Step-IsValid {s} (commit t v w run rows path done now) h =
    commit-IsValid t v w run rows path done now s h
Step-IsValid {s} (checkpoint t v w run now) h = checkpoint-IsValid t v w run now s h
Step-IsValid {s} (complete r status rows path message done) h =
    complete-IsValid r status rows path message done s h

-- Every sequence of operations keeps both primary keys.
pub Reaches-IsValid : {s u : ControlStore} → IsValid s → Reaches s u → IsValid u
Reaches-IsValid h here = h
Reaches-IsValid h (next r st) = Step-IsValid st (Reaches-IsValid h r)
