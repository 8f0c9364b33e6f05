-- ===== src/Watermark/Pipeline/Safety.antt =====
-- A failed run of src/watermark/pipeline.py moves no checkpoint.
use incremental_cdc_data_pla.Base.{
  String, ◌≡◌, sym, ◌∙◌, subst, inl, inr, ◌⊎◌, ◌||◌, Option-cases, Option, none, some, List, [],
  ◌∷◌, arith,
}
use incremental_cdc_data_pla.Watermark.Models.{CompositeWatermark, is_initial, watermark_le}
use incremental_cdc_data_pla.Watermark.Store.{
  Error, WatermarkRunAudit, ControlStore, Result, ok, raise, state_of, start_run_audit,
}
use incremental_cdc_data_pla.Watermark.Store.Commit.{complete_run_audit}
use incremental_cdc_data_pla.Watermark.Source.{Row}
use incremental_cdc_data_pla.Watermark.Landing.{External}
use incremental_cdc_data_pla.Watermark.Pipeline.{
  World, on_store, Call, Window, ExtractionResult, finish_no_data, resolve_high, open_window,
  write_landing, read_landing, land_and_commit, extract, run_body, close_audit, guarded_body,
  run_table_extraction, run_hook, init_audit,
}
use incremental_cdc_data_pla.Watermark.Pipeline.Keeps.{
  Kept, KeptIfRaised, keeps_rules, Keeps, Keeps-bind, Keeps-from_source, Keeps-pure, Keeps-start,
  KeepsIfRaised, KeepsIfRaised-Keeps, KeepsIfRaised-bind, KeepsIfRaised-bind_pure,
  KeepsIfRaised-commit, KeepsIfRaised-if,
}

module _ (x : External) (c : Call) (hook_keeps : Keeps (run_hook c.post_capture_hook)) where
  Keeps-resolve_high :
      (low : CompositeWatermark) (o : Option (WatermarkRunAudit × String))
      → Keeps (resolve_high x c low o)
  unfolding resolve_high
  Keeps-resolve_high low (some (a, batch)) = search keeps_rules
  Keeps-resolve_high low none =
      Keeps-bind _ _ (Keeps-from_source _)
        (λ high. Keeps-bind _ _ hook_keeps (λ done. Keeps-pure _))

  Keeps-open_window : Keeps (open_window x c)
  unfolding open_window
  Keeps-open_window = search (keeps_rules, Keeps-resolve_high) depth 14

  Keeps-write_landing : (v : Window) (rows : List Row) → Keeps (write_landing x c v rows)
  unfolding write_landing
  Keeps-write_landing v rows = record { at = λ w t st e. ground arith }

  Keeps-read_landing : (path : String) → Keeps (read_landing x c path)
  unfolding read_landing
  Keeps-read_landing path = record { at = λ w t st e. e }

  Keeps-finish : (v : Window) → Keeps (finish_no_data c v)
  unfolding finish_no_data
  Keeps-finish v = search keeps_rules

  KeepsIfRaised-land : (v : Window) (rows : List Row) → KeepsIfRaised (land_and_commit x c v rows)
  unfolding land_and_commit
  KeepsIfRaised-land v [] = KeepsIfRaised-Keeps _ (Keeps-finish v)
  KeepsIfRaised-land v (row ∷ rows) =
      search
        (
          keeps_rules, Keeps-write_landing, Keeps-read_landing, KeepsIfRaised-bind,
          KeepsIfRaised-bind_pure, KeepsIfRaised-commit,
        )
        depth 12

  KeepsIfRaised-extract : (v : Window) → KeepsIfRaised (extract x c v)
  unfolding extract
  KeepsIfRaised-extract v =
      KeepsIfRaised-if (is_initial v.high || watermark_le v.high v.low) _ _
        (KeepsIfRaised-Keeps _ (Keeps-finish v))
        (KeepsIfRaised-bind _ _ (Keeps-from_source _) (KeepsIfRaised-land v))

  KeepsIfRaised-run_body : KeepsIfRaised (run_body x c)
  unfolding run_body
  KeepsIfRaised-run_body =
      KeepsIfRaised-bind (open_window x c) (extract x c) Keeps-open_window KeepsIfRaised-extract

  close_audit-Kept :
      (s : ControlStore) (r : Result ExtractionResult) (w : World)
      → KeptIfRaised s (r, w)
      → KeptIfRaised s (close_audit x c (r, w))
  unfolding close_audit complete_run_audit
  close_audit-Kept s (ok a) w h = tt
  close_audit-Kept s (raise e) w h = h

  KeepsIfRaised-guarded : KeepsIfRaised (guarded_body x c)
  unfolding guarded_body
  KeepsIfRaised-guarded = record {
    at = λ w.
        close_audit-Kept w.store (run_body x c w).0 (run_body x c w).1
          (KeepsIfRaised-run_body.at w);
  }

  KeepsIfRaised-run : KeepsIfRaised (run_table_extraction x c)
  unfolding run_table_extraction
  KeepsIfRaised-run = record {
    at = λ w.
        (KeepsIfRaised-bind (on_store (start_run_audit (init_audit c))) (λ _. guarded_body x c)
            (Keeps-start (init_audit c)) (λ _. KeepsIfRaised-guarded)).at
          (record w { landing_path_str = none });
  }

  raised_Kept :
      (w w' : World) (e : Error)
      → run_table_extraction x c w ≡ (raise e, w')
      → Kept w.store w'.store
  raised_Kept w w' e h = subst (KeptIfRaised w.store) h (KeepsIfRaised-run.at w)

  -- A run that raises, for whatever reason, leaves every row of the checkpoint table as it was, if
  -- the hook of the caller does: a table without a row may have gained its initial one.
  pub failed_run_keeps_checkpoints :
      (w w' : World) (e : Error) (t : String)
      → run_table_extraction x c w ≡ (raise e, w')
      → (state_of t w.store ≡ none) ⊎ (state_of t w'.store ≡ state_of t w.store)
  failed_run_keeps_checkpoints w w' e t h = elim (Option-cases (state_of t w.store)) [
    | inl absent ↦ inl absent
    | inr (st, found) ↦ inr (raised_Kept w w' e h t st found ∙ sym found)
  ]
