-- ===== src/Watermark/Pipeline/Progress.antt =====
-- A run of src/watermark/pipeline.py that nothing disturbs ends as SUCCESS.
use incremental_cdc_data_pla.Base.{
  ◌≡◌, subst, false, ◌||◌, some, List, ◌∷◌, arith, length, All, ◌∙◌,
}
use incremental_cdc_data_pla.Watermark.Models.{is_initial, watermark_le}
use incremental_cdc_data_pla.Watermark.Store.{
  WatermarkState, WatermarkRunAudit, ok, state_of, get_run_audit,
}
use incremental_cdc_data_pla.Watermark.Store.Laws.{IsValid}
use incremental_cdc_data_pla.Watermark.Store.Atomic.{commit-runs}
use incremental_cdc_data_pla.Watermark.Source.{Row, get_current_source_records}
use incremental_cdc_data_pla.Watermark.Landing.{External, ReadsBack}
use incremental_cdc_data_pla.Watermark.Pipeline.{
  World, pure, Call, Window, success_result, land_and_commit, extract,
}
use incremental_cdc_data_pla.Watermark.Pipeline.Success.{
  path, Advances, land_runs, land-Advances, in_source, in_source-All, extract_runs,
}

module _ (x : External) (c : Call) (v : Window) where
  land_succeeds :
      (row : Row) (rows : List Row) (w : World) (st : WatermarkState) (a : WatermarkRunAudit)
      → All (ReadsBack x) (row ∷ rows)
      → (c.fail_before_landing || (c.write_fault || c.fail_before_commit)) ≡ false
      → IsValid w.store
      → state_of c.table_name w.store ≡ some st
      → st.version ≡ v.version
      → get_run_audit c.run_id w.store ≡ some a
      → (u : World) × (land_and_commit x c v (row ∷ rows) w
          ≡ (ok (success_result c v (path x c v) (row ∷ rows)), u))
  unfolding pure
  land_succeeds row rows w st a json calm valid found at audited = (
    _,
    rw
        (commit-runs c.table_name v.version v.high c.run_id (length (row ∷ rows)) (path x c v) c.now
          c.now w.store valid found at audited)
        at (land_runs x c v row rows w json (ground arith) (ground arith) (ground arith)),
  )

  -- A run that no failure disturbs, whose window lies above LOW and has rows, whose table is still
  -- at the version it read and whose audit is there, returns SUCCESS with the rows of the window,
  -- has landed them and has moved the checkpoint to HIGH.
  pub extract_succeeds :
      (rows : List Row) (row : Row) (rest : List Row) (w : World) (st : WatermarkState)
      (a : WatermarkRunAudit)
      → All (ReadsBack x) rows
      → (c.fail_before_landing || (c.write_fault || c.fail_before_commit)) ≡ false
      → IsValid w.store
      → get_current_source_records w.source c.table_name ≡ ok rows
      → (is_initial v.high || watermark_le v.high v.low) ≡ false
      → in_source x c v w.source rows ≡ row ∷ rest
      → state_of c.table_name w.store ≡ some st
      → st.version ≡ v.version
      → get_run_audit c.run_id w.store ≡ some a
      → (u : World) × (extract x c v w ≡ (ok (success_result c v (path x c v) (row ∷ rest)), u))
        × Advances x c v (row ∷ rest) w (success_result c v (path x c v) (row ∷ rest)) u
  extract_succeeds rows row rest w st a json calm valid source above some_rows found at audited =
      let back = subst (All (ReadsBack x)) some_rows (in_source-All x c v w.source rows json) in
      let (u, done) = land_succeeds row rest w st a back calm valid found at audited in
      let runs = extract_runs x c v rows w source above in
      (
        u,
        (rw some_rows at runs) ∙ done,
        land-Advances x c v row rest w u (success_result c v (path x c v) (row ∷ rest)) back valid
            done,
      )
