-- ===== src/Watermark/Pipeline/Success.antt =====
-- What a successful run of src/watermark/pipeline.py has done.
use incremental_cdc_data_pla.Base.{
  String, ◌≡◌, refl, ap, subst, sym, ◌∙◌, inl, inr, ◌⊎◌, true, false, ◌||◌, Bool-cases, some, List,
  [], ◌∷◌, arith, length, keep, keep-All, All, sort_by-All, contains, eq_iff,
}
use incremental_cdc_data_pla.Watermark.Models.{is_initial, watermark_le}
use incremental_cdc_data_pla.Watermark.Store.{
  runtime_error, WatermarkState, ControlStore, Result, ok, raise, state_of,
}
use incremental_cdc_data_pla.Watermark.Store.Commit.{
  commit_successful_run, complete_run_audit, advance,
}
use incremental_cdc_data_pla.Watermark.Store.Laws.{IsValid}
use incremental_cdc_data_pla.Watermark.Store.Atomic.{Commits, commit_successful_run_lem}
use incremental_cdc_data_pla.Watermark.Source.{
  Row, SourceAdapter, get_primary_key_column, extract_bounded_window, in_window, row_lt,
  get_current_source_records, window_rows,
}
use incremental_cdc_data_pla.Watermark.Landing.{
  External, ReadsBack, Files, target_file, write_watermark_batch_jsonl, read_watermark_batch_jsonl,
}
use incremental_cdc_data_pla.Watermark.Landing.RoundTrip.{read-write}
use incremental_cdc_data_pla.Watermark.Pipeline.{
  World, continue, ◌>>=◌, pure, Call, Window, ExtractionResult, finish_no_data, no_data_result,
  success_result, land_and_commit, extract,
}

contains_of_read :
    (x : External) (path : String) (files : Files) (rows : List Row)
    → read_watermark_batch_jsonl x path files ≡ ok rows
    → contains path files ≡ true
unfolding read_watermark_batch_jsonl
contains_of_read x path files rows h = ground arith

module _ (x : External) (c : Call) (v : Window) where
  abbrev pub path : String
  path = target_file c.base_dir c.table_name v.batch

  -- The landing of a batch, on the files of a world.
  abbrev pub landing : List Row → World → Result String × Files
  landing rows w =
      write_watermark_batch_jsonl x c.base_dir c.table_name v.batch c.pid c.write_fault rows w.files

  abbrev pub commit : List Row → World → Result WatermarkState × ControlStore
  commit rows w =
      commit_successful_run c.table_name v.version v.high c.run_id (length rows) path c.now c.now
        w.store

  write_ok :
      (rows : List Row) (w : World)
      → All (ReadsBack x) rows
      → c.write_fault ≡ false
      → ((landing rows w).0 ≡ ok path)
        × (read_watermark_batch_jsonl x path (landing rows w).1 ≡ ok rows)
  write_ok rows w json e =
      rw e (read-write x c.base_dir c.table_name v.batch c.pid rows w.files json)

  -- With no failure on the way a landed batch is committed.
  pub land_runs :
      (row : Row) (rows : List Row) (w : World)
      → All (ReadsBack x) (row ∷ rows)
      → c.fail_before_landing ≡ false
      → c.write_fault ≡ false
      → c.fail_before_commit ≡ false
      → land_and_commit x c v (row ∷ rows) w
        ≡ continue
            (commit (row ∷ rows) w).0
            (λ st. pure (success_result c v path (row ∷ rows)))
            (record {
              store = (commit (row ∷ rows) w).1;
              files = (landing (row ∷ rows) w).1;
              source = w.source;
              landing_path_str = some path;
            })
  unfolding land_and_commit ◌>>=◌
  land_runs row rows w json e1 e2 e3 =
      let (wrote, back) = write_ok (row ∷ rows) w json e2 in
      let there = contains_of_read x path (landing (row ∷ rows) w).1 (row ∷ rows) back in
      ground (arith, wrote, back, there)

  -- An injected or environmental failure raises before the commit.
  land_fails :
      (row : Row) (rows : List Row) (w : World)
      → All (ReadsBack x) (row ∷ rows)
      → (c.fail_before_landing || (c.write_fault || c.fail_before_commit)) ≡ true
      → (land_and_commit x c v (row ∷ rows) w).0 ≡ raise runtime_error
  unfolding land_and_commit ◌>>=◌ write_watermark_batch_jsonl
  land_fails row rows w json h = elim (Bool-cases c.write_fault) [
    | inl fault ↦ ground arith
    | inr no_fault ↦
        let (wrote, back) = write_ok (row ∷ rows) w json no_fault in
        let there = contains_of_read x path (landing (row ∷ rows) w).1 (row ∷ rows) back in
        ground (arith, wrote, back, there)
  ]

  -- What the world shows after a run ended as SUCCESS, from the world `w` in which it landed.
  pub record Advances (rows : List Row) (w : World) (res : ExtractionResult) (u : World)
      : Type 0 where
    pub before : WatermarkState
    pub was_at : (state_of c.table_name w.store ≡ some before) × (before.version ≡ v.version)
    pub moved_to : state_of c.table_name u.store ≡ some (advance v.high c.run_id c.now before)
    pub landed : read_watermark_batch_jsonl x path u.files ≡ ok rows
    pub result : res ≡ success_result c v path rows

  committed_Advances :
      (row : Row) (rows : List Row) (w : World) (r : Result WatermarkState) (s : ControlStore)
      (u : World) (res : ExtractionResult)
      → Commits c.table_name v.version v.high c.run_id
          (length (row ∷ rows))
          path
          c.now
          c.now
          w.store
          (r, s)
      → read_watermark_batch_jsonl x path (landing (row ∷ rows) w).1 ≡ ok (row ∷ rows)
      → continue r
          (λ st. pure (success_result c v path (row ∷ rows)))
          (record {
            store = s;
            files = (landing (row ∷ rows) w).1;
            source = w.source;
            landing_path_str = some path;
          })
        ≡ (ok res, u)
      → Advances (row ∷ rows) w res u
  unfolding pure
  committed_Advances row rows w (raise e) s u res done back h = absurd (cc (ap (λ p. p.0) h))
  committed_Advances row rows w (ok st) s u res done back h =
      let (before, found, at, same, now, audited, audits) = done in
      record {
        before = before;
        was_at = (found, at);
        moved_to =
            subst
              (λ z. state_of c.table_name z.1.store ≡ some (advance v.high c.run_id c.now before)) h
              (ground (arith, same, now c.table_name, eq_iff c.table_name c.table_name));
        landed = subst (λ z. read_watermark_batch_jsonl x path z.1.files ≡ ok (row ∷ rows)) h back;
        result = ground (arith, h);
      }

  -- A run that lands rows that `json` reads back, and returns, has committed them: the table's row was at the version of the
  -- window and now has the window's HIGH and the next version, and the landing file reads back as
  -- exactly the rows of the result.
  pub land-Advances :
      (row : Row) (rows : List Row) (w u : World) (res : ExtractionResult)
      → All (ReadsBack x) (row ∷ rows)
      → IsValid w.store
      → land_and_commit x c v (row ∷ rows) w ≡ (ok res, u)
      → Advances (row ∷ rows) w res u
  land-Advances row rows w u res json valid h =
      elim (Bool-cases (c.fail_before_landing || (c.write_fault || c.fail_before_commit))) [
        | inl fails ↦ absurd (cc (land_fails row rows w json fails, ap (λ p. p.0) h))
        | inr runs ↦
            let e1 : c.fail_before_landing ≡ false = ground arith in
            let e2 : c.write_fault ≡ false = ground arith in
            let e3 : c.fail_before_commit ≡ false = ground arith in
            committed_Advances row rows w (commit (row ∷ rows) w).0 (commit (row ∷ rows) w).1 u res
              (commit_successful_run_lem c.table_name v.version v.high c.run_id
                (length (row ∷ rows)) path c.now c.now w.store valid)
              (write_ok (row ∷ rows) w json e2).1 (sym (land_runs row rows w json e1 e2 e3) ∙ h)
      ]

  abbrev pub NoData : World → ExtractionResult → World → Type 0
  NoData w res u = (res ≡ no_data_result c v) × (u.store.states ≡ w.store.states)

  finish_lem :
      (w u : World) (res : ExtractionResult) → finish_no_data c v w ≡ (ok res, u) → NoData w res u
  unfolding finish_no_data ◌>>=◌ complete_run_audit
  finish_lem w u res h = ground arith

  land_lem :
      (rows : List Row) (w u : World) (res : ExtractionResult)
      → All (ReadsBack x) rows
      → IsValid w.store
      → land_and_commit x c v rows w ≡ (ok res, u)
      → ((rows ≡ []) × NoData w res u) ⊎ Advances rows w res u
  unfolding land_and_commit
  land_lem [] w u res json valid h = inl (refl, finish_lem w u res h)
  land_lem (row ∷ rows) w u res json valid h = inr (land-Advances row rows w u res json valid h)

  abbrev pub in_source : SourceAdapter → List Row → List Row
  in_source src rows =
      window_rows c.watermark_column (get_primary_key_column src c.table_name) v.low v.high rows

  pub in_source-All :
      (src : SourceAdapter) (rows : List Row)
      → All (ReadsBack x) rows
      → All (ReadsBack x) (in_source src rows)
  unfolding window_rows
  in_source-All src rows json =
      let pk = get_primary_key_column src c.table_name in
      sort_by-All (row_lt c.watermark_column pk) (ReadsBack x)
        (keep (in_window c.watermark_column pk v.low v.high) rows)
        (keep-All (in_window c.watermark_column pk v.low v.high) (ReadsBack x) rows json)

  pub extract_runs :
      (rows : List Row) (w : World)
      → get_current_source_records w.source c.table_name ≡ ok rows
      → (is_initial v.high || watermark_le v.high v.low) ≡ false
      → extract x c v w ≡ land_and_commit x c v (in_source w.source rows) w
  unfolding extract ◌>>=◌ extract_bounded_window
  extract_runs rows w e h = ground arith

  extract_stops :
      (w : World)
      → (is_initial v.high || watermark_le v.high v.low) ≡ true
      → extract x c v w ≡ finish_no_data c v w
  unfolding extract
  extract_stops w h = ground arith

  -- A run that returns from a window, on a table that the source has and whose rows `json` reads
  -- back, ended in one of two ways.
  -- Either it reported NO_DATA and left every checkpoint row, and HIGH is not above LOW or no row
  -- lies in the window; or it landed exactly the rows of the window, in order, and committed.
  pub extract_lem :
      (rows : List Row) (w u : World) (res : ExtractionResult)
      → All (ReadsBack x) rows
      → IsValid w.store
      → get_current_source_records w.source c.table_name ≡ ok rows
      → extract x c v w ≡ (ok res, u)
      → (NoData w res u
          × (((is_initial v.high || watermark_le v.high v.low) ≡ true)
              ⊎ (in_source w.source rows ≡ [])))
        ⊎ Advances (in_source w.source rows) w res u
  extract_lem rows w u res json valid found h =
      elim (Bool-cases (is_initial v.high || watermark_le v.high v.low)) [
        | inl stops ↦ inl (finish_lem w u res (sym (extract_stops w stops) ∙ h), inl stops)
        | inr runs ↦
            elim (land_lem (in_source w.source rows) w u res (in_source-All w.source rows json)
              valid (sym (extract_runs rows w found runs) ∙ h)) [
                | inl (empty, none_landed) ↦ inl (none_landed, inr empty)
                | inr landed ↦ inr landed
              ]
      ]
