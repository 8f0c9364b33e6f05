-- ===== src/Watermark/Landing/RoundTrip.antt =====
-- What is landed by src/watermark/landing.py is read back, and a failed write leaves no trace.
use incremental_cdc_data_pla.Base.{
  String, ◌≡◌, refl, ◌≢◌, true, false, List, [], ◌∷◌, All, map, arith, lookup, insert, erase,
  lookup-insert, lookup-erase, eq_iff,
}
use incremental_cdc_data_pla.Watermark.Store.{ok, raise, runtime_error}
use incremental_cdc_data_pla.Watermark.Source.{Row}
use incremental_cdc_data_pla.Watermark.Landing.{
  External, ReadsBack, Files, target_file, temp_file, write_watermark_batch_jsonl,
  read_watermark_batch_jsonl, parse_lines,
}

module _ (x : External) where
  parse-dumps :
      (rows : List Row) → All (ReadsBack x) rows → parse_lines x (map x.dumps rows) ≡ ok rows
  unfolding parse_lines
  parse-dumps [] h = refl
  parse-dumps (r ∷ rows) h = ground (arith, parse-dumps rows h.1, h.0, eq_iff (x.dumps r) "")

  -- A batch of rows that `json` reads back, written without a fault, reads back as the same rows,
  -- also when an earlier attempt had already landed it.
  pub read-write :
      (base t batch pid : String) (rows : List Row) (files : Files)
      → All (ReadsBack x) rows
      → let (r, files') = write_watermark_batch_jsonl x base t batch pid false rows files in
        (r ≡ ok (target_file base t batch))
        × (read_watermark_batch_jsonl x (target_file base t batch) files' ≡ ok rows)
  unfolding write_watermark_batch_jsonl read_watermark_batch_jsonl
  read-write base t batch pid rows files h =
      let path = target_file base t batch in
      let temp = temp_file base t batch pid in
      let cleared = erase temp (insert temp (map x.dumps rows) files) in
      (
        refl,
        ground (
          arith,
          lookup-insert path path (map x.dumps rows) cleared,
          eq_iff path path,
          parse-dumps rows h,
        ),
      )

  -- A write that fails leaves every file but the temporary one as it was.
  pub failed_write :
      (base t batch pid path : String) (rows : List Row) (files : Files)
      → path ≢ temp_file base t batch pid
      → let (r, files') = write_watermark_batch_jsonl x base t batch pid true rows files in
        (r ≡ raise runtime_error) × (lookup path files' ≡ lookup path files)
  unfolding write_watermark_batch_jsonl
  failed_write base t batch pid path rows files ne =
      let temp = temp_file base t batch pid in
      (
        refl,
        ground (
          arith,
          lookup-erase temp path (insert temp (map x.dumps rows) files),
          lookup-insert temp path (map x.dumps rows) files,
          eq_iff temp path,
        ),
      )
