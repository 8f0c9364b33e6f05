-- ===== src/Normalization/Pipeline/Accounts.antt =====
-- A run of src/normalization/pipeline.py returns, and accounts for every record that it read.
use incremental_cdc_data_pla.Base.{
  ℕ, ◌+◌, ◌≤◌, ◌&&◌, true, String, ◌≡◌, ◌≢◌, refl, Option, none, some, List, [], ◌∷◌, ◌++◌, All,
  length, length-append, is_some, Dict, arith, sort_by-length, ◌⊎◌, inl, inr,
}
use incremental_cdc_data_pla.Cdc.{ℤ, pos, negsuc, le_int, integer, Fields, get}
use incremental_cdc_data_pla.Normalization.{
  QuarantineReasonCode, IntResult, number, no_integer, overflow,
}
use incremental_cdc_data_pla.Normalization.Reader.{RawFile}
use incremental_cdc_data_pla.Normalization.Reader.Returns.{
  line_count, fits_long, IsRead, IsReadable, read_raw_cdc_files-returns,
}
use incremental_cdc_data_pla.Normalization.Validator.{
  Verdict, valid, quarantine, raises, validate_raw_cdc_record,
}
use incremental_cdc_data_pla.Normalization.Validator.Raises.{validate_raw_cdc_record-raises}
use incremental_cdc_data_pla.Normalization.Validator.Fits.{is_positive}
use incremental_cdc_data_pla.Normalization.Validator.Rules.{validate_raw_cdc_record-valid}
use incremental_cdc_data_pla.Normalization.Enrichment.{
  External, Row, enriched, enrich, enrich_rows, prior_maxima, sorted_batch_ids, max_long, is_long,
  create_data_frame,
}
use incremental_cdc_data_pla.Normalization.Processor.{process_rows, Processed, process}
use incremental_cdc_data_pla.Normalization.Processor.Accounts.{process-accounts}
use incremental_cdc_data_pla.Normalization.Pipeline.{
  Validated, quarantined_record, Outcome, validate_records, quarantine_lt, collate, run_pipeline,
}

Verdict-cases :
    (v : Verdict) → v ≢ raises → (v ≡ valid) ⊎ ((c : QuarantineReasonCode) × (v ≡ quarantine c))
Verdict-cases valid h = inl refl
Verdict-cases (quarantine c) h = inr (c, refl)
Verdict-cases raises h = absurd (h refl)

some_of : {A : Type 0} (o : Option A) → is_some o ≡ true → (a : A) × (o ≡ some a)
some_of none h = absurd (cc)
some_of (some a) h = (a, refl)

le_pos : (m b : ℕ) → m ≤ b → le_int (pos m) (pos b) ≡ true
le_pos m b h = ground (arith, h)

module _ (x : External) where
  fits_long-finite : (n : IntResult) → fits_long x n ≡ true → n ≢ overflow
  fits_long-finite (number m) h e = absurd (cc (e))
  fits_long-finite no_integer h e = absurd (cc (e))
  fits_long-finite overflow h e = absurd (cc (h))

  abbrev IsValid : ℕ → Fields → Type 0
  IsValid b r = IsRead x b r × (validate_raw_cdc_record x.python r ≡ valid)

  validate_records-returns :
      (b : ℕ) (records : List Fields)
      → All (IsRead x b) records
      → (v : Validated) × (validate_records x records ≡ some v)
        × (length v.valid_records + length v.quarantined ≡ length records)
        × All (IsValid b) v.valid_records
  unfolding validate_records
  validate_records-returns b [] h =
      (record { valid_records = []; quarantined = [] }, refl, refl, tt)
  validate_records-returns b (r ∷ records) h =
      let (v, runs, size, good) = validate_records-returns b records h.1 in
      elim (Verdict-cases (validate_raw_cdc_record x.python r) (λ k.
        fits_long-finite (x.python.int (get "sequence_number" r)) h.0.1
          (validate_raw_cdc_record-raises x.python r k))) [
            | inl fit ↦ (
              record v { valid_records = r ∷ v.valid_records },
              rw (fit, runs) refl,
              omega (arith, size),
              ((h.0, fit), good),
            )
            | inr (c, unfit) ↦ (
              record v { quarantined = quarantined_record c r ∷ v.quarantined },
              rw (unfit, runs) refl,
              omega (arith, size),
              good,
            )
          ]

  -- A positive sequence number that fits is a LongType.
  positive-number :
      (n : IntResult)
      → is_positive n ≡ true
      → fits_long x n ≡ true
      → (m : ℤ) × (n ≡ number m) × (is_long m ≡ true)
  unfolding is_long
  positive-number (number (pos m)) h k = (pos m, refl, ground (arith, k))
  positive-number (number (negsuc m)) h k = absurd (ground (arith, h))
  positive-number no_integer h k = absurd (cc (h))
  positive-number overflow h k = absurd (cc (h))

  order-is_long : (n : ℕ) → n ≤ max_long → is_long (pos n) ≡ true
  unfolding is_long
  order-is_long n h = ground (arith, le_pos n max_long h)

  enriched-long :
      (maxima : Dict (Option ℤ)) (r : Fields) (n k : ℤ)
      → is_long n ≡ true
      → is_long k ≡ true
      → (row : Row) × (enriched x maxima r (number n) (number k) ≡ some row)
        × (is_long row.sequence_number && is_long row.ingestion_order ≡ true)
  enriched-long maxima r n k h l = (_, refl, rw (h, l) refl)

  module _ (exact : (n : ℤ) → x.python.int (integer n) ≡ number n) where
    enrich-returns :
        (maxima : Dict (Option ℤ)) (r : Fields)
        → IsValid max_long r
        → (row : Row) × (enrich x maxima r ≡ some row)
          × (is_long row.sequence_number && is_long row.ingestion_order ≡ true)
    unfolding enrich
    enrich-returns maxima r (((n, got, there, up), fits), fit) =
        let (t, o, key, facts) = (validate_raw_cdc_record-valid x.python r).0 fit in
        let (m, num, long) =
          positive-number (x.python.int (get "sequence_number" r)) facts.sequence_positive fits in
        let (row, runs, longs) = enriched-long maxima r m (pos n) long (order-is_long n up) in
        (row, rw (num, there, got, exact (pos n)) runs, longs)

    enrich_rows-returns :
        (maxima : Dict (Option ℤ)) (records : List Fields)
        → All (IsValid max_long) records
        → (rows : List Row) × (enrich_rows x maxima records ≡ some rows)
          × (create_data_frame rows ≡ some rows)
    unfolding enrich_rows create_data_frame
    enrich_rows-returns maxima [] h = ([], refl, refl)
    enrich_rows-returns maxima (r ∷ records) h =
        let (row, a, long) = enrich-returns maxima r h.0 in
        let (rows, b, frame) = enrich_rows-returns maxima records h.1 in
        (row ∷ rows, rw (a, b) refl, rw (long, frame) refl)

    process-returns :
        (records : List Fields)
        → All (IsValid max_long) records
        → (q : Processed) × (process x records ≡ some q)
    unfolding process
    process-returns [] h = (_, refl)
    process-returns (r ∷ records) h =
        let (rows, a, frame) =
          enrich_rows-returns (prior_maxima x (r ∷ records) (sorted_batch_ids x (r ∷ records)) none)
            (r ∷ records) h in
        (process_rows x rows, rw (a, frame) refl)

    -- Let `int` return an integer as it is, let `json.loads` of each line that was read return, or raise a
    -- JSONDecodeError, and let `int` of a record's sequence number neither overflow nor exceed 64 bits.
    -- On no more lines than a 64-bit number counts, `run_pipeline`, less the writing of its two files,
    -- returns, and the raw records that it saw are as many as the events that it accepts, the records in
    -- quarantine and the exact duplicates that it dropped together.
    pub run_pipeline-accounts :
        (id : String) (files : List RawFile)
        → All (λ f. All (IsReadable x) f.lines) files
        → line_count files ≤ max_long
        → (o : Outcome) × (run_pipeline x id files ≡ some o)
          × (o.metrics.raw_records_seen
              ≡ length o.accepted_events
                + (length o.all_quarantine + o.metrics.exact_duplicates_dropped))
    unfolding run_pipeline
    run_pipeline-accounts id files readable few =
        let (raw, read, fine) =
          read_raw_cdc_files-returns x 0 max_long files (omega (arith, few)) readable in
        let (v, validated, size, good) =
          validate_records-returns max_long raw.parsed_records fine in
        let (q, processed) = process-returns v.valid_records good in
        let all = (raw.quarantined_events ++ v.quarantined) ++ q.quarantined in
        (
          collate x id raw v q,
          rw (read, validated, processed) refl,
          omega (
            arith,
            size,
            process-accounts x v.valid_records q processed,
            sort_by-length (quarantine_lt x) all,
            length-append (raw.quarantined_events ++ v.quarantined) q.quarantined,
            length-append raw.quarantined_events v.quarantined,
          ),
        )
