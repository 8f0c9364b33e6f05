-- ===== src/Normalization/Processor/Accounts.antt =====
-- Every record that src/normalization/processor.py is given ends in one of its outputs.
use incremental_cdc_data_pla.Base.{
  some_injective, sym, Bool-cases, Dict, subst, ℕ, ◌+◌, suc, ◌≡◌, refl, ◌∙◌, ap, Bool, true, false,
  not, ◌&&◌, Option, none, some, List, [], ◌∷◌, map, keep, All, All-map, text_lt_irrefl, length,
  length-append, eqb, ltb, arith, sort_by-length, eq_refl, Option-cases, inl, inr,
}
use incremental_cdc_data_pla.Cdc.{Fields, ℤ, le_int}
use incremental_cdc_data_pla.Cdc.Engine.Batch.{le_int_refl}
use incremental_cdc_data_pla.Normalization.{duplicate_event_conflict, sequence_conflict}
use incremental_cdc_data_pla.Normalization.Enrichment.{
  External, Row, enrich, enrich_rows, prior_maxima, sorted_batch_ids, is_long, create_data_frame,
}
use incremental_cdc_data_pla.Normalization.Processor.{
  Processed, provenance_lt, same_id, conflicts, row_number, total_event_id_count, exact_duplicate,
  retained, same_slot, collisions, output_lt, accepted_rows, quarantined_row, event_of,
  process_rows, process_frame, process_enriched, process,
}

length-map : {A B : Type 0} (f : A → B) (xs : List A) → length (map f xs) ≡ length xs
length-map f [] = refl
length-map f (x ∷ xs) = ap suc (length-map f xs)

-- A row after the first of its event id is in a partition of two rows at least.
count_self :
    {A : Type 0} (q : A → A → Bool)
    → ((a : A) → q a a ≡ true)
    → (xs : List A) → All (λ a. ltb 0 (length (keep (q a) xs)) ≡ true) xs
count_self q own [] = tt
count_self q own (x ∷ xs) = (
  ground (arith, own x),
  All-map (λ a. ltb 0 (length (keep (q a) xs)) ≡ true)
      (λ a. ltb 0 (length (keep (q a) (x ∷ xs))) ≡ true) xs (λ a h. ground (arith, h))
      (count_self q own xs),
)

keep-cong :
    {A : Type 0} (p q : A → Bool) (xs : List A) → All (λ a. p a ≡ q a) xs → keep p xs ≡ keep q xs
keep-cong p q [] h = refl
keep-cong p q (x ∷ xs) h = ground (arith, h.0, keep-cong p q xs h.1)

count-both :
    {A : Type 0} (p q : A → Bool) (xs : List A)
    → length (keep p xs)
      ≡ length (keep (λ a. p a && q a) xs) + length (keep (λ a. p a && not (q a)) xs)
count-both p q [] = refl
count-both p q (x ∷ xs) = ground (arith, count-both p q xs)

three_ways :
    {A : Type 0} (p q : A → Bool) (xs : List A)
    → length (keep p xs)
        + (length (keep (λ a. not (p a) && q a) xs)
            + length (keep (λ a. not (p a) && not (q a)) xs))
      ≡ length xs
three_ways p q [] = refl
three_ways p q (x ∷ xs) = ground (arith, three_ways p q xs)

int_lt_irrefl : (r : Row) → not (le_int r.ingestion_order r.ingestion_order) ≡ false
int_lt_irrefl r = ground (arith, le_int_refl r.ingestion_order)

provenance_lt_irrefl : (r : Row) → provenance_lt r r ≡ false
provenance_lt_irrefl r =
    rw
      (text_lt_irrefl r.batch_id, text_lt_irrefl r.ingestion_batch_id, text_lt_irrefl r.source_file)
      (int_lt_irrefl r)

-- A row that is not the first of its event id shares it with another row.
exact_duplicate-rest :
    (rows : List Row)
    → All
        (λ r. exact_duplicate rows r ≡ not (conflicts rows r) && not (eqb (row_number rows r) 1))
        rows
exact_duplicate-rest rows =
    All-map (λ r. ltb 0 (length (keep (λ s. same_id r s && not (provenance_lt s r)) rows)) ≡ true)
      (λ r. exact_duplicate rows r ≡ not (conflicts rows r) && not (eqb (row_number rows r) 1)) rows
      (λ r h.
        by_count (conflicts rows r) (total_event_id_count rows r)
          (length (keep (λ s. same_id r s && provenance_lt s r) rows))
          (length (keep (λ s. same_id r s && not (provenance_lt s r)) rows))
          (count-both (same_id r) (λ s. provenance_lt s r) rows) h)
      (count_self (λ r s. same_id r s && not (provenance_lt s r))
        (λ r. rw (eq_refl r.event_id, provenance_lt_irrefl r) refl) rows)
  where
    by_count :
        (c : Bool) (total before rest : ℕ)
        → total ≡ before + rest
        → ltb 0 rest ≡ true
        → not c && (ltb 1 total && ltb 1 (suc before)) ≡ not c && not (eqb (suc before) 1)
    by_count c total before rest e h = ground (arith, e, h)

same_slot_refl : (r : Row) → same_slot r r ≡ true
same_slot_refl r = rw (eq_refl r.entity_sequence_key, le_int_refl r.sequence_number) refl

one_or_more :
    {A : Type 0} (f : A → ℕ) (xs : List A)
    → All (λ a. ltb 0 (f a) ≡ true) xs
    → length (keep (λ a. eqb (f a) 1) xs) + length (keep (λ a. ltb 1 (f a)) xs) ≡ length xs
one_or_more f [] h = refl
one_or_more f (x ∷ xs) h = ground (arith, h.0, one_or_more f xs h.1)

-- The retained rows are accepted, or clash with another one.
retained-split :
    (rows : List Row)
    → length (keep (λ r. eqb (collisions rows r) 1) rows)
        + length (keep (λ r. ltb 1 (collisions rows r)) rows)
      ≡ length rows
retained-split rows = one_or_more (collisions rows) rows (count_self same_slot same_slot_refl rows)

process_rows-accounts :
    (x : External) (rows : List Row)
    → let q = process_rows x rows in
      length q.accepted + (length q.quarantined + q.exact_duplicates_dropped) ≡ length rows
unfolding process_rows
process_rows-accounts x rows =
    let doubled = keep (conflicts rows) rows in
    let kept = retained rows in
    let clashing = keep (λ r. ltb 1 (collisions kept r)) kept in
    omega (
      arith,
      length-map (event_of x) (accepted_rows kept),
      sort_by-length output_lt (keep (λ r. eqb (collisions kept r) 1) kept),
      length-append (map (quarantined_row x duplicate_event_conflict) doubled)
          (map (quarantined_row x sequence_conflict) clashing),
      length-map (quarantined_row x duplicate_event_conflict) doubled,
      length-map (quarantined_row x sequence_conflict) clashing,
      retained-split kept,
      three_ways (conflicts rows) (λ r. eqb (row_number rows r) 1) rows,
      ap length (
          keep-cong (exact_duplicate rows)
            (λ r. not (conflicts rows r) && not (eqb (row_number rows r) 1)) rows
            (exact_duplicate-rest rows)),
    )

enrich_rows-length :
    (x : External) (maxima : Dict (Option ℤ)) (records : List Fields) (rows : List Row)
    → enrich_rows x maxima records ≡ some rows
    → length rows ≡ length records
unfolding enrich_rows
enrich_rows-length x maxima [] rows h = ground arith
enrich_rows-length x maxima (r ∷ records) rows h = elim (Option-cases (enrich x maxima r)) [
  | inl fails ↦ absurd (cc (rw fails at h))
  | inr (row, runs) ↦ elim (Option-cases (enrich_rows x maxima records)) [
    | inl fails ↦ absurd (cc (rw (runs, fails) at h))
    | inr (rest, goes) ↦
        ground (arith, rw (runs, goes) at h, enrich_rows-length x maxima records rest goes)
  ]
]

-- A frame has the rows that it is created from.
create_data_frame-same :
    (rows frame : List Row) → create_data_frame rows ≡ some frame → frame ≡ rows
unfolding create_data_frame
create_data_frame-same [] frame h = sym (some_injective h)
create_data_frame-same (r ∷ rows) frame h =
    elim (Bool-cases (is_long r.sequence_number && is_long r.ingestion_order)) [
      | inr wide ↦ absurd (cc (rw wide at h))
      | inl fits ↦ elim (Option-cases (create_data_frame rows)) [
        | inl fails ↦ absurd (cc (rw (fits, fails) at h))
        | inr (rest, goes) ↦
            sym (some_injective (rw (fits, goes) at h))
            ∙ ap (λ l. r ∷ l) (create_data_frame-same rows rest goes)
      ]
    ]

process_frame-accounts :
    (x : External) (rows : List Row) (o : Option (List Row)) (q : Processed)
    → o ≡ create_data_frame rows
    → process_frame x o ≡ some q
    → length q.accepted + (length q.quarantined + q.exact_duplicates_dropped) ≡ length rows
process_frame-accounts x rows none q e h = absurd (cc)
process_frame-accounts x rows (some frame) q e h =
    subst
      (λ z. length z.accepted + (length z.quarantined + z.exact_duplicates_dropped) ≡ length rows)
      (some_injective h)
      (process_rows-accounts x frame ∙ ap length (create_data_frame-same rows frame (sym e)))

process_enriched-accounts :
    (x : External) (n : ℕ) (o : Option (List Row)) (q : Processed)
    → ((rows : List Row) → o ≡ some rows → length rows ≡ n)
    → process_enriched x o ≡ some q
    → length q.accepted + (length q.quarantined + q.exact_duplicates_dropped) ≡ n
process_enriched-accounts x n none q size h = absurd (cc)
process_enriched-accounts x n (some rows) q size h =
    process_frame-accounts x rows (create_data_frame rows) q refl h ∙ size rows refl

-- Where `process` returns, the numbers of its accepted events, of its quarantined events and of the
-- exact duplicates that it dropped add up to the number of the records that it was given.
pub process-accounts :
    (x : External) (records : List Fields) (q : Processed)
    → process x records ≡ some q
    → length q.accepted + (length q.quarantined + q.exact_duplicates_dropped) ≡ length records
unfolding process
process-accounts x [] q h =
    subst (λ z. length z.accepted + (length z.quarantined + z.exact_duplicates_dropped) ≡ 0)
      (some_injective h) refl
process-accounts x (r ∷ records) q h =
    let maxima = prior_maxima x (r ∷ records) (sorted_batch_ids x (r ∷ records)) none in
    process_enriched-accounts x (length (r ∷ records)) (enrich_rows x maxima (r ∷ records)) q
      (enrich_rows-length x maxima (r ∷ records)) h
