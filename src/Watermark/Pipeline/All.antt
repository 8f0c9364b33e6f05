-- ===== src/Watermark/Pipeline/All.antt =====
-- src/watermark/pipeline.py: `run_all_tables`. What the runs take from their surroundings is given
-- by the position of the table.
use incremental_cdc_data_pla.Base.{
  ℕ, suc, String, ◌≡◌, refl, true, false, eq_iff, none, List, [], ◌∷◌, All, subst, arith, Dict,
  contains, insert, lookup-insert,
}
use incremental_cdc_data_pla.Watermark.Store.{Result, ok, raise}
use incremental_cdc_data_pla.Watermark.Landing.{External}
use incremental_cdc_data_pla.Watermark.Pipeline.{
  World, Call, ExtractionResult, run_table_extraction,
}

-- `table_names or [...]`
abbrev pub target_tables : List String → List String
target_tables [] = "accounts" ∷ "subscriptions" ∷ "invoices" ∷ "payments" ∷ []
target_tables (t ∷ ts) = t ∷ ts

abbrev pub table_call : Call → String → String → Call
table_call c t column = record c {
  table_name = t;
  watermark_column = column;
  post_capture_hook = none;
  fail_before_landing = false;
  fail_before_commit = false;
}

module _ (x : External) (calls : ℕ → Call) (column : String) where
  -- The loop: a run that raises ends it.
  unfoldable pub run_tables :
      ℕ → List String → Dict ExtractionResult → World → Result (Dict ExtractionResult) × World
  run_tables n [] results w = (ok results, w)
  run_tables n (t ∷ ts) results w =
      let (r, w') = run_table_extraction x (table_call (calls n) t column) w in
      elim r [
        | ok result ↦ run_tables (suc n) ts (insert t result results) w'
        | raise e ↦ (raise e, w')
      ]

  unfoldable pub run_all_tables : List String → World → Result (Dict ExtractionResult) × World
  run_all_tables names w = run_tables 0 (target_tables names) [] w

  -- Every table that was in the results stays, and every table that is run gets in.
  run_tables-results :
      (n : ℕ) (ts : List String) (results out : Dict ExtractionResult) (w w' : World)
      → run_tables n ts results w ≡ (ok out, w')
      → ((t : String) → contains t results ≡ true → contains t out ≡ true)
        × All (λ t. contains t out ≡ true) ts
  unfolding run_tables
  run_tables-results n [] results out w w' h =
      let same : results ≡ out = ground arith in
      (λ t k. subst (λ d. contains t d ≡ true) same k, tt)
  run_tables-results n (t ∷ ts) results out w w' h =
      step (λ results' v g. run_tables-results (suc n) ts results' out v w' g)
        (run_table_extraction x (table_call (calls n) t column) w) refl
    where
      step :
          ((results' : Dict ExtractionResult) (v : World)
            → run_tables (suc n) ts results' v ≡ (ok out, w')
            → ((u : String) → contains u results' ≡ true → contains u out ≡ true)
              × All (λ u. contains u out ≡ true) ts)
          → (p : Result ExtractionResult × World)
          → run_table_extraction x (table_call (calls n) t column) w ≡ p
          → ((u : String) → contains u results ≡ true → contains u out ≡ true)
            × All (λ u. contains u out ≡ true) (t ∷ ts)
      step ih (raise e, v) k = absurd (ground (arith, k, h))
      step ih (ok r, v) k =
          let rest = ih (insert t r results) v (ground (arith, k, h)) in
          (
            λ u known. rest.0 u (ground (arith, lookup-insert t u r results, known)),
            (rest.0 t (ground (arith, lookup-insert t t r results, eq_iff t t)), rest.1),
          )

  -- When all runs return, each table that was asked for, or each of the four tables if none was,
  -- has a result.
  pub run_all_tables_lem :
      (names : List String) (w w' : World) (out : Dict ExtractionResult)
      → run_all_tables names w ≡ (ok out, w')
      → All (λ t. contains t out ≡ true) (target_tables names)
  unfolding run_all_tables
  run_all_tables_lem names w w' out h = (run_tables-results 0 (target_tables names) [] out w w' h).1
