-- ===== src/Merge/Reconciliation/Agrees.antt =====
-- src/merge/reconciliation.py: when the report of a table finds nothing wrong.
use incremental_cdc_data_pla.Base.{
  String, ◌≡◌, refl, sym, ◌∙◌, ap, Bool, true, false, not, ◌&&◌, ◌||◌, Option, none, some, List, [],
  ◌∷◌, ◌++◌, length, arith, eqb, ◌==◌, eq_iff, eq_refl, is_some, Dict, lookup, ◌↔◌, Bool-cases, inl,
  inr, some_injective,
}
use incremental_cdc_data_pla.Cdc.{Fields, no_fields, field, get}
use incremental_cdc_data_pla.Merge.{External, str_of}
use incremental_cdc_data_pla.Merge.Reconciliation.{
  diffs, compare_columns, compare_row, check_oracle, check_unexpected, table_mismatches,
  any_mismatch,
}
use incremental_cdc_data_pla.Merge.Reconciliation.Index.{IsDistinct, length-subset}

module _ (x : External) where
  -- The columns of the first row are in the second with the same text.
  unfoldable pub same_columns : Fields → Fields → Bool
  same_columns no_fields d = true
  same_columns (field c v o) d = str_of x v == str_of x (get c d) && same_columns o d

  -- Both sides lack the row, or both have it with the same columns.
  abbrev pub agrees : Option Fields → Option Fields → Bool
  agrees none none = true
  agrees none (some d) = false
  agrees (some o) none = false
  agrees (some o) (some d) = same_columns o d

  rows_agree : Dict Fields → Dict Fields → Bool
  rows_agree [] delta = true
  rows_agree ((k, o) ∷ oracle) delta = agrees (some o) (lookup k delta) && rows_agree oracle delta

  keys_known : Dict Fields → Dict Fields → Bool
  keys_known oracle [] = true
  keys_known oracle ((k, d) ∷ delta) = is_some (lookup k oracle) && keys_known oracle delta

  diffs-same_columns :
      (k : String) (o d : Fields)
      → any_mismatch x (compare_columns x k (diffs x o d) []) ≡ not (same_columns o d)
  unfolding diffs same_columns
  diffs-same_columns k no_fields d = refl
  diffs-same_columns k (field c v o) d = elim (Bool-cases (str_of x v == str_of x (get c d))) [
    | inl same ↦ rw same (diffs-same_columns k o d)
    | inr other ↦ rw other refl
  ]

  columns-rest :
      (k : String) (cs : List _) (rest : List _)
      → any_mismatch x (compare_columns x k cs rest)
        ≡ (any_mismatch x (compare_columns x k cs []) || any_mismatch x rest)
  columns-rest k [] rest = refl
  columns-rest k (c ∷ cs) rest = refl

  row-agrees :
      (k : String) (o : Fields) (d : Option Fields) (rest : List _)
      → any_mismatch x (compare_row x k o d rest) ≡ (not (agrees (some o) d) || any_mismatch x rest)
  row-agrees k o none rest = refl
  row-agrees k o (some d) rest =
      columns-rest k (diffs x o d) rest
      ∙ ap (λ b. b || any_mismatch x rest) (diffs-same_columns k o d)

  oracle-rows_agree :
      (oracle delta : Dict Fields)
      → any_mismatch x (check_oracle x oracle delta) ≡ not (rows_agree oracle delta)
  unfolding check_oracle rows_agree
  oracle-rows_agree [] delta = refl
  oracle-rows_agree ((k, o) ∷ oracle) delta = ground (
    arith,
    row-agrees k o (lookup k delta) (check_oracle x oracle delta),
    oracle-rows_agree oracle delta,
  )

  unexpected-keys_known :
      (oracle delta : Dict Fields)
      → any_mismatch x (check_unexpected x oracle delta) ≡ not (keys_known oracle delta)
  unfolding check_unexpected keys_known
  unexpected-keys_known oracle [] = refl
  unexpected-keys_known oracle ((k, d) ∷ delta) = ground (arith, unexpected-keys_known oracle delta)

  any_mismatch-append :
      (xs ys : List _) → any_mismatch x (xs ++ ys) ≡ (any_mismatch x xs || any_mismatch x ys)
  any_mismatch-append [] ys = refl
  any_mismatch-append (m ∷ xs) ys = refl

  rows_agree_sound :
      (oracle delta : Dict Fields) (k : String) (o : Fields)
      → rows_agree oracle delta ≡ true
      → lookup k oracle ≡ some o
      → agrees (some o) (lookup k delta) ≡ true
  unfolding rows_agree lookup
  rows_agree_sound [] delta k o h found = absurd (cc)
  rows_agree_sound ((j, p) ∷ oracle) delta k o h found = elim (Bool-cases (j == k)) [
    | inl same ↦
        let is = some_injective (rw same at found) in
        rw (← is, ← (eq_iff j k).0 same) (ground (arith, h))
    | inr other ↦ rows_agree_sound oracle delta k o (ground (arith, h)) (rw other at found)
  ]

  rows_agree_complete :
      (oracle delta : Dict Fields)
      → IsDistinct oracle
      → ((k : String) (o : Fields)
          → lookup k oracle ≡ some o
          → agrees (some o) (lookup k delta) ≡ true)
      → rows_agree oracle delta ≡ true
  unfolding rows_agree lookup
  rows_agree_complete [] delta once h = refl
  rows_agree_complete ((j, p) ∷ oracle) delta once h =
      let head = h j p (rw (eq_refl j) refl) in
      let rest = rows_agree_complete oracle delta once.1 (λ k o found.
        h k o (elim (Bool-cases (j == k)) [
          | inl same ↦
              absurd
                (cc (sym found ∙ ap (λ i. lookup i oracle) (sym ((eq_iff j k).0 same)) ∙ once.0))
          | inr other ↦ rw other found
        ])) in
      rw (head, rest) refl

  keys_known_sound :
      (oracle delta : Dict Fields) (k : String)
      → keys_known oracle delta ≡ true
      → is_some (lookup k delta) ≡ true
      → is_some (lookup k oracle) ≡ true
  unfolding keys_known lookup
  keys_known_sound oracle [] k h found = absurd (cc)
  keys_known_sound oracle ((j, p) ∷ delta) k h found = elim (Bool-cases (j == k)) [
    | inl same ↦ rw (← (eq_iff j k).0 same) (ground (arith, h))
    | inr other ↦ keys_known_sound oracle delta k (ground (arith, h)) (rw other at found)
  ]

  keys_known_complete :
      (oracle delta : Dict Fields)
      → IsDistinct delta
      → ((k : String) → is_some (lookup k delta) ≡ true → is_some (lookup k oracle) ≡ true)
      → keys_known oracle delta ≡ true
  unfolding keys_known lookup
  keys_known_complete oracle [] once h = refl
  keys_known_complete oracle ((j, p) ∷ delta) once h =
      let head = h j (rw (eq_refl j) refl) in
      let rest = keys_known_complete oracle delta once.1 (λ k found.
        h k (elim (Bool-cases (j == k)) [
          | inl same ↦ absurd (
              cc (
                sym found
                ∙ ap is_some (ap (λ i. lookup i delta) (sym ((eq_iff j k).0 same)) ∙ once.0)))
          | inr other ↦ rw other found
        ])) in
      rw (head, rest) refl

  -- A table's part of the report has nothing wrong.
  abbrev pub is_clean : Dict Fields → Dict Fields → Bool
  is_clean oracle delta =
      not (
        any_mismatch x (table_mismatches x oracle delta)
        || not (eqb (length delta) (length oracle)))

  clean_parts :
      (oracle delta : Dict Fields)
      → is_clean oracle delta ≡ (
          (rows_agree oracle delta && keys_known oracle delta)
          && eqb (length delta) (length oracle))
  clean_parts oracle delta =
      rw
        (
          any_mismatch-append (check_oracle x oracle delta) (check_unexpected x oracle delta),
          oracle-rows_agree oracle delta,
          unexpected-keys_known oracle delta,
        )
        (ground arith)

  agrees-some :
      (o d : Option Fields)
      → ((p : Fields) → o ≡ some p → agrees (some p) d ≡ true)
      → (is_some d ≡ true → is_some o ≡ true)
      → agrees o d ≡ true
  agrees-some none none h k = refl
  agrees-some none (some d) h k = absurd (cc (k refl))
  agrees-some (some o) d h k = h o refl

  agrees-is_some : (o d : Option Fields) → agrees o d ≡ true → is_some o ≡ is_some d
  agrees-is_some none none h = refl
  agrees-is_some none (some d) h = absurd (cc)
  agrees-is_some (some o) none h = absurd (cc)
  agrees-is_some (some o) (some d) h = refl

  -- That is so exactly where both sides have the same rows by key.
  pub is_clean-agrees :
      (oracle delta : Dict Fields)
      → IsDistinct oracle
      → IsDistinct delta
      → (is_clean oracle delta ≡ true)
        ↔ ((k : String) → agrees (lookup k oracle) (lookup k delta) ≡ true)
  is_clean-agrees oracle delta once_o once_d = (
    (λ h k.
        let parts = sym (clean_parts oracle delta) ∙ h in
        agrees-some (lookup k oracle) (lookup k delta)
          (λ p found. rows_agree_sound oracle delta k p (ground (arith, parts)) found)
          (keys_known_sound oracle delta k (ground (arith, parts)))),
    (λ h.
        let known = λ (k : String). agrees-is_some (lookup k oracle) (lookup k delta) (h k) in
        let rows =
          rows_agree_complete oracle delta once_o
            (λ k o found. ap (λ q. agrees q (lookup k delta)) (sym found) ∙ h k) in
        let keys = keys_known_complete oracle delta once_d (λ k found. known k ∙ found) in
        let short = length-subset oracle delta once_o (λ k found. sym (known k) ∙ found) in
        let long = length-subset delta oracle once_d (λ k found. known k ∙ found) in
        rw (clean_parts oracle delta, rows, keys) (ground (arith, short, long))),
  )
