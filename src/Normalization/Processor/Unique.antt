-- ===== src/Normalization/Processor/Unique.antt =====
-- The rows that src/normalization/processor.py accepts: one of each event, one at each sequence number.
use incremental_cdc_data_pla.Base.{
  ◌≤◌, String, ◌≡◌, refl, sym, ◌∙◌, Bool, true, false, not, ◌&&◌, List, [], ◌∷◌, keep, any, All,
  All-map, All-zip, keep-All, length, eqb, leb, arith, sort_by-All, sort_by-count, text_lt, ◌==◌,
  eq_iff, Bool-cases, inl, inr,
}
use incremental_cdc_data_pla.Cdc.{le_int}
use incremental_cdc_data_pla.Normalization.Enrichment.{Row}
use incremental_cdc_data_pla.Normalization.Processor.{
  lex_lt, provenance_lt, same_id, conflicts, row_number, retained, same_slot, collisions, output_lt,
  accepted_rows,
}

keep-holds : {A : Type 0} (q : A → Bool) (xs : List A) → All (λ a. q a ≡ true) (keep q xs)
keep-holds q [] = tt
keep-holds q (x ∷ xs) = elim (Bool-cases (q x)) [
  | inl h ↦ rw h (h, keep-holds q xs)
  | inr h ↦ rw h (keep-holds q xs)
]

keep-fewer :
    {A : Type 0} (p q : A → Bool) (xs : List A) → length (keep p (keep q xs)) ≤ length (keep p xs)
keep-fewer p q [] = omega arith
keep-fewer p q (x ∷ xs) = ground (arith, keep-fewer p q xs)

none_kept :
    {A : Type 0} (p : A → Bool) (xs : List A) → length (keep p xs) ≡ 0 → All (λ a. p a ≡ false) xs
none_kept p [] h = tt
none_kept p (x ∷ xs) h = (ground (arith, h), none_kept p xs (ground (arith, h)))

-- Rows of different ingestion order.
abbrev pub differ : Row → Row → Bool
differ r s =
    not (le_int r.ingestion_order s.ingestion_order && le_int s.ingestion_order r.ingestion_order)

abbrev pub AllDiffer : List Row → Type 0
AllDiffer [] = Unit
AllDiffer (r ∷ rows) = All (λ s. differ r s ≡ true) rows × AllDiffer rows

keep-AllDiffer : (q : Row → Bool) (rows : List Row) → AllDiffer rows → AllDiffer (keep q rows)
keep-AllDiffer q [] h = tt
keep-AllDiffer q (r ∷ rows) h = elim (Bool-cases (q r)) [
  | inl kept ↦ rw kept (keep-All q (λ s. differ r s ≡ true) rows h.0, keep-AllDiffer q rows h.1)
  | inr dropped ↦ rw dropped (keep-AllDiffer q rows h.1)
]

lex_lt-false :
    (s t : String) (r q : Bool)
    → lex_lt s t r ≡ false
    → lex_lt t s q ≡ false
    → (r ≡ false) × (q ≡ false)
lex_lt-false s t r q h k = elim (Bool-cases (text_lt s t)) [
  | inl up ↦ absurd (cc (rw up at h))
  | inr a ↦ elim (Bool-cases (text_lt t s)) [
    | inl down ↦ absurd (cc (rw down at k))
    | inr b ↦ (rw (a, b) at h, rw (a, b) at k)
  ]
]

-- Of two rows of different ingestion order one comes before the other.
provenance_lt_total :
    (r s : Row) → provenance_lt r s ≡ false → provenance_lt s r ≡ false → differ r s ≡ false
provenance_lt_total r s h k =
    let (h1, k1) = lex_lt-false r.batch_id s.batch_id _ _ h k in
    let (h2, k2) = lex_lt-false r.ingestion_batch_id s.ingestion_batch_id _ _ h1 k1 in
    let (h3, k3) = lex_lt-false r.source_file s.source_file _ _ h2 k2 in ground (arith, h3, k3)

-- No row of the same event comes before it.
abbrev IsFirst : Row → Row → Type 0
IsFirst r s = same_id r s ≡ true → provenance_lt s r ≡ false

none_first :
    (i : String) (r : Row) (rows : List Row)
    → r.event_id == i ≡ true
    → All (IsFirst r) rows
    → All (λ s. IsFirst s r) rows
    → All (λ s. differ r s ≡ true) rows
    → length (keep (λ s. s.event_id == i) rows) ≡ 0
none_first i r [] own a b c = refl
none_first i r (s ∷ rows) own a b c = elim (Bool-cases (s.event_id == i)) [
  | inr other ↦ rw other (none_first i r rows own a.1 b.1 c.1)
  | inl same ↦
      let e = (eq_iff r.event_id i).0 own in
      let f = (eq_iff s.event_id i).0 same in
      let before = a.0 ((eq_iff s.event_id r.event_id).1 (f ∙ sym e)) in
      let after = b.0 ((eq_iff r.event_id s.event_id).1 (e ∙ sym f)) in
      absurd (cc (sym c.0 ∙ provenance_lt_total r s after before))
]

first-count :
    (i : String) (rows : List Row)
    → All (λ r. All (IsFirst r) rows) rows
    → AllDiffer rows
    → leb (length (keep (λ s. s.event_id == i) rows)) 1 ≡ true
first-count i [] first apart = refl
first-count i (r ∷ rows) first apart = elim (Bool-cases (r.event_id == i)) [
  | inl own ↦ ground (
    arith,
    own,
    none_first i r rows own first.0.1
        (All-map (λ s. All (IsFirst s) (r ∷ rows)) (λ s. IsFirst s r) rows (λ s h. h.0) first.1)
        apart.0,
  )
  | inr other ↦ ground (
    arith,
    other,
    first-count i rows
        (All-map (λ s. All (IsFirst s) (r ∷ rows)) (λ s. All (IsFirst s) rows) rows (λ s h. h.1)
          first.1)
        apart.1,
  )
]

row_number-IsFirst :
    (rows : List Row) (r : Row) → eqb (row_number rows r) 1 ≡ true → All (IsFirst r) rows
row_number-IsFirst rows r h =
    All-map (λ s. same_id r s && provenance_lt s r ≡ false) (IsFirst r) rows
      (λ s k own. ground (arith, k, own))
      (none_kept (λ s. same_id r s && provenance_lt s r) rows (ground (arith, h)))

-- Among rows of different ingestion order, the retained ones have different event ids.
retained-count :
    (i : String) (rows : List Row)
    → AllDiffer rows
    → leb (length (keep (λ s. s.event_id == i) (retained rows))) 1 ≡ true
retained-count i rows apart =
    let q = λ (r : Row). not (conflicts rows r) && eqb (row_number rows r) 1 in
    first-count i (retained rows)
      (All-map (λ r. q r ≡ true) (λ r. All (IsFirst r) (retained rows)) (retained rows)
        (λ r h. keep-All q (IsFirst r) rows (row_number-IsFirst rows r (ground (arith, h))))
        (keep-holds q rows))
      (keep-AllDiffer q rows apart)

no_conflict :
    (r : Row) (rows : List Row)
    → any (λ s. same_id r s && not (s.event_fingerprint == r.event_fingerprint)) rows ≡ false
    → All (λ s. same_id r s ≡ true → s.event_fingerprint == r.event_fingerprint ≡ true) rows
no_conflict r [] h = tt
no_conflict r (s ∷ rows) h =
    ((λ own. ground (arith, h, own)), no_conflict r rows (ground (arith, h)))

-- Among rows of different ingestion order, no two accepted rows have the same event id.
pub accepted_rows-one_of_id :
    (i : String) (rows : List Row)
    → AllDiffer rows
    → length (keep (λ s. s.event_id == i) (accepted_rows (retained rows))) ≤ 1
accepted_rows-one_of_id i rows apart =
    let kept = retained rows in
    let q = λ (r : Row). eqb (collisions kept r) 1 in
    ground (
      arith,
      sort_by-count output_lt (λ s. s.event_id == i) (keep q kept),
      keep-fewer (λ s. s.event_id == i) q kept,
      retained-count i rows apart,
    )

-- An accepted row is the only accepted row of its entity and sequence number, and all rows with its
-- event id have its fingerprint.
pub accepted_rows_unique :
    (rows : List Row)
    → All
        (λ r.
          (length (keep (same_slot r) (accepted_rows (retained rows))) ≤ 1)
          × All (λ s. same_id r s ≡ true → s.event_fingerprint == r.event_fingerprint ≡ true) rows)
        (accepted_rows (retained rows))
accepted_rows_unique rows =
    let kept = retained rows in
    let f = λ (r : Row). not (conflicts rows r) && eqb (row_number rows r) 1 in
    let q = λ (r : Row). eqb (collisions kept r) 1 in
    sort_by-All output_lt
      (λ r.
        (length (keep (same_slot r) (accepted_rows kept)) ≤ 1)
        × All (λ s. same_id r s ≡ true → s.event_fingerprint == r.event_fingerprint ≡ true) rows)
      (keep q kept)
      (All-zip (λ r. q r ≡ true) (λ r. f r ≡ true) _ (keep q kept)
        (λ r one first. (
          ground (
            arith,
            one,
            sort_by-count output_lt (same_slot r) (keep q kept),
            keep-fewer (same_slot r) q kept,
          ),
          no_conflict r rows (ground (arith, first)),
        ))
        (keep-holds q kept) (keep-All q (λ r. f r ≡ true) kept (keep-holds f rows)))
