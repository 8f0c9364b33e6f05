-- ===== src/Merge/Engine/Rows.antt =====
-- The rows that src/merge/event_adapter.py makes of events, found by their key.
use incremental_cdc_data_pla.Base.{
  ℕ, ◌+◌, ◌≤◌, String, ◌≡◌, refl, sym, ◌∙◌, ap, Bool, true, false, Option, none, some, List, [],
  ◌∷◌, keep, All, arith, length, ◌==◌, eq_iff, eq_refl, find_where, if◌then◌else◌, Option-cases,
  inl, inr,
}
use incremental_cdc_data_pla.Cdc.{
  Value, text, Fields, get, Table, accounts, subscriptions, invoices, payments, primary_key,
}
use incremental_cdc_data_pla.Normalization.{NormalizedCdcEvent}
use incremental_cdc_data_pla.Merge.{
  External, Schema, TargetRow, string_type, convert_value, convert_columns, event_value, schema_of,
  row_of, convert_rows, of_table, accepted, convert_events, row_key, event_key,
}
use incremental_cdc_data_pla.Delta.Keys.{has_key, on, on-has_key, row_at}
use incremental_cdc_data_pla.Delta.{IsUnambiguous}
use incremental_cdc_data_pla.Merge.Ledger.{is_one_of}
use incremental_cdc_data_pla.Merge.Engine.{is_ambiguous}

-- An event of the table, whose row image carries the key that its business key names.
abbrev pub KeyAgrees : External → Table → NormalizedCdcEvent → Type 0
KeyAgrees x t e = (of_table t e ≡ true) × (event_value e (primary_key t) ≡ text (event_key x t e))

keep-of_table :
    (x : External) (t : Table) (es : List NormalizedCdcEvent)
    → All (KeyAgrees x t) es
    → keep (of_table t) es ≡ es
keep-of_table x t [] h = refl
keep-of_table x t (e ∷ es) h = ground (arith, h.0.0, keep-of_table x t es h.1)

accepted_sound :
    (x : External) (t : Table) (o : Option (List TargetRow)) (rows : List TargetRow)
    → accepted x t o ≡ some rows
    → o ≡ some rows
accepted_sound x t none rows h = cc
accepted_sound x t (some source) rows h = ground arith

pub convert_events-rows :
    (x : External) (t : Table) (proc : String) (es : List NormalizedCdcEvent)
    (rows : List TargetRow)
    → All (KeyAgrees x t) es
    → convert_events x t proc es ≡ some rows
    → convert_rows x t proc es ≡ some rows
unfolding convert_events
convert_events-rows x t proc es rows agree h =
    ap (convert_rows x t proc) (sym (keep-of_table x t es agree))
    ∙ accepted_sound x t (convert_rows x t proc (keep (of_table t) es)) rows h

-- A row whose first column is a text column `c`.
first_column :
    (x : External) (value : String → Value) (c : String) (schema : Schema) (s : String) (d : Fields)
    → value c ≡ text s
    → convert_columns x value ((c, string_type) ∷ schema) ≡ some d
    → get c d ≡ text s
unfolding convert_columns convert_value get
first_column x value c schema s d v h = elim (Option-cases (convert_columns x value schema)) [
  | inl fails ↦ absurd (ground (arith, rw (v, fails) at h))
  | inr (rest, runs) ↦ ground (arith, rw (v, runs) at h, eq_refl c)
]

convert-key :
    (x : External) (t : Table) (value : String → Value) (s : String) (d : Fields)
    → value (primary_key t) ≡ text s
    → convert_columns x value (schema_of t) ≡ some d
    → get (primary_key t) d ≡ text s
unfolding schema_of
convert-key x accounts value s d v h = first_column x value "account_id" _ s d v h
convert-key x subscriptions value s d v h = first_column x value "subscription_id" _ s d v h
convert-key x invoices value s d v h = first_column x value "invoice_id" _ s d v h
convert-key x payments value s d v h = first_column x value "payment_id" _ s d v h

-- The events of a key.
module _ (x : External) (t : Table) where
  abbrev pub event_at : String → List NormalizedCdcEvent → Option NormalizedCdcEvent
  event_at k es = find_where (λ e. event_key x t e == k) es

  abbrev pub count_at : String → List NormalizedCdcEvent → ℕ
  count_at k es = length (keep (λ e. event_key x t e == k) es)

  unambiguous-count_at :
      (k : String) (seen : List String) (es : List NormalizedCdcEvent)
      → is_ambiguous x t seen es ≡ false
      → count_at k es + (if is_one_of seen k then 1 else 0) ≤ 1
  unfolding is_ambiguous
  unambiguous-count_at k seen [] h = ground arith
  unambiguous-count_at k seen (e ∷ es) h =
      ground (arith, unambiguous-count_at k (event_key x t e ∷ seen) es, eq_iff (event_key x t e) k)

  -- Each key has one event at most in a wave that is not ambiguous.
  pub at_most_once :
      (k : String) (es : List NormalizedCdcEvent)
      → is_ambiguous x t [] es ≡ false
      → count_at k es ≤ 1
  at_most_once k es h = omega (arith, unambiguous-count_at k [] es h)

  pub count_at-keep :
      (k : String) (q : NormalizedCdcEvent → Bool) (es : List NormalizedCdcEvent)
      → count_at k (keep q es) ≤ count_at k es
  count_at-keep k q [] = omega arith
  count_at-keep k q (e ∷ es) = ground (arith, count_at-keep k q es)

module _ (x : External) (t : Table) (proc : String) where
  row_of-key :
      (e : NormalizedCdcEvent) (r : TargetRow)
      → KeyAgrees x t e
      → row_of x t proc e ≡ some r
      → row_key t r ≡ some (event_key x t e)
  unfolding row_of row_key
  row_of-key e r agrees h = elim (Option-cases (convert_columns x (event_value e) (schema_of t))) [
    | inl fails ↦ absurd (ground arith)
    | inr (d, runs) ↦
        ground (arith, convert-key x t (event_value e) (event_key x t e) d agrees.1 runs)
  ]

  -- The row of an event that may be missing.
  abbrev pub row_from_event : Option NormalizedCdcEvent → Option TargetRow
  row_from_event none = none
  row_from_event (some e) = row_of x t proc e

  pub row_at-convert_rows :
      (k : String) (es : List NormalizedCdcEvent) (rows : List TargetRow)
      → All (KeyAgrees x t) es
      → convert_rows x t proc es ≡ some rows
      → row_at (row_key t) k rows ≡ row_from_event (event_at x t k es)
  unfolding convert_rows find_where
  row_at-convert_rows k [] rows agree h = ground arith
  row_at-convert_rows k (e ∷ es) rows agree h = elim (Option-cases (row_of x t proc e)) [
    | inl fails ↦ absurd (ground arith)
    | inr (r, runs) ↦ elim (Option-cases (convert_rows x t proc es)) [
      | inl fails ↦ absurd (ground arith)
      | inr (rs, rest) ↦ ground (
        arith,
        row_of-key e r agree.0 runs,
        row_at-convert_rows k es rs agree.1 rest,
        runs,
        rest,
        h,
      )
    ]
  ]

  count-convert_rows :
      (k : String) (es : List NormalizedCdcEvent) (rows : List TargetRow)
      → All (KeyAgrees x t) es
      → convert_rows x t proc es ≡ some rows
      → length (keep (λ s. has_key k (row_key t s)) rows) ≡ count_at x t k es
  unfolding convert_rows
  count-convert_rows k [] rows agree h = ground arith
  count-convert_rows k (e ∷ es) rows agree h = elim (Option-cases (row_of x t proc e)) [
    | inl fails ↦ absurd (ground arith)
    | inr (r, runs) ↦ elim (Option-cases (convert_rows x t proc es)) [
      | inl fails ↦ absurd (ground arith)
      | inr (rs, rest) ↦ ground (
        arith,
        row_of-key e r agree.0 runs,
        count-convert_rows k es rs agree.1 rest,
        runs,
        rest,
        h,
      )
    ]
  ]

  keep-on_null :
      (r : TargetRow) (rows : List TargetRow)
      → row_key t r ≡ none
      → length (keep (on (row_key t) r) rows) ≡ 0
  keep-on_null r [] h = refl
  keep-on_null r (s ∷ rows) h = ground (arith, keep-on_null r rows h, h)

  keep-on_key :
      (k : String) (r : TargetRow) (rows : List TargetRow)
      → row_key t r ≡ some k
      → length (keep (on (row_key t) r) rows) ≡ length (keep (λ s. has_key k (row_key t s)) rows)
  keep-on_key k r [] h = refl
  keep-on_key k r (s ∷ rows) h =
      ground (arith, keep-on_key k r rows h, on-has_key (row_key t) k r s, eq_refl k, h)

  -- Such a wave is not ambiguous to MERGE.
  pub rows-IsUnambiguous :
      (es : List NormalizedCdcEvent) (source table : List TargetRow)
      → All (KeyAgrees x t) es
      → convert_rows x t proc es ≡ some source
      → ((k : String) → count_at x t k es ≤ 1)
      → IsUnambiguous (on (row_key t)) source table
  rows-IsUnambiguous es source [] agree made once = tt
  rows-IsUnambiguous es source (r ∷ table) agree made once = (
    elim (Option-cases (row_key t r)) [
      | inl e ↦ ground (arith, keep-on_null r source e)
      | inr (k, e) ↦
          ground
            (arith, keep-on_key k r source e, count-convert_rows k es source agree made, once k)
    ],
    rows-IsUnambiguous es source table agree made once,
  )
