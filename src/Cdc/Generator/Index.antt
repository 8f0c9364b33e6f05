-- ===== src/Cdc/Generator/Index.antt =====
-- src/cdc/generator.py: `_init_snapshot_state` finds the rows of a snapshot by their ids.
use mathlib.Core.List.Memᴰ
use mathlib.Core.List.{Memᴰ}
use incremental_cdc_data_pla.Base.{
  String, ◌≡◌, refl, sym, ◌∙◌, ap, true, some, some_injective, List, [], ◌∷◌, map, ◌==◌, eq_iff,
  Dict, lookup, insert, lookup-insert, ◌⊎◌, inl, inr, Bool-cases, Option-cases, is_some,
}
use incremental_cdc_data_pla.Cdc.{text, Fields}
use incremental_cdc_data_pla.Cdc.Generator.{item, index_rows}

-- Rows that carry their id under the primary key.
module _ {A : Type 0} (id : A → String) (to_dict : A → Fields) (pk : String)
    (keyed : (a : A) → item pk (to_dict a) ≡ some (text (id a))) where
  unfoldable index_of : List A → Dict Fields → Dict Fields
  index_of [] d = d
  index_of (a ∷ xs) d = index_of xs (insert (id a) (to_dict a) d)

  index_rows-runs :
      (xs : List A) (d : Dict Fields) → index_rows pk (map to_dict xs) d ≡ some (index_of xs d)
  unfolding index_rows index_of
  index_rows-runs [] d = refl
  index_rows-runs (a ∷ xs) d = rw (keyed a) (index_rows-runs xs (insert (id a) (to_dict a) d))

  -- What is found is a row, or was there.
  index_of-rows :
      (xs : List A) (d : Dict Fields) (k : String) (row : Fields)
      → lookup k (index_of xs d) ≡ some row
      → ((a : A) × (row ≡ to_dict a)) ⊎ (lookup k d ≡ some row)
  unfolding index_of
  index_of-rows [] d k row h = inr h
  index_of-rows (a ∷ xs) d k row h = elim (index_of-rows xs (insert (id a) (to_dict a) d) k row h) [
    | inl there ↦ inl there
    | inr before ↦ elim (Bool-cases (id a == k)) [
      | inl here ↦
          inl (a, sym (some_injective (rw (lookup-insert (id a) k (to_dict a) d, here) at before)))
      | inr other ↦ inr (rw (lookup-insert (id a) k (to_dict a) d, other) at before)
    ]
  ]

  -- What was there, or is the id of a row, is found.
  index_of-is_some :
      (xs : List A) (d : Dict Fields) (k : String)
      → Memᴰ k (map id xs) ⊎ (is_some (lookup k d) ≡ true)
      → is_some (lookup k (index_of xs d)) ≡ true
  unfolding index_of
  index_of-is_some [] d k (inl m) = absurd (Memᴰ.not-nil m)
  index_of-is_some [] d k (inr h) = h
  index_of-is_some (a ∷ xs) d k h =
      index_of-is_some xs (insert (id a) (to_dict a) d) k (elim (Bool-cases (id a == k)) [
        | inl here ↦ inr (rw (lookup-insert (id a) k (to_dict a) d, here) refl)
        | inr other ↦ elim h [
          | inr before ↦ inr (rw (lookup-insert (id a) k (to_dict a) d, other) before)
          | inl m ↦ elim (Memᴰ.cases_cons m) [
            | inl same ↦ absurd (cc (sym other ∙ (eq_iff (id a) k).1 (sym same)))
            | inr later ↦ inl later
          ]
        ]
      ])

  -- The index is made, and finds a row for each id.
  pub index_rows_lem :
      (xs : List A)
      → (d : Dict Fields) × (index_rows pk (map to_dict xs) [] ≡ some d)
        × ((k : String) → Memᴰ k (map id xs) → (a : A) × (lookup k d ≡ some (to_dict a)))
  unfolding lookup
  index_rows_lem xs = (
    index_of xs [],
    index_rows-runs xs [],
    λ k m. elim (Option-cases (lookup k (index_of xs []))) [
      | inl absent ↦ absurd (cc (sym (index_of-is_some xs [] k (inl m)) ∙ ap is_some absent))
      | inr (row, there) ↦ elim (index_of-rows xs [] k row there) [
        | inl (a, same) ↦ (a, there ∙ ap some same)
        | inr none_there ↦ absurd (cc)
      ]
    ],
  )
