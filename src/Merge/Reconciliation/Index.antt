-- ===== src/Merge/Reconciliation/Index.antt =====
-- src/merge/reconciliation.py: the rows of a table by their primary key.
use incremental_cdc_data_pla.Base.{
  ◌<◌, ◌≤◌, String, ◌≡◌, refl, sym, ◌∙◌, ap, true, false, Option, none, some, List, [], ◌∷◌, length,
  All, arith, ◌==◌, eq_iff, eq_refl, is_some, Dict, lookup, insert, erase, lookup-insert,
  lookup-erase, if◌then◌else◌, Bool-cases, inl, inr,
}
use incremental_cdc_data_pla.Cdc.{Fields, get, has}
use incremental_cdc_data_pla.Merge.{External, str_of}
use incremental_cdc_data_pla.Merge.Reconciliation.{index_by_key}

-- A dictionary has a key once.
abbrev pub IsDistinct : Dict Fields → Type 0
IsDistinct [] = Unit {0}
IsDistinct ((k, v) ∷ d) = (lookup k d ≡ none) × IsDistinct d

insert-IsDistinct :
    (k : String) (v : Fields) (d : Dict Fields) → IsDistinct d → IsDistinct (insert k v d)
unfolding insert lookup
insert-IsDistinct k v [] h = (refl, tt)
insert-IsDistinct k v ((j, w) ∷ d) h = elim (Bool-cases (j == k)) [
  | inl same ↦ rw same h
  | inr other ↦
      let apart : (k == j) ≡ false = ground (arith, eq_iff k j, eq_iff j k, other) in
      rw other (rw (lookup-insert k j v d, apart) h.0, insert-IsDistinct k v d h.1)
]

erase-shorter : (k : String) (d : Dict Fields) → length (erase k d) ≤ length d
unfolding erase
erase-shorter k [] = omega arith
erase-shorter k ((j, w) ∷ d) = ground (arith, erase-shorter k d)

erase-drops :
    (k : String) (d : Dict Fields) → is_some (lookup k d) ≡ true → length (erase k d) < length d
unfolding erase lookup
erase-drops k [] h = absurd (cc)
erase-drops k ((j, w) ∷ d) h = ground (arith, erase-shorter k d, erase-drops k d, h)

-- A dictionary whose keys another one has is no longer than the other one.
pub length-subset :
    (a b : Dict Fields)
    → IsDistinct a
    → ((k : String) → is_some (lookup k a) ≡ true → is_some (lookup k b) ≡ true)
    → length a ≤ length b
unfolding lookup
length-subset [] b h sub = omega arith
length-subset ((k, v) ∷ a) b h sub =
    let there : is_some (lookup k b) ≡ true = sub k (rw (eq_refl k) refl) in
    let shorter = length-subset a (erase k b) h.1 (λ j found. elim (Bool-cases (k == j)) [
      | inl same ↦
          absurd
            (cc (sym found ∙ ap is_some (ap (λ i. lookup i a) (sym ((eq_iff k j).0 same)) ∙ h.0)))
      | inr other ↦ rw (lookup-erase k j b, other) (sub j (rw other found))
    ]) in
    omega (arith, shorter, erase-drops k b there)

module _ (x : External) (pk : String) where
  abbrev pub or_else : Option Fields → Option Fields → Option Fields
  or_else (some r) o = some r
  or_else none o = o

  -- The last of the rows with a key.
  unfoldable pub last_with : String → List Fields → Option Fields
  last_with k [] = none
  last_with k (r ∷ rows) =
      let rest = last_with k rows in
      or_else rest (if str_of x (get pk r) == k then some r else none)

  -- The index of rows that have the primary key is made, has each key once, and finds the last row
  -- with a key.
  pub index_by_key_lem :
      (rows : List Fields) (d : Dict Fields)
      → All (λ r. has pk r ≡ true) rows
      → IsDistinct d
      → (m : Dict Fields) × (index_by_key x pk rows d ≡ some m)
        × IsDistinct m
        × ((k : String) → lookup k m ≡ or_else (last_with k rows) (lookup k d))
  unfolding index_by_key last_with
  index_by_key_lem [] d all once = (d, refl, once, λ k. refl)
  index_by_key_lem (r ∷ rows) d all once =
      let i = str_of x (get pk r) in
      let (m, e, single, finds) =
        index_by_key_lem rows (insert i r d) all.1 (insert-IsDistinct i r d once) in
      (m, rw all.0 e, single, λ k. finds k ∙ step k (last_with k rows) r d)
    where
      step :
          (k : String) (o : Option Fields) (r : Fields) (d : Dict Fields)
          → or_else o (lookup k (insert (str_of x (get pk r)) r d))
            ≡ or_else (or_else o (if str_of x (get pk r) == k then some r else none)) (lookup k d)
      step k (some q) r d = refl
      step k none r d = elim (Bool-cases (str_of x (get pk r) == k)) [
        | inl same ↦ rw (lookup-insert (str_of x (get pk r)) k r d, same) refl
        | inr other ↦ rw (lookup-insert (str_of x (get pk r)) k r d, other) refl
      ]
