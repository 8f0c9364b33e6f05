-- ===== src/Delta/Keys.antt =====
-- MERGE on the equality of a key: the row that a key has afterwards.
use incremental_cdc_data_pla.Base.{
  String, ◌≡◌, refl, Bool, true, false, not, Option, none, some, List, [], ◌∷◌, map, keep, arith,
  is_some, ◌==◌, eq_iff, find_where, find_where_sound, map_option, if◌then◌else◌, Bool-cases,
  Option-cases, inl, inr,
}
use incremental_cdc_data_pla.Delta.{set_from, update_by, new_rows}

abbrev pub has_key : String → Option String → Bool
has_key k none = false
has_key k (some j) = j == k

-- `target.key = source.key`; a null equals nothing.
abbrev pub same_key : Option String → Option String → Bool
same_key (some i) (some j) = i == j
same_key _ _ = false

module _ {Row : Type 0} (key : Row → Option String) where
  abbrev pub on : Row → Row → Bool
  on t s = same_key (key t) (key s)

  abbrev pub row_at : String → List Row → Option Row
  row_at k rows = find_where (λ r. has_key k (key r)) rows

  pub on-has_key : (k : String) (t s : Row) → has_key k (key t) ≡ true → on t s ≡ has_key k (key s)
  on-has_key k t s h = elim (Option-cases (key t)) [
    | inl e ↦ ground (arith, e)
    | inr (i, e) ↦ elim (Option-cases (key s)) [
      | inl f ↦ ground (arith, e, f)
      | inr (j, f) ↦ ground (arith, e, f, eq_iff i k, eq_iff i j, eq_iff j k)
    ]
  ]

  on-has_key_source :
      (k : String) (t s : Row) → has_key k (key s) ≡ true → on t s ≡ has_key k (key t)
  on-has_key_source k t s h = elim (Option-cases (key s)) [
    | inl e ↦ ground (arith, e)
    | inr (i, e) ↦ elim (Option-cases (key t)) [
      | inl f ↦ ground (arith, e, f)
      | inr (j, f) ↦ ground (arith, e, f, eq_iff i k, eq_iff j i, eq_iff j k)
    ]
  ]

  pub find-on :
      (k : String) (t : Row) (source : List Row)
      → has_key k (key t) ≡ true
      → find_where (on t) source ≡ row_at k source
  unfolding find_where
  find-on k t [] h = refl
  find-on k t (s ∷ source) h = ground (arith, on-has_key k t s h, find-on k t source h)

  find-on_source :
      (k : String) (s : Row) (table : List Row)
      → has_key k (key s) ≡ true
      → find_where (λ t. on t s) table ≡ row_at k table
  unfolding find_where
  find-on_source k s [] h = refl
  find-on_source k s (t ∷ table) h =
      ground (arith, on-has_key_source k t s h, find-on_source k s table h)

  module _ (set : Row → Row → Row) (keeps : (t s : Row) → on t s ≡ true → key (set t s) ≡ key t)
      (source : List Row) where
    key-update_by : (t : Row) → key (update_by on set source t) ≡ key t
    key-update_by t = elim (Option-cases (find_where (on t) source)) [
      | inl e ↦ rw e refl
      | inr (s, e) ↦ rw e (keeps t s (find_where_sound (on t) source s e))
    ]

    -- After an update each key has its row, set from the row of the source with the key.
    pub row_at-update :
        (k : String) (table : List Row)
        → row_at k (map (update_by on set source) table)
          ≡ map_option (λ t. set_from set t (row_at k source)) (row_at k table)
    unfolding find_where
    row_at-update k [] = refl
    row_at-update k (t ∷ table) = elim (Bool-cases (has_key k (key t))) [
      | inl h ↦ ground (arith, key-update_by t, find-on k t source h, h)
      | inr h ↦ ground (arith, key-update_by t, row_at-update k table, h)
    ]

  -- The new rows have the keys that the table lacks.
  pub row_at-new_rows :
      (values : Row → Row)
      → ((s : Row) → key (values s) ≡ key s)
      → (k : String) (source table : List Row) → row_at k table ≡ none
      → row_at k (map values (new_rows on source table)) ≡ map_option values (row_at k source)
  unfolding find_where new_rows
  row_at-new_rows values keeps k [] table absent = refl
  row_at-new_rows values keeps k (s ∷ source) table absent = elim (Bool-cases (has_key k (key s))) [
    | inl h ↦ ground (arith, keeps s, find-on_source k s table h, h, absent)
    | inr h ↦ ground (arith, keeps s, row_at-new_rows values keeps k source table absent, h)
  ]

  -- A deletion takes away the keys of the source.
  pub row_at-delete :
      (k : String) (source table : List Row)
      → row_at k (keep (λ t. not (is_some (find_where (on t) source))) table)
        ≡ (if is_some (row_at k source) then none else row_at k table)
  unfolding find_where
  row_at-delete k source [] = ground arith
  row_at-delete k source (t ∷ table) = elim (Bool-cases (has_key k (key t))) [
    | inl h ↦ ground (arith, find-on k t source h, row_at-delete k source table, h)
    | inr h ↦ ground (arith, row_at-delete k source table, h)
  ]
