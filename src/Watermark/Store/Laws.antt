-- ===== src/Watermark/Store/Laws.antt =====
-- SQL on rows: what an `UPDATE` leaves for a later `SELECT`, and when its `rowcount` is 0.
use incremental_cdc_data_pla.Base.{
  update_where, find_where, find_where-update_where, find_where-append, ℕ, String, ◌≡◌, refl, sym,
  subst, ap, ◌==◌, eq_iff, inl, inr, Bool-cases, Bool, none, some, List, [], ◌∷◌, ◌++◌, arith, eqb,
  if◌then◌else◌,
}
use incremental_cdc_data_pla.Watermark.Store.{WatermarkState, ControlStore, is_table}
use incremental_cdc_data_pla.Watermark.Store.Commit.{is_table_at}

-- `table_name` and `run_id` are primary keys: no two rows share one.
module _ {A : Type 0} (key : A → String) where
  abbrev pub HasUniqueKeys : List A → Type 0
  HasUniqueKeys [] = Unit
  HasUniqueKeys (x ∷ xs) = (find_where (λ a. key a == key x) xs ≡ none) × HasUniqueKeys xs

  pub update_where-HasUniqueKeys :
      (p : A → Bool) (f : A → A) (xs : List A)
      → ((a : A) → key (f a) ≡ key a)
      → HasUniqueKeys xs
      → HasUniqueKeys (update_where p f xs)
  unfolding update_where
  update_where-HasUniqueKeys p f [] same h = tt
  update_where-HasUniqueKeys p f (x ∷ xs) same h =
      let kept : key (if p x then f x else x) ≡ key x = ground (arith, same x) in
      (
        subst (λ k. find_where (λ a. key a == k) (update_where p f xs) ≡ none) (sym kept)
            (rw (
              find_where-update_where p (λ a. key a == key x) f xs
                  (λ a. ap (λ k. k == key x) (same a)),
              h.0,
            )),
        update_where-HasUniqueKeys p f xs same h.1,
      )

  pub append-HasUniqueKeys :
      (xs : List A) (x : A)
      → HasUniqueKeys xs
      → find_where (λ a. key a == key x) xs ≡ none
      → HasUniqueKeys (xs ++ x ∷ [])
  unfolding find_where
  append-HasUniqueKeys [] x h fresh = (refl, tt)
  append-HasUniqueKeys (y ∷ xs) x h fresh = (
    ground (
      arith,
      find_where-append (λ a. key a == key y) xs (x ∷ []),
      h.0,
      fresh,
      eq_iff (key x) (key y),
      eq_iff (key y) (key x),
    ),
    append-HasUniqueKeys xs x h.1 (ground (arith, fresh)),
  )

pub record IsValid (s : ControlStore) : Type 0 where
  pub tables : HasUniqueKeys (λ a. a.table_name) s.states
  pub runs : HasUniqueKeys (λ a. a.run_id) s.audits

-- Under the primary key the row of a table at a version is the table's row, at that version.
pub find-is_table_at :
    (t : String) (v : ℕ) (xs : List WatermarkState)
    → HasUniqueKeys (λ a. a.table_name) xs
    → find_where (is_table_at t v) xs ≡ elim (find_where (is_table t) xs) [
      | none ↦ none
      | some st ↦ (if eqb st.version v then some st else none)
    ]
unfolding find_where
find-is_table_at t v [] h = refl
find-is_table_at t v (x ∷ xs) h = elim (Bool-cases (x.table_name == t)) [
  | inl e ↦ ground (
    arith,
    find-is_table_at t v xs h.1,
    h.0,
    e,
    (eq_iff x.table_name t).0 e,
    ap (λ k. find_where (is_table k) xs) ((eq_iff x.table_name t).0 e),
  )
  | inr e ↦ ground (arith, find-is_table_at t v xs h.1, e)
]
