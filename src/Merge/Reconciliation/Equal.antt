-- ===== src/Merge/Reconciliation/Equal.antt =====
-- src/merge/reconciliation.py: the tables reconcile exactly where they have the golden state.
use incremental_cdc_data_pla.Base.{
  String, ◌≡◌, refl, ◌∙◌, true, false, not, Option, none, some, List, [], ◌∷◌, map, keep-All, All,
  arith, Dict, lookup, ◌↔◌, Bool-cases, inl, inr,
}
use incremental_cdc_data_pla.Cdc.{
  Fields, no_fields, field, has, Table, accounts, subscriptions, invoices, payments, primary_key,
}
use incremental_cdc_data_pla.Cdc.Engine.{Engine}
use incremental_cdc_data_pla.Cdc.Engine.Snapshot.{values_of, get_snapshot_state}
use incremental_cdc_data_pla.Merge.{External, TargetRow}
use incremental_cdc_data_pla.Merge.Engine.{Targets}
use incremental_cdc_data_pla.Merge.Target.{returned, visible_rows, read_current_table}
use incremental_cdc_data_pla.Merge.Reconciliation.{
  Normalizer, norm_dict, Report, index_by_key, add_table, table_names, reconcile_tables, reconcile,
}
use incremental_cdc_data_pla.Merge.Reconciliation.Index.{
  IsDistinct, or_else, last_with, index_by_key_lem,
}
use incremental_cdc_data_pla.Merge.Reconciliation.Agrees.{agrees, is_clean, is_clean-agrees}

-- The rows of a Delta table that are not deleted, as the report compares them.
abbrev pub delta_dicts : Normalizer → List TargetRow → List Fields
delta_dicts f rows = map (λ r. norm_dict f r.columns) (visible_rows false rows)

has-norm_dict : (f : Normalizer) (k : String) (d : Fields) → has k (norm_dict f d) ≡ has k d
unfolding has norm_dict
has-norm_dict f k no_fields = refl
has-norm_dict f k (field j v d) = rw (has-norm_dict f k d) refl

or_else-none : (x : External) (pk : String) (o : Option Fields) → or_else x pk o none ≡ o
or_else-none x pk none = refl
or_else-none x pk (some r) = refl

dicts-All :
    (f : Normalizer) (pk : String) (rows : List TargetRow)
    → All (λ r. has pk r.columns ≡ true) rows
    → All (λ d. has pk d ≡ true) (map (λ r. norm_dict f r.columns) rows)
dicts-All f pk [] h = tt
dicts-All f pk (r ∷ rows) h = (has-norm_dict f pk r.columns ∙ h.0, dicts-All f pk rows h.1)

module _ (x : External) where
  -- The index of rows that have the primary key.
  full_index :
      (pk : String) (rows : List Fields)
      → All (λ r. has pk r ≡ true) rows
      → (m : Dict Fields) × (index_by_key x pk rows [] ≡ some m)
        × IsDistinct m
        × ((k : String) → lookup k m ≡ last_with x pk k rows)
  unfolding lookup
  full_index pk rows all =
      let (m, e, once, finds) = index_by_key_lem x pk rows [] all tt in
      (m, e, once, λ k. finds k ∙ or_else-none x pk (last_with x pk k rows))

  add_table-reconciled :
      (name : String) (oracle delta : Dict Fields) (r : Report)
      → ((add_table x name oracle delta r).is_reconciled ≡ true)
        ↔ ((is_clean x oracle delta ≡ true) × (r.is_reconciled ≡ true))
  add_table-reconciled name oracle delta r = (
    (λ h. elim (Bool-cases (is_clean x oracle delta)) [
      | inl clean ↦ ground (arith, h, clean)
      | inr unclean ↦ absurd (ground (arith, h, unclean))
    ]),
    (λ h. ground (arith, h.0, h.1)),
  )

  module _ (f : Normalizer) (targets : Targets) (s : Engine) (rows : Table → List TargetRow)
      (there : (t : Table) → targets t ≡ some (rows t))
      (keyed_oracle : (t : Table)
        → All (λ r. has (primary_key t) r ≡ true) (values_of (s.tables t)))
      (keyed_delta : (t : Table) → All (λ r. has (primary_key t) r.columns ≡ true) (rows t)) where
    -- A table has the golden rows under each key.
    abbrev IsEqual : Table → Type 0
    IsEqual t =
        (k : String)
        → agrees x (last_with x (primary_key t) k (values_of (s.tables t)))
            (last_with x (primary_key t) k (delta_dicts f (rows t)))
          ≡ true

    reconcile_tables_lem :
        (state : Dict (List Fields)) (names : List (String × Table))
        → All (λ e. lookup e.0 state ≡ some (values_of (s.tables e.1))) names
        → (r : Report) × (reconcile_tables x f state targets names ≡ returned r)
          × ((r.is_reconciled ≡ true) ↔ All (λ e. IsEqual e.1) names)
    unfolding reconcile_tables read_current_table
    reconcile_tables_lem state [] h = (
      record { is_reconciled = true; counts = []; mismatches = [] },
      refl,
      ((λ k. tt), (λ k. refl)),
    )
    reconcile_tables_lem state ((name, t) ∷ names) h =
        let pk = primary_key t in
        let (oracle, eo, once_o, finds_o) =
          full_index pk (values_of (s.tables t)) (keyed_oracle t) in
        let (delta, ed, once_d, finds_d) = full_index pk (delta_dicts f (rows t)) (
          dicts-All f pk (visible_rows false (rows t)) (
            keep-All (λ r. not r.is_deleted) (λ r. has pk r.columns ≡ true) (rows t)
              (keyed_delta t))) in
        let (r, er, equal) = reconcile_tables_lem state names h.1 in
        let clean = is_clean-agrees x oracle delta once_o once_d in
        let both = add_table-reconciled name oracle delta r in
        (
          add_table x name oracle delta r,
          rw (h.0, eo, there t, ed, er) refl,
          (
            (λ k.
                let parts = both.0 k in
                ((λ i. rw (← finds_o i, ← finds_d i) (clean.0 parts.0 i)), equal.0 parts.1)),
            (λ all. both.1 (clean.1 (λ i. rw (finds_o i, finds_d i) (all.0 i)), equal.1 all.1)),
          ),
        )

-- Where the four Delta tables exist, and each row on both sides has its primary key, the
-- reconciliation returns a report; it says that the tables are reconciled exactly where, under every
-- key of every table, the golden state and the undeleted rows of the Delta table both have no row,
-- or both have one and the columns of the golden row, as texts, are in the other.
pub reconcile_lem :
    (x : External) (f : Normalizer) (targets : Targets) (s : Engine) (rows : Table → List TargetRow)
    → ((t : Table) → targets t ≡ some (rows t))
    → ((t : Table) → All (λ r. has (primary_key t) r ≡ true) (values_of (s.tables t)))
    → ((t : Table) → All (λ r. has (primary_key t) r.columns ≡ true) (rows t))
    → (r : Report) × (reconcile x f targets s ≡ returned r)
      × ((r.is_reconciled ≡ true) ↔ (
          (t : Table) (k : String)
          → agrees x
              (last_with x (primary_key t) k (values_of (s.tables t)))
              (last_with x (primary_key t) k (delta_dicts f (rows t)))
            ≡ true))
unfolding reconcile get_snapshot_state lookup
reconcile_lem x f targets s rows there keyed_oracle keyed_delta =
    let (r, e, equal) =
      reconcile_tables_lem x f targets s rows there keyed_oracle keyed_delta (get_snapshot_state s)
        (table_names x) (refl, (refl, (refl, (refl, tt)))) in
    (
      r,
      e,
      (
        (λ h. every (IsEqual x f targets s rows there keyed_oracle keyed_delta) (equal.0 h)),
        (λ h. equal.1 (h accounts, (h subscriptions, (h invoices, (h payments, tt))))),
      ),
    )
  where
    every :
        (P : Table → Type 0)
        → P accounts × (P subscriptions × (P invoices × (P payments × Unit {0})))
        → (t : Table) → P t
    every P q accounts = q.0
    every P q subscriptions = q.1.0
    every P q invoices = q.1.1.0
    every P q payments = q.1.1.1.0
