-- ===== src/Watermark/Store/Atomic.antt =====
-- `commit_successful_run` is one transaction with a compare-and-swap on the version.
use native.Mathlib.Decide.{ℕ_discrete}
use incremental_cdc_data_pla.Base.{
  update_where, find_where, map_option, find_where-update_where, find_where_sound, count_where-zero,
  ℕ, String, ◌≡◌, refl, ◌≢◌, ◌==◌, ◌⊎◌, eq_iff, inl, inr, true, Bool-cases, Option-cases, Option,
  none, some, arith, is_some, if◌then◌else◌,
}
use incremental_cdc_data_pla.Watermark.Models.{CompositeWatermark}
use incremental_cdc_data_pla.Watermark.Store.{
  commit_error, concurrency_error, Result, WatermarkState, WatermarkRunAudit, ControlStore, ok,
  raise, is_table, is_run, state_of, get_run_audit, update_audits,
}
use incremental_cdc_data_pla.Watermark.Store.Commit.{
  is_table_at, advance, set_success, commit_successful_run,
}
use incremental_cdc_data_pla.Watermark.Store.Laws.{IsValid, find-is_table_at}

-- The version of a table, if it has a row.
abbrev pub version_of : String → ControlStore → Option ℕ
version_of t s = elim (state_of t s) [ none ↦ none | some st ↦ some st.version ]

module _ (t : String) (v : ℕ) (w : CompositeWatermark) (run : String) (rows : ℕ)
    (path done now : String) (s : ControlStore) where
  -- The store that a successful commit leaves.
  abbrev pub committed : ControlStore
  committed = record {
    states = update_where (is_table_at t v) (advance w run now) s.states;
    audits = update_where (is_run run) (set_success rows path done) s.audits;
  }

  state-committed :
      (u : String)
      → state_of u committed
        ≡ map_option (λ a. if is_table_at t v a then advance w run now a else a) (state_of u s)
  state-committed u =
      find_where-update_where (is_table_at t v) (is_table u) (advance w run now) s.states
        (λ a. refl)

  pub state-committed_self :
      {st : WatermarkState}
      → state_of t s ≡ some st
      → st.version ≡ v
      → state_of t committed ≡ some (advance w run now st)
  state-committed_self {st} found at =
      ground (arith, state-committed t, find_where_sound (is_table t) s.states st found)

  pub state-committed_ne : (u : String) → u ≢ t → state_of u committed ≡ state_of u s
  state-committed_ne u ne = elim (Option-cases (state_of u s)) [
    | inl e ↦ ground (arith, state-committed u)
    | inr (st, e) ↦ ground (
      arith,
      state-committed u,
      find_where_sound (is_table u) s.states st e,
      eq_iff st.table_name u,
      eq_iff st.table_name t,
    )
  ]

  pub audit-committed :
      (r : String)
      → get_run_audit r committed
        ≡ map_option
            (λ a. if is_run run a then set_success rows path done a else a)
            (get_run_audit r s)
  audit-committed r =
      find_where-update_where (is_run run) (is_run r) (set_success rows path done) s.audits
        (λ a. refl)

  pub commit-runs :
      IsValid s
      → {st : WatermarkState} {a : WatermarkRunAudit} → state_of t s ≡ some st
      → st.version ≡ v
      → get_run_audit run s ≡ some a
      → commit_successful_run t v w run rows path done now s
        ≡ (ok (advance w run now st), committed)
  unfolding commit_successful_run update_audits
  commit-runs valid {st} {a} found at audited = ground (
    arith,
    count_where-zero (is_table_at t v) s.states,
    find-is_table_at t v s.states valid.tables,
    count_where-zero (is_run run) s.audits,
    state-committed_self found at,
  )

  -- The rows of `watermark_state` as a later query finds them.
  state-committed_view :
      {st : WatermarkState}
      → state_of t s ≡ some st
      → st.version ≡ v
      → (u : String)
      → state_of u committed ≡ (if u == t then some (advance w run now st) else state_of u s)
  state-committed_view {st} found at u = elim (Bool-cases (u == t)) [
    | inl same ↦ rw (same, (eq_iff u t).0 same) (state-committed_self found at)
    | inr other ↦ rw other (state-committed_ne u (λ e. cc ((eq_iff u t).1 e, other)))
  ]

  -- What `commit_successful_run` has done, by how it ended.
  abbrev pub Commits : Result WatermarkState × ControlStore → Type 0
  Commits (ok st', s') =
      (st : WatermarkState) × (state_of t s ≡ some st)
      × (st.version ≡ v)
      × (st' ≡ advance w run now st)
      × ((u : String) → state_of u s' ≡ (if u == t then some st' else state_of u s))
      × (is_some (get_run_audit run s) ≡ true)
      × ((r : String)
          → get_run_audit r s'
            ≡ map_option (λ a. if is_run run a then set_success rows path done a else a)
                (get_run_audit r s))
  Commits (raise e, s') =
      (s' ≡ s)
      × (((e ≡ concurrency_error) × (version_of t s ≢ some v))
          ⊎ ((e ≡ commit_error) × (get_run_audit run s ≡ none)))

  commit-refused :
      IsValid s
      → find_where (is_table_at t v) s.states ≡ none
      → commit_successful_run t v w run rows path done now s ≡ (raise concurrency_error, s)
  unfolding commit_successful_run
  commit-refused valid absent = ground (arith, count_where-zero (is_table_at t v) s.states)

  commit-unaudited :
      (st : WatermarkState)
      → find_where (is_table_at t v) s.states ≡ some st
      → get_run_audit run s ≡ none
      → commit_successful_run t v w run rows path done now s ≡ (raise commit_error, s)
  unfolding commit_successful_run
  commit-unaudited st found unaudited =
      ground
        (arith, count_where-zero (is_table_at t v) s.states, count_where-zero (is_run run) s.audits)

  found_at :
      IsValid s
      → (st : WatermarkState) → state_of t s ≡ some st
      → st.version ≡ v
      → find_where (is_table_at t v) s.states ≡ some st
  found_at valid st e at = ground (arith, find-is_table_at t v s.states valid.tables)

  absent_at :
      IsValid s
      → ((st : WatermarkState) → state_of t s ≡ some st → st.version ≢ v)
      → find_where (is_table_at t v) s.states ≡ none
  absent_at valid other = elim (Option-cases (state_of t s)) [
    | inl e ↦ ground (arith, find-is_table_at t v s.states valid.tables)
    | inr (st, e) ↦ ground (arith, find-is_table_at t v s.states valid.tables, other st e)
  ]

  version_differs :
      ((st : WatermarkState) → state_of t s ≡ some st → st.version ≢ v) → version_of t s ≢ some v
  version_differs other h = elim (Option-cases (state_of t s)) [
    | inl e ↦ cc
    | inr (st, e) ↦ other st e (ground arith)
  ]

  refused :
      IsValid s
      → ((st : WatermarkState) → state_of t s ≡ some st → st.version ≢ v)
      → Commits (commit_successful_run t v w run rows path done now s)
  refused valid other =
      rw (commit-refused valid (absent_at valid other)) (refl, inl (refl, version_differs other))

  at_version :
      IsValid s
      → (st : WatermarkState) → state_of t s ≡ some st
      → st.version ≡ v
      → Commits (commit_successful_run t v w run rows path done now s)
  at_version valid st found at = elim (Option-cases (get_run_audit run s)) [
    | inl e ↦ rw (commit-unaudited st (found_at valid st found at) e) (refl, inr (refl, e))
    | inr (a, e) ↦
        rw (commit-runs valid found at e)
          (st, found, at, refl, state-committed_view found at, rw e, audit-committed)
  ]

  -- On a store that keeps its primary keys the commit is all or nothing. It succeeds only at the
  -- expected version of the table and with an audit of the run: then the table's row has the new
  -- watermark and the next version, every other table's row is as before, and the audit of the run
  -- alone has the outcome. Otherwise the store is as before: the table is absent or at another
  -- version, or the run has no audit.
  pub commit_successful_run_lem :
      IsValid s → Commits (commit_successful_run t v w run rows path done now s)
  commit_successful_run_lem valid = elim (Option-cases (state_of t s)) [
    | inl e ↦ refused valid (λ st found. cc)
    | inr (st, e) ↦ elim (ℕ_discrete st.version v) [
      | yes at ↦ at_version valid st e at
      | no other ↦ refused valid (λ st' found at. ground arith)
    ]
  ]
