-- ===== src/Cdf/Checkpoints.antt =====
-- The checkpoints of src/cdf/state_store.py never go back.
use incremental_cdc_data_pla.Base.{
  find_where, update_where, find_where-update_where, find_where-append, find_where_sound, String,
  ◌≡◌, refl, ◌⊎◌, inl, inr, Bool, true, false, none, some, is_some, arith, ◌==◌, eq_iff, eq_refl,
  ◌∙◌, subst, Bool-cases, Option-cases, if◌then◌else◌, ◌∷◌, [], ◌++◌,
}
use incremental_cdc_data_pla.Cdc.{ℤ, pos, le_int}
use incremental_cdc_data_pla.Cdc.Engine.Batch.{le_int_refl, le_int_trans}
use incremental_cdc_data_pla.Cdf.{
  source_not_found, already_registered, invalid_range, Registration, State, Result, ok, raise,
  is_source, get_source, new_registration, register_source, set_checkpoint, advance_checkpoint,
}

-- What `advance_checkpoint` has done, by how it ended.
abbrev pub Checkpoints : String → ℤ → String → State → Result × State → Type 0
Checkpoints t v now s (ok r', s') =
    (r : Registration) × (get_source t s ≡ some r)
    × (le_int r.last_processed_version v ≡ true)
    × (r' ≡ set_checkpoint v now r)
    × ((u : String) → get_source u s' ≡ (if u == t then some r' else get_source u s))
Checkpoints t v now s (raise e, s') =
    (s' ≡ s)
    × (((e ≡ source_not_found) × (get_source t s ≡ none))
        ⊎ ((e ≡ invalid_range)
            × ((r : Registration) × (get_source t s ≡ some r)
                × (le_int r.last_processed_version v ≡ false))))

checkpoint_view :
    (t u : String) (v : ℤ) (now : String) (s : State) (r : Registration)
    → get_source t s ≡ some r
    → get_source u (update_where (is_source t) (set_checkpoint v now) s)
      ≡ (if u == t then some (set_checkpoint v now r) else get_source u s)
checkpoint_view t u v now s r found =
    rw (find_where-update_where (is_source t) (is_source u) (set_checkpoint v now) s (λ a. refl))
      (elim (Option-cases (get_source u s)) [
        | inl e ↦ ground (arith, e, found, eq_iff u t)
        | inr (q, e) ↦ ground (
          arith,
          e,
          found,
          eq_iff u t,
          eq_iff q.source_table t,
          eq_iff q.source_table u,
          find_where_sound (is_source u) s q e,
        )
      ])

-- A checkpoint moves exactly when the table is registered and its checkpoint is not above the new
-- version: then the row of the table alone has the new version. Otherwise nothing is written, since the table is not registered
-- or the checkpoint would go back.
pub advance_checkpoint_lem :
    (t : String) (v : ℤ) (now : String) (s : State)
    → Checkpoints t v now s (advance_checkpoint t v now s)
unfolding advance_checkpoint
advance_checkpoint_lem t v now s = elim (Option-cases (get_source t s)) [
  | inl e ↦ rw e (refl, inl (refl, e))
  | inr (r, e) ↦ elim (Bool-cases (le_int r.last_processed_version v)) [
    | inr below ↦ rw (e, below) (refl, inr (refl, (r, e, below)))
    | inl above ↦ rw (e, above) (r, e, above, refl, λ u. checkpoint_view t u v now s r e)
  ]
]

-- What `register_source` has done, by how it ended.
abbrev pub Registers : String → String → ℤ → String → State → Result × State → Type 0
Registers t path start now s (ok r, s') =
    ((get_source t s ≡ some r) × (s' ≡ s))
    ⊎ ((get_source t s ≡ none)
        × (r ≡ new_registration t path start now)
        × ((u : String) → get_source u s' ≡ (if u == t then some r else get_source u s)))
Registers t path start now s (raise e, s') =
    (s' ≡ s)
    × (((e ≡ invalid_range) × (le_int (pos 0) start ≡ false))
        ⊎ ((e ≡ already_registered) × (is_some (get_source t s) ≡ true)))

registered_view :
    (t u path : String) (start : ℤ) (now : String) (s : State)
    → get_source t s ≡ none
    → get_source u (s ++ new_registration t path start now ∷ [])
      ≡ (if u == t then some (new_registration t path start now) else get_source u s)
unfolding find_where new_registration
registered_view t u path start now s absent =
    let row = new_registration t path start now in
    elim (Bool-cases (u == t)) [
      | inl same ↦
          rw (find_where-append (is_source u) s (row ∷ []), (eq_iff u t).0 same, absent, eq_refl t)
            refl
      | inr other ↦ elim (Option-cases (get_source u s)) [
        | inl e ↦
            ground (
              arith,
              find_where-append (is_source u) s (row ∷ []),
              e,
              other,
              eq_iff t u,
              eq_iff u t,
            )
        | inr (q, e) ↦ ground (arith, find_where-append (is_source u) s (row ∷ []), e, other)
      ]
    ]

-- A registration is made once: a table that has one keeps it, and a new one starts just below the
-- version that enabled the feed. What raises writes nothing.
pub register_source_lem :
    (t path : String) (start : ℤ) (ignore : Bool) (now : String) (s : State)
    → Registers t path start now s (register_source t path start ignore now s)
unfolding register_source
register_source_lem t path start ignore now s = elim (Bool-cases (le_int (pos 0) start)) [
  | inr negative ↦ rw negative (refl, inl (refl, negative))
  | inl fits ↦ elim (Option-cases (get_source t s)) [
    | inl e ↦ rw (fits, e) (inr (e, refl, λ u. registered_view t u path start now s e))
    | inr (r, e) ↦ elim (Bool-cases ignore) [
      | inl keeps ↦ rw (fits, e, keeps) (inl (e, refl))
      | inr strict ↦ rw (fits, e, strict) (refl, inr (refl, rw e refl))
    ]
  ]
]

-- Any sequence of registrations and checkpoints.
pub data Step (s : State) : State → Type 0 where
  register :
      (t path : String) (start : ℤ) (ignore : Bool) (now : String)
      → Step s (register_source t path start ignore now s).1
  checkpoint : (t : String) (v : ℤ) (now : String) → Step s (advance_checkpoint t v now s).1

pub data Reaches (s : State) : State → Type 0 where
  here : Reaches s s
  next : {u v : State} → Reaches s u → Step u v → Reaches s v

-- The same registration, with a checkpoint that is not lower.
pub record IsLater (r r' : Registration) : Type 0 where
  pub same_table : r'.source_table ≡ r.source_table
  pub same_path : r'.source_path ≡ r.source_path
  pub same_start : r'.cdf_start_version ≡ r.cdf_start_version
  pub not_back : le_int r.last_processed_version r'.last_processed_version ≡ true

IsLater-refl : (r : Registration) → IsLater r r
IsLater-refl r = record {
  same_table = refl;
  same_path = refl;
  same_start = refl;
  not_back = le_int_refl r.last_processed_version;
}

IsLater-trans : (a b c : Registration) → IsLater a b → IsLater b c → IsLater a c
IsLater-trans a b c f g = record {
  same_table = g.same_table ∙ f.same_table;
  same_path = g.same_path ∙ f.same_path;
  same_start = g.same_start ∙ f.same_start;
  not_back =
      le_int_trans a.last_processed_version b.last_processed_version c.last_processed_version
        f.not_back g.not_back;
}

abbrev Later : String → Registration → State → Type 0
Later u r s' = (r' : Registration) × (get_source u s' ≡ some r') × IsLater r r'

register-Later :
    (t path : String) (start : ℤ) (now u : String) (s : State) (r : Registration)
    (result : Result × State)
    → Registers t path start now s result
    → get_source u s ≡ some r
    → Later u r result.1
register-Later t path start now u s r (raise e, s') h found = (r, rw h.0 found, IsLater-refl r)
register-Later t path start now u s r (ok q, s') (inl h) found = (r, rw h.1 found, IsLater-refl r)
register-Later t path start now u s r (ok q, s') (inr h) found =
    (r, ground (arith, h.2 u, h.0, found, eq_iff u t), IsLater-refl r)

checkpoint-Later :
    (t u : String) (v : ℤ) (now : String) (s : State) (r : Registration) (result : Result × State)
    → Checkpoints t v now s result
    → get_source u s ≡ some r
    → Later u r result.1
checkpoint-Later t u v now s r (raise e, s') h found = (r, rw h.0 found, IsLater-refl r)
checkpoint-Later t u v now s r (ok q, s') (old, at, above, moved, now_there) found =
    elim (Bool-cases (u == t)) [
      | inr other ↦ (r, ground (arith, now_there u, other, found), IsLater-refl r)
      | inl same ↦
          let is : old ≡ r = ground (arith, at, found, eq_iff u t) in
          (
            set_checkpoint v now r,
            ground (arith, now_there u, same, moved, is),
            record {
              same_table = refl;
              same_path = refl;
              same_start = refl;
              not_back = subst (λ z. le_int z.last_processed_version v ≡ true) is above;
            },
          )
    ]

Step-Later :
    {s s' : State} (u : String) (r : Registration)
    → Step s s'
    → get_source u s ≡ some r
    → Later u r s'
Step-Later {s} u r (register t path start ignore now) found =
    register-Later t path start now u s r (register_source t path start ignore now s)
      (register_source_lem t path start ignore now s) found
Step-Later {s} u r (checkpoint t v now) found =
    checkpoint-Later t u v now s r (advance_checkpoint t v now s) (advance_checkpoint_lem t v now s)
      found

-- Whatever is registered and checkpointed afterwards, a registered table stays registered under its
-- path and start version, and its checkpoint never goes back.
pub Reaches-IsLater :
    {s s' : State} (u : String) (r : Registration)
    → Reaches s s'
    → get_source u s ≡ some r
    → (r' : Registration) × (get_source u s' ≡ some r') × IsLater r r'
Reaches-IsLater u r here found = (r, found, IsLater-refl r)
Reaches-IsLater u r (next way step) found =
    let (r1, found1, later1) = Reaches-IsLater u r way found in
    let (r2, found2, later2) = Step-Later u r1 step found1 in
    (r2, found2, IsLater-trans r r1 r2 later1 later2)
