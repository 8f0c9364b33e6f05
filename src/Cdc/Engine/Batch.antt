-- ===== src/Cdc/Engine/Batch.antt =====
-- What one event of a batch of src/source/mutation_engine.py does, on each branch.
use incremental_cdc_data_pla.Base.{
  ℕ, suc, ◌+◌, ◌++◌, String, ◌≡◌, refl, Bool, true, false, not, ◌||◌, Option, none, some, arith,
  ◌==◌, eq_iff, eq_refl, inl, inr, Bool-cases, Option-cases, is_some, ap, Dict, insert, lookup,
  lookup-insert, if◌then◌else◌,
}
use incremental_cdc_data_pla.Cdc.{
  ℤ, pos, negsuc, le_int, CdcEvent, Table, accounts, subscriptions, invoices, payments, primary_key,
}
use incremental_cdc_data_pla.Cdc.Validator.{ValidationResult, validate}
use incremental_cdc_data_pla.Cdc.Validator.Rules.{IsWellFormed, validate_lem}
use incremental_cdc_data_pla.Cdc.Validator.Rules.Each.{has_of_truthy}
use incremental_cdc_data_pla.Cdc.Engine.{
  External, Engine, same_table, set_table, is_seen, mark_seen, current_sequence, max_int,
  write_event, entity_of, apply_to, apply_event, MutationResult, batch_step, or_zero,
}

pub le_int_refl : (a : ℤ) → le_int a a ≡ true
le_int_refl (pos n) = ground arith
le_int_refl (negsuc n) = ground arith

le_int_max : (a b : ℤ) → le_int a (max_int a b) ≡ true
le_int_max (pos n) (pos m) = ground arith
le_int_max (pos n) (negsuc m) = ground arith
le_int_max (negsuc n) (pos m) = refl
le_int_max (negsuc n) (negsuc m) = ground arith

pub le_int_trans : (a b c : ℤ) → le_int a b ≡ true → le_int b c ≡ true → le_int a c ≡ true
le_int_trans (pos n) (pos m) (pos k) h g = ground arith
le_int_trans (pos n) (pos m) (negsuc k) h g = g
le_int_trans (pos n) (negsuc m) c h g = absurd (ground arith)
le_int_trans (negsuc n) b (pos k) h g = refl
le_int_trans (negsuc n) (pos m) (negsuc k) h g = absurd (ground arith)
le_int_trans (negsuc n) (negsuc m) (negsuc k) h g = ground arith

same_table_sound : (t u : Table) → same_table t u ≡ true → t ≡ u
same_table_sound accounts accounts h = refl
same_table_sound subscriptions subscriptions h = refl
same_table_sound invoices invoices h = refl
same_table_sound payments payments h = refl
same_table_sound accounts subscriptions h = absurd (ground arith)
same_table_sound accounts invoices h = absurd (ground arith)
same_table_sound accounts payments h = absurd (ground arith)
same_table_sound subscriptions accounts h = absurd (ground arith)
same_table_sound subscriptions invoices h = absurd (ground arith)
same_table_sound subscriptions payments h = absurd (ground arith)
same_table_sound invoices accounts h = absurd (ground arith)
same_table_sound invoices subscriptions h = absurd (ground arith)
same_table_sound invoices payments h = absurd (ground arith)
same_table_sound payments accounts h = absurd (ground arith)
same_table_sound payments subscriptions h = absurd (ground arith)
same_table_sound payments invoices h = absurd (ground arith)

-- No sequence of an entity falls.
abbrev pub Rises : Engine → Engine → Type 0
Rises s s' =
    (u : Table) (j : String) → le_int (current_sequence u j s) (current_sequence u j s') ≡ true

Rises-mark_seen : (i : String) (s : Engine) → Rises s (mark_seen i s)
unfolding mark_seen current_sequence
Rises-mark_seen i s u j = le_int_refl (current_sequence u j s)

insert_rises :
    (k j : String) (n : ℤ) (d : Dict ℤ)
    → le_int
        (or_zero (lookup j d))
        (or_zero (lookup j (insert k (max_int (or_zero (lookup k d)) n) d)))
      ≡ true
insert_rises k j n d = elim (Bool-cases (k == j)) [
  | inl same ↦
      rw (lookup-insert k j (max_int (or_zero (lookup k d)) n) d, same, (eq_iff k j).0 same)
        (le_int_max (or_zero (lookup j d)) n)
  | inr other ↦
      rw (lookup-insert k j (max_int (or_zero (lookup k d)) n) d, other)
        (le_int_refl (or_zero (lookup j d)))
]

Rises-write_event :
    (e : CdcEvent) (t : Table) (k : String) (s : Engine) → Rises s (write_event e t k s)
unfolding write_event set_table current_sequence
Rises-write_event e t k s u j = elim (Bool-cases (same_table t u)) [
  | inr other ↦ rw other (le_int_refl (current_sequence u j s))
  | inl same ↦
      rw (same, same_table_sound t u same)
        (insert_rises k j e.sequence_number (s.entity_sequences u))
]

abbrev pub total : MutationResult → ℕ
total m = m.applied_count + m.duplicate_count + m.stale_sequence_count + m.invalid_count

-- An event that validation refuses, or whose identity was seen.
abbrev pub settled_by : Option ValidationResult → CdcEvent → Engine → Bool
settled_by none e s = false
settled_by (some r) e s = not r.is_valid || is_seen e.event_id s.seen_event_ids

unfoldable pub is_settled : External → CdcEvent → Engine → Bool
is_settled x e s = settled_by (validate x.timestamps e) e s

-- What one event does to the counts and the state.
pub record Steps (x : External) (e : CdcEvent) (m : MutationResult) (s : Engine)
    (m' : MutationResult) (s' : Engine) : Type 0 where
  pub counted : total m' ≡ suc (total m)
  pub settles : is_settled x e s' ≡ true
  pub seen_kept :
      (i : String) → is_seen i s.seen_event_ids ≡ true → is_seen i s'.seen_event_ids ≡ true
  pub rises : Rises s s'
  pub applied : Bool
  pub alone : apply_event x true e s ≡ some (applied, s')
  pub tells : m'.applied_count ≡ (if applied then suc m.applied_count else m.applied_count)

valid-entity :
    (x : External) (e : CdcEvent) → IsWellFormed x.timestamps e → is_some (entity_of x e) ≡ true
unfolding entity_of
valid-entity x e f =
    rw (f.table_known, has_of_truthy (primary_key f.table) e.business_key f.keyed) refl

module _ (x : External) (e : CdcEvent) (m : MutationResult) (s : Engine) where
  abbrev Outcome : Type 0
  Outcome =
      (m' : MutationResult) × (s' : Engine) × (batch_step x e m s ≡ some (m', s'))
      × Steps x e m s m' s'

  invalid_step :
      (r : ValidationResult) → validate x.timestamps e ≡ some r → r.is_valid ≡ false → Outcome
  unfolding batch_step apply_event is_settled
  invalid_step r runs bad = (
    record m { invalid_count = m.invalid_count + 1; errors = m.errors ++ r.errors },
    s,
    rw (runs, bad) refl,
    record {
      counted = omega arith;
      settles = rw (runs, bad) refl;
      seen_kept = λ i h. h;
      rises = λ u j. le_int_refl (current_sequence u j s);
      applied = false;
      alone = rw (runs, bad) refl;
      tells = refl;
    },
  )

  seen_step :
      (r : ValidationResult)
      → validate x.timestamps e ≡ some r
      → r.is_valid ≡ true
      → is_seen e.event_id s.seen_event_ids ≡ true
      → Outcome
  unfolding batch_step apply_event is_settled
  seen_step r runs good seen = (
    record m { duplicate_count = m.duplicate_count + 1 },
    s,
    rw (runs, good, seen) refl,
    record {
      counted = omega arith;
      settles = rw (runs, good, seen) refl;
      seen_kept = λ i h. h;
      rises = λ u j. le_int_refl (current_sequence u j s);
      applied = false;
      alone = rw (runs, good, seen) refl;
      tells = refl;
    },
  )

  module _ (r : ValidationResult) (runs : validate x.timestamps e ≡ some r)
      (good : r.is_valid ≡ true) (fresh : is_seen e.event_id s.seen_event_ids ≡ false) (t : Table)
      (k : String) (at : entity_of x e ≡ some (t, k)) where
    stale_step : le_int e.sequence_number (current_sequence t k s) ≡ true → Outcome
    unfolding batch_step apply_event apply_to is_settled mark_seen is_seen
    stale_step old = (
      record m { stale_sequence_count = m.stale_sequence_count + 1 },
      mark_seen e.event_id s,
      rw (runs, good, fresh, at, old) refl,
      record {
        counted = omega arith;
        settles = rw (runs, good, eq_refl e.event_id) refl;
        seen_kept = λ i h. ground arith;
        rises = Rises-mark_seen e.event_id s;
        applied = false;
        alone = rw (runs, good, fresh, at, old) refl;
        tells = refl;
      },
    )

    apply_alone :
        le_int e.sequence_number (current_sequence t k s) ≡ false
        → apply_event x true e s ≡ some (true, write_event e t k s)
    unfolding apply_event apply_to
    apply_alone newer = rw (runs, good, fresh, at, newer) refl

    apply_batched :
        le_int e.sequence_number (current_sequence t k s) ≡ false
        → batch_step x e m s
          ≡ some (record m { applied_count = m.applied_count + 1 }, write_event e t k s)
    unfolding batch_step
    apply_batched newer = rw (runs, good, fresh, at, newer, apply_alone newer) refl

    apply_step : le_int e.sequence_number (current_sequence t k s) ≡ false → Outcome
    unfolding is_settled write_event is_seen
    apply_step newer = (
      record m { applied_count = m.applied_count + 1 },
      write_event e t k s,
      apply_batched newer,
      record {
        counted = omega arith;
        settles = rw (runs, good, eq_refl e.event_id) refl;
        seen_kept = λ i h. ground arith;
        rises = Rises-write_event e t k s;
        applied = true;
        alone = apply_alone newer;
        tells = omega arith;
      },
    )

    fresh_step : Outcome
    fresh_step = elim (Bool-cases (le_int e.sequence_number (current_sequence t k s))) [
      | inl old ↦ stale_step old
      | inr newer ↦ apply_step newer
    ]

  valid_step :
      (r : ValidationResult)
      → validate x.timestamps e ≡ some r
      → r.is_valid ≡ true
      → IsWellFormed x.timestamps e
      → Outcome
  valid_step r runs good f = elim (Bool-cases (is_seen e.event_id s.seen_event_ids)) [
    | inl seen ↦ seen_step r runs good seen
    | inr fresh ↦ elim (Option-cases (entity_of x e)) [
      | inl none_there ↦ absurd (cc (valid-entity x e f, ap is_some none_there))
      | inr ((t, k), at) ↦ fresh_step r runs good fresh t k at
    ]
  ]

  -- Each event has an outcome; none raises.
  pub batch_step_lem : Outcome
  batch_step_lem =
      let (r, runs, fits) = validate_lem x.timestamps e in
      elim (Bool-cases r.is_valid) [
        | inl good ↦ valid_step r runs good (fits.0 good)
        | inr bad ↦ invalid_step r runs bad
      ]
