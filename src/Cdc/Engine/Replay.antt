-- ===== src/Cdc/Engine/Replay.antt =====
-- Whole batches of src/source/mutation_engine.py: what they count, and their replay.
use incremental_cdc_data_pla.Base.{
  ◌+◌, ◌++◌, String, ◌≡◌, refl, Bool, true, false, Option, none, some, List, [], ◌∷◌, arith, length,
  All, inl, inr, Bool-cases, Option-cases, ◌∙◌, subst, if◌then◌else◌, sort_by, sort_by-length,
  sort_by-All, All-sort_by,
}
use incremental_cdc_data_pla.Cdc.{CdcEvent}
use incremental_cdc_data_pla.Cdc.Validator.{validate}
use incremental_cdc_data_pla.Cdc.Engine.{
  External, Engine, is_seen, current_sequence, apply_event, MutationResult, no_result, batch_step,
  apply_all, event_lt, apply_batch,
}
use incremental_cdc_data_pla.Cdc.Engine.Batch.{
  le_int_refl, le_int_trans, Rises, total, is_settled, batch_step_lem,
}

-- The events one after the other, each by `apply_event` alone.
pub apply_each : External → List CdcEvent → Engine → Option Engine
apply_each x [] s = some s
apply_each x (e ∷ es) s = elim (apply_event x true e s) [
  | none ↦ none
  | some (b, s') ↦ apply_each x es s'
]

abbrev KeepsSeen : Engine → Engine → Type 0
KeepsSeen s s' =
    (i : String) → is_seen i s.seen_event_ids ≡ true → is_seen i s'.seen_event_ids ≡ true

settled_kept :
    (x : External) (e : CdcEvent) (s s' : Engine)
    → KeepsSeen s s'
    → is_settled x e s ≡ true
    → is_settled x e s' ≡ true
unfolding is_settled
settled_kept x e s s' kept h = elim (Option-cases (validate x.timestamps e)) [
  | inl fails ↦ ground arith
  | inr (r, runs) ↦ ground (arith, kept e.event_id)
]

-- What a batch does.
record Runs (x : External) (es : List CdcEvent) (m : MutationResult) (s : Engine)
    (m' : MutationResult) (s' : Engine) : Type 0 where
  counted : total m' ≡ total m + length es
  settles : All (λ e. is_settled x e s' ≡ true) es
  seen_kept : KeepsSeen s s'
  rises : Rises s s'
  each : apply_each x es s ≡ some s'

abbrev Outcome : External → List CdcEvent → MutationResult → Engine → Type 0
Outcome x es m s =
    (m' : MutationResult) × (s' : Engine) × (apply_all x es m s ≡ some (m', s'))
    × Runs x es m s m' s'

apply_all_lem :
    (x : External) (es : List CdcEvent) (m : MutationResult) (s : Engine) → Outcome x es m s
unfolding apply_all apply_each
apply_all_lem x [] m s = (
  m,
  s,
  refl,
  record {
    counted = omega arith;
    settles = tt;
    seen_kept = λ i h. h;
    rises = λ u j. le_int_refl (current_sequence u j s);
    each = refl;
  },
)
apply_all_lem x (e ∷ es) m s =
    let (m1, s1, runs1, step) = batch_step_lem x e m s in
    let (m2, s2, runs2, rest) = apply_all_lem x es m1 s1 in
    (
      m2,
      s2,
      rw (apply_all, runs1) runs2,
      record {
        counted = omega (arith, step.counted, rest.counted);
        settles = (settled_kept x e s1 s2 rest.seen_kept step.settles, rest.settles);
        seen_kept = λ i h. rest.seen_kept i (step.seen_kept i h);
        rises = λ u j.
            le_int_trans (current_sequence u j s) (current_sequence u j s1)
              (current_sequence u j s2) (step.rises u j) (rest.rises u j);
        each = rw (apply_each, step.alone) rest.each;
      },
    )

-- An event that is settled changes nothing but a count.
settled_step :
    (x : External) (e : CdcEvent) (m : MutationResult) (s : Engine)
    → is_settled x e s ≡ true
    → (m' : MutationResult) × (batch_step x e m s ≡ some (m', s))
      × (m'.applied_count ≡ m.applied_count)
unfolding is_settled batch_step
settled_step x e m s h = elim (Option-cases (validate x.timestamps e)) [
  | inl fails ↦ absurd (ground arith)
  | inr (r, runs) ↦ elim (Bool-cases r.is_valid) [
    | inr bad ↦ (
      record m { invalid_count = m.invalid_count + 1; errors = m.errors ++ r.errors },
      rw (runs, bad) refl,
      refl,
    )
    | inl good ↦
        let seen : is_seen e.event_id s.seen_event_ids ≡ true = ground arith in
        (record m { duplicate_count = m.duplicate_count + 1 }, rw (runs, good, seen) refl, refl)
  ]
]

settled-All :
    (x : External) (es : List CdcEvent) (m : MutationResult) (s : Engine)
    → All (λ e. is_settled x e s ≡ true) es
    → (m' : MutationResult) × (apply_all x es m s ≡ some (m', s))
      × (m'.applied_count ≡ m.applied_count)
unfolding apply_all
settled-All x [] m s h = (m, refl, refl)
settled-All x (e ∷ es) m s h =
    let (m1, runs1, same1) = settled_step x e m s h.0 in
    let (m2, runs2, same2) = settled-All x es m1 s h.1 in
    (m2, rw (apply_all, runs1) runs2, same2 ∙ same1)

abbrev order : External → Bool → List CdcEvent → List CdcEvent
order x sorts es = if sorts then sort_by (event_lt x) es else es

order-length :
    (x : External) (sorts : Bool) (es : List CdcEvent) → length (order x sorts es) ≡ length es
order-length x true es = sort_by-length (event_lt x) es
order-length x false es = refl

order-All :
    (x : External) (P : CdcEvent → Type 0) (sorts : Bool) (es : List CdcEvent)
    → All P es
    → All P (order x sorts es)
order-All x P true es h = sort_by-All (event_lt x) P es h
order-All x P false es h = h

All-order :
    (x : External) (P : CdcEvent → Type 0) (sorts : Bool) (es : List CdcEvent)
    → All P (order x sorts es)
    → All P es
All-order x P true es h = All-sort_by (event_lt x) P es h
All-order x P false es h = h

-- A batch never raises. It counts each event once, as applied, duplicate, stale or invalid; it never lowers the
-- sequence of an entity; and it leaves the state that applying its events in order, one by one and
-- with the sequence enforced, leaves.
pub apply_batch_lem :
    (x : External) (sorts : Bool) (es : List CdcEvent) (s : Engine)
    → (m : MutationResult) × (s' : Engine) × (apply_batch x sorts es s ≡ some (m, s'))
      × (total m ≡ length es)
      × Rises s s'
      × (apply_each x (if sorts then sort_by (event_lt x) es else es) s ≡ some s')
unfolding apply_batch
apply_batch_lem x sorts es s =
    let (m, s', runs, done) = apply_all_lem x (order x sorts es) no_result s in
    (m, s', runs, omega (arith, done.counted, order-length x sorts es), done.rises, done.each)

-- A batch that is applied again, in either order, applies no event and leaves the state as it is.
pub apply_batch_replay :
    (x : External) (sorts again : Bool) (es : List CdcEvent) (s s' : Engine) (m : MutationResult)
    → apply_batch x sorts es s ≡ some (m, s')
    → (m' : MutationResult) × (apply_batch x again es s' ≡ some (m', s')) × (m'.applied_count ≡ 0)
unfolding apply_batch
apply_batch_replay x sorts again es s s' m h =
    let (m1, s1, runs, done) = apply_all_lem x (order x sorts es) no_result s in
    let same : s1 ≡ s' = ground (arith, runs, h) in
    let settles : All (λ e. is_settled x e s' ≡ true) es =
      subst (λ z. All (λ e. is_settled x e z ≡ true) es) same
        (All-order x (λ e. is_settled x e s1 ≡ true) sorts es done.settles) in
    settled-All x (order x again es) no_result s'
      (order-All x (λ e. is_settled x e s' ≡ true) again es settles)
