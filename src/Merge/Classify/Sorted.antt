-- ===== src/Merge/Classify/Sorted.antt =====
-- Where the classification of src/merge/pipeline.py puts the events.
use incremental_cdc_data_pla.Base.{
  String, ◌≡◌, ◌≢◌, refl, sym, ◌∙◌, ap, true, subst, List, [], ◌∷◌, ◌++◌, All, Dict, ◌==◌, ◌⊎◌,
  Bool-cases, Option-cases, inl, inr,
}
use incremental_cdc_data_pla.Normalization.{NormalizedCdcEvent}
use incremental_cdc_data_pla.Merge.Ledger.{
  LedgerStatus, pending, applied, EventLedgerRecord, Ledger, get_ledger_record_by_event_id,
}
use incremental_cdc_data_pla.Merge.Ledger.Agrees.{agrees}
use incremental_cdc_data_pla.Cdc.{ℤ}
use incremental_cdc_data_pla.Merge.Engine.{ok, Result-cases, ok_injective}
use incremental_cdc_data_pla.Merge.Classify.{
  EventClassification, fresh, recovery_pending, exact_replay_applied, stale_skipped, classify_known,
  classify_event, Classified, add_class, classify_all, actionable,
}

All-middle :
    (P : NormalizedCdcEvent → Type 0) (e : NormalizedCdcEvent) (xs ys : List NormalizedCdcEvent)
    → All P (xs ++ (e ∷ ys))
    → P e × All P (xs ++ ys)
All-middle P e [] ys h = h
All-middle P e (x ∷ xs) ys h = let (pe, rest) = All-middle P e xs ys h.1 in (pe, (h.0, rest))

All-insert :
    (P : NormalizedCdcEvent → Type 0) (e : NormalizedCdcEvent) (xs ys : List NormalizedCdcEvent)
    → P e
    → All P (xs ++ ys)
    → All P (xs ++ (e ∷ ys))
All-insert P e [] ys pe h = (pe, h)
All-insert P e (x ∷ xs) ys pe h = (h.0, All-insert P e xs ys pe h.1)

module _ (proc : String) (l : Ledger) (maxima : Dict ℤ) where
  -- An event that is not to be applied is a replay, or stale.
  abbrev pub IsSkipped : NormalizedCdcEvent → Type 0
  IsSkipped e =
      (classify_event proc l maxima e ≡ ok exact_replay_applied)
      ⊎ (classify_event proc l maxima e ≡ ok stale_skipped)

  module _ (P : NormalizedCdcEvent → Type 0) where
    add_class-All :
        (e : NormalizedCdcEvent) (r : EventClassification) (c : Classified)
        → classify_event proc l maxima e ≡ ok r
        → All P (actionable (add_class e r c))
        → (P e ⊎ IsSkipped e) × All P (actionable c)
    add_class-All e fresh c h acts = (inl acts.0, acts.1)
    add_class-All e recovery_pending c h acts =
        let (pe, rest) = All-middle P e c.fresh_events c.recovery_events acts in (inl pe, rest)
    add_class-All e exact_replay_applied c h acts = (inr (inl h), acts)
    add_class-All e stale_skipped c h acts = (inr (inr h), acts)

    -- What holds of the events to be applied holds of all events but the skipped ones.
    pub classify_all-All :
        (es : List NormalizedCdcEvent) (c : Classified)
        → classify_all proc l maxima es ≡ ok c
        → All P (actionable c)
        → All (λ e. P e ⊎ IsSkipped e) es
    unfolding classify_all
    classify_all-All [] c h acts = tt
    classify_all-All (e ∷ es) c h acts = elim (Result-cases (classify_event proc l maxima e)) [
      | inl (f, fails) ↦ absurd (cc (rw fails at h))
      | inr (r, runs) ↦ elim (Result-cases (classify_all proc l maxima es)) [
        | inl (f, fails) ↦ absurd (cc (rw (runs, fails) at h))
        | inr (rest, goes) ↦
            let same : ok (add_class e r rest) ≡ ok c = rw (runs, goes) at h in
            let (head, tail) =
              add_class-All e r rest runs
                (subst (λ z. All P (actionable z)) (sym (ok_injective same)) acts) in
            (head, classify_all-All es rest goes tail)
      ]
    ]

    add_class-actionable :
        (e : NormalizedCdcEvent) (r : EventClassification) (c : Classified)
        → P e
        → All P (actionable c)
        → All P (actionable (add_class e r c))
    add_class-actionable e fresh c pe acts = (pe, acts)
    add_class-actionable e recovery_pending c pe acts =
        All-insert P e c.fresh_events c.recovery_events pe acts
    add_class-actionable e exact_replay_applied c pe acts = acts
    add_class-actionable e stale_skipped c pe acts = acts

    -- The events to be applied are among the events.
    pub actionable-All :
        (es : List NormalizedCdcEvent) (c : Classified)
        → classify_all proc l maxima es ≡ ok c
        → All P es
        → All P (actionable c)
    unfolding classify_all
    actionable-All [] c h all = subst (λ z. All P (actionable z)) (ok_injective h) tt
    actionable-All (e ∷ es) c h all = elim (Result-cases (classify_event proc l maxima e)) [
      | inl (f, fails) ↦ absurd (cc (rw fails at h))
      | inr (r, runs) ↦ elim (Result-cases (classify_all proc l maxima es)) [
        | inl (f, fails) ↦ absurd (cc (rw (runs, fails) at h))
        | inr (rest, goes) ↦
            let same : ok (add_class e r rest) ≡ ok c = rw (runs, goes) at h in
            subst (λ z. All P (actionable z)) (ok_injective same)
              (add_class-actionable e r rest all.0 (actionable-All es rest goes all.1))
      ]
    ]

  add_class-stale_free :
      (e : NormalizedCdcEvent) (r : EventClassification) (c : Classified)
      → (add_class e r c).stale_events ≡ []
      → (r ≢ stale_skipped) × (c.stale_events ≡ [])
  add_class-stale_free e fresh c h = ((λ k. cc), h)
  add_class-stale_free e recovery_pending c h = ((λ k. cc), h)
  add_class-stale_free e exact_replay_applied c h = ((λ k. cc), h)
  add_class-stale_free e stale_skipped c h = absurd (cc)

  -- Where no event was put among the stale ones, none is classified so.
  pub classify_all-stale_free :
      (es : List NormalizedCdcEvent) (c : Classified)
      → classify_all proc l maxima es ≡ ok c
      → c.stale_events ≡ []
      → All (λ e. classify_event proc l maxima e ≢ ok stale_skipped) es
  unfolding classify_all
  classify_all-stale_free [] c h none_stale = tt
  classify_all-stale_free (e ∷ es) c h none_stale =
      elim (Result-cases (classify_event proc l maxima e)) [
        | inl (f, fails) ↦ absurd (cc (rw fails at h))
        | inr (r, runs) ↦ elim (Result-cases (classify_all proc l maxima es)) [
          | inl (f, fails) ↦ absurd (cc (rw (runs, fails) at h))
          | inr (rest, goes) ↦
              let same : ok (add_class e r rest) ≡ ok c = rw (runs, goes) at h in
              let (head, tail) =
                add_class-stale_free e r rest
                  (ap (λ z. z.stale_events) (ok_injective same) ∙ none_stale) in
              ((λ k. head (ok_injective (sym runs ∙ k))), classify_all-stale_free es rest goes tail)
        ]
      ]

  known_fingerprint :
      (s : LedgerStatus) (r : EventLedgerRecord) (e : NormalizedCdcEvent) (k : EventClassification)
      → classify_known proc s r e ≡ ok k
      → r.event_fingerprint == e.event_fingerprint ≡ true
  known_fingerprint applied r e k h =
      elim (Bool-cases (r.event_fingerprint == e.event_fingerprint)) [
        | inl same ↦ same
        | inr changed ↦ absurd (cc (rw changed at h))
      ]
  known_fingerprint pending r e k h =
      elim (Bool-cases (r.event_fingerprint == e.event_fingerprint)) [
        | inl same ↦ same
        | inr changed ↦ absurd (cc (rw changed at h))
      ]

  classify_event-agrees :
      (e : NormalizedCdcEvent) (k : EventClassification)
      → classify_event proc l maxima e ≡ ok k
      → agrees l e ≡ true
  unfolding classify_event
  classify_event-agrees e k h = elim (Option-cases (get_ledger_record_by_event_id e.event_id l)) [
    | inl absent ↦ rw absent refl
    | inr (r, there) ↦ rw there (known_fingerprint r.status r e k (rw there at h))
  ]

  -- A classification that does not raise finds no other fingerprint in the ledger.
  pub classify_all-agrees :
      (es : List NormalizedCdcEvent) (c : Classified)
      → classify_all proc l maxima es ≡ ok c
      → All (λ e. agrees l e ≡ true) es
  unfolding classify_all
  classify_all-agrees [] c h = tt
  classify_all-agrees (e ∷ es) c h = elim (Result-cases (classify_event proc l maxima e)) [
    | inl (f, fails) ↦ absurd (cc (rw fails at h))
    | inr (r, runs) ↦ elim (Result-cases (classify_all proc l maxima es)) [
      | inl (f, fails) ↦ absurd (cc (rw (runs, fails) at h))
      | inr (rest, goes) ↦ (classify_event-agrees e r runs, classify_all-agrees es rest goes)
    ]
  ]
