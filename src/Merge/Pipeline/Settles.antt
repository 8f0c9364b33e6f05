-- ===== src/Merge/Pipeline/Settles.antt =====
-- A run of src/merge/pipeline.py that returns leaves nothing PENDING.
use incremental_cdc_data_pla.Base.{
  some_injective, All-zip, String, ◌≡◌, ◌≢◌, refl, sym, ◌∙◌, ap, subst, Bool, true, false, ◌⊎◌,
  Option, none, some, List, [], ◌∷◌, keep, any, All, All-map, arith, ◌==◌, eq_iff, eq_refl, strip,
  Dict, Bool-cases, Option-cases, inl, inr,
}
use incremental_cdc_data_pla.Cdc.{ℤ}
use incremental_cdc_data_pla.Delta.{IsDelta}
use incremental_cdc_data_pla.Normalization.{NormalizedCdcEvent}
use incremental_cdc_data_pla.Merge.Ledger.{
  EventLedgerRecord, Ledger, LedgerStatus, pending, applied, is_pending, get_all_ledger_records,
  get_pending_records, get_ledger_record_by_event_id, get_applied_max_sequences,
}
use incremental_cdc_data_pla.Merge.Engine.{Result, ok, raise, Result-cases}
use incremental_cdc_data_pla.Merge.Classify.{
  exact_replay_applied, stale_skipped, incoming, has_fingerprint, check_pending, classify_known,
  classify_event, Classified, classify_all, actionable, WaveKey, in_wave, wave_keys,
  sorted_wave_keys, check_waves,
}
use incremental_cdc_data_pla.Merge.Classify.Waves.{sorted_wave_keys-cover}
use incremental_cdc_data_pla.Merge.Classify.Sorted.{IsSkipped, classify_all-All}
use incremental_cdc_data_pla.Merge.Classify.Checks.{is_own, check_pending-passes}
use incremental_cdc_data_pla.Merge.Pipeline.{
  World, Setup, Call, MergePipelineResult, no_totals, and_then-ok, report, run_waves, execute,
  run_checked, run_events, run,
}
use incremental_cdc_data_pla.Merge.Pipeline.Settled.{
  covered, Within, LeftWithin, none_pending, run_waves-settle,
}

-- Whether the record found for an id is PENDING.
abbrev pub is_left : Option EventLedgerRecord → Bool
is_left none = false
is_left (some r) = is_pending r

-- The record that is found for the id of a PENDING record is PENDING too.
abbrev pub IsConsistent : Ledger → Type 0
IsConsistent l =
    All (λ r. is_pending r ≡ true → is_left (get_ledger_record_by_event_id r.event_id l) ≡ true)
      (get_all_ledger_records l)

known-skips :
    (proc : String) (s : LedgerStatus) (r : EventLedgerRecord) (e : NormalizedCdcEvent)
    → r.status ≡ s
    → is_pending r ≡ true
    → (classify_known proc s r e ≢ ok exact_replay_applied)
      × (classify_known proc s r e ≢ ok stale_skipped)
known-skips proc applied r e h k = absurd (ground (arith, h, k))
known-skips proc pending r e h k = elim (Bool-cases (r.event_fingerprint == e.event_fingerprint)) [
  | inl same ↦ elim (Bool-cases (r.processing_id == proc)) [
    | inl own ↦ rw (same, own) ((λ z. cc (z)), (λ z. cc (z)))
    | inr other ↦ rw (same, other) ((λ z. cc (z)), (λ z. cc (z)))
  ]
  | inr changed ↦ rw changed ((λ z. cc (z)), (λ z. cc (z)))
]

left-IsSkipped :
    (proc : String) (l : Ledger) (maxima : Dict ℤ) (e : NormalizedCdcEvent)
    → is_left (get_ledger_record_by_event_id e.event_id l) ≡ true
    → IsSkipped proc l maxima e
    → true ≡ false
unfolding classify_event
left-IsSkipped proc l maxima e h skipped =
    elim (Option-cases (get_ledger_record_by_event_id e.event_id l)) [
      | inl absent ↦ cc (rw absent at h)
      | inr (r, there) ↦
          let (no_replay, no_stale) = known-skips proc r.status r e refl (rw there at h) in
          elim skipped [
            | inl replay ↦ absurd (no_replay (rw there at replay))
            | inr stale ↦ absurd (no_stale (rw there at stale))
          ]
    ]

incoming-All :
    (P : NormalizedCdcEvent → Type 0) (i : String) (es : List NormalizedCdcEvent)
    (e : NormalizedCdcEvent)
    → All P es
    → incoming i es ≡ some e
    → P e × (e.event_id ≡ i)
unfolding incoming
incoming-All P i [] e all h = absurd (cc)
incoming-All P i (f ∷ es) e all h = elim (Option-cases (incoming i es)) [
  | inr (g, there) ↦ incoming-All P i es e all.1 (there ∙ (rw there at h))
  | inl absent ↦ elim (Bool-cases (f.event_id == i)) [
    | inl same ↦
        let is : f ≡ e = some_injective (rw (absent, same) at h) in
        (subst P is all.0, ap (λ z. z.event_id) (sym is) ∙ (eq_iff f.event_id i).0 same)
    | inr other ↦ absurd (cc (rw (absent, other) at h))
  ]
]

self_covered :
    (keys : List WaveKey) (es : List NormalizedCdcEvent)
    → All (λ e. any (λ k. in_wave k e) keys ≡ true) es
    → All (λ e. covered es keys e.event_id ≡ true) es
self_covered keys [] h = tt
self_covered keys (e ∷ es) h = (
  ground (arith, eq_refl e.event_id, h.0),
  All-map (λ f. covered es keys f.event_id ≡ true) (λ f. covered (e ∷ es) keys f.event_id ≡ true) es
      (λ f k. ground (arith, k)) (self_covered keys es h.1),
)

kept-All :
    {A : Type 0} (q : A → Bool) (P : A → Type 0) (xs : List A)
    → All P (keep q xs)
    → All (λ a. q a ≡ true → P a) xs
kept-All q P [] h = tt
kept-All q P (x ∷ xs) h = elim (Bool-cases (q x)) [
  | inl kept ↦ let g = rw kept at h in ((λ k. g.0), kept-All q P xs g.1)
  | inr dropped ↦ ((λ k. absurd (cc (sym dropped ∙ k))), kept-All q P xs (rw dropped at h))
]

module _ (p : Setup) (lawful : IsDelta p.ledger_table) (c : Call) (proc : String) where
  -- What was left is of the waves of the events to be applied.
  left-covered :
      (events : List NormalizedCdcEvent) (l : Ledger) (maxima : Dict ℤ) (k : Classified)
      → IsConsistent l
      → All (λ r. is_own proc events r ≡ true) (get_pending_records l)
      → classify_all proc l maxima events ≡ ok k
      → Within (covered (actionable k) (sorted_wave_keys (actionable k))) (get_all_ledger_records l)
  unfolding get_pending_records
  left-covered events l maxima k same own sorted =
      let acts = actionable k in
      let keys = sorted_wave_keys acts in
      All-zip (λ r. is_pending r ≡ true → is_own proc events r ≡ true)
        (λ r. is_pending r ≡ true → is_left (get_ledger_record_by_event_id r.event_id l) ≡ true)
        (λ r. is_pending r ≡ true → covered acts keys r.event_id ≡ true) (get_all_ledger_records l)
        (λ r f g left. one r (ground (arith, f left)) (g left) (
          classify_all-All proc l maxima (λ e. covered acts keys e.event_id ≡ true) events k sorted
            (self_covered keys acts (sorted_wave_keys-cover acts))))
        (kept-All is_pending (λ r. is_own proc events r ≡ true) (get_all_ledger_records l) own) same
    where
      one :
          (r : EventLedgerRecord)
          → has_fingerprint r.event_fingerprint (incoming r.event_id events) ≡ true
          → is_left (get_ledger_record_by_event_id r.event_id l) ≡ true
          → All
              (λ e.
                (covered (actionable k) (sorted_wave_keys (actionable k)) e.event_id ≡ true)
                ⊎ IsSkipped proc l maxima e)
              events
          → covered (actionable k) (sorted_wave_keys (actionable k)) r.event_id ≡ true
      one r comes left all = elim (Option-cases (incoming r.event_id events)) [
        | inl absent ↦ absurd (cc (rw absent at comes))
        | inr (e, there) ↦
            let (either, id) =
              incoming-All
                (λ e.
                  (covered (actionable k) (sorted_wave_keys (actionable k)) e.event_id ≡ true)
                  ⊎ IsSkipped proc l maxima e)
                r.event_id events e all there in
            elim either [
              | inl now ↦
                  ap (covered (actionable k) (sorted_wave_keys (actionable k))) (sym id) ∙ now
              | inr skipped ↦ absurd (
                  cc (
                    left-IsSkipped proc l maxima e
                      (ap (λ i. is_left (get_ledger_record_by_event_id i l)) id ∙ left) skipped))
            ]
      ]

  execute-settles :
      (events actions : List NormalizedCdcEvent) (k : Classified) (checked : Result (Unit {0}))
      (w w' : World) (result : MergePipelineResult)
      → execute p c proc events k actions checked w ≡ (ok result, w')
      → LeftWithin p lawful c proc (covered actions (sorted_wave_keys actions)) w
      → get_pending_records w'.ledger ≡ []
  unfolding get_pending_records
  execute-settles events [] k checked w w' result h left =
      subst (λ z. get_pending_records z.ledger ≡ []) (ap (λ q. q.1) h)
        (none_pending p lawful c proc [] (get_all_ledger_records w.ledger) left)
  execute-settles events (e ∷ es) k (raise f) w w' result h left = absurd (cc (ap (λ q. q.0) h))
  execute-settles events (e ∷ es) k (ok u) w w' result h left =
      let (t, v, ran, same) =
        and_then-ok (run_waves p c proc (e ∷ es) 1 (sorted_wave_keys (e ∷ es)) no_totals w)
          (λ t v. (ok (report p c proc events k t v.ledger), v)) result w' h in
      subst (λ z. get_pending_records z.ledger ≡ []) (ap (λ q. q.1) same)
        (run_waves-settle p lawful c proc (e ∷ es) 1 (sorted_wave_keys (e ∷ es)) no_totals t w v ran
          left)

  run_checked-settles :
      (events : List NormalizedCdcEvent) (checked : Result (Unit {0})) (w w' : World)
      (result : MergePipelineResult)
      → run_checked p c proc events checked w ≡ (ok result, w')
      → IsConsistent w.ledger
      → (checked ≡ ok tt → All (λ r. is_own proc events r ≡ true) (get_pending_records w.ledger))
      → get_pending_records w'.ledger ≡ []
  run_checked-settles events (raise f) w w' result h same own = absurd (cc (ap (λ q. q.0) h))
  run_checked-settles events (ok u) w w' result h same own =
      let maxima = get_applied_max_sequences p.group_max w.ledger in
      elim (Result-cases (classify_all proc w.ledger maxima events)) [
        | inl (f, fails) ↦ absurd (cc (ap (λ q. q.0) (rw fails at h)))
        | inr (k, sorted) ↦
            execute-settles events (actionable k) k
              (check_waves p.external (actionable k) (wave_keys (actionable k))) w w' result
              (rw sorted at h) (left-covered events w.ledger maxima k same (own refl) sorted)
      ]

-- Over a Delta ledger that meets its laws, in which the record that is found for the id of a PENDING
-- record is PENDING: a run that returns a result leaves nothing PENDING.
pub run-settles :
    (p : Setup)
    → IsDelta p.ledger_table
    → (c : Call) (events : List NormalizedCdcEvent) (w w' : World) (result : MergePipelineResult)
    → IsConsistent w.ledger
    → run p c events w ≡ (ok result, w')
    → get_pending_records w'.ledger ≡ []
unfolding run run_events
run-settles p lawful c events w w' result same h = elim (Bool-cases (strip c.processing_id == "")) [
  | inl blank ↦ absurd (cc (ap (λ q. q.0) (rw blank at h)))
  | inr named ↦
      let proc = strip c.processing_id in
      run_checked-settles p lawful c proc events
        (check_pending proc (get_pending_records w.ledger) events) w w' result (rw named at h) same
        (check_pending-passes proc (get_pending_records w.ledger) events).0
]
