-- ===== src/Merge/Pipeline/Applied.antt =====
-- What a run of src/merge/pipeline.py leaves of its events in the ledger.
use incremental_cdc_data_pla.Base.{
  ℕ, suc, String, not, Option, none, some, Option-cases, Dict, lookup, ◌≡◌, ◌≢◌, refl, ap, subst,
  true, false, ◌||◌, List, [], ◌∷◌, map, keep, any, All, All-map, All-zip, arith, ◌==◌, strip, ◌⊎◌,
  Bool-cases, inl, inr,
}
use incremental_cdc_data_pla.Delta.{IsDelta}
use incremental_cdc_data_pla.Normalization.{NormalizedCdcEvent}
use incremental_cdc_data_pla.Merge.Ledger.{
  Ledger, LedgerStatus, pending, applied, EventLedgerRecord, is_pending,
  get_ledger_record_by_event_id, get_pending_records, get_applied_max_sequences, is_one_of,
  record_pending_events,
}
use incremental_cdc_data_pla.Merge.Ledger.Applied.{applied_in, group-applied_in}
use incremental_cdc_data_pla.Cdc.{ℤ, le_int}
use incremental_cdc_data_pla.Merge.Pipeline.Keeps.{execute-keeps-applied_in}
use incremental_cdc_data_pla.Merge.Engine.{
  Result, ok, raise, Counts, Targets, merge_wave, Result-cases,
}
use incremental_cdc_data_pla.Merge.Classify.{
  exact_replay_applied, stale_skipped, classify_new, classify_known, classify_event, WaveKey,
  in_wave, Classified, classify_all, actionable, check_pending, check_waves, wave_keys,
  sorted_wave_keys,
}
use incremental_cdc_data_pla.Merge.Classify.Waves.{sorted_wave_keys-cover, wave_group-ids}
use incremental_cdc_data_pla.Merge.Classify.Sorted.{IsSkipped, classify_all-All}
use incremental_cdc_data_pla.Merge.Pipeline.{
  World, Setup, Call, MergePipelineResult, Totals, no_totals, add_counts, and_then-ok, report,
  fails_at, finish_wave, run_wave, run_waves, execute, run_checked, run_events, run,
}

new_no_replay : (m : Option ℤ) (e : NormalizedCdcEvent) → classify_new m e ≢ ok exact_replay_applied
new_no_replay none e h = cc
new_no_replay (some m) e h = elim (Bool-cases (le_int m e.sequence_number)) [
  | inl up ↦ elim (Bool-cases (le_int e.sequence_number m)) [
    | inl down ↦ cc (rw (up, down) at h)
    | inr above ↦ cc (rw (up, above) at h)
  ]
  | inr below ↦ cc (rw below at h)
]

known_replay :
    (proc : String) (s : LedgerStatus) (r : EventLedgerRecord) (e : NormalizedCdcEvent)
    → r.status ≡ s
    → classify_known proc s r e ≡ ok exact_replay_applied
    → not (is_pending r) ≡ true
known_replay proc applied r e h k = ground (arith, h)
known_replay proc pending r e h k = elim (Bool-cases (r.event_fingerprint == e.event_fingerprint)) [
  | inl same ↦ elim (Bool-cases (r.processing_id == proc)) [
    | inl own ↦ absurd (cc (rw (same, own) at k))
    | inr other ↦ absurd (cc (rw (same, other) at k))
  ]
  | inr changed ↦ absurd (cc (rw changed at k))
]

module _ (p : Setup) (lawful : IsDelta p.ledger_table) (c : Call) (proc : String) where
  -- A wave that comes to its end leaves its events APPLIED.
  finish_wave-applied :
      (n : ℕ) (group : List NormalizedCdcEvent) (w : World) (m : Result Counts × Targets)
      (counts : Counts) (w' : World) (i : String)
      → finish_wave p c proc n group (record_pending_events p.ledger_table group proc w.ledger) m
        ≡ (ok counts, w')
      → applied_in w.ledger i || is_one_of (map (λ e. e.event_id) group) i ≡ true
      → applied_in w'.ledger i ≡ true
  finish_wave-applied n group w (raise e, targets) counts w' i h k = absurd (cc (ap (λ q. q.0) h))
  finish_wave-applied n group w (ok cs, targets) counts w' i h k =
      elim (Bool-cases (fails_at c.fail_after_target_group n)) [
        | inl crash ↦ absurd (cc (ap (λ q. q.0) (rw crash at h)))
        | inr goes ↦
            subst (λ z. applied_in z.ledger i ≡ true) (ap (λ q. q.1) (rw goes at h))
              (group-applied_in p.ledger_table lawful i proc group w.ledger k)
      ]

  run_wave-applied :
      (n : ℕ) (name : String) (group : List NormalizedCdcEvent) (w : World) (counts : Counts)
      (w' : World) (i : String)
      → run_wave p c proc n name group w ≡ (ok counts, w')
      → applied_in w.ledger i || is_one_of (map (λ e. e.event_id) group) i ≡ true
      → applied_in w'.ledger i ≡ true
  unfolding run_wave
  run_wave-applied n name group w counts w' i h k =
      elim (Bool-cases (fails_at c.fail_after_pending_group n)) [
        | inl crash ↦ absurd (cc (ap (λ q. q.0) (rw crash at h)))
        | inr goes ↦
            finish_wave-applied n group w
              (merge_wave p.target_table p.external p.policy proc name group w.targets) counts w' i
              (rw goes at h) k
      ]

  -- Waves that come to their end leave each event APPLIED that was, or that is in one of them.
  run_waves-applied :
      (events : List NormalizedCdcEvent) (n : ℕ) (keys : List WaveKey) (t t' : Totals)
      (w w' : World)
      → run_waves p c proc events n keys t w ≡ (ok t', w')
      → All (λ e. applied_in w.ledger e.event_id || any (λ k. in_wave k e) keys ≡ true) events
      → All (λ e. applied_in w'.ledger e.event_id ≡ true) events
  unfolding run_waves
  run_waves-applied events n [] t t' w w' h all =
      All-map (λ e. applied_in w.ledger e.event_id || false ≡ true)
        (λ e. applied_in w'.ledger e.event_id ≡ true) events
        (λ e there.
          subst (λ z. applied_in z.ledger e.event_id ≡ true) (ap (λ q. q.1) h)
            (ground (arith, there)))
        all
  run_waves-applied events n (k ∷ keys) t t' w w' h all =
      let (counts, v, ran, goes) =
        and_then-ok (run_wave p c proc n k.0 (keep (in_wave k) events) w)
          (λ counts v. run_waves p c proc events (suc n) keys (add_counts counts t) v) t' w' h in
      run_waves-applied events (suc n) keys (add_counts counts t) t' v w' goes (
        All-zip (λ e. applied_in w.ledger e.event_id || any (λ j. in_wave j e) (k ∷ keys) ≡ true)
          (λ e.
            in_wave k e ≡ true
            → is_one_of (map (λ f. f.event_id) (keep (in_wave k) events)) e.event_id ≡ true)
          (λ e. applied_in v.ledger e.event_id || any (λ j. in_wave j e) keys ≡ true) events
          (λ e there member. elim (Bool-cases (in_wave k e)) [
            | inl here ↦ ground (
              arith,
              run_wave-applied n k.0 (keep (in_wave k) events) w counts v e.event_id ran,
              member here,
            )
            | inr later ↦ ground (
              arith,
              run_wave-applied n k.0 (keep (in_wave k) events) w counts v e.event_id ran,
              there,
              later,
            )
          ])
          all (wave_group-ids k events))

  -- The events to be applied are APPLIED after a run that succeeds.
  execute-applied :
      (events actions : List NormalizedCdcEvent) (k : Classified) (checked : Result (Unit {0}))
      (w w' : World) (result : MergePipelineResult)
      → execute p c proc events k actions checked w ≡ (ok result, w')
      → All (λ e. applied_in w'.ledger e.event_id ≡ true) actions
  execute-applied events [] k checked w w' result h = tt
  execute-applied events (e ∷ es) k (raise f) w w' result h = absurd (cc (ap (λ q. q.0) h))
  execute-applied events (e ∷ es) k (ok u) w w' result h =
      let (t, v, ran, same) =
        and_then-ok (run_waves p c proc (e ∷ es) 1 (sorted_wave_keys (e ∷ es)) no_totals w)
          (λ t v. (ok (report p c proc events k t v.ledger), v)) result w' h in
      subst (λ z. All (λ f. applied_in z.ledger f.event_id ≡ true) (e ∷ es)) (ap (λ q. q.1) same)
        (run_waves-applied (e ∷ es) 1 (sorted_wave_keys (e ∷ es)) no_totals t w v ran (
          All-map (λ f. any (λ j. in_wave j f) (sorted_wave_keys (e ∷ es)) ≡ true)
            (λ f.
              applied_in w.ledger f.event_id || any (λ j. in_wave j f) (sorted_wave_keys (e ∷ es))
              ≡ true)
            (e ∷ es) (λ f there. ground (arith, there)) (sorted_wave_keys-cover (e ∷ es))))

  -- An event that was skipped as a replay was APPLIED.
  pub replay-applied_in :
      (l : Ledger) (maxima : Dict ℤ) (e : NormalizedCdcEvent)
      → classify_event proc l maxima e ≡ ok exact_replay_applied
      → applied_in l e.event_id ≡ true
  unfolding classify_event applied_in
  replay-applied_in l maxima e h =
      elim (Option-cases (get_ledger_record_by_event_id e.event_id l)) [
        | inl absent ↦
            absurd (new_no_replay (lookup e.entity_sequence_key maxima) e (rw absent at h))
        | inr (r, there) ↦ rw there (known_replay proc r.status r e refl (rw there at h))
      ]

  run_checked-applied :
      (events : List NormalizedCdcEvent) (checked : Result (Unit {0})) (w w' : World)
      (result : MergePipelineResult)
      → run_checked p c proc events checked w ≡ (ok result, w')
      → All
          (λ e.
            (applied_in w'.ledger e.event_id ≡ true)
            ⊎ (classify_event proc w.ledger (get_applied_max_sequences p.group_max w.ledger) e
                ≡ ok stale_skipped))
          events
  run_checked-applied events (raise f) w w' result h = absurd (cc (ap (λ q. q.0) h))
  run_checked-applied events (ok u) w w' result h =
      let maxima = get_applied_max_sequences p.group_max w.ledger in
      elim (Result-cases (classify_all proc w.ledger maxima events)) [
        | inl (f, fails) ↦ absurd (cc (ap (λ q. q.0) (rw fails at h)))
        | inr (k, sorted) ↦
            let checked = check_waves p.external (actionable k) (wave_keys (actionable k)) in
            let ends = rw sorted at h in
            let kept = λ (i : String) (there : applied_in w.ledger i ≡ true).
              subst (λ z. applied_in z.ledger i ≡ true) (ap (λ q. q.1) ends)
                (execute-keeps-applied_in p lawful c i proc events (actionable k) k checked w
                  there) in
            All-map
              (λ e. (applied_in w'.ledger e.event_id ≡ true) ⊎ IsSkipped proc w.ledger maxima e)
              (λ e.
                (applied_in w'.ledger e.event_id ≡ true)
                ⊎ (classify_event proc w.ledger maxima e ≡ ok stale_skipped))
              events
              (λ e s. elim s [
                | inl done ↦ inl done
                | inr (inl replay) ↦
                    inl (kept e.event_id (replay-applied_in w.ledger maxima e replay))
                | inr (inr stale) ↦ inr stale
              ])
              (classify_all-All proc w.ledger maxima (λ e. applied_in w'.ledger e.event_id ≡ true)
                events k sorted (execute-applied events (actionable k) k checked w w' result ends))
      ]

-- Over a Delta ledger that meets its laws: after a run that returns a result, each of its events is
-- APPLIED in the ledger, or was skipped as stale: the classification against the ledger as the run
-- found it says so.
pub run-applied_in :
    (p : Setup)
    → IsDelta p.ledger_table
    → (c : Call) (events : List NormalizedCdcEvent) (w w' : World) (result : MergePipelineResult)
    → run p c events w ≡ (ok result, w')
    → All
        (λ e.
          (applied_in w'.ledger e.event_id ≡ true)
          ⊎ (classify_event
                (strip c.processing_id)
                w.ledger
                (get_applied_max_sequences p.group_max w.ledger)
                e
              ≡ ok stale_skipped))
        events
unfolding run run_events
run-applied_in p lawful c events w w' result h = elim (Bool-cases (strip c.processing_id == "")) [
  | inl blank ↦ absurd (cc (ap (λ q. q.0) (rw blank at h)))
  | inr named ↦
      run_checked-applied p lawful c (strip c.processing_id) events
        (check_pending (strip c.processing_id) (get_pending_records w.ledger) events) w w' result
        (rw named at h)
]
