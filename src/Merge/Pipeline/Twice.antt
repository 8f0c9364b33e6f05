-- ===== src/Merge/Pipeline/Twice.antt =====
-- src/merge/pipeline.py: a second run of the same events.
use incremental_cdc_data_pla.Base.{
  String, ◌≡◌, ◌≢◌, refl, sym, ◌∙◌, ap, subst, true, false, List, [], ◌∷◌, All, All-zip, arith,
  length, ◌==◌, strip, Bool-cases, Option-cases, inl, inr,
}
use incremental_cdc_data_pla.Delta.{IsDelta}
use incremental_cdc_data_pla.Normalization.{NormalizedCdcEvent}
use incremental_cdc_data_pla.Merge.Ledger.{
  Ledger, get_pending_records, get_ledger_record_by_event_id, get_applied_max_sequences,
}
use incremental_cdc_data_pla.Merge.Ledger.Applied.{applied_in}
use incremental_cdc_data_pla.Merge.Ledger.Agrees.{
  agrees, IsSame, record_pending_events-agrees, mark_events_applied-agrees,
}
use incremental_cdc_data_pla.Merge.Engine.{Result, ok, raise, Result-cases, ok_injective}
use incremental_cdc_data_pla.Merge.Classify.{
  stale_skipped, classify_event, Classified, classify_all, actionable, check_pending, check_waves,
  wave_keys, sorted_wave_keys,
}
use incremental_cdc_data_pla.Merge.Classify.Sorted.{classify_all-stale_free, classify_all-agrees}
use incremental_cdc_data_pla.Merge.Pipeline.{
  World, Setup, Call, MergePipelineResult, no_totals, and_then-ok, report, run_waves, execute,
  run_checked, run_events, run,
}
use incremental_cdc_data_pla.Merge.Pipeline.Keeps.{run-keeps}
use incremental_cdc_data_pla.Merge.Pipeline.Applied.{run-applied_in}
use incremental_cdc_data_pla.Merge.Pipeline.Settles.{IsConsistent, run-settles}
use incremental_cdc_data_pla.Merge.Pipeline.Replay.{is_replay, run-replay}

empty_length : {A : Type 0} (xs : List A) → length xs ≡ 0 → xs ≡ []
empty_length [] h = refl
empty_length (x ∷ xs) h = absurd (omega (arith, h))

-- An APPLIED event whose fingerprint the ledger has is a replay.
agrees-is_replay :
    (l : Ledger) (e : NormalizedCdcEvent)
    → applied_in l e.event_id ≡ true
    → agrees l e ≡ true
    → is_replay l e ≡ true
unfolding applied_in
agrees-is_replay l e done same = elim (Option-cases (get_ledger_record_by_event_id e.event_id l)) [
  | inl absent ↦ absurd (cc (rw absent at done))
  | inr (r, there) ↦ ground (arith, there, done, same)
]

module _ (p : Setup) (c : Call) where
  module _ (proc : String) where
    execute-reports :
        (events actions : List NormalizedCdcEvent) (k : Classified) (checked : Result (Unit {0}))
        (w w' : World) (result : MergePipelineResult)
        → execute p c proc events k actions checked w ≡ (ok result, w')
        → result.stale_events_skipped ≡ length k.stale_events
    execute-reports events [] k checked w w' result h =
        ap (λ z. z.stale_events_skipped) (sym (ok_injective (ap (λ q. q.0) h)))
    execute-reports events (e ∷ es) k (raise f) w w' result h = absurd (cc (ap (λ q. q.0) h))
    execute-reports events (e ∷ es) k (ok u) w w' result h =
        let (t, v, ran, same) =
          and_then-ok (run_waves p c proc (e ∷ es) 1 (sorted_wave_keys (e ∷ es)) no_totals w)
            (λ t v. (ok (report p c proc events k t v.ledger), v)) result w' h in
        ap (λ z. z.stale_events_skipped) (sym (ok_injective (ap (λ q. q.0) same)))

    -- What a run that returns a result found of its events.
    run_checked-finds :
        (events : List NormalizedCdcEvent) (checked : Result (Unit {0})) (w w' : World)
        (result : MergePipelineResult)
        → run_checked p c proc events checked w ≡ (ok result, w')
        → result.stale_events_skipped ≡ 0
        → All (λ e. agrees w.ledger e ≡ true) events
          × All
              (λ e.
                classify_event proc w.ledger (get_applied_max_sequences p.group_max w.ledger) e
                ≢ ok stale_skipped)
              events
    run_checked-finds events (raise f) w w' result h none_stale = absurd (cc (ap (λ q. q.0) h))
    run_checked-finds events (ok u) w w' result h none_stale =
        let maxima = get_applied_max_sequences p.group_max w.ledger in
        elim (Result-cases (classify_all proc w.ledger maxima events)) [
          | inl (f, fails) ↦ absurd (cc (ap (λ q. q.0) (rw fails at h)))
          | inr (k, sorted) ↦ (
            classify_all-agrees proc w.ledger maxima events k sorted,
            classify_all-stale_free proc w.ledger maxima events k sorted (
                empty_length k.stale_events (
                  sym (
                    execute-reports events (actionable k) k
                      (check_waves p.external (actionable k) (wave_keys (actionable k))) w w' result
                      (rw sorted at h))
                  ∙ none_stale)),
          )
        ]

  run-finds :
      (events : List NormalizedCdcEvent) (w w' : World) (result : MergePipelineResult)
      → run p c events w ≡ (ok result, w')
      → result.stale_events_skipped ≡ 0
      → All (λ e. agrees w.ledger e ≡ true) events
        × All
            (λ e.
              classify_event
                (strip c.processing_id)
                w.ledger
                (get_applied_max_sequences p.group_max w.ledger)
                e
              ≢ ok stale_skipped)
            events
  unfolding run run_events
  run-finds events w w' result h none_stale = elim (Bool-cases (strip c.processing_id == "")) [
    | inl blank ↦ absurd (cc (ap (λ q. q.0) (rw blank at h)))
    | inr named ↦
        run_checked-finds (strip c.processing_id) events
          (check_pending (strip c.processing_id) (get_pending_records w.ledger) events) w w' result
          (rw named at h) none_stale
  ]

  run-keeps-agrees :
      (lawful : IsDelta p.ledger_table) (events : List NormalizedCdcEvent) (w : World)
      (e : NormalizedCdcEvent)
      → All (IsSame e) events
      → agrees w.ledger e ≡ true
      → agrees (run p c events w).1.ledger e ≡ true
  run-keeps-agrees lawful events w e =
      run-keeps p c (λ l. agrees l e ≡ true) (IsSame e)
        (record_pending_events-agrees p.ledger_table lawful e)
        (mark_events_applied-agrees p.ledger_table lawful e) events w

  -- The events of a run that returns a result, none of them stale, are replays after it.
  run-is_replay :
      (lawful : IsDelta p.ledger_table) (events : List NormalizedCdcEvent) (w w' : World)
      (result : MergePipelineResult)
      → All (λ e. All (IsSame e) events) events
      → run p c events w ≡ (ok result, w')
      → result.stale_events_skipped ≡ 0
      → All (λ e. is_replay w'.ledger e ≡ true) events
  run-is_replay lawful events w w' result same h none_stale =
      let (found, fresh) = run-finds events w w' result h none_stale in
      let before =
        All-zip (All-of events) (λ e. agrees w.ledger e ≡ true) (λ e. agrees w'.ledger e ≡ true)
          events
          (λ e s a.
            subst (λ z. agrees z.ledger e ≡ true) (ap (λ q. q.1) h)
              (run-keeps-agrees lawful events w e s a))
          same found in
      All-zip (λ e. (applied_in w'.ledger e.event_id ≡ true) × Unit {0})
        (λ e. agrees w'.ledger e ≡ true) (λ e. is_replay w'.ledger e ≡ true) events
        (λ e d a. agrees-is_replay w'.ledger e d.0 a)
        (All-zip _ _ _ events
          (λ e either is_fresh. elim either [
            | inl done ↦ (done, tt)
            | inr stale ↦ absurd (is_fresh stale)
          ])
          (run-applied_in p lawful c events w w' result h) fresh)
        before
    where
      All-of : List NormalizedCdcEvent → NormalizedCdcEvent → Type 0
      All-of es e = All (IsSame e) es

-- Over a Delta ledger that meets its laws, in which the record that is found for the id of a PENDING
-- record is PENDING: let a run return a result that reports no stale event, of events of which those
-- with one id have one fingerprint. A second run of the same events, under a processing id that is
-- not blank, returns a result that skips each of them as a replay, counts none as applied and
-- reports nothing left PENDING, and it changes neither the ledger nor the tables.
pub run_twice :
    (p : Setup)
    → IsDelta p.ledger_table
    → (c d : Call) (events : List NormalizedCdcEvent) (w w' : World) (result : MergePipelineResult)
    → IsConsistent w.ledger
    → All (λ e. All (IsSame e) events) events
    → run p c events w ≡ (ok result, w')
    → result.stale_events_skipped ≡ 0
    → strip d.processing_id == "" ≡ false
    → (r : MergePipelineResult) × (run p d events w' ≡ (ok r, w'))
      × (r.replay_events_skipped ≡ length events)
      × (r.events_applied ≡ 0)
      × (r.pending_events_remaining ≡ 0)
run_twice p lawful c d events w w' result consistent same h none_stale named =
    run-replay p d events w' named (run-settles p lawful c events w w' result consistent h)
      (run-is_replay p c lawful events w w' result same h none_stale)
