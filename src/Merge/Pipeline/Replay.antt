-- ===== src/Merge/Pipeline/Replay.antt =====
-- A run of src/merge/pipeline.py on events that were applied before.
use incremental_cdc_data_pla.Base.{
  String, ◌≡◌, refl, ap, Bool, true, false, not, ◌&&◌, Option, none, some, List, [], ◌∷◌, All,
  arith, length, ◌==◌, strip, Dict, Option-cases, inl, inr,
}
use incremental_cdc_data_pla.Cdc.{ℤ}
use incremental_cdc_data_pla.Normalization.{NormalizedCdcEvent}
use incremental_cdc_data_pla.Merge.Ledger.{
  LedgerStatus, pending, applied, EventLedgerRecord, Ledger, is_pending, get_pending_records,
  get_ledger_record_by_event_id, get_applied_max_sequences,
}
use incremental_cdc_data_pla.Merge.Engine.{ok}
use incremental_cdc_data_pla.Merge.Classify.{
  exact_replay_applied, classify_known, classify_event, Classified, classify_all, check_pending,
}
use incremental_cdc_data_pla.Merge.Pipeline.{
  World, Setup, Call, MergePipelineResult, no_totals, report, run_events, run,
}

-- Whether a record is of the same event, and APPLIED.
abbrev pub replays : NormalizedCdcEvent → Option EventLedgerRecord → Bool
replays e none = false
replays e (some r) = not (is_pending r) && r.event_fingerprint == e.event_fingerprint

-- Whether the ledger has the event as APPLIED, with its fingerprint.
abbrev pub is_replay : Ledger → NormalizedCdcEvent → Bool
is_replay l e = replays e (get_ledger_record_by_event_id e.event_id l)

known-replay :
    (proc : String) (s : LedgerStatus) (r : EventLedgerRecord) (e : NormalizedCdcEvent)
    → r.status ≡ s
    → replays e (some r) ≡ true
    → classify_known proc s r e ≡ ok exact_replay_applied
known-replay proc applied r e h k = ground (arith, h, k)
known-replay proc pending r e h k = absurd (ground (arith, h, k))

classify_event-replay :
    (proc : String) (l : Ledger) (maxima : Dict ℤ) (e : NormalizedCdcEvent)
    → is_replay l e ≡ true
    → classify_event proc l maxima e ≡ ok exact_replay_applied
unfolding classify_event
classify_event-replay proc l maxima e h =
    elim (Option-cases (get_ledger_record_by_event_id e.event_id l)) [
      | inl absent ↦ absurd (cc (rw absent at h))
      | inr (r, there) ↦ rw there (known-replay proc r.status r e refl (rw there at h))
    ]

abbrev all_replays : List NormalizedCdcEvent → Classified
all_replays es = record {
  fresh_events = [];
  recovery_events = [];
  replay_events = es;
  stale_events = [];
}

classify_all-replays :
    (proc : String) (l : Ledger) (maxima : Dict ℤ) (es : List NormalizedCdcEvent)
    → All (λ e. is_replay l e ≡ true) es
    → classify_all proc l maxima es ≡ ok (all_replays es)
unfolding classify_all
classify_all-replays proc l maxima [] h = refl
classify_all-replays proc l maxima (e ∷ es) h =
    rw (classify_event-replay proc l maxima e h.0, classify_all-replays proc l maxima es h.1) refl

-- A run with a processing id that is not blank, whose events the ledger has as APPLIED with their
-- fingerprints, with nothing left PENDING, returns a result that skips each of them as a replay and
-- counts none as applied, and changes neither the ledger nor the tables.
pub run-replay :
    (p : Setup) (c : Call) (events : List NormalizedCdcEvent) (w : World)
    → strip c.processing_id == "" ≡ false
    → get_pending_records w.ledger ≡ []
    → All (λ e. is_replay w.ledger e ≡ true) events
    → (r : MergePipelineResult) × (run p c events w ≡ (ok r, w))
      × (r.replay_events_skipped ≡ length events)
      × (r.events_applied ≡ 0)
      × (r.pending_events_remaining ≡ 0)
unfolding run run_events check_pending
run-replay p c events w named clear all =
    let proc = strip c.processing_id in
    let checked : check_pending proc (get_pending_records w.ledger) events ≡ ok tt =
      rw clear refl in
    (
      report p c proc events (all_replays events) no_totals w.ledger,
      rw
          (
            named,
            checked,
            classify_all-replays proc w.ledger (get_applied_max_sequences p.group_max w.ledger)
                events all,
          )
          refl,
      refl,
      refl,
      ap length clear,
    )
