-- ===== src/Merge/Pipeline/Keeps.antt =====
-- What no run of src/merge/pipeline.py takes back.
use incremental_cdc_data_pla.Base.{
  ℕ, suc, String, ◌≡◌, true, List, [], ◌∷◌, map, keep, ◌==◌, strip, All, keep-All, Bool-cases, inl,
  inr,
}
use incremental_cdc_data_pla.Delta.{IsDelta}
use incremental_cdc_data_pla.Normalization.{NormalizedCdcEvent}
use incremental_cdc_data_pla.Merge.Ledger.{
  Ledger, get_pending_records, get_applied_max_sequences, record_pending_events,
  mark_events_applied,
}
use incremental_cdc_data_pla.Merge.Ledger.Applied.{
  applied_in, record_pending_events-applied_in, mark_events_applied-applied_in,
}
use incremental_cdc_data_pla.Merge.Engine.{
  Result, ok, raise, Counts, Targets, merge_wave, Result-cases,
}
use incremental_cdc_data_pla.Merge.Classify.{
  WaveKey, in_wave, Classified, classify_all, actionable, check_pending, check_waves, wave_keys,
  sorted_wave_keys,
}
use incremental_cdc_data_pla.Merge.Classify.Sorted.{actionable-All}
use incremental_cdc_data_pla.Merge.Pipeline.{
  World, Setup, Call, Totals, no_totals, add_counts, and_then-keeps, report, fails_at, finish_wave,
  run_wave, run_waves, execute, run_checked, run_events, run,
}

-- What the two writes of a wave keep of the ledger, for events that meet a condition, a run keeps.
module _ (p : Setup) (c : Call) (Q : Ledger → Type 0) (P : NormalizedCdcEvent → Type 0)
    (recorded : (proc : String) (es : List NormalizedCdcEvent) (l : Ledger)
      → All P es
      → Q l
      → Q (record_pending_events p.ledger_table es proc l))
    (marked : (ids : List String) (l : Ledger)
      → Q l
      → Q (mark_events_applied p.ledger_table ids l)) where
  finish_wave-keeps :
      (proc : String) (n : ℕ) (group : List NormalizedCdcEvent) (l : Ledger)
      (m : Result Counts × Targets)
      → Q l
      → Q (finish_wave p c proc n group l m).1.ledger
  finish_wave-keeps proc n group l (raise e, targets) h = h
  finish_wave-keeps proc n group l (ok counts, targets) h =
      elim (Bool-cases (fails_at c.fail_after_target_group n)) [
        | inl crash ↦ rw crash h
        | inr goes ↦ rw goes (marked (map (λ e. e.event_id) group) l h)
      ]

  run_wave-keeps :
      (proc : String) (n : ℕ) (name : String) (group : List NormalizedCdcEvent) (w : World)
      → All P group
      → Q w.ledger
      → Q (run_wave p c proc n name group w).1.ledger
  unfolding run_wave
  run_wave-keeps proc n name group w all h =
      let l = record_pending_events p.ledger_table group proc w.ledger in
      let there = recorded proc group w.ledger all h in
      elim (Bool-cases (fails_at c.fail_after_pending_group n)) [
        | inl crash ↦ rw crash there
        | inr goes ↦ rw goes (
            finish_wave-keeps proc n group l
              (merge_wave p.target_table p.external p.policy proc name group w.targets) there)
      ]

  run_waves-keeps :
      (proc : String) (events : List NormalizedCdcEvent) (n : ℕ) (keys : List WaveKey) (t : Totals)
      (w : World)
      → All P events
      → Q w.ledger
      → Q (run_waves p c proc events n keys t w).1.ledger
  unfolding run_waves
  run_waves-keeps proc events n [] t w all h = h
  run_waves-keeps proc events n (k ∷ keys) t w all h =
      and_then-keeps (λ z. Q z.ledger) (run_wave p c proc n k.0 (keep (in_wave k) events) w)
        (λ counts v. run_waves p c proc events (suc n) keys (add_counts counts t) v)
        (run_wave-keeps proc n k.0 (keep (in_wave k) events) w (keep-All (in_wave k) P events all)
          h)
        (λ counts v. run_waves-keeps proc events (suc n) keys (add_counts counts t) v all)

  pub execute-keeps :
      (proc : String) (events actions : List NormalizedCdcEvent) (k : Classified)
      (checked : Result (Unit {0})) (w : World)
      → All P actions
      → Q w.ledger
      → Q (execute p c proc events k actions checked w).1.ledger
  execute-keeps proc events [] k checked w all h = h
  execute-keeps proc events (e ∷ es) k (raise f) w all h = h
  execute-keeps proc events (e ∷ es) k (ok u) w all h =
      and_then-keeps (λ z. Q z.ledger)
        (run_waves p c proc (e ∷ es) 1 (sorted_wave_keys (e ∷ es)) no_totals w)
        (λ t v. (ok (report p c proc events k t v.ledger), v))
        (run_waves-keeps proc (e ∷ es) 1 (sorted_wave_keys (e ∷ es)) no_totals w all h)
        (λ t v there. there)

  run_checked-keeps :
      (proc : String) (events : List NormalizedCdcEvent) (checked : Result (Unit {0})) (w : World)
      → All P events
      → Q w.ledger
      → Q (run_checked p c proc events checked w).1.ledger
  run_checked-keeps proc events (raise f) w all h = h
  run_checked-keeps proc events (ok u) w all h =
      let maxima = get_applied_max_sequences p.group_max w.ledger in
      elim (Result-cases (classify_all proc w.ledger maxima events)) [
        | inl (f, fails) ↦ rw fails h
        | inr (k, sorted) ↦ rw sorted (
            execute-keeps proc events (actionable k) k
              (check_waves p.external (actionable k) (wave_keys (actionable k))) w
              (actionable-All proc w.ledger maxima P events k sorted all) h)
      ]

  pub run-keeps :
      (events : List NormalizedCdcEvent) (w : World)
      → All P events
      → Q w.ledger
      → Q (run p c events w).1.ledger
  unfolding run run_events
  run-keeps events w all h = elim (Bool-cases (strip c.processing_id == "")) [
    | inl blank ↦ rw blank h
    | inr named ↦ rw named (
        run_checked-keeps (strip c.processing_id) events
          (check_pending (strip c.processing_id) (get_pending_records w.ledger) events) w all h)
  ]

All-unit : (es : List NormalizedCdcEvent) → All (λ e. Unit {0}) es
All-unit [] = tt
All-unit (e ∷ es) = (tt, All-unit es)

module _ (p : Setup) (lawful : IsDelta p.ledger_table) (c : Call) (i : String) where
  pub execute-keeps-applied_in :
      (proc : String) (events actions : List NormalizedCdcEvent) (k : Classified)
      (checked : Result (Unit {0})) (w : World)
      → applied_in w.ledger i ≡ true
      → applied_in (execute p c proc events k actions checked w).1.ledger i ≡ true
  execute-keeps-applied_in proc events actions k checked w =
      execute-keeps p c (λ l. applied_in l i ≡ true) (λ e. Unit {0})
        (λ pr es l all. record_pending_events-applied_in p.ledger_table lawful i pr es l)
        (mark_events_applied-applied_in p.ledger_table lawful i) proc events actions k checked w
        (All-unit actions)

-- Over a Delta ledger that meets its laws, a run, whether it returns a result or raises, leaves
-- each event APPLIED that was APPLIED before.
pub run-keeps-applied_in :
    (p : Setup)
    → IsDelta p.ledger_table
    → (c : Call) (events : List NormalizedCdcEvent) (w : World) (i : String)
    → applied_in w.ledger i ≡ true
    → applied_in (run p c events w).1.ledger i ≡ true
run-keeps-applied_in p lawful c events w i =
    run-keeps p c (λ l. applied_in l i ≡ true) (λ e. Unit {0})
      (λ pr es l all. record_pending_events-applied_in p.ledger_table lawful i pr es l)
      (mark_events_applied-applied_in p.ledger_table lawful i) events w (All-unit events)
