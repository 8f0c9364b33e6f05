-- ===== src/Merge/Pipeline.antt =====
-- src/merge/pipeline.py: `run`, in the two phases of each wave.
pub mod Keeps
pub mod Applied
pub mod Settled
pub mod Settles
pub mod Errors
pub mod Replay
pub mod Twice
use incremental_cdc_data_pla.Base.{
  ℕ, ◌+◌, suc, String, Bool, true, false, ◌||◌, Option, none, some, List, [], ◌∷◌, map, keep,
  length, eqb, ◌==◌, strip, ◌≡◌, refl, ap, if◌then◌else◌,
}
use incremental_cdc_data_pla.Delta.{Delta}
use incremental_cdc_data_pla.Normalization.{NormalizedCdcEvent}
use incremental_cdc_data_pla.Merge.{External, TargetRow}
use incremental_cdc_data_pla.Merge.Ledger.{
  EventLedgerRecord, Ledger, GroupMax, get_pending_records, get_applied_max_sequences,
  record_pending_events, mark_events_applied,
}
use incremental_cdc_data_pla.Merge.Engine.{
  DeletePolicy, value_error, merge_error, Result, ok, raise, Counts, Targets, merge_wave,
}
use incremental_cdc_data_pla.Merge.Classify.{
  check_pending, Classified, classify_all, actionable, WaveKey, in_wave, wave_keys,
  sorted_wave_keys, check_waves,
}

pub record World : Type 0 where
  pub ledger : Ledger
  pub targets : Targets

-- What the pipeline is made with: the Delta tables, Spark's aggregate, the conversions and the
-- delete policy.
pub record Setup : Type 0 where
  pub ledger_table : Delta EventLedgerRecord
  pub target_table : Delta TargetRow
  pub group_max : GroupMax
  pub external : External
  pub policy : DeletePolicy

pub data Status : Type 0 where
  success success_with_skips : Status

pub record MergePipelineResult : Type 0 where
  pub run_id : String
  pub processing_id : String
  pub events_received : ℕ
  pub fresh_events : ℕ
  pub recovered_pending_events : ℕ
  pub events_applied : ℕ
  pub replay_events_skipped : ℕ
  pub stale_events_skipped : ℕ
  pub insert_events_applied : ℕ
  pub update_events_applied : ℕ
  pub delete_events_applied : ℕ
  pub groups_completed : ℕ
  pub pending_events_remaining : ℕ
  pub status : Status

-- The arguments of a call, and the fresh identifier of the run.
pub record Call : Type 0 where
  pub processing_id : String
  pub fail_after_pending_group : Option ℕ
  pub fail_after_target_group : Option ℕ
  pub run_id : String

abbrev pub fails_at : Option ℕ → ℕ → Bool
fails_at none n = false
fails_at (some m) n = eqb m n

-- The totals of the waves.
pub record Totals : Type 0 where
  pub counts : Counts
  pub groups_completed : ℕ

abbrev pub no_totals : Totals
no_totals = record {
  counts = record { inserts = 0; updates = 0; deletes = 0 };
  groups_completed = 0;
}

abbrev pub add_counts : Counts → Totals → Totals
add_counts c t = record {
  counts = record {
    inserts = t.counts.inserts + c.inserts;
    updates = t.counts.updates + c.updates;
    deletes = t.counts.deletes + c.deletes;
  };
  groups_completed = t.groups_completed + 1;
}

-- What a raise skips.
abbrev pub and_then {ℓ κ} :
    {A : Type ℓ} {B : Type κ} → Result A × World → (A → World → Result B × World) → Result B × World
and_then (raise e, w) f = (raise e, w)
and_then (ok a, w) f = f a w

pub and_then-ok {ℓ κ} :
    {A : Type ℓ} {B : Type κ} (q : Result A × World) (f : A → World → Result B × World) (b : B)
    (w : World)
    → and_then q f ≡ (ok b, w)
    → (a : A) × (v : World) × (q ≡ (ok a, v)) × (f a v ≡ (ok b, w))
and_then-ok (raise e, v) f b w h = absurd (cc (ap (λ r. r.0) h))
and_then-ok (ok a, v) f b w h = (a, v, refl, h)

-- What holds of the world before holds after, whether there was a raise or not.
pub and_then-keeps {ℓ κ μ} :
    {A : Type ℓ} {B : Type κ} (P : World → Type μ) (q : Result A × World)
    (f : A → World → Result B × World)
    → P q.1
    → ((a : A) (v : World) → P v → P (f a v).1)
    → P (and_then q f).1
and_then-keeps P (raise e, w) f h k = h
and_then-keeps P (ok a, w) f h k = k a w h

module _ (p : Setup) (c : Call) (proc : String) where
  -- Phase C, after the mutation of the targets.
  abbrev pub finish_wave :
      ℕ → List NormalizedCdcEvent → Ledger → Result Counts × Targets → Result Counts × World
  finish_wave n group l (raise e, targets) = (raise e, record { ledger = l; targets = targets })
  finish_wave n group l (ok counts, targets) =
      if fails_at c.fail_after_target_group n
      then (raise merge_error, record { ledger = l; targets = targets })
      else (
        ok counts,
        record {
          ledger = mark_events_applied p.ledger_table (map (λ e. e.event_id) group) l;
          targets = targets;
        },
      )

  -- Phases A and B.
  unfoldable pub run_wave : ℕ → String → List NormalizedCdcEvent → World → Result Counts × World
  run_wave n name group w =
      let l = record_pending_events p.ledger_table group proc w.ledger in
      if fails_at c.fail_after_pending_group n
      then (raise merge_error, record { ledger = l; targets = w.targets })
      else finish_wave n group l
          (merge_wave p.target_table p.external p.policy proc name group w.targets)

  -- The loop over the waves, from the wave with number `n`.
  unfoldable pub run_waves :
      List NormalizedCdcEvent → ℕ → List WaveKey → Totals → World → Result Totals × World
  run_waves events n [] totals w = (ok totals, w)
  run_waves events n (k ∷ keys) totals w =
      and_then (run_wave n k.0 (keep (in_wave k) events) w)
        (λ counts w'. run_waves events (suc n) keys (add_counts counts totals) w')

  abbrev pub any_events : List NormalizedCdcEvent → Bool
  any_events [] = false
  any_events (e ∷ es) = true

  abbrev pub report : List NormalizedCdcEvent → Classified → Totals → Ledger → MergePipelineResult
  report events k totals l = record {
    run_id = c.run_id;
    processing_id = proc;
    events_received = length events;
    fresh_events = length k.fresh_events;
    recovered_pending_events = length k.recovery_events;
    events_applied = length (actionable k);
    replay_events_skipped = length k.replay_events;
    stale_events_skipped = length k.stale_events;
    insert_events_applied = totals.counts.inserts;
    update_events_applied = totals.counts.updates;
    delete_events_applied = totals.counts.deletes;
    groups_completed = totals.groups_completed;
    pending_events_remaining = length (get_pending_records l);
    status =
        if any_events k.replay_events || any_events k.stale_events
        then success_with_skips
        else success;
  }

  -- Step 4, or the early return where no event is to be applied.
  abbrev pub execute :
      List NormalizedCdcEvent
      → Classified
      → List NormalizedCdcEvent
      → Result (Unit {0})
      → World
      → Result MergePipelineResult × World
  execute events k [] checked w = (ok (report events k no_totals w.ledger), w)
  execute events k (e ∷ es) (raise f) w = (raise f, w)
  execute events k (e ∷ es) (ok u) w =
      and_then (run_waves (e ∷ es) 1 (sorted_wave_keys (e ∷ es)) no_totals w)
        (λ totals v. (ok (report events k totals v.ledger), v))

  abbrev pub run_classified :
      List NormalizedCdcEvent → Result Classified → World → Result MergePipelineResult × World
  run_classified events (raise e) w = (raise e, w)
  run_classified events (ok k) w =
      execute events k (actionable k)
        (check_waves p.external (actionable k) (wave_keys (actionable k))) w

  abbrev pub run_checked :
      List NormalizedCdcEvent → Result (Unit {0}) → World → Result MergePipelineResult × World
  run_checked events (raise e) w = (raise e, w)
  run_checked events (ok u) w =
      run_classified events
        (classify_all proc w.ledger (get_applied_max_sequences p.group_max w.ledger) events) w

  unfoldable pub run_events : List NormalizedCdcEvent → World → Result MergePipelineResult × World
  run_events events w =
      run_checked events (check_pending proc (get_pending_records w.ledger) events) w

unfoldable pub run :
    Setup → Call → List NormalizedCdcEvent → World → Result MergePipelineResult × World
run p c events w =
    if strip c.processing_id == ""
    then (raise value_error, w)
    else run_events p c (strip c.processing_id) events w
