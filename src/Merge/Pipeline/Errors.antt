-- ===== src/Merge/Pipeline/Errors.antt =====
-- The runs of src/merge/pipeline.py that are refused.
use incremental_cdc_data_pla.Base.{
  ℕ, suc, String, ◌≡◌, refl, sym, ◌∙◌, ap, Bool, true, false, Option, none, some, List, [], ◌∷◌,
  keep, ◌==◌, strip, Bool-cases, Option-cases, inl, inr,
}
use incremental_cdc_data_pla.Cdc.{Table, table_of}
use incremental_cdc_data_pla.Normalization.{NormalizedCdcEvent}
use incremental_cdc_data_pla.Merge.{TargetRow}
use incremental_cdc_data_pla.Merge.Ledger.{
  Ledger, get_pending_records, get_applied_max_sequences, record_pending_events,
}
use incremental_cdc_data_pla.Merge.Engine.{
  Error, value_error, pending_recovery, event_conflict, sequence_conflict, Result, ok, raise,
  Result-cases, Counts, Targets, is_ambiguous, mutate_wave, wave_result, merge_existing, merge_wave,
}
use incremental_cdc_data_pla.Merge.Classify.{
  WaveKey, in_wave, Classified, classify_all, actionable, check_pending, check_waves, wave_keys,
  sorted_wave_keys,
}
use incremental_cdc_data_pla.Merge.Pipeline.{
  World, Setup, Call, MergePipelineResult, Totals, no_totals, add_counts, fails_at, finish_wave,
  and_then, report, run_wave, run_waves, execute, run_checked, run_events, run,
}

-- A blank processing id, and what steps 1 and 2 find.
abbrev pub is_refusal : Error → Bool
is_refusal value_error = true
is_refusal pending_recovery = true
is_refusal event_conflict = true
is_refusal sequence_conflict = true
is_refusal _ = false

-- Whether a result is a refusal.
abbrev refused {ℓ} : {A : Type ℓ} → Result A → Bool
refused (ok a) = false
refused (raise e) = is_refusal e

module _ (p : Setup) (c : Call) (proc : String) where
  wave_result-goes :
      (t : Table) (targets : Targets) (group : List NormalizedCdcEvent) (q : Bool × List TargetRow)
      → refused (wave_result t targets group q).0 ≡ false
  wave_result-goes t targets group (true, rows) = refl
  wave_result-goes t targets group (false, rows) = refl

  merge_existing-goes :
      (t : Table) (group : List NormalizedCdcEvent) (o : Option (List TargetRow))
      (targets : Targets)
      → refused (merge_existing p.target_table p.external p.policy proc t group o targets).0 ≡ false
  merge_existing-goes t group none targets = refl
  merge_existing-goes t group (some rows) targets =
      elim (Bool-cases (is_ambiguous p.external t [] group)) [
        | inl twice ↦ rw twice refl
        | inr clear ↦ rw clear (
            wave_result-goes t targets group
              (mutate_wave p.target_table p.external t proc p.policy group rows))
      ]

  merge_wave-goes :
      (name : String) (group : List NormalizedCdcEvent) (targets : Targets)
      → refused (merge_wave p.target_table p.external p.policy proc name group targets).0 ≡ false
  unfolding merge_wave
  merge_wave-goes name [] targets = refl
  merge_wave-goes name (e ∷ es) targets = elim (Option-cases (table_of name)) [
    | inl unknown ↦ rw unknown refl
    | inr (t, known) ↦ rw known (merge_existing-goes t (e ∷ es) (targets t) targets)
  ]

  finish_wave-goes :
      (n : ℕ) (group : List NormalizedCdcEvent) (l : Ledger) (m : Result Counts × Targets)
      → refused m.0 ≡ false
      → refused (finish_wave p c proc n group l m).0 ≡ false
  finish_wave-goes n group l (raise e, targets) h = h
  finish_wave-goes n group l (ok counts, targets) h =
      elim (Bool-cases (fails_at c.fail_after_target_group n)) [
        | inl crash ↦ rw crash refl
        | inr goes ↦ rw goes refl
      ]

  run_wave-goes :
      (n : ℕ) (name : String) (group : List NormalizedCdcEvent) (w : World)
      → refused (run_wave p c proc n name group w).0 ≡ false
  unfolding run_wave
  run_wave-goes n name group w = elim (Bool-cases (fails_at c.fail_after_pending_group n)) [
    | inl crash ↦ rw crash refl
    | inr goes ↦ rw goes (
        finish_wave-goes n group (record_pending_events p.ledger_table group proc w.ledger)
          (merge_wave p.target_table p.external p.policy proc name group w.targets)
          (merge_wave-goes name group w.targets))
  ]

  and_then-goes {ℓ κ} :
      {A : Type ℓ} {B : Type κ} (q : Result A × World) (f : A → World → Result B × World)
      → refused q.0 ≡ false
      → ((a : A) (v : World) → refused (f a v).0 ≡ false)
      → refused (and_then q f).0 ≡ false
  and_then-goes (raise e, w) f h k = h
  and_then-goes (ok a, w) f h k = k a w

  run_waves-goes :
      (events : List NormalizedCdcEvent) (n : ℕ) (keys : List WaveKey) (t : Totals) (w : World)
      → refused (run_waves p c proc events n keys t w).0 ≡ false
  unfolding run_waves
  run_waves-goes events n [] t w = refl
  run_waves-goes events n (k ∷ keys) t w =
      and_then-goes (run_wave p c proc n k.0 (keep (in_wave k) events) w)
        (λ counts v. run_waves p c proc events (suc n) keys (add_counts counts t) v)
        (run_wave-goes n k.0 (keep (in_wave k) events) w)
        (λ counts v. run_waves-goes events (suc n) keys (add_counts counts t) v)

  -- What raises a refusal has changed nothing.
  abbrev IsClean : World → Result MergePipelineResult × World → Type 0
  IsClean w q = refused q.0 ≡ true → q.1 ≡ w

  execute-IsClean :
      (events actions : List NormalizedCdcEvent) (k : Classified) (checked : Result (Unit {0}))
      (w : World)
      → IsClean w (execute p c proc events k actions checked w)
  execute-IsClean events [] k checked w h = refl
  execute-IsClean events (e ∷ es) k (raise f) w h = refl
  execute-IsClean events (e ∷ es) k (ok u) w h = absurd (
      cc (
        sym h
        ∙ and_then-goes (run_waves p c proc (e ∷ es) 1 (sorted_wave_keys (e ∷ es)) no_totals w)
            (λ t v. (ok (report p c proc events k t v.ledger), v))
            (run_waves-goes (e ∷ es) 1 (sorted_wave_keys (e ∷ es)) no_totals w) (λ t v. refl)))

  run_checked-IsClean :
      (events : List NormalizedCdcEvent) (checked : Result (Unit {0})) (w : World)
      → IsClean w (run_checked p c proc events checked w)
  run_checked-IsClean events (raise f) w h = refl
  run_checked-IsClean events (ok u) w h =
      elim (Result-cases
        (classify_all proc w.ledger (get_applied_max_sequences p.group_max w.ledger) events)) [
          | inl (f, fails) ↦ rw fails refl
          | inr (k, sorted) ↦ rw sorted (
              execute-IsClean events (actionable k) k
                (check_waves p.external (actionable k) (wave_keys (actionable k))) w
                (rw sorted at h))
        ]

-- A run that raises for a blank processing id, for what it cannot take over, or for a conflict of
-- fingerprints or of sequence numbers, leaves the ledger and the tables as they were.
pub run-refuses :
    (p : Setup) (c : Call) (events : List NormalizedCdcEvent) (w w' : World) (e : Error)
    → run p c events w ≡ (raise e, w')
    → is_refusal e ≡ true
    → w' ≡ w
unfolding run run_events
run-refuses p c events w w' e h k = elim (Bool-cases (strip c.processing_id == "")) [
  | inl blank ↦ sym (ap (λ q. q.1) (rw blank at h))
  | inr named ↦
      let proc = strip c.processing_id in
      let ran = rw named at h in
      sym (ap (λ q. q.1) ran)
      ∙ run_checked-IsClean p c proc events
          (check_pending proc (get_pending_records w.ledger) events) w
          (ap (λ q. refused q.0) ran ∙ k)
]
