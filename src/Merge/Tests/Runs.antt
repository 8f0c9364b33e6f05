-- ===== src/Merge/Tests/Runs.antt =====
-- Runs of the merge pipeline on a small world, and their theorems there.
use incremental_cdc_data_pla.Base.{
  String, ◌≡◌, refl, ap, true, false, ◌&&◌, Option, none, some, List, [], ◌∷◌, not, ◌↔◌, any, arith,
  ◌==◌, ◌⊎◌, eq_iff, Dict, lookup, is_some, All, if◌then◌else◌, Bool-cases, Option-cases, inl, inr,
}
use incremental_cdc_data_pla.Cdc.{ℤ, le_int, pos}
use incremental_cdc_data_pla.Normalization.{NormalizedCdcEvent}
use incremental_cdc_data_pla.Delta.{rows_delta, rows_delta-IsDelta}
use incremental_cdc_data_pla.Merge.Ledger.{
  EventLedgerRecord, get_all_ledger_records, GroupMax, IsGroupMax, largest, get_pending_records,
  get_ledger_record_by_event_id, get_applied_max_sequences, is_pending,
}
use incremental_cdc_data_pla.Merge.Ledger.Applied.{applied_in}
use incremental_cdc_data_pla.Merge.Engine.{hard, Result, ok, raise, sequence_conflict}
use incremental_cdc_data_pla.Merge.Classify.{stale_skipped, check_pending, classify_event}
use incremental_cdc_data_pla.Merge.Classify.Checks.{
  is_own, classify_event-fresh, check_pending-passes,
}
use incremental_cdc_data_pla.Merge.Pipeline.{
  World, Setup, Call, MergePipelineResult, no_totals, report, run,
}
use incremental_cdc_data_pla.Merge.Pipeline.Keeps.{run-keeps-applied_in}
use incremental_cdc_data_pla.Merge.Pipeline.Applied.{run-applied_in}
use incremental_cdc_data_pla.Merge.Pipeline.Errors.{run-refuses}
use incremental_cdc_data_pla.Merge.Pipeline.Settles.{run-settles}
use incremental_cdc_data_pla.Merge.Pipeline.Twice.{run_twice}
use incremental_cdc_data_pla.Merge.Target.{
  target_already_initialized, returned, failed, initialize_targets, write_snapshot, snapshot_rows,
  table_exists,
}
use incremental_cdc_data_pla.Merge.Tests.{account, runs, external, event, wave}

-- The largest number of each key of `rows`, from all records.
entry : String → Option ℤ → Dict ℤ → Dict ℤ
entry k none d = d
entry k (some n) d = (k, n) ∷ d

entries : List EventLedgerRecord → List EventLedgerRecord → Dict ℤ
unfolding entry
entries from [] = []
entries from (r ∷ rows) =
    entry r.entity_sequence_key (largest r.entity_sequence_key from) (entries from rows)

abbrev group_max : GroupMax
group_max rows = entries rows rows

lookup-entry :
    (k j : String) (o : Option ℤ) (d : Dict ℤ)
    → lookup k (entry j o d) ≡ (if is_some o && j == k then o else lookup k d)
unfolding lookup entry
lookup-entry k j none d = refl
lookup-entry k j (some n) d = ground arith

lookup-entries :
    (k : String) (from rows : List EventLedgerRecord)
    → lookup k (entries from rows)
      ≡ (if any (λ r. r.entity_sequence_key == k) rows then largest k from else none)
unfolding lookup entries
lookup-entries k from [] = refl
lookup-entries k from (r ∷ rows) = elim (Bool-cases (r.entity_sequence_key == k)) [
  | inl same ↦
      let e = ap (λ j. largest j from) ((eq_iff r.entity_sequence_key k).0 same) in
      elim (Option-cases (largest k from)) [
        | inl none_there ↦ ground (
          arith,
          lookup-entry k r.entity_sequence_key (largest r.entity_sequence_key from)
              (entries from rows),
          lookup-entries k from rows,
          e,
          same,
          none_there,
        )
        | inr (n, there) ↦ ground (
          arith,
          lookup-entry k r.entity_sequence_key (largest r.entity_sequence_key from)
              (entries from rows),
          e,
          same,
          there,
        )
      ]
  | inr other ↦ ground (
    arith,
    lookup-entry k r.entity_sequence_key (largest r.entity_sequence_key from) (entries from rows),
    lookup-entries k from rows,
    other,
  )
]

largest-absent :
    (k : String) (rows : List EventLedgerRecord)
    → any (λ r. r.entity_sequence_key == k) rows ≡ false
    → largest k rows ≡ none
unfolding largest
largest-absent k [] h = refl
largest-absent k (r ∷ rows) h = ground (arith, largest-absent k rows, h)

group_max-IsGroupMax : IsGroupMax group_max
group_max-IsGroupMax rows k = elim (Bool-cases (any (λ r. r.entity_sequence_key == k) rows)) [
  | inl there ↦ rw (lookup-entries k rows rows, there) refl
  | inr absent ↦ rw (lookup-entries k rows rows, absent, largest-absent k rows absent) refl
]

abbrev setup : Setup
setup = record {
  ledger_table = rows_delta;
  target_table = rows_delta;
  group_max = group_max;
  external = external;
  policy = hard;
}

abbrev call : Call
call = record {
  processing_id = "p";
  fail_after_pending_group = none;
  fail_after_target_group = none;
  run_id = "r";
}

abbrev start : World
start = record { ledger = some []; targets = λ t. some [] }

abbrev final : Result MergePipelineResult × World
final = run setup call wave start

abbrev finished : World
finished = final.1

result_of : Result MergePipelineResult → MergePipelineResult
result_of (ok r) = r
result_of (raise e) =
    report setup call "p" []
      (record { fresh_events = []; recovery_events = []; replay_events = []; stale_events = [] })
      no_totals none

run_test : (result_of final.0).events_applied ≡ 2
unfolding runs entry entries result_of
run_test = refl

run-applied_in_example :
    All
      (λ e.
        (applied_in finished.ledger e.event_id ≡ true)
        ⊎ (classify_event "p" start.ledger (get_applied_max_sequences group_max start.ledger) e
            ≡ ok stale_skipped))
      wave
unfolding runs entry entries result_of
run-applied_in_example =
    run-applied_in setup rows_delta-IsDelta call wave start finished (result_of final.0) refl

run-keeps-applied_in_example :
    applied_in (run setup call (event "UPDATE" "a" "third" ∷ []) finished).1.ledger "first" ≡ true
unfolding runs entry entries result_of
run-keeps-applied_in_example =
    run-keeps-applied_in setup rows_delta-IsDelta call (event "UPDATE" "a" "third" ∷ []) finished
      "first" refl

-- The sequence number of the third event is that of the first.
run-refuses_example : finished ≡ finished
unfolding runs entry entries result_of
run-refuses_example =
    run-refuses setup call (event "UPDATE" "a" "third" ∷ []) finished finished sequence_conflict
      refl refl

abbrev later : NormalizedCdcEvent
later = record (event "UPDATE" "a" "third") { sequence_number = pos 3 }

abbrev records : List EventLedgerRecord
records = get_all_ledger_records finished.ledger

classify_event-fresh_example :
    (get_ledger_record_by_event_id "third" (some records) ≡ none)
    × All
        (λ r.
          not (is_pending r) ≡ true
          → r.entity_sequence_key ≡ "a"
          → le_int (pos 3) r.sequence_number ≡ false)
        records
unfolding runs entry entries result_of
classify_event-fresh_example =
    classify_event-fresh "p" group_max records later group_max-IsGroupMax refl

-- What a crash after the mutation of the first wave leaves.
abbrev crashed : World
crashed = (run setup (record call { fail_after_target_group = some 1 }) wave start).1

check_pending-passes_example :
    (check_pending "p" (get_pending_records crashed.ledger) wave ≡ ok tt)
    ↔ All (λ r. is_own "p" wave r ≡ true) (get_pending_records crashed.ledger)
check_pending-passes_example = check_pending-passes "p" (get_pending_records crashed.ledger) wave

abbrev recovered : Result MergePipelineResult × World
recovered = run setup call wave crashed

run-settles_example : get_pending_records recovered.1.ledger ≡ []
unfolding runs entry entries result_of
run-settles_example =
    run-settles setup rows_delta-IsDelta call wave crashed recovered.1 (result_of recovered.0)
      ((λ h. refl), ((λ h. refl), tt)) refl

-- A run that recovers from a crash, and a second one under another processing id.
run_twice_example :
    (r : MergePipelineResult) × (run setup (record call { processing_id = "q" }) wave recovered.1
      ≡ (ok r, recovered.1))
    × (r.replay_events_skipped ≡ 2)
    × (r.events_applied ≡ 0)
    × (r.pending_events_remaining ≡ 0)
unfolding runs entry entries result_of
run_twice_example =
    run_twice setup rows_delta-IsDelta call (record call { processing_id = "q" }) wave crashed
      recovered.1 (result_of recovered.0) ((λ h. refl), ((λ h. refl), tt))
      (
        ((λ h. refl), ((λ h. (eq_iff "second" "first").1 h), tt)),
        (((λ h. (eq_iff "first" "second").1 h), ((λ h. refl), tt)), tt),
      )
      refl refl refl

initialize_test :
    (initialize_targets external
      (("accounts", account "a" "x" ∷ []) ∷ ("other", []) ∷ [])
      false
      (λ t. none)).0
    ≡ returned (("accounts", 1) ∷ [])
unfolding runs initialize_targets write_snapshot snapshot_rows table_exists
initialize_test = refl

initialize_twice_test :
    (initialize_targets external [] false (λ t. some [])).0 ≡ failed target_already_initialized
unfolding initialize_targets table_exists
initialize_twice_test = refl
