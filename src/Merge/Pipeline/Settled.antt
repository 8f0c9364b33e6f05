-- ===== src/Merge/Pipeline/Settled.antt =====
-- What a run of src/merge/pipeline.py leaves PENDING.
use incremental_cdc_data_pla.Base.{
  ℕ, suc, String, ◌≡◌, refl, sym, ◌∙◌, ap, subst, Bool, true, false, not, ◌&&◌, List, [], ◌∷◌, ◌++◌,
  map, keep, any, All, All-map, arith, ◌==◌, eq_refl, is_some, find_where, update_where,
  if◌then◌else◌, Bool-cases, inl, inr,
}
use incremental_cdc_data_pla.Delta.{IsDelta, new_rows}
use incremental_cdc_data_pla.Normalization.{NormalizedCdcEvent}
use incremental_cdc_data_pla.Merge.Ledger.{
  EventLedgerRecord, Ledger, is_pending, get_all_ledger_records, get_pending_records, same_event,
  pending_record, set_applied, is_one_of, record_pending_events, mark_events_applied,
}
use incremental_cdc_data_pla.Merge.Engine.{Result, ok, raise, Counts, Targets, merge_wave}
use incremental_cdc_data_pla.Merge.Classify.{WaveKey, in_wave}
use incremental_cdc_data_pla.Merge.Pipeline.{
  World, Setup, Call, Totals, add_counts, fails_at, finish_wave, and_then-ok, run_wave, run_waves,
}

-- Whether an event of the id is in one of the waves.
abbrev pub covered : List NormalizedCdcEvent → List WaveKey → String → Bool
covered events keys i = any (λ e. e.event_id == i && any (λ k. in_wave k e) keys) events

-- What is PENDING is of the waves.
abbrev pub Within : (String → Bool) → List EventLedgerRecord → Type 0
Within q rows = All (λ r. is_pending r ≡ true → q r.event_id ≡ true) rows

All-append : {A : Type 0} (P : A → Type 0) (xs ys : List A) → All P xs → All P ys → All P (xs ++ ys)
All-append P [] ys h k = k
All-append P (x ∷ xs) ys h k = (h.0, All-append P xs ys h.1 k)

-- The rows that a wave adds have the ids of its events.
new_rows-Within :
    (q : String → Bool) (proc : String) (es : List NormalizedCdcEvent)
    (rows : List EventLedgerRecord)
    → All (λ e. q e.event_id ≡ true) es
    → Within q (new_rows same_event (map (pending_record proc) es) rows)
unfolding new_rows
new_rows-Within q proc [] rows h = tt
new_rows-Within q proc (e ∷ es) rows h =
    elim (Bool-cases (is_some (find_where (λ r. same_event r (pending_record proc e)) rows))) [
      | inl old ↦ rw old (new_rows-Within q proc es rows h.1)
      | inr new ↦ rw new ((λ k. h.0), new_rows-Within q proc es rows h.1)
    ]

-- After the ids are marked, what is PENDING is of other ids.
marked-Within :
    (q : String → Bool) (ids : List String) (rows : List EventLedgerRecord)
    → Within q rows
    → Within
        (λ i. q i && not (is_one_of ids i))
        (update_where (λ r. is_one_of ids r.event_id && is_pending r) set_applied rows)
unfolding update_where
marked-Within q ids [] h = tt
marked-Within q ids (r ∷ rows) h = elim (Bool-cases (is_one_of ids r.event_id && is_pending r)) [
  | inl marked ↦ rw marked ((λ k. absurd (cc)), marked-Within q ids rows h.1)
  | inr left ↦ rw left ((λ k. ground (arith, h.0 k, left, k)), marked-Within q ids rows h.1)
]

cons_kept-All :
    {A : Type 0} (P : A → Type 0) (b : Bool) (x : A) (xs : List A)
    → (b ≡ true → P x)
    → All P xs
    → All P (if b then x ∷ xs else xs)
cons_kept-All P true x xs h k = (h refl, k)
cons_kept-All P false x xs h k = k

-- The events of a group are covered, and what the group does not have is covered by the rest.
group-covered :
    (k : WaveKey) (keys : List WaveKey) (events : List NormalizedCdcEvent)
    → All (λ e. covered events (k ∷ keys) e.event_id ≡ true) (keep (in_wave k) events)
group-covered k keys [] = tt
group-covered k keys (e ∷ events) =
    let rest =
      All-map (λ f. covered events (k ∷ keys) f.event_id ≡ true)
        (λ f. covered (e ∷ events) (k ∷ keys) f.event_id ≡ true) (keep (in_wave k) events)
        (λ f h. ground (arith, h)) (group-covered k keys events) in
    cons_kept-All (λ f. covered (e ∷ events) (k ∷ keys) f.event_id ≡ true) (in_wave k e) e
      (keep (in_wave k) events) (λ here. ground (arith, eq_refl e.event_id, here)) rest

covered-rest :
    (k : WaveKey) (keys : List WaveKey) (events : List NormalizedCdcEvent) (i : String)
    → covered events (k ∷ keys) i
        && not (is_one_of (map (λ e. e.event_id) (keep (in_wave k) events)) i)
      ≡ true
    → covered events keys i ≡ true
covered-rest k keys [] i h = h
covered-rest k keys (e ∷ events) i h = ground (arith, covered-rest k keys events i, h)

module _ (p : Setup) (lawful : IsDelta p.ledger_table) (c : Call) (proc : String) where
  abbrev pub LeftWithin : (String → Bool) → World → Type 0
  LeftWithin q w = Within q (get_all_ledger_records w.ledger)

  record_pending_events-Within :
      (q : String → Bool) (es : List NormalizedCdcEvent) (l : Ledger)
      → All (λ e. q e.event_id ≡ true) es
      → Within q (get_all_ledger_records l)
      → Within q (get_all_ledger_records (record_pending_events p.ledger_table es proc l))
  unfolding record_pending_events
  record_pending_events-Within q [] l h k = k
  record_pending_events-Within q (e ∷ es) l h k =
      let rows = get_all_ledger_records l in
      subst (Within q)
        (sym (lawful.insert_all-rows same_event (map (pending_record proc) (e ∷ es)) rows))
        (All-append (λ r. is_pending r ≡ true → q r.event_id ≡ true) rows
          (new_rows same_event (map (pending_record proc) (e ∷ es)) rows) k
          (new_rows-Within q proc (e ∷ es) rows h))

  mark_events_applied-Within :
      (q : String → Bool) (ids : List String) (l : Ledger)
      → Within q (get_all_ledger_records l)
      → Within
          (λ i. q i && not (is_one_of ids i))
          (get_all_ledger_records (mark_events_applied p.ledger_table ids l))
  unfolding mark_events_applied
  mark_events_applied-Within q [] l k =
      All-map (λ r. is_pending r ≡ true → q r.event_id ≡ true)
        (λ r. is_pending r ≡ true → q r.event_id && not (is_one_of [] r.event_id) ≡ true)
        (get_all_ledger_records l) (λ r h s. ground (arith, h s)) k
  mark_events_applied-Within q (i ∷ ids) l k =
      subst (Within (λ j. q j && not (is_one_of (i ∷ ids) j)))
        (sym (
          lawful.update-rows (λ r. is_one_of (i ∷ ids) r.event_id && is_pending r) set_applied
            (get_all_ledger_records l)))
        (marked-Within q (i ∷ ids) (get_all_ledger_records l) k)

  finish_wave-Within :
      (q : String → Bool) (n : ℕ) (group : List NormalizedCdcEvent) (l : Ledger)
      (m : Result Counts × Targets) (counts : Counts) (w' : World)
      → finish_wave p c proc n group l m ≡ (ok counts, w')
      → Within q (get_all_ledger_records l)
      → LeftWithin (λ i. q i && not (is_one_of (map (λ e. e.event_id) group) i)) w'
  finish_wave-Within q n group l (raise e, targets) counts w' h k = absurd (cc (ap (λ z. z.0) h))
  finish_wave-Within q n group l (ok cs, targets) counts w' h k =
      elim (Bool-cases (fails_at c.fail_after_target_group n)) [
        | inl crash ↦ absurd (cc (ap (λ z. z.0) (rw crash at h)))
        | inr goes ↦
            subst (LeftWithin (λ i. q i && not (is_one_of (map (λ e. e.event_id) group) i)))
              (ap (λ z. z.1) (rw goes at h))
              (mark_events_applied-Within q (map (λ e. e.event_id) group) l k)
      ]

  run_wave-Within :
      (q : String → Bool) (n : ℕ) (name : String) (group : List NormalizedCdcEvent) (w : World)
      (counts : Counts) (w' : World)
      → run_wave p c proc n name group w ≡ (ok counts, w')
      → All (λ e. q e.event_id ≡ true) group
      → LeftWithin q w
      → LeftWithin (λ i. q i && not (is_one_of (map (λ e. e.event_id) group) i)) w'
  unfolding run_wave
  run_wave-Within q n name group w counts w' h own k =
      elim (Bool-cases (fails_at c.fail_after_pending_group n)) [
        | inl crash ↦ absurd (cc (ap (λ z. z.0) (rw crash at h)))
        | inr goes ↦
            finish_wave-Within q n group (record_pending_events p.ledger_table group proc w.ledger)
              (merge_wave p.target_table p.external p.policy proc name group w.targets) counts w'
              (rw goes at h) (record_pending_events-Within q group w.ledger own k)
      ]

  uncovered : (events : List NormalizedCdcEvent) (i : String) → covered events [] i ≡ false
  uncovered [] i = refl
  uncovered (e ∷ events) i = ground (arith, uncovered events i)

  pub none_pending :
      (events : List NormalizedCdcEvent) (rows : List EventLedgerRecord)
      → Within (covered events []) rows
      → keep is_pending rows ≡ []
  none_pending events [] h = refl
  none_pending events (r ∷ rows) h = elim (Bool-cases (is_pending r)) [
    | inl left ↦ absurd (cc (sym (uncovered events r.event_id) ∙ h.0 left))
    | inr done ↦ rw done (none_pending events rows h.1)
  ]

  -- Waves that come to their end leave nothing PENDING, if what was PENDING is of their events.
  pub run_waves-settle :
      (events : List NormalizedCdcEvent) (n : ℕ) (keys : List WaveKey) (t t' : Totals)
      (w w' : World)
      → run_waves p c proc events n keys t w ≡ (ok t', w')
      → LeftWithin (covered events keys) w
      → get_pending_records w'.ledger ≡ []
  unfolding run_waves get_pending_records
  run_waves-settle events n [] t t' w w' h k =
      subst (λ z. keep is_pending (get_all_ledger_records z.ledger) ≡ []) (ap (λ q. q.1) h)
        (none_pending events (get_all_ledger_records w.ledger) k)
  run_waves-settle events n (k ∷ keys) t t' w w' h left =
      let (counts, v, ran, goes) =
        and_then-ok (run_wave p c proc n k.0 (keep (in_wave k) events) w)
          (λ counts v. run_waves p c proc events (suc n) keys (add_counts counts t) v) t' w' h in
      run_waves-settle events (suc n) keys (add_counts counts t) t' v w' goes (
        All-map
          (λ r.
            is_pending r ≡ true
            → covered events (k ∷ keys) r.event_id
                && not (is_one_of (map (λ e. e.event_id) (keep (in_wave k) events)) r.event_id)
              ≡ true)
          (λ r. is_pending r ≡ true → covered events keys r.event_id ≡ true)
          (get_all_ledger_records v.ledger) (λ r f s. covered-rest k keys events r.event_id (f s))
          (run_wave-Within (covered events (k ∷ keys)) n k.0 (keep (in_wave k) events) w counts v
            ran (group-covered k keys events) left))
