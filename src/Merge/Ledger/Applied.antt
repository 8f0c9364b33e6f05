-- ===== src/Merge/Ledger/Applied.antt =====
-- The events that the ledger of src/merge/event_ledger.py has as APPLIED.
use incremental_cdc_data_pla.Base.{
  String, ◌≡◌, refl, sym, ◌∙◌, ap, Bool, true, false, not, ◌||◌, Option, none, some, List, [], ◌∷◌,
  map, arith, is_some, ◌==◌, eq_iff, find_where, find_where_sound, Bool-cases, Option-cases, inl,
  inr,
}
use incremental_cdc_data_pla.Delta.{Delta, IsDelta}
use incremental_cdc_data_pla.Normalization.{NormalizedCdcEvent}
use incremental_cdc_data_pla.Merge.Ledger.{
  EventLedgerRecord, Ledger, is_pending, get_all_ledger_records, get_ledger_record_by_event_id,
  is_one_of, record_pending_events, mark_events_applied,
}
use incremental_cdc_data_pla.Merge.Ledger.Lookup.{
  event_with, record_pending_events-lookup, mark_events_applied-lookup,
}

-- Whether the record of an event, if there is one, is APPLIED.
abbrev pub has_applied : Option EventLedgerRecord → Bool
has_applied none = false
has_applied (some r) = not (is_pending r)

unfoldable pub applied_in : Ledger → String → Bool
applied_in l i = has_applied (get_ledger_record_by_event_id i l)

found-event_id :
    (i : String) (l : Ledger) (r : EventLedgerRecord)
    → get_ledger_record_by_event_id i l ≡ some r
    → r.event_id ≡ i
unfolding get_ledger_record_by_event_id
found-event_id i l r h =
    (eq_iff r.event_id i).0 (find_where_sound (λ s. s.event_id == i) (get_all_ledger_records l) r h)

event_with-is_one_of :
    (i : String) (es : List NormalizedCdcEvent)
    → is_some (event_with i es) ≡ is_one_of (map (λ e. e.event_id) es) i
unfolding find_where
event_with-is_one_of i [] = refl
event_with-is_one_of i (e ∷ es) = ground (arith, event_with-is_one_of i es)

module _ (d : Delta EventLedgerRecord) (lawful : IsDelta d) where
  -- No write takes APPLIED back.
  pub record_pending_events-applied_in :
      (i proc : String) (es : List NormalizedCdcEvent) (l : Ledger)
      → applied_in l i ≡ true
      → applied_in (record_pending_events d es proc l) i ≡ true
  unfolding applied_in
  record_pending_events-applied_in i proc es l h =
      elim (Option-cases (get_ledger_record_by_event_id i l)) [
        | inl absent ↦ absurd (cc (rw absent at h))
        | inr (r, there) ↦
            rw (record_pending_events-lookup d lawful i proc es l, there) (rw there at h)
      ]

  pub mark_events_applied-applied_in :
      (i : String) (ids : List String) (l : Ledger)
      → applied_in l i ≡ true
      → applied_in (mark_events_applied d ids l) i ≡ true
  unfolding applied_in
  mark_events_applied-applied_in i ids l h =
      elim (Option-cases (get_ledger_record_by_event_id i l)) [
        | inl absent ↦ absurd (cc (rw absent at h))
        | inr (r, there) ↦ ground (arith, mark_events_applied-lookup d lawful i ids l, there)
      ]

  record_pending_events-is_some :
      (i proc : String) (es : List NormalizedCdcEvent) (l : Ledger)
      → is_one_of (map (λ e. e.event_id) es) i ≡ true
      → is_some (get_ledger_record_by_event_id i (record_pending_events d es proc l)) ≡ true
  record_pending_events-is_some i proc es l h =
      elim (Option-cases (get_ledger_record_by_event_id i l)) [
        | inl absent ↦ elim (Option-cases (event_with i es)) [
          | inl none_there ↦
              absurd (cc (sym h ∙ sym (event_with-is_one_of i es) ∙ ap is_some none_there))
          | inr (e, there) ↦
              rw (record_pending_events-lookup d lawful i proc es l, absent, there) refl
        ]
        | inr (r, there) ↦ rw (record_pending_events-lookup d lawful i proc es l, there) refl
      ]

  mark_events_applied-marks :
      (i : String) (ids : List String) (l : Ledger)
      → is_some (get_ledger_record_by_event_id i l) ≡ true
      → is_one_of ids i ≡ true
      → applied_in (mark_events_applied d ids l) i ≡ true
  unfolding applied_in
  mark_events_applied-marks i ids l there h =
      elim (Option-cases (get_ledger_record_by_event_id i l)) [
        | inl absent ↦ absurd (cc (rw absent at there))
        | inr (r, found) ↦
            let same = found-event_id i l r found in
            let marked : is_one_of ids r.event_id ≡ true = ap (is_one_of ids) same ∙ h in
            ground (arith, mark_events_applied-lookup d lawful i ids l, found, marked)
      ]

  -- Recorded and then marked, the events of a group are APPLIED, and so are the ones that were.
  pub group-applied_in :
      (i proc : String) (es : List NormalizedCdcEvent) (l : Ledger)
      → applied_in l i || is_one_of (map (λ e. e.event_id) es) i ≡ true
      → applied_in
          (mark_events_applied d (map (λ e. e.event_id) es) (record_pending_events d es proc l))
          i
        ≡ true
  group-applied_in i proc es l h = elim (Bool-cases (applied_in l i)) [
    | inl done ↦
        mark_events_applied-applied_in i (map (λ e. e.event_id) es)
          (record_pending_events d es proc l) (record_pending_events-applied_in i proc es l done)
    | inr open_yet ↦
        let there = rw open_yet at h in
        mark_events_applied-marks i (map (λ e. e.event_id) es) (record_pending_events d es proc l)
          (record_pending_events-is_some i proc es l there) there
  ]
