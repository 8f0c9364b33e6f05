-- ===== src/Merge/Ledger/Lookup.antt =====
-- What a lookup in the ledger of src/merge/event_ledger.py finds after each of its writes.
use incremental_cdc_data_pla.Base.{
  String, ◌≡◌, refl, sym, ◌∙◌, ap, ◌&&◌, Option, none, some, List, [], ◌∷◌, map, arith, is_some,
  ◌==◌, find_where, find_where-append, find_where-map, find_where-update_where, map_option,
  if◌then◌else◌, Option-cases, inl, inr,
}
use incremental_cdc_data_pla.Delta.{Delta, IsDelta, new_rows}
use incremental_cdc_data_pla.Delta.Keys.{row_at-new_rows}
use incremental_cdc_data_pla.Normalization.{NormalizedCdcEvent}
use incremental_cdc_data_pla.Merge.Ledger.{
  EventLedgerRecord, Ledger, is_pending, get_all_ledger_records, get_ledger_record_by_event_id,
  pending_record, same_event, is_one_of, set_applied, record_pending_events, mark_events_applied,
}

map_id : {A : Type 0} (xs : List A) → map (λ x. x) xs ≡ xs
map_id [] = refl
map_id (x ∷ xs) = ap (λ ys. x ∷ ys) (map_id xs)

pub map_option_id : {A : Type 0} (o : Option A) → map_option (λ x. x) o ≡ o
map_option_id none = refl
map_option_id (some a) = refl

abbrev pub event_with : String → List NormalizedCdcEvent → Option NormalizedCdcEvent
event_with i es = find_where (λ e. e.event_id == i) es

module _ (d : Delta EventLedgerRecord) (lawful : IsDelta d) where
  -- New rows have the ids that the ledger lacks.
  new_rows-lookup :
      (i : String) (source rows : List EventLedgerRecord)
      → find_where (λ r. r.event_id == i) rows ≡ none
      → find_where (λ r. r.event_id == i) (new_rows same_event source rows)
        ≡ find_where (λ r. r.event_id == i) source
  new_rows-lookup i source rows absent =
      ap (find_where (λ r. r.event_id == i)) (sym (map_id (new_rows same_event source rows)))
      ∙ row_at-new_rows (λ r. some r.event_id) (λ s. s) (λ s. refl) i source rows absent
      ∙ map_option_id (find_where (λ r. r.event_id == i) source)

  -- Over a Delta ledger that meets its laws, after events are recorded as PENDING, the record of an
  -- event id is the one that the ledger had, or else a new one, made from the first of the events
  -- with the id.
  pub record_pending_events-lookup :
      (i proc : String) (es : List NormalizedCdcEvent) (l : Ledger)
      → get_ledger_record_by_event_id i (record_pending_events d es proc l) ≡ (
          if is_some (get_ledger_record_by_event_id i l)
          then get_ledger_record_by_event_id i l
          else map_option (pending_record proc) (event_with i es))
  unfolding record_pending_events get_ledger_record_by_event_id
  record_pending_events-lookup i proc [] l =
      elim (Option-cases (find_where (λ r. r.event_id == i) (get_all_ledger_records l))) [
        | inl absent ↦ unfold find_where in rw absent refl
        | inr (r, there) ↦ rw there refl
      ]
  record_pending_events-lookup i proc (e ∷ es) l =
      let rows = get_all_ledger_records l in
      let made = map (pending_record proc) (e ∷ es) in
      rw (lawful.insert_all-rows same_event made rows)
        (elim (Option-cases (find_where (λ r. r.event_id == i) rows)) [
          | inl absent ↦ ground (
            arith,
            absent,
            find_where-append (λ r. r.event_id == i) rows (new_rows same_event made rows),
            new_rows-lookup i made rows absent,
            find_where-map (λ r. r.event_id == i) (pending_record proc) (e ∷ es),
          )
          | inr (r, there) ↦ ground (
            arith,
            there,
            find_where-append (λ r. r.event_id == i) rows (new_rows same_event made rows),
          )
        ])

  -- After events are marked as applied, the record of an event id is the one that the ledger had,
  -- as APPLIED where its id is among those marked and it was PENDING.
  pub mark_events_applied-lookup :
      (i : String) (ids : List String) (l : Ledger)
      → get_ledger_record_by_event_id i (mark_events_applied d ids l)
        ≡ map_option
            (λ r. if is_one_of ids r.event_id && is_pending r then set_applied r else r)
            (get_ledger_record_by_event_id i l)
  unfolding mark_events_applied get_ledger_record_by_event_id
  mark_events_applied-lookup i [] l = sym (map_option_id (get_ledger_record_by_event_id i l))
  mark_events_applied-lookup i (j ∷ ids) l =
      rw
        (lawful.update-rows (λ r. is_one_of (j ∷ ids) r.event_id && is_pending r) set_applied
          (get_all_ledger_records l))
        (find_where-update_where (λ r. is_one_of (j ∷ ids) r.event_id && is_pending r)
          (λ r. r.event_id == i) set_applied (get_all_ledger_records l) (λ r. refl))
