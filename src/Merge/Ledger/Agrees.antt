-- ===== src/Merge/Ledger/Agrees.antt =====
-- The fingerprints that the ledger of src/merge/event_ledger.py has of the events.
use incremental_cdc_data_pla.Base.{
  String, Bool, true, ◌≡◌, refl, Option, none, some, List, [], ◌∷◌, All, arith, ◌==◌, eq_iff,
  find_where, find_where_sound, some_injective, subst, Bool-cases, Option-cases, inl, inr,
}
use incremental_cdc_data_pla.Delta.{Delta, IsDelta}
use incremental_cdc_data_pla.Normalization.{NormalizedCdcEvent}
use incremental_cdc_data_pla.Merge.Ledger.{
  EventLedgerRecord, Ledger, get_ledger_record_by_event_id, record_pending_events,
  mark_events_applied,
}
use incremental_cdc_data_pla.Merge.Ledger.Lookup.{
  event_with, record_pending_events-lookup, mark_events_applied-lookup,
}

abbrev pub unchanged : NormalizedCdcEvent → Option EventLedgerRecord → Bool
unchanged e none = true
unchanged e (some r) = r.event_fingerprint == e.event_fingerprint

-- Whether the record of an event, if there is one, has its fingerprint.
abbrev pub agrees : Ledger → NormalizedCdcEvent → Bool
agrees l e = unchanged e (get_ledger_record_by_event_id e.event_id l)

-- Of two events with one id, both have one fingerprint.
abbrev pub IsSame : NormalizedCdcEvent → NormalizedCdcEvent → Type 0
IsSame e g = g.event_id ≡ e.event_id → g.event_fingerprint == e.event_fingerprint ≡ true

find_where-All :
    (q : NormalizedCdcEvent → Bool) (P : NormalizedCdcEvent → Type 0) (es : List NormalizedCdcEvent)
    (g : NormalizedCdcEvent)
    → find_where q es ≡ some g
    → All P es
    → P g
unfolding find_where
find_where-All q P [] g h all = absurd (cc)
find_where-All q P (e ∷ es) g h all = elim (Bool-cases (q e)) [
  | inl here ↦ subst P (some_injective (rw here at h)) all.0
  | inr other ↦ find_where-All q P es g (rw other at h) all.1
]

event_with-IsSame :
    (e g : NormalizedCdcEvent) (es : List NormalizedCdcEvent)
    → event_with e.event_id es ≡ some g
    → All (IsSame e) es
    → g.event_fingerprint == e.event_fingerprint ≡ true
event_with-IsSame e g es h all =
    find_where-All (λ f. f.event_id == e.event_id) (IsSame e) es g h all
      ((eq_iff g.event_id e.event_id).0 (find_where_sound (λ f. f.event_id == e.event_id) es g h))

module _ (d : Delta EventLedgerRecord) (lawful : IsDelta d) (e : NormalizedCdcEvent) where
  pub record_pending_events-agrees :
      (proc : String) (es : List NormalizedCdcEvent) (l : Ledger)
      → All (IsSame e) es
      → agrees l e ≡ true
      → agrees (record_pending_events d es proc l) e ≡ true
  record_pending_events-agrees proc es l same h =
      elim (Option-cases (get_ledger_record_by_event_id e.event_id l)) [
        | inr (r, there) ↦
            rw (record_pending_events-lookup d lawful e.event_id proc es l, there) (rw there at h)
        | inl absent ↦ elim (Option-cases (event_with e.event_id es)) [
          | inl none_there ↦
              rw (record_pending_events-lookup d lawful e.event_id proc es l, absent, none_there)
                refl
          | inr (g, there) ↦
              rw (record_pending_events-lookup d lawful e.event_id proc es l, absent, there)
                (event_with-IsSame e g es there same)
        ]
      ]

  pub mark_events_applied-agrees :
      (ids : List String) (l : Ledger)
      → agrees l e ≡ true
      → agrees (mark_events_applied d ids l) e ≡ true
  mark_events_applied-agrees ids l h =
      elim (Option-cases (get_ledger_record_by_event_id e.event_id l)) [
        | inl absent ↦ rw (mark_events_applied-lookup d lawful e.event_id ids l, absent) refl
        | inr (r, there) ↦
            ground (arith, mark_events_applied-lookup d lawful e.event_id ids l, there, h)
      ]
