-- ===== src/Merge/Classify/Checks.antt =====
-- The guards of src/merge/pipeline.py: what it takes as fresh, and what it takes over.
use incremental_cdc_data_pla.Base.{
  String, ◌≡◌, ◌≢◌, ◌↔◌, refl, sym, ◌∙◌, ap, Bool, true, false, not, ◌&&◌, Option, none, some, List,
  [], ◌∷◌, keep, any, All, All-map, All-zip, arith, is_some, ◌==◌, eq_iff, Bool-cases, Option-cases,
  inl, inr,
}
use incremental_cdc_data_pla.Cdc.{ℤ, pos, negsuc, le_int}
use incremental_cdc_data_pla.Cdc.Engine.Batch.{le_int_refl, le_int_trans}
use incremental_cdc_data_pla.Normalization.{NormalizedCdcEvent}
use incremental_cdc_data_pla.Merge.Ledger.{
  EventLedgerRecord, is_pending, get_ledger_record_by_event_id, greater, largest, GroupMax,
  IsGroupMax, get_applied_max_sequences, pending, applied, LedgerStatus,
}
use incremental_cdc_data_pla.Merge.Engine.{ok}
use incremental_cdc_data_pla.Merge.Classify.{
  fresh, incoming, has_fingerprint, check_pending, classify_new, classify_known, classify_event,
}

le_int_total : (a b : ℤ) → le_int a b ≡ false → le_int b a ≡ true
le_int_total (pos n) (pos m) h = ground arith
le_int_total (pos n) (negsuc m) h = refl
le_int_total (negsuc n) (pos m) h = absurd (cc)
le_int_total (negsuc n) (negsuc m) h = ground arith

abbrev le_max : ℤ → Option ℤ → Bool
le_max n none = false
le_max n (some m) = le_int n m

le_max-greater : (n a : ℤ) (o : Option ℤ) → le_max n o ≡ true → le_int n (greater a o) ≡ true
le_max-greater n a none h = absurd (cc)
le_max-greater n a (some m) h = elim (Bool-cases (le_int m a)) [
  | inl up ↦ rw up (le_int_trans n m a h up)
  | inr down ↦ rw down h
]

greater_self : (a : ℤ) (o : Option ℤ) → le_int a (greater a o) ≡ true
greater_self a none = le_int_refl a
greater_self a (some m) = elim (Bool-cases (le_int m a)) [
  | inl up ↦ rw up (le_int_refl a)
  | inr down ↦ rw down (le_int_total m a down)
]

-- The records of a key are no larger than its largest sequence number.
largest-All :
    (k : String) (rows : List EventLedgerRecord)
    → All (λ r. r.entity_sequence_key ≡ k → le_max r.sequence_number (largest k rows) ≡ true) rows
unfolding largest
largest-All k [] = tt
largest-All k (r ∷ rows) = elim (Bool-cases (r.entity_sequence_key == k)) [
  | inl same ↦
      let top = greater r.sequence_number (largest k rows) in
      let step : largest k (r ∷ rows) ≡ some top = rw same refl in
      (
        (λ h. ap (le_max r.sequence_number) step ∙ greater_self r.sequence_number (largest k rows)),
        All-map (λ s. s.entity_sequence_key ≡ k → le_max s.sequence_number (largest k rows) ≡ true)
            (λ s.
              s.entity_sequence_key ≡ k → le_max s.sequence_number (largest k (r ∷ rows)) ≡ true)
            rows
            (λ s ih h.
              ap (le_max s.sequence_number) step
              ∙ le_max-greater s.sequence_number r.sequence_number (largest k rows) (ih h))
            (largest-All k rows),
      )
  | inr other ↦
      let step : largest k (r ∷ rows) ≡ largest k rows = rw other refl in
      (
        (λ h. absurd (ground (arith, eq_iff r.entity_sequence_key k, h, other))),
        All-map (λ s. s.entity_sequence_key ≡ k → le_max s.sequence_number (largest k rows) ≡ true)
            (λ s.
              s.entity_sequence_key ≡ k → le_max s.sequence_number (largest k (r ∷ rows)) ≡ true)
            rows (λ s ih h. ap (le_max s.sequence_number) step ∙ ih h) (largest-All k rows),
      )
]

fresh_above :
    (o : Option ℤ) (e : NormalizedCdcEvent) (n : ℤ)
    → classify_new o e ≡ ok fresh
    → le_max n o ≡ true
    → le_int e.sequence_number n ≡ false
fresh_above none e n h k = absurd (cc)
fresh_above (some m) e n h k = elim (Bool-cases (le_int m e.sequence_number)) [
  | inl up ↦ elim (Bool-cases (le_int e.sequence_number m)) [
    | inl down ↦ absurd (cc (rw (up, down) at h))
    | inr above ↦ elim (Bool-cases (le_int e.sequence_number n)) [
      | inl low ↦ absurd (cc (sym above ∙ le_int_trans e.sequence_number n m low k))
      | inr high ↦ high
    ]
  ]
  | inr below ↦ absurd (cc (rw below at h))
]

known_no_fresh :
    (proc : String) (s : LedgerStatus) (r : EventLedgerRecord) (e : NormalizedCdcEvent)
    → classify_known proc s r e ≢ ok fresh
known_no_fresh proc applied r e k = elim (Bool-cases (r.event_fingerprint == e.event_fingerprint)) [
  | inl same ↦ cc (rw same at k)
  | inr changed ↦ cc (rw changed at k)
]
known_no_fresh proc pending r e k = elim (Bool-cases (r.event_fingerprint == e.event_fingerprint)) [
  | inl same ↦ elim (Bool-cases (r.processing_id == proc)) [
    | inl own ↦ cc (rw (same, own) at k)
    | inr other ↦ cc (rw (same, other) at k)
  ]
  | inr changed ↦ cc (rw changed at k)
]

unkept-All :
    {A : Type 0} (q : A → Bool) (P : A → Type 0) (xs : List A)
    → All P (keep q xs)
    → All (λ a. q a ≡ true → P a) xs
unkept-All q P [] h = tt
unkept-All q P (x ∷ xs) h = elim (Bool-cases (q x)) [
  | inl kept ↦ let g = rw kept at h in ((λ k. g.0), unkept-All q P xs g.1)
  | inr dropped ↦ ((λ k. absurd (cc (sym dropped ∙ k))), unkept-All q P xs (rw dropped at h))
]

-- An event that is classified as fresh has no record in the ledger, and every APPLIED record of its
-- entity has a smaller sequence number, where the aggregate returns the largest number of each key.
pub classify_event-fresh :
    (proc : String) (g : GroupMax) (rows : List EventLedgerRecord) (e : NormalizedCdcEvent)
    → IsGroupMax g
    → classify_event proc (some rows) (get_applied_max_sequences g (some rows)) e ≡ ok fresh
    → (get_ledger_record_by_event_id e.event_id (some rows) ≡ none)
      × All
          (λ r.
            not (is_pending r) ≡ true
            → r.entity_sequence_key ≡ e.entity_sequence_key
            → le_int e.sequence_number r.sequence_number ≡ false)
          rows
unfolding classify_event get_applied_max_sequences
classify_event-fresh proc g rows e max h =
    elim (Option-cases (get_ledger_record_by_event_id e.event_id (some rows))) [
      | inr (r, there) ↦ absurd (known_no_fresh proc r.status r e (rw there at h))
      | inl absent ↦
          let done = keep (λ r. not (is_pending r)) rows in
          let k = e.entity_sequence_key in
          let new : classify_new (largest k done) e ≡ ok fresh =
            ap (λ o. classify_new o e) (sym (max done k)) ∙ rw absent at h in
          (
            absent,
            unkept-All (λ r. not (is_pending r))
                (λ r.
                  r.entity_sequence_key ≡ k → le_int e.sequence_number r.sequence_number ≡ false)
                rows
                (All-map
                  (λ r.
                    r.entity_sequence_key ≡ k → le_max r.sequence_number (largest k done) ≡ true)
                  (λ r.
                    r.entity_sequence_key ≡ k → le_int e.sequence_number r.sequence_number ≡ false)
                  done (λ r ih same. fresh_above (largest k done) e r.sequence_number new (ih same))
                  (largest-All k done)),
          )
    ]

any-none :
    {A : Type 0} (q : A → Bool) (xs : List A)
    → (any (λ a. not (q a)) xs ≡ false) ↔ All (λ a. q a ≡ true) xs
any-none q [] = ((λ h. tt), (λ h. refl))
any-none q (x ∷ xs) = (
  (λ h. (ground (arith, h), (any-none q xs).0 (ground (arith, h)))),
  (λ h. ground (arith, h.0, (any-none q xs).1 h.1)),
)

-- What may be taken over: its own processing id, and the same event among the incoming ones.
abbrev pub is_own : String → List NormalizedCdcEvent → EventLedgerRecord → Bool
is_own proc events r =
    r.processing_id == proc && has_fingerprint r.event_fingerprint (incoming r.event_id events)

fingerprint_comes :
    (f : String) (o : Option NormalizedCdcEvent) → has_fingerprint f o ≡ true → is_some o ≡ true
fingerprint_comes f none h = h
fingerprint_comes f (some e) h = refl

-- The check of what an interrupted run left passes exactly when each of its PENDING records is of
-- this processing id and its event comes again with the same fingerprint.
pub check_pending-passes :
    (proc : String) (left : List EventLedgerRecord) (events : List NormalizedCdcEvent)
    → (check_pending proc left events ≡ ok tt) ↔ All (λ r. is_own proc events r ≡ true) left
unfolding check_pending
check_pending-passes proc left events =
    let own = λ (r : EventLedgerRecord). r.processing_id == proc in
    let comes = λ (r : EventLedgerRecord). is_some (incoming r.event_id events) in
    let same =
      λ (r : EventLedgerRecord). has_fingerprint r.event_fingerprint (incoming r.event_id events) in
    (
      (λ h. elim (Bool-cases (any (λ r. not (own r)) left)) [
        | inl foreign ↦ absurd (cc (rw foreign at h))
        | inr a ↦ elim (Bool-cases (any (λ r. not (comes r)) left)) [
          | inl missing ↦ absurd (cc (rw (a, missing) at h))
          | inr b ↦ elim (Bool-cases (any (λ r. not (same r)) left)) [
            | inl changed ↦ absurd (cc (rw (a, b, changed) at h))
            | inr d ↦
                All-zip (λ r. own r ≡ true) (λ r. same r ≡ true) (λ r. is_own proc events r ≡ true)
                  left (λ r f g. ground (arith, f, g)) ((any-none own left).0 a)
                  ((any-none same left).0 d)
          ]
        ]
      ]),
      (λ h.
          let a = (any-none own left).1 (
            All-map (λ r. is_own proc events r ≡ true) (λ r. own r ≡ true) left
              (λ r k. ground (arith, k)) h) in
          let b = (any-none comes left).1 (
            All-map (λ r. is_own proc events r ≡ true) (λ r. comes r ≡ true) left
              (λ r k.
                fingerprint_comes r.event_fingerprint (incoming r.event_id events)
                  (ground (arith, k)))
              h) in
          let d = (any-none same left).1 (
            All-map (λ r. is_own proc events r ≡ true) (λ r. same r ≡ true) left
              (λ r k. ground (arith, k)) h) in
          rw (a, b, d) refl),
    )
