-- ===== src/Cdc/Serialization/Groups.antt =====
-- src/cdc/serialization.py: each group of events is in the file of its path.
use incremental_cdc_data_pla.Base.{
  String, ◌≡◌, refl, sym, ◌∙◌, ap, true, not, ◌||◌, some, List, [], ◌∷◌, map, keep, keep-All, any,
  All, All-map, All-zip, arith, ◌==◌, eq_iff, eq_refl, lookup, lookup-insert, ◌⊎◌, Bool-cases, inl,
  inr,
}
use incremental_cdc_data_pla.Cdc.{CdcEvent}
use incremental_cdc_data_pla.Cdc.Event.{Casts}
use incremental_cdc_data_pla.Cdc.Serialization.{
  Json, serialize_event_to_json, Files, GroupKey, group_key, in_group, group_keys, write_group,
  write_groups, write_cdc_batch_jsonl, events, read_cdc_batch_jsonl,
}
use incremental_cdc_data_pla.Cdc.Serialization.RoundTrip.{
  canonical, ReadsBack, parse_events-serialize,
}

any-other_group :
    (e f : CdcEvent) (keys : List GroupKey)
    → any (λ k. in_group k f) keys ≡ true
    → in_group (group_key e) f || any (λ k. in_group k f) (keep (λ k. not (in_group k e)) keys)
      ≡ true
any-other_group e f [] h = absurd (cc)
any-other_group e f ((b, t) ∷ keys) h = ground (
  arith,
  any-other_group e f keys,
  eq_iff e.batch_id b,
  eq_iff f.batch_id b,
  eq_iff f.batch_id e.batch_id,
  eq_iff e.table_name t,
  eq_iff f.table_name t,
  eq_iff f.table_name e.table_name,
  h,
)

-- Each event is in one of the groups.
group_keys-cover :
    (es : List CdcEvent) → All (λ e. any (λ k. in_group k e) (group_keys es) ≡ true) es
unfolding group_keys
group_keys-cover [] = tt
group_keys-cover (e ∷ es) = (
  ground (arith, eq_refl e.batch_id, eq_refl e.table_name),
  All-map (λ f. any (λ k. in_group k f) (group_keys es) ≡ true)
      (λ f.
        any (λ k. in_group k f) (group_key e ∷ keep (λ k. not (in_group k e)) (group_keys es))
        ≡ true)
      es (λ f. any-other_group e f (group_keys es)) (group_keys-cover es),
)

-- What holds of the events' keys holds of the groups' keys.
group_keys-All :
    (P : GroupKey → Type 0) (es : List CdcEvent)
    → All (λ e. P (group_key e)) es
    → All P (group_keys es)
unfolding group_keys
group_keys-All P [] h = tt
group_keys-All P (e ∷ es) h =
    (h.0, keep-All (λ k. not (in_group k e)) P (group_keys es) (group_keys-All P es h.1))

module _ (j : Json) (path : String → String → String) (es : List CdcEvent) where
  -- Of another key with the same path as a group, the key is that of the group.
  abbrev IsApart : CdcEvent → GroupKey → Type 0
  IsApart e k = path k.0 k.1 ≡ path e.batch_id e.table_name → k ≡ group_key e

  abbrev group_lines : GroupKey → List String
  group_lines k = map (serialize_event_to_json j) (keep (in_group k) es)

  in_group_sound : (k : GroupKey) (e : CdcEvent) → in_group k e ≡ true → k ≡ group_key e
  in_group_sound (b, t) e h =
      let same_b = (eq_iff e.batch_id b).0 (ground (arith, h)) in
      let same_t = (eq_iff e.table_name t).0 (ground (arith, h)) in rw (same_b, same_t) refl

  write_groups-lookup :
      (e : CdcEvent) (keys : List GroupKey) (files : Files)
      → All (IsApart e) keys
      → (any (λ k. in_group k e) keys ≡ true)
        ⊎ (lookup (path e.batch_id e.table_name) files ≡ some (group_lines (group_key e)))
      → lookup (path e.batch_id e.table_name) (write_groups j path es keys files)
        ≡ some (group_lines (group_key e))
  unfolding write_groups write_group
  write_groups-lookup e [] files apart (inl h) = absurd (cc)
  write_groups-lookup e [] files apart (inr h) = h
  write_groups-lookup e (k ∷ keys) files apart h =
      let q = path e.batch_id e.table_name in
      write_groups-lookup e keys (write_group j path es k files) apart.1
        (elim (Bool-cases (path k.0 k.1 == q)) [
          | inl here ↦ inr (
              rw (lookup-insert (path k.0 k.1) q (group_lines k) files, here)
                (ap (λ i. some (group_lines i)) (apart.0 ((eq_iff (path k.0 k.1) q).0 here))))
          | inr other ↦ elim h [
            | inr before ↦
                inr (rw (lookup-insert (path k.0 k.1) q (group_lines k) files, other) before)
            | inl member ↦ elim (Bool-cases (in_group k e)) [
              | inl own ↦ absurd (
                  cc (
                    sym other
                    ∙ (eq_iff (path k.0 k.1) q).1
                        (ap (λ i. path i.0 i.1) (in_group_sound k e own))))
              | inr another ↦ inl (rw another at member)
            ]
          ]
        ])

-- Where the events of different batches or tables have different paths, and `json` reads each event
-- back: after the events are written, the file of an event's batch and table reads as the events of
-- that batch and table, in their order, with the keys of their dictionaries sorted.
pub read-write_cdc_batch :
    (j : Json) (c : Casts) (path : String → String → String) (es : List CdcEvent) (files : Files)
    → All
        (λ e.
          All
            (λ f.
              path f.batch_id f.table_name ≡ path e.batch_id e.table_name
              → group_key f ≡ group_key e)
            es)
        es
    → All (ReadsBack j) es
    → All
        (λ e.
          read_cdc_batch_jsonl j c
            (path e.batch_id e.table_name)
            (write_cdc_batch_jsonl j path es files).1
          ≡ events (map canonical (keep (in_group (group_key e)) es)))
        es
unfolding read_cdc_batch_jsonl write_cdc_batch_jsonl
read-write_cdc_batch j c path es files apart back =
    All-zip _ _ _ es
      (λ e member own.
        rw
          (write_groups-lookup j path es e (group_keys es) files
            (group_keys-All (IsApart j path es e) es own) (inl member))
          (parse_events-serialize j c 1 (keep (in_group (group_key e)) es)
            (keep-All (in_group (group_key e)) (ReadsBack j) es back)))
      (group_keys-cover es) apart
