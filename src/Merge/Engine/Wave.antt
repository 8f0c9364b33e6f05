-- ===== src/Merge/Engine/Wave.antt =====
-- What a wave of src/merge/merge_engine.py leaves of each key.
use incremental_cdc_data_pla.Base.{
  ◌≤◌, String, ◌≡◌, refl, ap, Bool, true, false, Option, none, some, List, [], ◌∷◌, map, keep,
  keep-All, subst, All, arith, ◌==◌, eq_iff, find_where, find_where-append, find_where-keep, select,
  Bool-cases, Option-cases, inl, inr,
}
use incremental_cdc_data_pla.Cdc.{Table}
use incremental_cdc_data_pla.Normalization.{NormalizedCdcEvent}
use incremental_cdc_data_pla.Delta.{Delta, IsDelta, update_by, new_rows}
use incremental_cdc_data_pla.Delta.Keys.{
  has_key, same_key, on, row_at, row_at-update, row_at-new_rows, row_at-delete,
}
use incremental_cdc_data_pla.Merge.{
  External, TargetRow, convert_rows, convert_events, row_key, event_key, is_delete,
}
use incremental_cdc_data_pla.Merge.Engine.{
  DeletePolicy, hard, soft, is_ambiguous, is_upsert, live, bury, apply_upserts, apply_deletes,
  mutate_wave,
}
use incremental_cdc_data_pla.Merge.Engine.Effect.{upserted, deleted, after_event, upsert_no_delete}
use incremental_cdc_data_pla.Merge.Engine.Rows.{
  KeyAgrees, convert_events-rows, event_at, row_from_event, row_at-convert_rows, count_at,
  at_most_once, count_at-keep, rows-IsUnambiguous,
}

same_key_sound : (i j : Option String) → same_key i j ≡ true → j ≡ i
same_key_sound none j h = cc
same_key_sound (some i) none h = cc
same_key_sound (some i) (some j) h = ground (arith, eq_iff i j)

live-key :
    (t : Table) (r s : TargetRow) → on (row_key t) r s ≡ true → row_key t (live s) ≡ row_key t r
unfolding row_key
live-key t r s h = same_key_sound (row_key t r) (row_key t s) h

module _ (d : Delta TargetRow) (lawful : IsDelta d) (x : External) (t : Table) (proc : String) where
  module _ (es : List NormalizedCdcEvent) (agree : All (KeyAgrees x t) es)
      (once : (k : String) → count_at x t k es ≤ 1) (source rows : List TargetRow)
      (made : convert_rows x t proc es ≡ some source) where
    upsert-row_at :
        (k : String)
        → row_at (row_key t) k (d.upsert (on (row_key t)) (λ r s. live s) live source rows)
          ≡ upserted (row_from_event x t proc (event_at x t k es)) (row_at (row_key t) k rows)
    unfolding row_key
    upsert-row_at k =
        let key = row_key t in
        rw
          (lawful.upsert-rows (on key) (λ r s. live s) live source rows
            (rows-IsUnambiguous x t proc es source rows agree made once))
          (elim (Option-cases (row_at key k rows)) [
            | inl absent ↦ ground (
              arith,
              absent,
              find_where-append (λ r. has_key k (key r))
                  (map (update_by (on key) (λ r s. live s) source) rows)
                  (map live (new_rows (on key) source rows)),
              row_at-update key (λ r s. live s) (live-key t) source k rows,
              row_at-new_rows key live (λ s. refl) k source rows absent,
              row_at-convert_rows x t proc k es source agree made,
            )
            | inr (r, there) ↦ ground (
              arith,
              there,
              find_where-append (λ r. has_key k (key r))
                  (map (update_by (on key) (λ r s. live s) source) rows)
                  (map live (new_rows (on key) source rows)),
              row_at-update key (λ r s. live s) (live-key t) source k rows,
              row_at-convert_rows x t proc k es source agree made,
            )
          ])

    delete-row_at :
        (k : String)
        → row_at (row_key t) k (d.merge_delete (on (row_key t)) source rows)
          ≡ deleted hard (row_from_event x t proc (event_at x t k es)) (row_at (row_key t) k rows)
    delete-row_at k =
        let key = row_key t in
        rw (lawful.merge_delete-rows (on key) source rows) (
          ground (
            arith,
            row_at-delete key k source rows,
            row_at-convert_rows x t proc k es source agree made,
          ))

    bury-row_at :
        (k : String)
        → row_at (row_key t) k (d.merge_update (on (row_key t)) bury source rows)
          ≡ deleted soft (row_from_event x t proc (event_at x t k es)) (row_at (row_key t) k rows)
    unfolding row_key
    bury-row_at k =
        let key = row_key t in
        rw
          (lawful.merge_update-rows (on key) bury source rows
            (rows-IsUnambiguous x t proc es source rows agree made once))
          (ground (
            arith,
            row_at-update key bury (λ r s e. refl) source k rows,
            row_at-convert_rows x t proc k es source agree made,
          ))

  apply_upserts-row_at :
      (es : List NormalizedCdcEvent) (rows final : List TargetRow) (k : String)
      → All (KeyAgrees x t) es
      → ((j : String) → count_at x t j es ≤ 1)
      → apply_upserts d x t proc es rows ≡ some final
      → row_at (row_key t) k final
        ≡ upserted (row_from_event x t proc (event_at x t k es)) (row_at (row_key t) k rows)
  unfolding apply_upserts find_where
  apply_upserts-row_at [] rows final k agree once h = ground arith
  apply_upserts-row_at (e ∷ es) rows final k agree once h =
      elim (Option-cases (convert_events x t proc (e ∷ es))) [
        | inl fails ↦ absurd (ground (arith, fails, h))
        | inr (source, runs) ↦
            let made = convert_events-rows x t proc (e ∷ es) source agree runs in
            ground (arith, upsert-row_at (e ∷ es) agree once source rows made k, runs, h)
      ]

  apply_deletes-row_at :
      (policy : DeletePolicy) (es : List NormalizedCdcEvent) (rows final : List TargetRow)
      (k : String)
      → All (KeyAgrees x t) es
      → ((j : String) → count_at x t j es ≤ 1)
      → apply_deletes d x t proc policy es rows ≡ some final
      → row_at (row_key t) k final
        ≡ deleted policy (row_from_event x t proc (event_at x t k es)) (row_at (row_key t) k rows)
  unfolding apply_deletes find_where
  apply_deletes-row_at policy [] rows final k agree once h = ground arith
  apply_deletes-row_at hard (e ∷ es) rows final k agree once h =
      elim (Option-cases (convert_events x t proc (e ∷ es))) [
        | inl fails ↦ absurd (ground (arith, fails, h))
        | inr (source, runs) ↦
            let made = convert_events-rows x t proc (e ∷ es) source agree runs in
            ground (arith, delete-row_at (e ∷ es) agree once source rows made k, runs, h)
      ]
  apply_deletes-row_at soft (e ∷ es) rows final k agree once h =
      elim (Option-cases (convert_events x t proc (e ∷ es))) [
        | inl fails ↦ absurd (ground (arith, fails, h))
        | inr (source, runs) ↦
            let made = convert_events-rows x t proc (e ∷ es) source agree runs in
            ground (arith, bury-row_at (e ∷ es) agree once source rows made k, runs, h)
      ]

  event_at-keep :
      (k : String) (q : NormalizedCdcEvent → Bool) (es : List NormalizedCdcEvent)
      → count_at x t k es ≤ 1
      → event_at x t k (keep q es) ≡ select q (event_at x t k es)
  event_at-keep k q es h = find_where-keep (λ e. event_key x t e == k) q es (ground arith)

  by_operation :
      (policy : DeletePolicy) (e : NormalizedCdcEvent) (old : Option TargetRow)
      → deleted policy
          (row_from_event x t proc (select is_delete (some e)))
          (upserted (row_from_event x t proc (select is_upsert (some e))) old)
        ≡ after_event x t proc policy (some e) old
  by_operation policy e old = elim (Bool-cases (is_upsert e)) [
    | inl written ↦ rw (written, upsert_no_delete e written) refl
    | inr other ↦ elim (Bool-cases (is_delete e)) [
      | inl gone ↦ rw (other, gone) refl
      | inr kept ↦ rw (other, kept) refl
    ]
  ]

  wave_row :
      (policy : DeletePolicy) (events : List NormalizedCdcEvent) (rows mid final : List TargetRow)
      (k : String)
      → row_at (row_key t) k mid
        ≡ upserted
            (row_from_event x t proc (event_at x t k (keep is_upsert events)))
            (row_at (row_key t) k rows)
      → row_at (row_key t) k final
        ≡ deleted policy
            (row_from_event x t proc (event_at x t k (keep is_delete events)))
            (row_at (row_key t) k mid)
      → count_at x t k events ≤ 1
      → row_at (row_key t) k final
        ≡ after_event x t proc policy (event_at x t k events) (row_at (row_key t) k rows)
  wave_row policy events rows mid final k first second once =
      let kept = event_at-keep k is_upsert events once in
      let gone = event_at-keep k is_delete events once in
      elim (Option-cases (event_at x t k events)) [
        | inl absent ↦ rw (second, gone, first, kept, absent) refl
        | inr (e, there) ↦
            rw (second, gone, first, kept, there)
              (by_operation policy e (row_at (row_key t) k rows))
      ]

  -- Over Delta operations that meet their laws, a wave that comes to its end, whose events are of
  -- the table, have different keys and carry their key in their row image, leaves under each key
  -- what the event of the key makes of the old row: an INSERT or an UPDATE leaves the row of the
  -- event, a hard DELETE none, a soft one the old row as a tombstone. A key with no event, or with
  -- an event of another operation, keeps its row.
  pub mutate_wave_lem :
      (policy : DeletePolicy) (events : List NormalizedCdcEvent) (rows final : List TargetRow)
      (k : String)
      → All (KeyAgrees x t) events
      → is_ambiguous x t [] events ≡ false
      → mutate_wave d x t proc policy events rows ≡ (true, final)
      → row_at (row_key t) k final
        ≡ after_event x t proc policy (event_at x t k events) (row_at (row_key t) k rows)
  unfolding mutate_wave
  mutate_wave_lem policy events rows final k agree clear h =
      let once = λ (j : String). at_most_once x t j events clear in
      elim (Option-cases (apply_upserts d x t proc (keep is_upsert events) rows)) [
        | inl fails ↦ absurd (cc (ap (λ p. p.0) (rw fails at h)))
        | inr (mid, upserts) ↦
            elim (Option-cases (apply_deletes d x t proc policy (keep is_delete events) mid)) [
              | inl fails ↦ absurd (cc (ap (λ p. p.0) (rw (upserts, fails) at h)))
              | inr (last, deletes) ↦
                  wave_row policy events rows mid final k
                    (apply_upserts-row_at (keep is_upsert events) rows mid k
                      (keep-All is_upsert (KeyAgrees x t) events agree)
                      (λ j. omega (arith, count_at-keep x t j is_upsert events, once j)) upserts)
                    (subst
                      (λ z.
                        row_at (row_key t) k z
                        ≡ deleted policy
                            (row_from_event x t proc (event_at x t k (keep is_delete events)))
                            (row_at (row_key t) k mid))
                      (ap (λ p. p.1) (rw (upserts, deletes) at h))
                      (apply_deletes-row_at policy (keep is_delete events) mid last k
                        (keep-All is_delete (KeyAgrees x t) events agree)
                        (λ j. omega (arith, count_at-keep x t j is_delete events, once j)) deletes))
                    (once k)
            ]
      ]
