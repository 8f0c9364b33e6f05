-- ===== src/Merge/Engine/Replay.antt =====
-- A wave of src/merge/merge_engine.py that is applied again, which is what a retry does after a
-- crash between the mutation of a target and the end of its ledger entries.
use incremental_cdc_data_pla.Base.{
  String, ◌≡◌, refl, sym, ◌∙◌, ap, true, false, List, [], ◌∷◌, keep, All, is_some, Option-cases,
  inl, inr,
}
use incremental_cdc_data_pla.Cdc.{Table}
use incremental_cdc_data_pla.Normalization.{NormalizedCdcEvent}
use incremental_cdc_data_pla.Delta.{Delta, IsDelta}
use incremental_cdc_data_pla.Delta.Keys.{row_at}
use incremental_cdc_data_pla.Merge.{External, TargetRow, convert_events, row_key, is_delete}
use incremental_cdc_data_pla.Merge.Engine.{
  DeletePolicy, hard, soft, is_ambiguous, is_upsert, apply_upserts, apply_deletes, mutate_wave,
}
use incremental_cdc_data_pla.Merge.Engine.Effect.{after_event, after_event_twice}
use incremental_cdc_data_pla.Merge.Engine.Rows.{KeyAgrees, event_at}
use incremental_cdc_data_pla.Merge.Engine.Wave.{mutate_wave_lem}

module _ (d : Delta TargetRow) (x : External) (t : Table) (proc : String) where
  apply_upserts-is_some :
      (es : List NormalizedCdcEvent) (rows rows' : List TargetRow)
      → is_some (apply_upserts d x t proc es rows) ≡ is_some (apply_upserts d x t proc es rows')
  unfolding apply_upserts
  apply_upserts-is_some [] rows rows' = refl
  apply_upserts-is_some (e ∷ es) rows rows' =
      elim (Option-cases (convert_events x t proc (e ∷ es))) [
        | inl fails ↦ rw fails refl
        | inr (source, runs) ↦ rw runs refl
      ]

  apply_deletes-is_some :
      (policy : DeletePolicy) (es : List NormalizedCdcEvent) (rows rows' : List TargetRow)
      → is_some (apply_deletes d x t proc policy es rows)
        ≡ is_some (apply_deletes d x t proc policy es rows')
  unfolding apply_deletes
  apply_deletes-is_some policy [] rows rows' = refl
  apply_deletes-is_some hard (e ∷ es) rows rows' =
      elim (Option-cases (convert_events x t proc (e ∷ es))) [
        | inl fails ↦ rw fails refl
        | inr (source, runs) ↦ rw runs refl
      ]
  apply_deletes-is_some soft (e ∷ es) rows rows' =
      elim (Option-cases (convert_events x t proc (e ∷ es))) [
        | inl fails ↦ rw fails refl
        | inr (source, runs) ↦ rw runs refl
      ]

  -- A wave comes to its end on every table or on none.
  mutate_wave-completes :
      (policy : DeletePolicy) (events : List NormalizedCdcEvent) (rows rows' : List TargetRow)
      → (mutate_wave d x t proc policy events rows).0
        ≡ (mutate_wave d x t proc policy events rows').0
  unfolding mutate_wave
  mutate_wave-completes policy events rows rows' =
      let ups = apply_upserts-is_some (keep is_upsert events) rows rows' in
      elim (Option-cases (apply_upserts d x t proc (keep is_upsert events) rows)) [
        | inl u ↦ elim (Option-cases (apply_upserts d x t proc (keep is_upsert events) rows')) [
          | inl v ↦ rw (u, v) refl
          | inr (r, v) ↦ absurd (cc (rw (u, v) at ups))
        ]
        | inr (r, u) ↦
            elim (Option-cases (apply_upserts d x t proc (keep is_upsert events) rows')) [
              | inl v ↦ absurd (cc (rw (u, v) at ups))
              | inr (r', v) ↦
                  let dels = apply_deletes-is_some policy (keep is_delete events) r r' in
                  elim (Option-cases (apply_deletes d x t proc policy (keep is_delete events) r)) [
                    | inl a ↦
                        elim (Option-cases
                          (apply_deletes d x t proc policy (keep is_delete events) r')) [
                            | inl b ↦ rw (u, v, a, b) refl
                            | inr (s, b) ↦ absurd (cc (rw (a, b) at dels))
                          ]
                    | inr (s, a) ↦
                        elim (Option-cases
                          (apply_deletes d x t proc policy (keep is_delete events) r')) [
                            | inl b ↦ absurd (cc (rw (a, b) at dels))
                            | inr (s', b) ↦ rw (u, v, a, b) refl
                          ]
                  ]
            ]
      ]

  -- Over Delta operations that meet their laws, a wave that came to its end, whose events are of
  -- the table, have different keys and carry their key in their row image, comes to its end again
  -- on the table that it left, and then each key has the row that it had.
  pub mutate_wave_twice :
      (lawful : IsDelta d) (policy : DeletePolicy) (events : List NormalizedCdcEvent)
      (rows once : List TargetRow)
      → All (KeyAgrees x t) events
      → is_ambiguous x t [] events ≡ false
      → mutate_wave d x t proc policy events rows ≡ (true, once)
      → (twice : List TargetRow) × (mutate_wave d x t proc policy events once ≡ (true, twice))
        × ((k : String) → row_at (row_key t) k twice ≡ row_at (row_key t) k once)
  mutate_wave_twice lawful policy events rows once agree clear h =
      let twice = (mutate_wave d x t proc policy events once).1 in
      let completes = ap (λ p. p.0) h in
      let runs : mutate_wave d x t proc policy events once ≡ (true, twice) =
        ap (λ b. (b, twice)) (mutate_wave-completes policy events once rows ∙ completes) in
      let effect =
        λ (k : String). mutate_wave_lem d lawful x t proc policy events rows once k agree clear h in
      (
        twice,
        runs,
        λ k.
            mutate_wave_lem d lawful x t proc policy events once twice k agree clear runs
            ∙ ap (after_event x t proc policy (event_at x t k events)) (effect k)
            ∙ after_event_twice x t proc policy (event_at x t k events) (row_at (row_key t) k rows)
            ∙ sym (effect k),
      )
