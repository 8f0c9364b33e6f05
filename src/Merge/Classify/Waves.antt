-- ===== src/Merge/Classify/Waves.antt =====
-- The waves of src/merge/pipeline.py: each event of a run is in one of them.
use incremental_cdc_data_pla.Base.{
  ◌≡◌, ◌∙◌, true, not, ◌||◌, List, [], ◌∷◌, map, keep, any, All, All-map, arith, eq_iff, eq_refl,
  sort_by-any,
}
use incremental_cdc_data_pla.Cdc.Engine.Batch.{le_int_refl, le_int_trans}
use incremental_cdc_data_pla.Normalization.{NormalizedCdcEvent}
use incremental_cdc_data_pla.Merge.Ledger.{is_one_of}
use incremental_cdc_data_pla.Merge.Classify.{
  WaveKey, wave_key, same_wave, in_wave, wave_keys, wave_lt, sorted_wave_keys,
}

same_wave_refl : (k : WaveKey) → same_wave k k ≡ true
same_wave_refl (t, n) = ground (arith, eq_refl t, le_int_refl n)

same_wave_sym : (j k : WaveKey) → same_wave j k ≡ true → same_wave k j ≡ true
same_wave_sym (t, n) (u, m) h = ground (arith, eq_iff t u, eq_iff u t, h)

same_wave_trans :
    (i j k : WaveKey) → same_wave i j ≡ true → same_wave j k ≡ true → same_wave i k ≡ true
same_wave_trans (t, n) (u, m) (v, l) h g =
    ground (arith, eq_iff t u, eq_iff u v, eq_iff t v, le_int_trans n m l, le_int_trans l m n, h, g)

any-keep_other :
    (k e : WaveKey) (keys : List WaveKey)
    → any (λ j. same_wave j e) keys ≡ true
    → same_wave k e || any (λ j. same_wave j e) (keep (λ j. not (same_wave j k)) keys) ≡ true
any-keep_other k e [] h = absurd (cc)
any-keep_other k e (j ∷ keys) h =
    ground (arith, any-keep_other k e keys, same_wave_sym j k, same_wave_trans k j e, h)

wave_keys-cover :
    (es : List NormalizedCdcEvent) → All (λ e. any (λ k. in_wave k e) (wave_keys es) ≡ true) es
unfolding wave_keys
wave_keys-cover [] = tt
wave_keys-cover (e ∷ es) = (
  ground (arith, same_wave_refl (wave_key e)),
  All-map (λ f. any (λ k. in_wave k f) (wave_keys es) ≡ true)
      (λ f.
        any (λ k. in_wave k f) (wave_key e ∷ keep (λ k. not (in_wave k e)) (wave_keys es)) ≡ true)
      es (λ f. any-keep_other (wave_key e) (wave_key f) (wave_keys es)) (wave_keys-cover es),
)

-- Each event is in a wave of the run.
pub sorted_wave_keys-cover :
    (es : List NormalizedCdcEvent)
    → All (λ e. any (λ k. in_wave k e) (sorted_wave_keys es) ≡ true) es
sorted_wave_keys-cover es =
    All-map (λ e. any (λ k. in_wave k e) (wave_keys es) ≡ true)
      (λ e. any (λ k. in_wave k e) (sorted_wave_keys es) ≡ true) es
      (λ e h. sort_by-any wave_lt (λ k. in_wave k e) (wave_keys es) ∙ h) (wave_keys-cover es)

-- An event of a wave is in its group.
pub wave_group-ids :
    (k : WaveKey) (es : List NormalizedCdcEvent)
    → All
        (λ e.
          in_wave k e ≡ true
          → is_one_of (map (λ f. f.event_id) (keep (in_wave k) es)) e.event_id ≡ true)
        es
wave_group-ids k [] = tt
wave_group-ids k (e ∷ es) = (
  (λ h. ground (arith, eq_refl e.event_id, h)),
  All-map
      (λ f.
        in_wave k f ≡ true
        → is_one_of (map (λ g. g.event_id) (keep (in_wave k) es)) f.event_id ≡ true)
      (λ f.
        in_wave k f ≡ true
        → is_one_of (map (λ g. g.event_id) (keep (in_wave k) (e ∷ es))) f.event_id ≡ true)
      es (λ f ih h. ground (arith, ih h)) (wave_group-ids k es),
)
