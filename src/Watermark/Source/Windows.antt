-- ===== src/Watermark/Source/Windows.antt =====
-- The windows of src/watermark/source_adapter.py: what HIGH bounds, what a window extracts, and
-- that adjoining windows lose and repeat nothing.
use mathlib.Core.List.{Perm, perm_middle}
use mathlib.Core.List.Perm
use incremental_cdc_data_pla.Base.{
  String, ◌≡◌, refl, inl, inr, Bool, true, false, ◌||◌, List, [], ◌∷◌, ◌++◌, arith, Bool-cases,
  keep, All, text_lt_asym, text_lt_weak, text_lt_tri, text_lt_irrefl, eq_iff, sort_by-perm,
  sort_by-IsSorted, IsSorted, All-map, if◌then◌else◌,
}
use incremental_cdc_data_pla.Watermark.Models.{
  CompositeWatermark, initial, watermark_lt, watermark_le, watermark_gt,
}
use incremental_cdc_data_pla.Watermark.Models.Order.{
  watermark_gt-eq-lt, watermark_le-eq-not_lt, watermark_le_refl, watermark_le_trans,
  watermark_lt_trans, watermark_lt_irrefl, watermark_lt_mix,
}
use incremental_cdc_data_pla.Watermark.Source.{
  Row, get, show, cursor_of, max_cursor, in_window, row_lt, window_rows,
}

module _ (wc pk : String) where
  max_cursor-ge :
      (best : CompositeWatermark) (rows : List Row)
      → watermark_le best (max_cursor wc pk best rows) ≡ true
  unfolding max_cursor
  max_cursor-ge best [] = watermark_le_refl best
  max_cursor-ge best (r ∷ rows) =
      let c = cursor_of wc pk r in
      let m : CompositeWatermark = if watermark_gt c best then c else best in
      watermark_le_trans best m (max_cursor wc pk m rows)
        (ground (
          arith,
          watermark_gt-eq-lt c best,
          watermark_le-eq-not_lt best c,
          watermark_le_refl best,
          watermark_lt_trans best c best,
          watermark_lt_irrefl best,
        ))
        (max_cursor-ge m rows)

  -- No row lies above the captured HIGH.
  pub max_cursor-bounds :
      (best : CompositeWatermark) (rows : List Row)
      → All (λ r. watermark_le (cursor_of wc pk r) (max_cursor wc pk best rows) ≡ true) rows
  unfolding max_cursor
  max_cursor-bounds best [] = tt
  max_cursor-bounds best (r ∷ rows) =
      let c = cursor_of wc pk r in
      let m : CompositeWatermark = if watermark_gt c best then c else best in
      (
        watermark_le_trans c m (max_cursor wc pk m rows)
            (ground (
              arith,
              watermark_gt-eq-lt c best,
              watermark_le-eq-not_lt c best,
              watermark_le_refl c,
            ))
            (max_cursor-ge m rows),
        max_cursor-bounds m rows,
      )

  row_lt_asym : (a b : Row) → row_lt wc pk a b ≡ true → row_lt wc pk b a ≡ false
  unfolding row_lt
  row_lt_asym a b h =
      let s = show (get a wc) in
      let t = show (get b wc) in
      ground (
        arith,
        text_lt_asym s t,
        text_lt_asym (show (get a pk)) (show (get b pk)),
        eq_iff s t,
        eq_iff t s,
        text_lt_irrefl s,
      )

  row_lt_weak :
      (a b c : Row) → row_lt wc pk a b ≡ false → row_lt wc pk b c ≡ false → row_lt wc pk a c ≡ false
  unfolding row_lt
  row_lt_weak a b c p q =
      let s = show (get a wc) in
      let t = show (get b wc) in
      let u = show (get c wc) in
      ground (
        arith,
        text_lt_weak s t u,
        text_lt_weak (show (get a pk)) (show (get b pk)) (show (get c pk)),
        eq_iff s t,
        eq_iff t u,
        eq_iff s u,
        text_lt_irrefl s,
        text_lt_tri s t,
        text_lt_tri t u,
        text_lt_asym s t,
        text_lt_asym t u,
        text_lt_weak u s t,
        text_lt_weak t u s,
      )

-- A test that splits into two exclusive ones splits the rows that it keeps.
keep_split :
    {A : Type 0} (p q r : A → Bool) (xs : List A)
    → ((x : A) → p x ≡ (q x || r x))
    → ((x : A) → q x ≡ true → r x ≡ false)
    → Perm (keep p xs) (keep q xs ++ keep r xs)
keep_split p q r [] both apart = Perm.refl []
keep_split p q r (x ∷ xs) both apart = elim (Bool-cases (q x)) [
  | inl in_q ↦ rw (both x, in_q, apart x in_q) (Perm.cons x (keep_split p q r xs both apart))
  | inr out_q ↦ elim (Bool-cases (r x)) [
    | inl in_r ↦
        rw (both x, out_q, in_r)
          (Perm.trans (Perm.cons x (keep_split p q r xs both apart))
            (Perm.symm (perm_middle (keep q xs) (keep r xs))))
    | inr out_r ↦ rw (both x, out_q, out_r) (keep_split p q r xs both apart)
  ]
]

keep_congr :
    {A : Type 0} (p q : A → Bool) (xs : List A) → All (λ x. p x ≡ q x) xs → keep p xs ≡ keep q xs
keep_congr p q [] h = refl
keep_congr p q (x ∷ xs) h = ground (arith, h.0, keep_congr p q xs h.1)

module _ (wc pk : String) (low mid high : CompositeWatermark) where
  in_window_split :
      watermark_le low mid ≡ true
      → watermark_le mid high ≡ true
      → (r : Row)
      → in_window wc pk low high r ≡ (in_window wc pk low mid r || in_window wc pk mid high r)
  unfolding in_window
  in_window_split lm mh r =
      let c = cursor_of wc pk r in
      ground (
        arith,
        watermark_le-eq-not_lt c mid,
        watermark_le_trans c mid high,
        watermark_le-eq-not_lt low mid,
        watermark_lt_trans low mid c,
        watermark_le-eq-not_lt c low,
        watermark_le_trans c low mid,
        watermark_le-eq-not_lt c high,
        watermark_le_trans mid low c,
        watermark_le_trans c low mid,
        watermark_le_trans low mid c,
        watermark_le_trans c mid low,
        watermark_lt_mix low mid c,
      )

  in_window_apart :
      (r : Row) → in_window wc pk low mid r ≡ true → in_window wc pk mid high r ≡ false
  unfolding in_window
  in_window_apart r h = let c = cursor_of wc pk r in ground (arith, watermark_le-eq-not_lt c mid)

-- Each window holds exactly the rows with LOW < cursor <= HIGH, ordered by the sort key.
pub window_rows_lem :
    (wc pk : String) (low high : CompositeWatermark) (rows : List Row)
    → Perm (window_rows wc pk low high rows) (keep (in_window wc pk low high) rows)
      × IsSorted (row_lt wc pk) (window_rows wc pk low high rows)
unfolding window_rows
window_rows_lem wc pk low high rows = (
  sort_by-perm (row_lt wc pk) (keep (in_window wc pk low high) rows),
  sort_by-IsSorted (row_lt wc pk) (row_lt_asym wc pk) (row_lt_weak wc pk)
      (keep (in_window wc pk low high) rows),
)

-- Two adjoining windows extract together what one window over both would: no row is lost at the
-- boundary and none is extracted twice.
pub windows_adjoin :
    (wc pk : String) (low mid high : CompositeWatermark) (rows : List Row)
    → watermark_le low mid ≡ true
    → watermark_le mid high ≡ true
    → Perm
        (window_rows wc pk low high rows)
        (window_rows wc pk low mid rows ++ window_rows wc pk mid high rows)
windows_adjoin wc pk low mid high rows lm mh = Perm.trans (window_rows_lem wc pk low high rows).0 (
    Perm.trans
      (keep_split (in_window wc pk low high) (in_window wc pk low mid) (in_window wc pk mid high)
        rows (in_window_split wc pk low mid high lm mh) (in_window_apart wc pk low mid high))
      (Perm.symm (
        Perm.append (window_rows_lem wc pk low mid rows).0
          (window_rows_lem wc pk mid high rows).0)))

-- Up to the captured HIGH a window misses no row above LOW: it holds every one of them.
pub window_complete :
    (wc pk : String) (low : CompositeWatermark) (rows : List Row)
    → Perm
        (window_rows wc pk low (max_cursor wc pk initial rows) rows)
        (keep (λ r. watermark_lt low (cursor_of wc pk r)) rows)
unfolding in_window
window_complete wc pk low rows =
    let high = max_cursor wc pk initial rows in
    rw
      (← keep_congr (in_window wc pk low high) (λ r. watermark_lt low (cursor_of wc pk r)) rows
        (All-map _ _ rows (λ r e. ground arith) (max_cursor-bounds wc pk initial rows)))
      (window_rows_lem wc pk low high rows).0
