-- ===== src/Watermark/Models/Order.antt =====
-- The cursors are totally ordered by their tuples, the initial cursor first.
use incremental_cdc_data_pla.Base.{
  ℕ, String, ◌≡◌, ap, true, false, not, ◌⊎◌, arith, text_lt, text_lt_irrefl, text_lt_trans,
  text_lt_tri, eq_iff,
}
use incremental_cdc_data_pla.Watermark.Models.{
  CompositeWatermark, Cursor, initial, as_tuple, tuple_lt, tuple_eq, watermark_eq, watermark_lt,
  watermark_le, watermark_gt,
}

pub tuple_lt_irrefl : (a : Cursor) → tuple_lt a a ≡ false
unfolding tuple_lt
tuple_lt_irrefl (i, s, x) = ground (arith, text_lt_irrefl s, text_lt_irrefl x)

pub tuple_lt_trans :
    (a b c : Cursor) → tuple_lt a b ≡ true → tuple_lt b c ≡ true → tuple_lt a c ≡ true
unfolding tuple_lt
tuple_lt_trans (i, s, x) (j, t, y) (k, u, z) p q = ground (
  arith,
  eq_iff s t,
  eq_iff t u,
  eq_iff s u,
  text_lt_trans s t u,
  text_lt_trans x y z,
  text_lt_irrefl s,
)

pub tuple_eq_iff : (a b : Cursor) → tuple_eq a b ≡ true → a ≡ b
unfolding tuple_eq
tuple_eq_iff (i, s, x) (j, t, y) h = ground (arith, eq_iff s t, eq_iff x y)

pub tuple_eq_refl : (a : Cursor) → tuple_eq a a ≡ true
unfolding tuple_eq
tuple_eq_refl (i, s, x) = ground (arith, eq_iff s s, eq_iff x x)

pub tuple_lt_tri :
    (a b : Cursor) → tuple_lt a b ≡ false → tuple_lt b a ≡ false → tuple_eq a b ≡ true
unfolding tuple_lt tuple_eq
tuple_lt_tri (i, s, x) (j, t, y) p q =
    ground (arith, eq_iff s t, eq_iff t s, eq_iff x y, text_lt_tri s t, text_lt_tri x y)

-- The order of the cursors is transitive.
pub watermark_lt_trans :
    (a b c : CompositeWatermark)
    → watermark_lt a b ≡ true
    → watermark_lt b c ≡ true
    → watermark_lt a c ≡ true
unfolding watermark_lt
watermark_lt_trans a b c p q = tuple_lt_trans (as_tuple a) (as_tuple b) (as_tuple c) p q

pub watermark_lt_irrefl : (a : CompositeWatermark) → watermark_lt a a ≡ false
unfolding watermark_lt
watermark_lt_irrefl a = tuple_lt_irrefl (as_tuple a)

-- The derived `<=` and `>` are the converses of `<`.
pub watermark_le-eq-not_lt : (a b : CompositeWatermark) → watermark_le a b ≡ not (watermark_lt b a)
unfolding watermark_le watermark_lt watermark_eq
watermark_le-eq-not_lt a b =
    let x = as_tuple a in
    let y = as_tuple b in
    ground (
      arith,
      tuple_lt_tri x y,
      tuple_eq_iff x y,
      tuple_lt_trans x y x,
      tuple_lt_irrefl x,
      tuple_lt_irrefl y,
    )

pub watermark_gt-eq-lt : (a b : CompositeWatermark) → watermark_gt a b ≡ watermark_lt b a
unfolding watermark_gt watermark_lt watermark_eq
watermark_gt-eq-lt a b =
    let x = as_tuple a in
    let y = as_tuple b in
    ground (
      arith,
      tuple_lt_tri x y,
      tuple_eq_iff x y,
      tuple_lt_trans x y x,
      tuple_lt_irrefl x,
      tuple_lt_irrefl y,
    )

-- Equal cursors (by `__eq__`) are interchangeable in `<`.
pub watermark_eq-lt :
    (a b c : CompositeWatermark)
    → watermark_eq a b ≡ true
    → (watermark_lt a c ≡ watermark_lt b c) × (watermark_lt c a ≡ watermark_lt c b)
unfolding watermark_eq watermark_lt
watermark_eq-lt a b c h =
    let e = tuple_eq_iff (as_tuple a) (as_tuple b) h in
    (ap (λ t. tuple_lt t (as_tuple c)) e, ap (tuple_lt (as_tuple c)) e)

pub watermark_eq_refl : (a : CompositeWatermark) → watermark_eq a a ≡ true
unfolding watermark_eq
watermark_eq_refl a = tuple_eq_refl (as_tuple a)

pub watermark_le_refl : (a : CompositeWatermark) → watermark_le a a ≡ true
unfolding watermark_le
watermark_le_refl a = ground (arith, watermark_eq_refl a)

pub watermark_eq_trans :
    (a b c : CompositeWatermark)
    → watermark_eq a b ≡ true
    → watermark_eq b c ≡ true
    → watermark_eq a c ≡ true
unfolding watermark_eq
watermark_eq_trans a b c p q =
    let x = as_tuple a in
    let y = as_tuple b in
    let z = as_tuple c in ground (arith, tuple_eq_iff x y, tuple_eq_iff y z, tuple_eq_refl z)

pub watermark_le_trans :
    (a b c : CompositeWatermark)
    → watermark_le a b ≡ true
    → watermark_le b c ≡ true
    → watermark_le a c ≡ true
unfolding watermark_le
watermark_le_trans a b c p q = ground (
  arith,
  watermark_lt_trans a b c,
  watermark_eq-lt a b c,
  watermark_eq-lt b c a,
  watermark_eq_trans a b c,
)

tuple_lt-lowest : (i : ℕ) (s x : String) → tuple_lt (i, s, x) (0, "", "") ≡ false
unfolding tuple_lt text_lt
tuple_lt-lowest i String.[] String.[] = ground arith
tuple_lt-lowest i s x = ground arith

not_lt-initial : (a : CompositeWatermark) → watermark_lt a initial ≡ false
unfolding watermark_lt as_tuple
not_lt-initial a = let t = as_tuple a in tuple_lt-lowest t.0 t.1 t.2

-- The cursors are totally ordered: no cursor is smaller than itself or than the initial one, of two
-- cursors one is smaller or both are equal, and the derived `>` and `<=` are the converses of `<`.
pub watermark_lt_total :
    (a b : CompositeWatermark)
    → (watermark_lt a a ≡ false)
      × ((watermark_lt a b ≡ true) ⊎ (watermark_eq a b ≡ true) ⊎ (watermark_lt b a ≡ true))
      × (watermark_lt a initial ≡ false)
      × (watermark_gt a b ≡ watermark_lt b a)
      × (watermark_le a b ≡ not (watermark_lt b a))
unfolding watermark_lt watermark_eq
watermark_lt_total a b = (
  tuple_lt_irrefl (as_tuple a),
  ground (arith, tuple_lt_tri (as_tuple a) (as_tuple b)),
  not_lt-initial a,
  watermark_gt-eq-lt a b,
  watermark_le-eq-not_lt a b,
)

-- `<` after `<=` is `<`.
pub watermark_lt_mix :
    (a b c : CompositeWatermark)
    → watermark_le a b ≡ true
    → watermark_lt b c ≡ true
    → watermark_lt a c ≡ true
unfolding watermark_le
watermark_lt_mix a b c p q = ground (arith, watermark_lt_trans a b c, watermark_eq-lt a b c)
