-- ===== src/Watermark/Models.antt =====
-- src/watermark/models.py: the composite cursor and its order, the run statuses, the records of
-- the control store, and what the operations raise.
pub mod Order
use incremental_cdc_data_pla.Base.{
  ℕ, String, Bool, true, false, not, ◌&&◌, ◌||◌, Option, none, some, ◌==◌, ltb, eqb, text_lt,
  if◌then◌else◌,
}

pub data WatermarkRunStatus : Type 0 where
  running success no_data failed : WatermarkRunStatus

pub record CompositeWatermark : Type 0 where
  pub timestamp : Option String
  pub key : Option String

abbrev pub initial : CompositeWatermark
initial = record { timestamp = none; key = none }

abbrev is_none : Option String → Bool
is_none none = true
is_none (some s) = false

unfoldable pub is_initial : CompositeWatermark → Bool
is_initial w = is_none w.timestamp && is_none w.key

-- `key or ""`
abbrev pub or_empty : Option String → String
or_empty none = ""
or_empty (some s) = s

abbrev pub Cursor : Type 0
Cursor = ℕ × String × String

as_tuple_at : Option String → Option String → Cursor
as_tuple_at none key = (0, "", "")
as_tuple_at (some t) key = (1, t, or_empty key)

-- `_as_tuple`
unfoldable pub as_tuple : CompositeWatermark → Cursor
unfolding as_tuple_at
as_tuple w = as_tuple_at w.timestamp w.key

-- Python's comparison of tuples: the first position that differs decides.
unfoldable pub tuple_lt : Cursor → Cursor → Bool
tuple_lt (i, s, x) (j, t, y) =
    if ltb i j
    then true
    else if eqb i j
    then (if text_lt s t then true else if s == t then text_lt x y else false)
    else false

unfoldable pub tuple_eq : Cursor → Cursor → Bool
tuple_eq (i, s, x) (j, t, y) = eqb i j && (s == t && x == y)

-- `__eq__` and `__lt__`
unfoldable pub watermark_eq : CompositeWatermark → CompositeWatermark → Bool
watermark_eq a b = tuple_eq (as_tuple a) (as_tuple b)

unfoldable pub watermark_lt : CompositeWatermark → CompositeWatermark → Bool
watermark_lt a b = tuple_lt (as_tuple a) (as_tuple b)

-- `__le__` and `__gt__`, as `functools.total_ordering` derives them from the two above.
unfoldable pub watermark_le : CompositeWatermark → CompositeWatermark → Bool
watermark_le a b = watermark_lt a b || watermark_eq a b

unfoldable pub watermark_gt : CompositeWatermark → CompositeWatermark → Bool
watermark_gt a b = not (watermark_lt a b) && not (watermark_eq a b)
