-- ===== src/Watermark/Source.antt =====
-- src/watermark/source_adapter.py. A row is a dictionary of texts and `None`s, which is what the
-- `to_dict` methods of the source tables (src/source/schemas.py) produce.
pub mod Windows
use incremental_cdc_data_pla.Base.{
  String, Bool, true, false, ◌&&◌, Option, none, some, List, [], ◌∷◌, keep, Dict, lookup, text_lt,
  ◌==◌, if◌then◌else◌, sort_by,
}
use incremental_cdc_data_pla.Watermark.Models.{
  CompositeWatermark, initial, watermark_lt, watermark_le, watermark_gt,
}
use incremental_cdc_data_pla.Watermark.Store.{Result, ok, raise, extraction_error}

abbrev pub Row : Type 0
Row = Dict (Option String)

-- `r.get(c)`: a missing column reads as `None`.
abbrev or_null : Option (Option String) → Option String
or_null none = none
or_null (some v) = v

pub get : Row → String → Option String
get r c = or_null (lookup c r)

-- `str(v)` of a text or `None`.
abbrev show : Option String → String
show none = "None"
show (some s) = s

pub record SourceAdapter : Type 0 where
  pub tables : Dict (List Row)
  pub primary_keys : Dict String

abbrev or_id : Option String → String
or_id none = "id"
or_id (some c) = c

unfoldable pub get_primary_key_column : SourceAdapter → String → String
get_primary_key_column a t = or_id (lookup t a.primary_keys)

abbrev rows_or_raise : Option (List Row) → Result (List Row)
rows_or_raise none = raise extraction_error
rows_or_raise (some rows) = ok rows

unfoldable pub get_current_source_records : SourceAdapter → String → Result (List Row)
get_current_source_records a t = rows_or_raise (lookup t a.tables)

-- The cursor of a row, `(r[watermark_column], str(r[pk_col]))`.
unfoldable pub cursor_of : String → String → Row → CompositeWatermark
unfolding get
cursor_of wc pk r = record { timestamp = get r wc; key = get r pk }

-- The loop of `capture_source_high_watermark`.
unfoldable pub max_cursor : String → String → CompositeWatermark → List Row → CompositeWatermark
max_cursor wc pk best [] = best
max_cursor wc pk best (r ∷ rows) =
    let c = cursor_of wc pk r in max_cursor wc pk (if watermark_gt c best then c else best) rows

abbrev pub map_result : {A B : Type 0} → (A → B) → Result A → Result B
map_result f (ok a) = ok (f a)
map_result f (raise e) = raise e

unfoldable pub capture_source_high_watermark :
    SourceAdapter → String → String → Result CompositeWatermark
unfolding get_current_source_records
capture_source_high_watermark a t wc =
    map_result (max_cursor wc (get_primary_key_column a t) initial) (get_current_source_records a t)

-- `LOW < cursor <= HIGH`
unfoldable pub in_window : String → String → CompositeWatermark → CompositeWatermark → Row → Bool
in_window wc pk low high r = let c = cursor_of wc pk r in watermark_lt low c && watermark_le c high

-- The key of the final sort, `(str(updated_at), str(pk))`, and the comparison of such keys.
unfoldable pub row_lt : String → String → Row → Row → Bool
row_lt wc pk a b =
    if text_lt (show (get a wc)) (show (get b wc))
    then true
    else if show (get a wc) == show (get b wc)
    then text_lt (show (get a pk)) (show (get b pk))
    else false

unfoldable pub window_rows :
    String → String → CompositeWatermark → CompositeWatermark → List Row → List Row
window_rows wc pk low high rows = sort_by (row_lt wc pk) (keep (in_window wc pk low high) rows)

unfoldable pub extract_bounded_window :
    SourceAdapter → String → CompositeWatermark → CompositeWatermark → String → Result (List Row)
unfolding get_current_source_records
extract_bounded_window a t low high wc =
    map_result (window_rows wc (get_primary_key_column a t) low high)
      (get_current_source_records a t)
