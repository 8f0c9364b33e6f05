-- ===== src/Normalization/Reader/Returns.antt =====
-- src/normalization/reader.py: reading returns where `json.loads` raises nothing but a JSONDecodeError.
use incremental_cdc_data_pla.Base.{
  ℕ, suc, ◌+◌, ◌≤◌, Bool, true, false, sym, ◌∙◌, subst, eq_iff, String, ◌≡◌, refl, some, List, [],
  ◌∷◌, ◌++◌, All, length, arith, ◌==◌, eq_refl, strip, Bool-cases, inl, inr,
}
use incremental_cdc_data_pla.Cdc.{
  pos, le_int, Value, null, boolean, integer, real, text, sequence, dictionary, Fields, no_fields,
  field, get, has,
}
use incremental_cdc_data_pla.Normalization.{IntResult, number, no_integer, overflow}
use incremental_cdc_data_pla.Normalization.Fingerprint.{Parsed, value, decode_error, other_error}
use incremental_cdc_data_pla.Normalization.Reader.{
  RawFile, Reading, set_field, with_provenance, take_line, read_lines, read_raw_cdc_files,
}
use incremental_cdc_data_pla.Normalization.Enrichment.{External, max_long}

-- A record that was read has its ingestion order, which is at most `b`.
abbrev pub IsOrdered : ℕ → Fields → Type 0
IsOrdered b r =
    (n : ℕ) × (get "ingestion_order" r ≡ integer (pos n)) × (has "ingestion_order" r ≡ true) × n ≤ b

get-set_field : (k : String) (v : Value) (d : Fields) → get k (set_field k v d) ≡ v
unfolding get set_field
get-set_field k v no_fields = ground (arith, eq_refl k)
get-set_field k v (field j w d) = ground (arith, get-set_field k v d)

get-set_field_other :
    (k j : String) (v : Value) (d : Fields) → j == k ≡ false → get k (set_field j v d) ≡ get k d
unfolding get set_field
get-set_field_other k j v no_fields h = ground (arith, h)
get-set_field_other k j v (field i w d) h =
    ground (arith, get-set_field_other k j v d h, h, eq_iff i j)

has-set_field : (k : String) (v : Value) (d : Fields) → has k (set_field k v d) ≡ true
unfolding has set_field
has-set_field k v no_fields = ground (arith, eq_refl k)
has-set_field k v (field j w d) = ground (arith, has-set_field k v d)

All-append : {A : Type 0} (P : A → Type 0) (xs ys : List A) → All P xs → All P ys → All P (xs ++ ys)
All-append P [] ys h k = k
All-append P (x ∷ xs) ys h k = (h.0, All-append P xs ys h.1 k)

-- The lines of all files.
unfoldable pub line_count : List RawFile → ℕ
line_count [] = 0
line_count (f ∷ files) = length f.lines + line_count files

module _ (x : External) where
  -- What `int` makes of the sequence number is no OverflowError and no number above 64 bits.
  abbrev pub fits_long : IntResult → Bool
  fits_long (number n) = le_int n (pos max_long)
  fits_long no_integer = true
  fits_long overflow = false

  -- `json.loads` returns or raises a JSONDecodeError, and the sequence number of a record fits.
  abbrev pub reads : Parsed → Bool
  reads other_error = false
  reads (value (dictionary d)) = fits_long (x.python.int (get "sequence_number" d))
  reads p = true

  abbrev pub IsReadable : String → Type 0
  IsReadable line = reads (x.json.loads (strip line)) ≡ true

  abbrev pub IsRead : ℕ → Fields → Type 0
  IsRead b r = IsOrdered b r × (fits_long (x.python.int (get "sequence_number" r)) ≡ true)

  with_provenance-IsRead :
      (f : RawFile) (n b : ℕ) (d : Fields)
      → n ≤ b
      → fits_long (x.python.int (get "sequence_number" d)) ≡ true
      → IsRead b (with_provenance f n d)
  with_provenance-IsRead f n b d h fits = (
    (
      n,
      get-set_field "ingestion_order" (integer (pos n)) _,
      has-set_field "ingestion_order" (integer (pos n)) _,
      h,
    ),
    subst (λ v. fits_long (x.python.int v) ≡ true)
        (sym (
          get-set_field_other "sequence_number" "ingestion_order" _ _ refl
          ∙ get-set_field_other "sequence_number" "ingestion_batch_id" _ _ refl
          ∙ get-set_field_other "sequence_number" "source_file" _ d refl))
        fits,
  )

  take_line-returns :
      (f : RawFile) (n b : ℕ) (line : String) (p : Parsed) (r : Reading) (last : ℕ)
      → n ≤ b
      → reads p ≡ true
      → All (IsRead b) r.parsed_records
      → (s : Reading) × (take_line f n line p (some (r, last)) ≡ some (s, last))
        × All (IsRead b) s.parsed_records
  take_line-returns f n b line other_error r last h k all = absurd (cc (k))
  take_line-returns f n b line decode_error r last h k all = (_, refl, all)
  take_line-returns f n b line (value null) r last h k all = (_, refl, all)
  take_line-returns f n b line (value (boolean c)) r last h k all = (_, refl, all)
  take_line-returns f n b line (value (integer m)) r last h k all = (_, refl, all)
  take_line-returns f n b line (value (real c s)) r last h k all = (_, refl, all)
  take_line-returns f n b line (value (text s)) r last h k all = (_, refl, all)
  take_line-returns f n b line (value (sequence l)) r last h k all = (_, refl, all)
  take_line-returns f n b line (value (dictionary d)) r last h k all =
      (_, refl, (with_provenance-IsRead f n b d h k, all))

  read_lines-returns :
      (f : RawFile) (n b : ℕ) (lines : List String)
      → n + length lines ≤ b
      → All IsReadable lines
      → (r : Reading) × (last : ℕ) × (read_lines x.json f n lines ≡ some (r, last))
        × (last ≤ n + length lines)
        × All (IsRead b) r.parsed_records
  unfolding read_lines
  read_lines-returns f n b [] h all = (_, n, refl, omega arith, tt)
  read_lines-returns f n b (line ∷ lines) h all = elim (Bool-cases (strip line == "")) [
    | inl blank ↦
        let (r, last, runs, up, good) = read_lines-returns f n b lines (omega (arith, h)) all.1 in
        (r, last, rw (blank, runs) refl, omega (arith, up), good)
    | inr more ↦
        let (r, last, runs, up, good) =
          read_lines-returns f (suc n) b lines (omega (arith, h)) all.1 in
        let (s, takes, fine) =
          take_line-returns f (suc n) b (strip line) (x.json.loads (strip line)) r last
            (omega (arith, h)) all.0 good in
        (s, last, rw (more, runs, takes) refl, omega (arith, up), fine)
  ]

  pub read_raw_cdc_files-returns :
      (n b : ℕ) (files : List RawFile)
      → n + line_count files ≤ b
      → All (λ f. All IsReadable f.lines) files
      → (r : Reading) × (read_raw_cdc_files x.json n files ≡ some r)
        × All (IsRead b) r.parsed_records
  unfolding read_raw_cdc_files line_count
  read_raw_cdc_files-returns n b [] h all = (_, refl, tt)
  read_raw_cdc_files-returns n b (f ∷ files) h all =
      let (r, last, runs, up, good) = read_lines-returns f n b f.lines (omega (arith, h)) all.0 in
      let (s, goes, fine) = read_raw_cdc_files-returns last b files (omega (arith, h, up)) all.1 in
      (
        record {
          parsed_records = r.parsed_records ++ s.parsed_records;
          quarantined_events = r.quarantined_events ++ s.quarantined_events;
        },
        rw (runs, goes) refl,
        All-append (IsRead b) r.parsed_records s.parsed_records good fine,
      )
