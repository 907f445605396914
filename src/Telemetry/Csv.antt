-- ===== src/Telemetry/Csv.antt =====
-- The shape of what parseFluxCSV makes of the records of a CSV text.
use be_aether_node.Base.{
  ℕ, suc, String, Option, none, some, List, [], ◌∷◌, ◌≡◌, refl, ap, sym, subst, ◌∙◌, map, arith,
  inl, inr, Bool-cases, ltb, length, All, All-append,
}
use be_aether_node.Telemetry.{
  Formats, Series, Key, same_key, columns_from, values_from, open_series, append_values, add_row,
  add_rows, parse_flux_csv,
}

-- Every row of a series has a value for every column.
abbrev pub IsRectangular : {F : Type 0} → Series F → Type 0
IsRectangular s = All (λ values. length values ≡ length s.columns) s.values

some-injective : {A : Type 0} {x y : A} → some x ≡ some y → x ≡ y
some-injective h = cc h

module _ {F : Type 0} (fmt : Formats F) where
  length-values_from :
      (i : ℕ) (header row : List String)
      → length (values_from fmt i header row) ≡ length (columns_from i header)
  unfolding values_from columns_from
  length-values_from i [] row = refl
  length-values_from i (col ∷ cols) row = ground (arith, length-values_from (suc i) cols row)

  -- The series of one header.
  abbrev FromHeader : List String → Key × Series F → Type 0
  FromHeader header p = (p.1.columns ≡ columns_from 0 header) × IsRectangular p.1

  append_values-FromHeader :
      (header row : List String) (k : Key) (s : Series F)
      → FromHeader header (k, s)
      → FromHeader header (k, append_values fmt (values_from fmt 0 header row) s)
  unfolding append_values
  append_values-FromHeader header row k s (c, r) =
      (c, All-append _ s.values _ r (length-values_from 0 header row ∙ ap length (sym c), tt))

  add_row-FromHeader :
      (header : List String) (key : Key) (row : List String) (series : List (Key × Series F))
      → All (FromHeader header) series
      → All (FromHeader header) (add_row fmt header key row series)
  unfolding add_row open_series append_values
  add_row-FromHeader header key row [] _ = ((refl, (length-values_from 0 header row, tt)), tt)
  add_row-FromHeader header key row ((k, s) ∷ series) (h, hs) = elim (Bool-cases (same_key k key)) [
    | inl e ↦ rw e (append_values-FromHeader header row k s h, hs)
    | inr e ↦ rw e (h, add_row-FromHeader header key row series hs)
  ]

  add_rows-FromHeader :
      (header : List String) (rows : List (List String)) (series : List (Key × Series F))
      → All (FromHeader header) series
      → All (FromHeader header) (add_rows fmt header rows series)
  unfolding add_rows
  add_rows-FromHeader header [] series h = h
  add_rows-FromHeader header (row ∷ rows) series h = elim (Bool-cases (ltb (length row) 5)) [
    | inl e ↦ rw e (add_rows-FromHeader header rows series h)
    | inr e ↦ rw e (add_rows-FromHeader header rows _ (add_row-FromHeader header _ row series h))
  ]

  map-IsRectangular :
      (header : List String) (series : List (Key × Series F))
      → All (FromHeader header) series
      → All IsRectangular (map (λ p. p.1) series)
  map-IsRectangular header [] _ = tt
  map-IsRectangular header (p ∷ ps) (h, hs) = (h.1, map-IsRectangular header ps hs)

  -- Every series that parseFluxCSV returns has a value for every column in each of its rows.
  pub parse_flux_csv-IsRectangular :
      (records : Option (List (List String))) (series : List (Series F))
      → parse_flux_csv fmt records ≡ some series
      → All IsRectangular series
  unfolding parse_flux_csv
  parse_flux_csv-IsRectangular none series h = cc h
  parse_flux_csv-IsRectangular (some []) series h = subst (All IsRectangular) (some-injective h) tt
  parse_flux_csv-IsRectangular (some (header ∷ [])) series h =
      subst (All IsRectangular) (some-injective h) tt
  parse_flux_csv-IsRectangular (some (header ∷ row ∷ rows)) series h =
      subst (All IsRectangular) (some-injective h)
        (map-IsRectangular header _ (add_rows-FromHeader header (row ∷ rows) [] tt))
