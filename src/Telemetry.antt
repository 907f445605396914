-- ===== src/Telemetry.antt =====
-- The reading of InfluxDB's answers in internal/repository/telemetry/telemetry_repository_impl.go:
-- CSV records to series (parseFluxCSV), in this file; series to records of the history
-- (parseTelemetryHistory) in Telemetry/History; the history endpoint is in Telemetry/Handler.
--
-- A cell is an interface{}: nil, an int, a float64 or a string. What strconv, fmt and time make of
-- a text is a parameter, and so is the type of floats.
use be_aether_node.Base.{
  ℕ, zero, suc, String, Bool, true, false, not, ◌&&◌, ◌||◌, Option, none, some, List, [], ◌∷◌, ◌++◌,
  ltb, ◌==◌, map, if◌then◌else◌, str_eq, length, Dict, lookup, insert,
}
use be_aether_node.Base.Int.{ℤ, pos, negsuc}
pub mod Dashboard
pub mod Query
pub mod Line
pub mod Splitting
pub mod Fields
pub mod Bypass
pub mod Payload
pub mod Latest
pub mod Sightings
pub mod Online
pub mod Streams
pub mod Channels
pub mod Steps
pub mod Interleaving
pub mod Csv
pub mod Sorting
pub mod History
pub mod Handler
pub mod Shown
mod Scenarios
mod Runs

pub data Value (F : Type 0) : Type 0 where
  nil : Value F
  int : ℤ → Value F
  float : F → Value F
  text : String → Value F

-- A time.Time: the instant, and the zone's offset in seconds.
pub record Time : Type 0 where
  pub instant : ℕ
  pub zone : ℤ

abbrev pub zero_time : Time
zero_time = record { instant = 0; zone = pos 0 }

-- strconv.Atoi and ParseFloat, fmt's `%v`, time.Parse of the two layouts, and Format.
pub record Formats (F : Type 0) : Type 0 where
  pub atoi : String → Option ℤ
  pub parse_float : String → Option F
  pub sprint : Value F → String
  pub parse_nano : String → Option Time
  pub parse_rfc3339 : String → Option Time
  pub format_nano : Time → String

-- `row[i]`, none out of range.
unfoldable pub get_elem? : {A : Type 0} → ℕ → List A → Option A
get_elem? i [] = none
get_elem? zero (x ∷ xs) = some x
get_elem? (suc i) (x ∷ xs) = get_elem? i xs

-- `for i, col := range columns { colIdx[col] = i }`
unfoldable pub index_from : ℕ → List String → Dict ℕ → Dict ℕ
index_from i [] m = m
index_from i (col ∷ cols) m = index_from (suc i) cols (insert col i m)

abbrev pub column_index : List String → Dict ℕ
column_index columns = index_from 0 columns []

abbrev cell_at : {A : Type 0} → Option ℕ → List A → Option A
cell_at none row = none
cell_at (some i) row = get_elem? i row

-- `if i, ok := colIdx[name]; ok && i < len(row)`
unfoldable pub cell : {A : Type 0} → Dict ℕ → String → List A → Option A
cell index name row = cell_at (lookup name index) row

pub record Series (F : Type 0) : Type 0 where
  pub name : String
  pub tags : Dict String
  pub columns : List String
  pub values : List (List (Value F))

-- `if i == 0 || col == "result" || ... { continue }`
unfoldable pub is_internal : ℕ → String → Bool
is_internal i col =
    i == 0
    || (str_eq col "result" || (str_eq col "table" || (str_eq col "_start" || str_eq col "_stop")))

-- The columns of a series, with `_time` renamed.
unfoldable pub columns_from : ℕ → List String → List String
columns_from i [] = []
columns_from i (col ∷ cols) =
    let rest = columns_from (suc i) cols in
    if is_internal i col then rest else (if str_eq col "_time" then "timestamp" else col) ∷ rest

abbrev add_tag : String → Option String → Dict String → Dict String
add_tag name none tags = tags
add_tag name (some v) tags = if str_eq v "" then tags else insert name v tags

unfoldable pub tags_of : Dict ℕ → List String → List String → Dict String → Dict String
tags_of index row [] tags = tags
tags_of index row (name ∷ names) tags =
    tags_of index row names (add_tag name (cell index name row) tags)

abbrev pub tag_columns : List String
tag_columns = "device_sn" ∷ "project" ∷ "type" ∷ "gateway_sn" ∷ "model" ∷ []

abbrev text_or : String → Option String → String
text_or d none = d
text_or d (some s) = s

-- A number that is not there or does not parse is 0.
abbrev int_or_zero : (String → Option ℤ) → Option String → ℤ
int_or_zero atoi none = pos 0
int_or_zero atoi (some s) = elim (atoi s) [ none ↦ pos 0 | some n ↦ n ]

-- The result's name and the table's number, which `"%s,%d"` joins to one text.
abbrev pub Key : Type 0
Key = String × ℤ

abbrev same_ℤ : ℤ → ℤ → Bool
same_ℤ (pos a) (pos b) = a == b
same_ℤ (negsuc a) (negsuc b) = a == b
same_ℤ _ _ = false

abbrev pub same_key : Key → Key → Bool
same_key (r, n) (s, m) = str_eq r s && same_ℤ n m

module _ {F : Type 0} (fmt : Formats F) where
  abbrev number_or_text : Option ℤ → Option F → String → Value F
  number_or_text (some n) _ s = int n
  number_or_text none (some x) s = float x
  number_or_text none none s = text s

  unfoldable pub parse_value : String → Value F
  parse_value s = if str_eq s "" then nil else number_or_text (fmt.atoi s) (fmt.parse_float s) s

  abbrev value_or_nil : Option String → Value F
  value_or_nil none = nil
  value_or_nil (some s) = parse_value s

  -- The values of a row, nil where it is too short.
  unfoldable pub values_from : ℕ → List String → List String → List (Value F)
  values_from i [] row = []
  values_from i (col ∷ cols) row =
      let rest = values_from (suc i) cols row in
      if is_internal i col then rest else value_or_nil (get_elem? i row) ∷ rest

  unfoldable pub row_key : Dict ℕ → List String → Key
  row_key index row =
      (text_or "" (cell index "result" row), int_or_zero fmt.atoi (cell index "table" row))

  -- The series that a row opens.
  unfoldable pub open_series : List String → List String → Series F
  open_series header row =
      let index = column_index header in
      record {
        name = text_or "unknown" (cell index "_measurement" row);
        tags = tags_of index row tag_columns [];
        columns = columns_from 0 header;
        values = [];
      }

  unfoldable pub append_values : List (Value F) → Series F → Series F
  append_values values s = record s { values = s.values ++ (values ∷ []) }

  -- The series in the order of their first rows, each with its key in `tableMap`.
  unfoldable pub add_row :
      List String → Key → List String → List (Key × Series F) → List (Key × Series F)
  add_row header key row [] =
      (key, append_values (values_from 0 header row) (open_series header row)) ∷ []
  add_row header key row ((k, s) ∷ series) =
      let rest = add_row header key row series in
      if same_key k key
      then (k, append_values (values_from 0 header row) s) ∷ series
      else (k, s) ∷ rest

  -- Rows of fewer than five fields are left out.
  unfoldable pub add_rows :
      List String → List (List String) → List (Key × Series F) → List (Key × Series F)
  add_rows header [] series = series
  add_rows header (row ∷ rows) series =
      if ltb (length row) 5
      then add_rows header rows series
      else add_rows header rows (add_row header (row_key (column_index header) row) row series)

  -- `parseFluxCSV`, from the records that csv.Reader makes of the text; `none` is its error.
  unfoldable pub parse_flux_csv : Option (List (List String)) → Option (List (Series F))
  parse_flux_csv none = none
  parse_flux_csv (some []) = some []
  parse_flux_csv (some (header ∷ [])) = some []
  parse_flux_csv (some (header ∷ row ∷ rows)) =
      some (map (λ p. p.1) (add_rows header (row ∷ rows) []))
