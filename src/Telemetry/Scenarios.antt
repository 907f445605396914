-- ===== src/Telemetry/Scenarios.antt =====
-- The reading of an answer of three rows: two fields of one time, and an earlier time behind them;
-- and a page of its history.
use mathlib.Core.List.{Perm}
use mathlib.Core.List.Perm
use be_aether_node.Base.{
  ◌⊎◌, inr, true, ◌≤◌, ℕ, String, Option, none, some, List, [], ◌∷◌, ◌≡◌, refl, map, All, str_eq,
  if◌then◌else◌, lookup, insert, ◌==◌, IsMap,
}
use be_aether_node.Base.Int.{ℤ, pos}
use be_aether_node.Telemetry.{
  Value, nil, int, text, Time, Formats, Series, parse_value, values_from, columns_from, open_series,
  append_values, add_row, add_rows, row_key, parse_flux_csv, index_from, get_elem?, cell,
  is_internal, tags_of,
}
use be_aether_node.Telemetry.Csv.{IsRectangular, parse_flux_csv-IsRectangular}
use be_aether_node.Telemetry.Sorting.{Ascending, exchange_sort, pass}
use be_aether_node.Http.{Pagination}
use be_aether_node.Telemetry.Handler.{
  HistoryQuery, HistoryRequest, handle_history, page_of, history_between, reply_of,
  get_telemetry_history, history_page, history_filter, page_or_one, limit_or_twenty, take,
}
use be_aether_node.Telemetry.Shown.{IsPageOf, handle_history-hides_latest}
use be_aether_node.Telemetry.History.{
  TelemetryRecord, add_series, parse_telemetry_history, parse_telemetry_history-Ascending, Keyed,
}

abbrev seconds : ℕ → Time
seconds n = record { instant = n; zone = pos 0 }

abbrev digit : String → Option ℤ
digit s = if str_eq s "5" then some (pos 5) else if str_eq s "6" then some (pos 6) else none

abbrev time_of_text : String → Option Time
time_of_text s =
    if str_eq s "t1" then some (seconds 1) else if str_eq s "t2" then some (seconds 2) else none

abbrev text_of_time : Time → String
text_of_time t = if t.instant == 1 then "t1" else if t.instant == 2 then "t2" else "t0"

abbrev formats : Formats ℕ
formats = record {
  atoi = digit;
  parse_float = λ s. none;
  sprint = λ v. "5";
  parse_nano = λ s. none;
  parse_rfc3339 = time_of_text;
  format_nano = text_of_time;
}

abbrev header : List String
header = "" ∷ "result" ∷ "table" ∷ "_time" ∷ "_value" ∷ "_field" ∷ "device_sn" ∷ []

abbrev answer : Option (List (List String))
answer = some (
    header
    ∷ ("" ∷ "_result" ∷ "0" ∷ "t2" ∷ "5" ∷ "co2" ∷ "D1" ∷ [])
    ∷ ("" ∷ "_result" ∷ "0" ∷ "t2" ∷ "6" ∷ "voc" ∷ "D1" ∷ [])
    ∷ ("" ∷ "_result" ∷ "0" ∷ "t1" ∷ "6" ∷ "co2" ∷ [])
    ∷ ("" ∷ [])
    ∷ [])

abbrev rows : List (List (Value ℕ))
rows =
    (text "t2" ∷ int (pos 5) ∷ text "co2" ∷ text "D1" ∷ [])
    ∷ (text "t2" ∷ int (pos 6) ∷ text "voc" ∷ text "D1" ∷ [])
    ∷ (text "t1" ∷ int (pos 6) ∷ text "co2" ∷ nil ∷ [])
    ∷ []

abbrev series : List (Series ℕ)
series =
    record {
      name = "unknown";
      tags = ("device_sn", "D1") ∷ [];
      columns = "timestamp" ∷ "_value" ∷ "_field" ∷ "device_sn" ∷ [];
      values = rows;
    }
    ∷ []

answer-series : parse_flux_csv formats answer ≡ some series
unfolding parse_flux_csv add_rows add_row row_key open_series append_values values_from columns_from
    tags_of cell index_from get_elem? is_internal parse_value lookup insert
answer-series = refl

parse_flux_csv-IsRectangular_example : All IsRectangular series
parse_flux_csv-IsRectangular_example =
    parse_flux_csv-IsRectangular formats answer series answer-series

parse_telemetry_history-Ascending_example :
    Ascending (λ r. r.timestamp.instant) (parse_telemetry_history formats (λ rs. rs) series)
    × Perm
        (parse_telemetry_history formats (λ rs. rs) series)
        (map (λ p. p.1) (add_series formats series []))
    × IsMap (add_series formats series [])
    × All (Keyed formats) (add_series formats series [])
parse_telemetry_history-Ascending_example =
    parse_telemetry_history-Ascending formats (λ rs. rs) series (λ rs. Perm.refl rs)

-- The latest record alone is asked for, and the earliest one is shown.
abbrev latest_request : HistoryRequest
latest_request = record {
  start = "t1";
  stop = "t2";
  window = "";
  order = "desc";
  sort = "";
  page = pos 1;
  limit = pos 1;
  offset = pos 0;
}

abbrev influx : HistoryQuery → String ⊎ List (Series ℕ)
influx query = inr series

abbrev earliest : List (TelemetryRecord ℕ)
earliest = record { timestamp = seconds 1; fields = ("co2", int (pos 6)) ∷ [] } ∷ []

abbrev first_page : Pagination
first_page = record { page = 1; limit = 1; total = 0; total_pages = 0; has_more = true }

latest-earliest :
    handle_history formats (λ rs. rs) influx "" "D1" (some latest_request)
    ≡ page_of earliest first_page
unfolding handle_history history_between reply_of get_telemetry_history history_page history_filter
    page_or_one limit_or_twenty take parse_telemetry_history exchange_sort pass add_series
    be_aether_node.Telemetry.History.add_rows be_aether_node.Telemetry.History.add_row insert
    be_aether_node.Telemetry.History.time_of cell lookup index_from get_elem?
    be_aether_node.Telemetry.History.set_field be_aether_node.Telemetry.History.to_string
latest-earliest = refl

handle_history-hides_latest_example :
    (start : Time) × (stop : Time) × (time_of_text "t1" ≡ some start)
    × (time_of_text "t2" ≡ some stop)
    × (start.instant ≤ stop.instant)
    × IsPageOf formats
        (λ rs. rs)
        influx
        (history_filter "" "D1" latest_request start stop)
        earliest
        first_page
handle_history-hides_latest_example =
    handle_history-hides_latest formats (λ rs. rs) influx (λ rs. Perm.refl rs) "" "D1"
      latest_request earliest first_page latest-earliest
