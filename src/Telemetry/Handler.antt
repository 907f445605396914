-- ===== src/Telemetry/Handler.antt =====
-- The history of a device: GetTelemetryHistory of internal/handler/telemetry_handler.go, the function of
-- that name in internal/service/telemetry, and with buildHistoryQuery in internal/repository/telemetry.
--
-- InfluxDB answers a query with series or with the text of an error. A query is what its text says.
use be_aether_node.Base.{
  ◌⊎◌, inl, inr, ℕ, zero, suc, ◌+◌, ◌-◌, ◌*◌, String, Bool, true, ◌||◌, Option, none, some, List,
  [], ◌∷◌, ltb, length, if◌then◌else◌, str_eq,
}
use be_aether_node.Base.Int.{ℤ, pos, negsuc, to_int64}
use be_aether_node.Http.{Pagination}
use be_aether_node.Telemetry.{Time, Formats, Series}
use be_aether_node.Telemetry.History.{TelemetryRecord, parse_telemetry_history}

pub record HistoryFilter : Type 0 where
  pub project : String
  pub device_sn : String
  pub start : Time
  pub stop : Time
  pub window : String
  pub sort_desc : Bool
  pub limit : ℕ
  pub offset : ℤ

-- The text of the query, with its number of records and its first one.
pub record HistoryQuery : Type 0 where
  pub filter : HistoryFilter
  pub fetch_limit : ℕ

unfoldable pub build_history_query : HistoryFilter → HistoryQuery
build_history_query filter = record {
  filter = filter;
  fetch_limit = if ltb 0 filter.limit then filter.limit + 1 else filter.limit;
}

pub record HistoryRequest : Type 0 where
  pub start : String
  pub stop : String
  pub window : String
  pub order : String
  pub sort : String
  pub page : ℤ
  pub limit : ℤ
  pub offset : ℤ

-- echo.NewHTTPError, or a page with status 200.
pub data HistoryReply (F : Type 0) : Type 0 where
  http_error : ℕ → String → HistoryReply F
  page_of : List (TelemetryRecord F) → Pagination → HistoryReply F

abbrev utc : Time → Time
utc t = record t { zone = pos 0 }

-- `if req.Page < 1 { req.Page = 1 }`
unfoldable pub page_or_one : ℤ → ℕ
page_or_one (pos zero) = 1
page_or_one (pos (suc n)) = suc n
page_or_one (negsuc n) = 1

-- `if req.Limit < 1 || req.Limit > 100 { req.Limit = 20 }`
unfoldable pub limit_or_twenty : ℤ → ℕ
limit_or_twenty (pos zero) = 20
limit_or_twenty (pos (suc n)) = if ltb 100 (suc n) then 20 else suc n
limit_or_twenty (negsuc n) = 20

unfoldable pub take : {A : Type 0} → ℕ → List A → List A
take zero xs = []
take (suc n) [] = []
take (suc n) (x ∷ xs) = x ∷ take n xs

unfoldable pub history_page : {F : Type 0} → ℕ → ℕ → List (TelemetryRecord F) → HistoryReply F
history_page page limit records =
    let has_more = ltb limit (length records) in
    page_of (if has_more then take limit records else records)
      (record { page = page; limit = limit; total = 0; total_pages = 0; has_more = has_more })

unfoldable pub history_filter : String → String → HistoryRequest → Time → Time → HistoryFilter
history_filter project device_sn req start stop = record {
  project = project;
  device_sn = device_sn;
  start = utc start;
  stop = utc stop;
  window = req.window;
  sort_desc = if str_eq req.order "" then true else str_eq req.order "desc";
  limit = limit_or_twenty req.limit;
  offset = to_int64 (pos ((page_or_one req.page - 1) * limit_or_twenty req.limit));
}

module _ {F : Type 0} (fmt : Formats F) where
  module _ (order : List (TelemetryRecord F) → List (TelemetryRecord F))
      (influx : HistoryQuery → String ⊎ List (Series F)) where
    -- The repository; the service passes its records on.
    unfoldable pub get_telemetry_history : HistoryFilter → String ⊎ List (TelemetryRecord F)
    get_telemetry_history filter = elim (influx (build_history_query filter)) [
      | inl e ↦ inl e
      | inr series ↦ inr (parse_telemetry_history fmt order series)
    ]

    unfoldable pub reply_of : ℕ → ℕ → String ⊎ List (TelemetryRecord F) → HistoryReply F
    reply_of page limit (inl e) = http_error 500 e
    reply_of page limit (inr records) = history_page page limit records

    unfoldable pub history_between :
        String → String → HistoryRequest → Option Time → Option Time → HistoryReply F
    history_between project device_sn req none _ =
        http_error 400 "invalid 'start': use RFC3339 format (e.g., 2024-01-01T00:00:00Z)"
    history_between project device_sn req (some start) none =
        http_error 400 "invalid 'stop': use RFC3339 format (e.g., 2024-01-31T23:59:59Z)"
    history_between project device_sn req (some start) (some stop) =
        if ltb stop.instant start.instant
        then http_error 400 "'stop' must be after 'start'"
        else reply_of (page_or_one req.page) (limit_or_twenty req.limit)
            (get_telemetry_history (history_filter project device_sn req start stop))

    -- The body of the request is `none` where it does not bind.
    unfoldable pub handle_history : String → String → Option HistoryRequest → HistoryReply F
    handle_history project device_sn none =
        if str_eq device_sn ""
        then http_error 400 "device_sn is required"
        else http_error 400 "invalid request body"
    handle_history project device_sn (some req) =
        if str_eq device_sn ""
        then http_error 400 "device_sn is required"
        else if str_eq req.start "" || str_eq req.stop ""
        then http_error 400 "'start' and 'stop' are required (RFC3339 format)"
        else history_between project device_sn req (fmt.parse_rfc3339 req.start)
            (fmt.parse_rfc3339 req.stop)
