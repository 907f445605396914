-- ===== src/Telemetry/Query.antt =====
-- The queries that internal/repository/telemetry sends to InfluxDB for the latest health and telemetry:
-- their texts, queryFluxGeneric, which goes through the circuit breaker or past it, and the four functions that
-- read the answer. What InfluxDB answers to a text and what csv.ReadAll makes of a body are parameters.
use be_aether_node.Base.{
  ℕ, ◌*◌, ◌⊎◌, inl, inr, String, Bool, true, false, Option, none, some, List, [], leb, str_eq,
  second, Dict, if◌then◌else◌,
}
use Prim.Native.String.{◌++◌}
use be_aether_node.Base.Int.{ℤ, pos}
use be_aether_node.Breaker.{
  Err, circuit_open, too_many_requests, CircuitBreaker, new, Execution, refused, finished, blocked,
  execute,
}
use be_aether_node.Telemetry.{Value, int, Formats, Series, parse_flux_csv}
use be_aether_node.Telemetry.Dashboard.{HealthData}
use be_aether_node.Telemetry.Latest.{parse_health_result, parse_telemetry_latest}

-- The breaker of newInfluxHTTPClient.
unfoldable pub new_influx_breaker : CircuitBreaker
new_influx_breaker = new (record {
  name = "influxdb";
  failure_threshold = 5;
  success_threshold = 2;
  timeout = 30 * second;
  max_concurrent_requests = 10;
  on_state_change = false;
})

pub record DeviceFilter : Type 0 where
  pub project : String
  pub device_sn : String

-- `|> filter(fn: (r) => r["..."] == "...")`, or nothing where the value is empty.
unfoldable pub flux_filter : String → String → String
flux_filter column value =
    if str_eq value ""
    then ""
    else "|> filter(fn: (r) => r[\"" ++ column ++ "\"] == \"" ++ value ++ "\")"

unfoldable pub build_health_query : String → DeviceFilter → String
build_health_query bucket filter =
    "\nfrom(bucket: \""
    ++ bucket
    ++ "\")\n    |> range(start: 0)\n"
    ++ "    |> filter(fn: (r) => r[\"_measurement\"] == \"health\")\n    "
    ++ flux_filter "project" filter.project
    ++ "\n    "
    ++ flux_filter "device_sn" filter.device_sn
    ++ "\n    "
    ++ "|> group(columns: [\"device_sn\", \"type\", \"project\", \"gateway_sn\", \"model\", \"_field\"])\n"
    ++ "    |> last()\n"

unfoldable pub build_latest_telemetry_query : String → DeviceFilter → String
build_latest_telemetry_query bucket filter =
    "\nfrom(bucket: \""
    ++ bucket
    ++ "\")\n    |> range(start: -24h)\n"
    ++ "    |> filter(fn: (r) => r[\"_measurement\"] == \"telemetry\")\n    "
    ++ flux_filter "project" filter.project
    ++ "\n    "
    ++ flux_filter "device_sn" filter.device_sn
    ++ "\n    "
    ++ "|> group(columns: [\"device_sn\", \"type\", \"project\", \"gateway_sn\", \"_field\"])\n"
    ++ "    |> last()\n"

-- The error of NewRequest or Do; a status with a body; or one whose body breaks off with an error.
pub data Answer : Type 0 where
  failed : String → Answer
  responded : ℕ → String → Answer
  cut_off : ℕ → String → String → Answer

-- How a call ends: with an error or a result, or stuck in the deferred Release of the breaker.
pub data Outcome (R : Type 0) : Type 0 where
  returned : String ⊎ R → CircuitBreaker → Outcome R
  stuck : CircuitBreaker → Outcome R

unfoldable pub err_text : Err → String
err_text circuit_open = "circuit breaker is open"
err_text too_many_requests = "too many requests"

abbrev pub error_of : {R : Type 0} → String ⊎ R → Option String
error_of (inl e) = some e
error_of (inr r) = none

-- The variable `result` after the query, empty where it failed.
abbrev pub result_of : {A : Type 0} → String ⊎ List A → List A
result_of (inl e) = []
result_of (inr r) = r

abbrev pub after_execute : {A : Type 0} → String ⊎ List A → Execution → Outcome (List A)
after_execute outcome (refused e cb) = returned (inl (err_text e)) cb
after_execute outcome (finished none cb) = returned (inr (result_of outcome)) cb
after_execute outcome (finished (some e) cb) = returned (inl e) cb
after_execute outcome (blocked cb) = stuck cb

abbrev pub after_bypass : {A : Type 0} → String ⊎ List A → CircuitBreaker → Outcome (List A)
after_bypass (inl e) cb = returned (inl e) cb
after_bypass (inr r) cb = returned (inr r) cb

-- `outcome` is what executeQuery gives, which is called at `asked` and ends at `answered`.
unfoldable pub query_flux_generic :
    {A : Type 0} → ℕ → ℕ → String ⊎ List A → Bool → CircuitBreaker → Outcome (List A)
query_flux_generic asked answered outcome true cb = after_bypass outcome cb
query_flux_generic asked answered outcome false cb =
    after_execute outcome (execute asked answered (error_of outcome) cb)

-- `if err != nil { return nil, err }; return parse(result)`
unfoldable pub parsed_by : {A B : Type 0} → (A → B) → Outcome A → Outcome B
parsed_by parse (returned (inl e) cb) = returned (inl e) cb
parsed_by parse (returned (inr r) cb) = returned (inr (parse r)) cb
parsed_by parse (stuck cb) = stuck cb

module _ {F : Type 0} (fmt : Formats F) (read_all : String → String ⊎ List (List String)) where
  abbrev series_of : Option (List (Series F)) → List (Series F)
  series_of none = []
  series_of (some series) = series

  abbrev parse_records : String ⊎ List (List String) → String ⊎ List (Series F)
  parse_records (inl e) = inl ("failed to parse CSV: " ++ e)
  parse_records (inr records) = inr (series_of (parse_flux_csv fmt (some records)))

  abbrev query_error : ℕ → String → String
  query_error code body =
      "influxdb query error: status=" ++ fmt.sprint (int (pos code)) ++ " body=" ++ body

  -- executeQuery
  unfoldable pub execute_query : Answer → String ⊎ List (Series F)
  execute_query (failed e) = inl e
  execute_query (responded code body) =
      if leb 400 code then inl (query_error code body) else parse_records (read_all body)
  execute_query (cut_off code body e) = if leb 400 code then inl (query_error code body) else inl e

  module _ (bucket : String) (influx : String → Answer) (asked answered : ℕ) where
    unfoldable pub get_telemetry_data :
        Bool → DeviceFilter → CircuitBreaker → Outcome (Dict (Dict (Value F)))
    get_telemetry_data bypass filter cb = parsed_by (parse_telemetry_latest fmt) (
        query_flux_generic asked answered
          (execute_query (influx (build_latest_telemetry_query bucket filter))) bypass cb)

    unfoldable pub get_latest_telemetry :
        DeviceFilter → CircuitBreaker → Outcome (Dict (Dict (Value F)))
    get_latest_telemetry filter cb = get_telemetry_data false filter cb

    unfoldable pub get_latest_telemetry_sse :
        DeviceFilter → CircuitBreaker → Outcome (Dict (Dict (Value F)))
    get_latest_telemetry_sse filter cb = get_telemetry_data true filter cb

    -- `read` is the time at which the answer is read, `order` that in which Go ranges over the map.
    module _ (zero : F) (of_int : ℤ → F) (order : List (HealthData F) → List (HealthData F))
        (read : ℕ) where
      unfoldable pub get_health_data :
          Bool → DeviceFilter → CircuitBreaker → Outcome (List (HealthData F))
      get_health_data bypass filter cb =
          parsed_by (parse_health_result fmt zero of_int order read) (
            query_flux_generic asked answered
              (execute_query (influx (build_health_query bucket filter))) bypass cb)

      unfoldable pub get_latest_health :
          DeviceFilter → CircuitBreaker → Outcome (List (HealthData F))
      get_latest_health filter cb = get_health_data false filter cb

      unfoldable pub get_latest_health_sse :
          DeviceFilter → CircuitBreaker → Outcome (List (HealthData F))
      get_latest_health_sse filter cb = get_health_data true filter cb
