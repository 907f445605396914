-- ===== src/Telemetry/Latest.antt =====
-- parseHealthResult and parseTelemetryLatest: what the latest rows of InfluxDB say of each device.
use be_aether_node.Base.{
  ℕ, ◌+◌, ◌||◌, String, Option, none, some, List, [], ◌∷◌, map, length, str_eq, ltb, ◌==◌, Dict,
  lookup, insert, if◌then◌else◌,
}
use be_aether_node.Base.Int.{ℤ}
use be_aether_node.Telemetry.{
  Value, nil, int, float, text, Time, zero_time, Formats, Series, cell, column_index,
}
use be_aether_node.Telemetry.History.{to_string}
use be_aether_node.Telemetry.Dashboard.{HealthData}

-- const offlineThreshold = 30 * time.Second
abbrev pub offline_threshold : ℕ
offline_threshold = 30000000000

abbrev value_of : {F : Type 0} → Option (Value F) → Value F
value_of none = nil
value_of (some v) = v

-- The first layout that parses.
abbrev pub first_time : Option Time → Option Time → Option Time
first_time (some t) other = some t
first_time none other = other

-- `if t.After(dev.LastSeen) { dev.LastSeen = t }`
unfoldable pub later_of : Option Time → Time → Time
later_of none old = old
later_of (some t) old = if ltb old.instant t.instant then t else old

-- `now.Sub(dev.LastSeen) > offlineThreshold`
unfoldable pub status_at : ℕ → Time → String
status_at now last_seen =
    if last_seen.instant == 0
    then "offline"
    else if ltb (last_seen.instant + offline_threshold) now
    then "offline"
    else "online"

abbrev pub fields_or_new : {F : Type 0} → Option (Dict (Value F)) → Dict (Value F)
fields_or_new none = []
fields_or_new (some fields) = fields

-- `if ...; ok && i < len(row) && row[i] != nil { telemetryMap[sn][fieldName] = row[i] }`
unfoldable pub set_value :
    {F : Type 0} → String → Option (Value F) → Dict (Value F) → Dict (Value F)
set_value name none fields = fields
set_value name (some nil) fields = fields
set_value name (some v) fields = insert name v fields

module _ {F : Type 0} (fmt : Formats F) where
  abbrev pub name_of : Option (Value F) → String
  name_of none = ""
  name_of (some v) = to_string fmt v

  -- `if i, ok := colIdx[...]; ok && i < len(row) { dev.X = toString(row[i]) }`
  abbrev tag_or : String → Option (Value F) → String
  tag_or old none = old
  tag_or old (some v) = to_string fmt v

  abbrev pub seen_at : Option (Value F) → Option Time
  seen_at (some (text ts)) = first_time (fmt.parse_nano ts) (fmt.parse_rfc3339 ts)
  seen_at _ = none

  unfoldable pub add_latest_row :
      Dict ℕ → List (Value F) → Dict (Dict (Value F)) → Dict (Dict (Value F))
  add_latest_row index row devices =
      let sn = name_of (cell index "device_sn" row) in
      if str_eq sn ""
      then devices
      else insert sn
          (set_value (name_of (cell index "_field" row)) (cell index "_value" row)
            (fields_or_new (lookup sn devices)))
          devices

  unfoldable pub add_latest_rows :
      Dict ℕ → List (List (Value F)) → Dict (Dict (Value F)) → Dict (Dict (Value F))
  add_latest_rows index [] devices = devices
  add_latest_rows index (row ∷ rows) devices =
      add_latest_rows index rows (add_latest_row index row devices)

  unfoldable pub add_latest_series : List (Series F) → Dict (Dict (Value F)) → Dict (Dict (Value F))
  add_latest_series [] devices = devices
  add_latest_series (s ∷ series) devices = add_latest_series series (
      if length s.columns == 0 || length s.values == 0
      then devices
      else add_latest_rows (column_index s.columns) s.values devices)

  unfoldable pub parse_telemetry_latest : List (Series F) → Dict (Dict (Value F))
  parse_telemetry_latest series = add_latest_series series []

-- `zero` is the number 0 and `of_int` the conversion of an int64.
module _ {F : Type 0} (fmt : Formats F) (zero : F) (of_int : ℤ → F) where
  -- `toFloat64`
  unfoldable pub to_float64 : Value F → F
  to_float64 (float v) = v
  to_float64 (int n) = of_int n
  to_float64 v = zero

  abbrev pub new_health : String → HealthData F
  new_health sn = record {
    device_sn = sn;
    device_name = "";
    gateway_sn = "";
    project = "";
    type = "";
    model = "";
    status = "";
    uptime = zero;
    temp = zero;
    hum = zero;
    rssi = zero;
    reset_reason = "";
    last_seen = zero_time;
  }

  abbrev pub health_or_new : String → Option (HealthData F) → HealthData F
  health_or_new sn none = new_health sn
  health_or_new sn (some dev) = dev

  -- The switch on the name of the field.
  unfoldable pub set_health_field : String → Value F → HealthData F → HealthData F
  set_health_field name value dev =
      if str_eq name "uptime"
      then record dev { uptime = to_float64 value }
      else if str_eq name "temp"
      then record dev { temp = to_float64 value }
      else if str_eq name "hum"
      then record dev { hum = to_float64 value }
      else if str_eq name "rssi"
      then record dev { rssi = to_float64 value }
      else if str_eq name "reset_reason"
      then record dev { reset_reason = to_string fmt value }
      else dev

  unfoldable pub health_row : Dict ℕ → List (Value F) → HealthData F → HealthData F
  health_row index row dev =
      let dev' = record dev {
        gateway_sn = tag_or fmt dev.gateway_sn (cell index "gateway_sn" row);
        project = tag_or fmt dev.project (cell index "project" row);
        type = tag_or fmt dev.type (cell index "type" row);
        model = tag_or fmt dev.model (cell index "model" row);
      } in
      let dev'' =
        set_health_field (name_of fmt (cell index "_field" row))
          (value_of (cell index "_value" row)) dev' in
      record dev'' {
        last_seen = later_of (seen_at fmt (cell index "timestamp" row)) dev''.last_seen;
      }

  unfoldable pub add_health_row :
      Dict ℕ → List (Value F) → Dict (HealthData F) → Dict (HealthData F)
  add_health_row index row devices =
      let sn = name_of fmt (cell index "device_sn" row) in
      if str_eq sn ""
      then devices
      else insert sn (health_row index row (health_or_new sn (lookup sn devices))) devices

  unfoldable pub add_health_rows :
      Dict ℕ → List (List (Value F)) → Dict (HealthData F) → Dict (HealthData F)
  add_health_rows index [] devices = devices
  add_health_rows index (row ∷ rows) devices =
      add_health_rows index rows (add_health_row index row devices)

  unfoldable pub add_health_series : List (Series F) → Dict (HealthData F) → Dict (HealthData F)
  add_health_series [] devices = devices
  add_health_series (s ∷ series) devices = add_health_series series (
      if length s.columns == 0 || length s.values == 0
      then devices
      else add_health_rows (column_index s.columns) s.values devices)

  -- Go ranges over a map in an order of its own, which `order` makes of the devices.
  unfoldable pub parse_health_result :
      (List (HealthData F) → List (HealthData F)) → ℕ → List (Series F) → List (HealthData F)
  parse_health_result order now series =
      map {A = HealthData F} (λ dev. record dev { status = status_at now dev.last_seen })
        (order (map (λ p. p.1) (add_health_series series [])))
