-- ===== src/Alarm/History.antt =====
-- ListHistory of internal/repository/alarm, with the statements that it runs.
use be_aether_node.Base.{
  ℕ, ◌-◌, ◌*◌, String, Bool, true, ◌&&◌, Option, none, some, List, [], ◌∷◌, ◌++◌, map, str_eq,
  length, ltb, if◌then◌else◌,
}
use be_aether_node.Base.Int.{ℤ}
use be_aether_node.Store.{
  newest_first, Env, AlarmRow, InstallationPointRow, World, M, pure, query, refused, limit_offset,
  or_value, or_nil, time_or_zero, text_or_empty, convert, ◌>>=◌,
}
use be_aether_node.Store.Sql.{
  same_guid, sql_eq, is_null, matches_uuid, select, exists, order_desc, to_int32, total_pages,
}
use be_aether_node.Alarm.{Alarm, is_status, is_all, uuid_filter, uuid_text}

-- ListParams after the service has set its defaults: the page and the limit are positive. No code
-- reads the start and the end time.
pub record HistoryParams : Type 0 where
  pub device_guid : Option String
  pub location_guid : Option String
  pub status : Option String
  pub limit : ℕ
  pub page : ℕ
  pub start_time : Option ℕ
  pub end_time : Option ℕ

pub record ListResult : Type 0 where
  pub alarms : List Alarm
  pub total : ℕ
  pub page : ℕ
  pub limit : ℕ
  pub total_page : ℕ

-- ListAlarmHistoryRow
pub record HistoryRow : Type 0 where
  pub row : AlarmRow
  pub device_sn : String
  pub device_alias : Option String
  pub location_name : String

-- `WHERE ip.device_guid = a.device_guid AND ip.deleted_at IS NULL`
unfoldable pub installed : Option ℕ → InstallationPointRow → Bool
installed device_guid point = same_guid point.device_guid device_guid && is_null point.deleted_at

-- `$3::uuid IS NULL OR EXISTS (...)`
abbrev at_location : Option ℕ → World → AlarmRow → Bool
at_location none w row = true
at_location (some location) w row =
    exists (λ p. installed row.device_guid p && sql_eq p.location_guid location)
      w.installation_points

abbrev has_status : Option String → AlarmRow → Bool
has_status none row = true
has_status (some status) row = str_eq row.status status

unfoldable pub in_history : Option ℕ → Option String → Option ℕ → World → AlarmRow → Bool
in_history device status location w row =
    matches_uuid row.device_guid device
    && (has_status status row && (at_location location w row && is_null row.deleted_at))

-- The points joined with their locations, the newest point first; the name of the first.
abbrev names_at : World → List InstallationPointRow → List String
names_at w [] = []
names_at w (p ∷ points) =
    map (λ l. l.name) (select (λ l. same_guid l.guid p.location_guid) w.locations)
    ++ names_at w points

abbrev first_or_empty : List String → String
first_or_empty [] = ""
first_or_empty (s ∷ _) = s

unfoldable pub location_of : World → Option ℕ → String
location_of w device_guid = first_or_empty (
    names_at w (
      order_desc (λ p. time_or_zero p.created_at)
        (select (installed device_guid) w.installation_points)))

-- JOIN devices d ON a.device_guid = d.guid
unfoldable pub joined : World → List AlarmRow → List HistoryRow
joined w [] = []
joined w (row ∷ rows) =
    map
      (λ d. record {
        row = row;
        device_sn = d.serial_number;
        device_alias = d.alias;
        location_name = location_of w row.device_guid;
      })
      (select (λ d. same_guid d.guid row.device_guid) w.devices)
    ++ joined w rows

-- A status that is none of the enum is refused.
abbrev if_status : {A : Type 0} → Option String → M A → M A
if_status none m = m
if_status (some status) m = if is_status status then m else refused

unfoldable pub list_history_rows : ℤ → ℤ → Option ℕ → Option String → Option ℕ → M (List HistoryRow)
list_history_rows limit offset device status location = if_status status (
    limit_offset limit offset (λ env w.
      newest_first env w (λ h. h.row.guid) (λ h. h.row.triggered_at)
        (joined w (select (in_history device status location w) w.alarms))))

unfoldable pub count_history_rows : Option ℕ → Option String → Option ℕ → M ℕ
count_history_rows device status location =
    if_status status
      (query (λ env w. length (select (in_history device status location w) w.alarms)))

-- The loop body of ListHistory.
unfoldable pub history_alarm : Env → HistoryRow → Alarm
history_alarm env h = record {
  guid = env.uuid_string (or_nil h.row.guid);
  device_guid = env.uuid_string (or_nil h.row.device_guid);
  device_sn = h.device_sn;
  device_alias = text_or_empty h.device_alias;
  location_name = h.location_name;
  threshold_guid = uuid_text env h.row.threshold_guid;
  parameter_name = h.row.parameter_name;
  triggered_value = h.row.triggered_value;
  status = h.row.status;
  severity = h.row.severity;
  triggered_at = time_or_zero h.row.triggered_at;
  resolved_at = h.row.resolved_at;
  acknowledged_at = h.row.acknowledged_at;
  acknowledged_by = uuid_text env h.row.acknowledged_by;
  created_at = time_or_zero h.row.created_at;
  updated_at = time_or_zero h.row.updated_at;
  deleted_at = none;
}

abbrev status_filter : Option String → Option String
status_filter none = none
status_filter (some s) = if is_all s then none else some s

unfoldable pub list_history : HistoryParams → M ListResult
list_history params = do
  device ← uuid_filter params.device_guid
  location ← uuid_filter params.location_guid
  let status = status_filter params.status
  rows ←
      list_history_rows (to_int32 params.limit) (to_int32 ((params.page - 1) * params.limit)) device
        status location
  total ← or_value 0 (count_history_rows device status location)
  alarms ← convert (λ env. map (history_alarm env)) rows
  pure (record {
    alarms = alarms;
    total = total;
    page = params.page;
    limit = params.limit;
    total_page = if ltb 0 params.limit then total_pages total params.limit else 0;
  })
