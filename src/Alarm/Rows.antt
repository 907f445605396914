-- ===== src/Alarm/Rows.antt =====
-- Alarms: internal/domain/alarm, the statements of queries/alarms.sql as internal/db runs them, and
-- internal/db/convert.go.
use be_aether_node.Base.{
  ℕ, ◌+◌, String, Bool, true, not, ◌&&◌, ◌||◌, Option, none, some, List, [], ◌∷◌, map, str_eq,
  if◌then◌else◌, Dict, lookup, insert,
}
use be_aether_node.Store.{
  newest_first, to_micros, Env, AlarmRow, World, M, query, query_row, exec_returning, time_or_zero,
  uuid_or_empty,
}
use be_aether_node.Store.Sql.{
  sql_eq, is_null, matches_uuid, select, update, exists, append_row, order_desc,
}

pub record Alarm : Type 0 where
  pub guid : String
  pub device_guid : String
  pub device_sn : String
  pub device_alias : String
  pub location_name : String
  pub threshold_guid : Option String
  pub parameter_name : String
  pub triggered_value : ℕ
  pub status : String
  pub severity : String
  pub triggered_at : ℕ
  pub resolved_at : Option ℕ
  pub acknowledged_at : Option ℕ
  pub acknowledged_by : Option String
  pub created_at : ℕ
  pub updated_at : ℕ
  pub deleted_at : Option ℕ

pub record Stats : Type 0 where
  pub total : ℕ
  pub active : ℕ
  pub acknowledged : ℕ
  pub resolved : ℕ

abbrev pub uuid_text : Env → Option ℕ → Option String
uuid_text env none = none
uuid_text env (some u) = some (env.uuid_string u)

unfoldable pub alarm_from_db : Env → AlarmRow → Alarm
alarm_from_db env row = record {
  guid = uuid_or_empty env row.guid;
  device_guid = uuid_or_empty env row.device_guid;
  device_sn = "";
  device_alias = "";
  location_name = "";
  threshold_guid = uuid_text env row.threshold_guid;
  parameter_name = row.parameter_name;
  triggered_value = row.triggered_value;
  status = row.status;
  severity = row.severity;
  triggered_at = time_or_zero row.triggered_at;
  resolved_at = row.resolved_at;
  acknowledged_at = row.acknowledged_at;
  acknowledged_by = uuid_text env row.acknowledged_by;
  created_at = time_or_zero row.created_at;
  updated_at = time_or_zero row.updated_at;
  deleted_at = row.deleted_at;
}

abbrev pub set_alarms : List AlarmRow → World → World
set_alarms rows w = record w { alarms = rows }

-- The enums alarm_status and alarm_severity.
unfoldable pub is_status : String → Bool
is_status s = str_eq s "active" || (str_eq s "acknowledged" || str_eq s "resolved")

unfoldable pub is_severity : String → Bool
is_severity s = str_eq s "info" || (str_eq s "warning" || str_eq s "critical")

-- `WHERE guid = $1 AND deleted_at IS NULL`
unfoldable pub live_alarm : ℕ → AlarmRow → Bool
live_alarm id row = sql_eq row.guid id && is_null row.deleted_at

-- `WHERE device_guid = $1 AND status = 'active' AND deleted_at IS NULL`
unfoldable pub active_of : ℕ → AlarmRow → Bool
active_of device row =
    sql_eq row.device_guid device && (str_eq row.status "active" && is_null row.deleted_at)

-- A nullable foreign key.
abbrev refers_to : (ℕ → Bool) → Option ℕ → Bool
refers_to found none = true
refers_to found (some id) = found id

-- The row that CreateAlarm inserts, with the defaults of the table.
abbrev pub new_row : ℕ → Option ℕ → Alarm → Env → World → AlarmRow
new_row device threshold a env w = record {
  guid = some (env.db_uuid w.steps);
  device_guid = some device;
  threshold_guid = threshold;
  parameter_name = a.parameter_name;
  triggered_value = a.triggered_value;
  status = a.status;
  severity = a.severity;
  triggered_at = some (to_micros a.triggered_at);
  resolved_at = none;
  acknowledged_at = none;
  acknowledged_by = none;
  created_at = some (env.db_now w.steps);
  updated_at = some (env.db_now w.steps);
  deleted_at = none;
}

-- The texts are ones of the enums, the device and the threshold exist, and the GUID is no row's.
unfoldable pub insert_alarm : ℕ → Option ℕ → Alarm → M AlarmRow
insert_alarm device threshold a =
    exec_returning
      (λ env w.
        (is_severity a.severity && is_status a.status)
        && (exists (λ d. sql_eq d.guid device) w.devices
            && (refers_to (λ id. exists (λ t. sql_eq t.guid id) w.thresholds) threshold
                && not (exists (λ r. sql_eq r.guid (env.db_uuid w.steps)) w.alarms))))
      (λ env w. some (
        new_row device threshold a env w,
        set_alarms (append_row (new_row device threshold a env w) w.alarms) w,
      ))

unfoldable pub get_alarm_row : ℕ → M AlarmRow
get_alarm_row id = query_row (λ w. select (live_alarm id) w.alarms)

unfoldable pub list_active_rows : ℕ → M (List AlarmRow)
list_active_rows device = query (λ env w.
    newest_first env w (λ r. r.guid) (λ r. r.triggered_at) (select (active_of device) w.alarms))

unfoldable pub get_active_row : ℕ → String → M AlarmRow
get_active_row device parameter =
    query_row (λ w. select (λ r. active_of device r && str_eq r.parameter_name parameter) w.alarms)

-- The columns that UpdateAlarmStatus sets, at the time of the statement.
unfoldable pub set_status : String → Option ℕ → ℕ → AlarmRow → AlarmRow
set_status status user now row = record row {
  status = status;
  acknowledged_at = if str_eq status "acknowledged" then some now else row.acknowledged_at;
  acknowledged_by = if str_eq status "acknowledged" then user else row.acknowledged_by;
  resolved_at = if str_eq status "resolved" then some now else row.resolved_at;
  updated_at = some now;
}

abbrev first_row : List AlarmRow → World → Option (AlarmRow × World)
first_row [] w = none
first_row (row ∷ _) w = some (row, w)

-- UPDATE ... RETURNING: the status is one of the enum, and a user that is set in a row exists.
unfoldable pub update_status_row : ℕ → String → Option ℕ → M AlarmRow
update_status_row id status user =
    exec_returning
      (λ env w.
        is_status status
        && (not (exists (live_alarm id) w.alarms)
            || (not (str_eq status "acknowledged")
                || refers_to (λ u. exists (λ r. sql_eq r.guid u) w.users) user)))
      (λ env w.
        first_row
          (map (set_status status user (env.db_now w.steps)) (select (live_alarm id) w.alarms))
          (set_alarms
            (update (live_alarm id) (set_status status user (env.db_now w.steps)) w.alarms) w))

-- `WHERE (device_guid = $1 OR $1 IS NULL) AND deleted_at IS NULL`
unfoldable pub in_stats : Option ℕ → AlarmRow → Bool
in_stats device row = matches_uuid row.device_guid device && is_null row.deleted_at

abbrev pub amount : String → Dict ℕ → ℕ
amount status groups = elim (lookup status groups) [ none ↦ 0 | some n ↦ n ]

-- SELECT status, count(*) ... GROUP BY status
unfoldable pub group_by_status : List AlarmRow → Dict ℕ
group_by_status [] = []
group_by_status (row ∷ rows) =
    let groups = group_by_status rows in insert row.status (amount row.status groups + 1) groups

-- The database returns the groups in an order of its own.
unfoldable pub count_by_status : Option ℕ → M (Dict ℕ)
count_by_status device = query (λ env w.
    order_desc (λ g. env.group_rank w.steps g.0)
      (group_by_status (select (in_stats device) w.alarms)))
