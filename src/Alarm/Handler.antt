-- ===== src/Alarm/Handler.antt =====
-- internal/handler/alarm_handler.go, without the loop of its stream.
use be_aether_node.Base.{ℕ, String, Option, none, some, List, str_eq, if◌then◌else◌}
use be_aether_node.Base.Int.{ℤ, pos}
use be_aether_node.Store.{Err, alarm_not_found, Env, World, M}
use be_aether_node.Alarm.{Alarm, Stats}
use be_aether_node.Alarm.History.{ListResult}
use be_aether_node.Alarm.Service.{
  AlarmListParams, list_active_alarms, list_alarm_history, acknowledge_alarm, resolve_alarm,
  get_alarm_stats,
}
use be_aether_node.Http.{Reply, success, error, text, answer, internal_error, page_reply}

-- The parameters of the URL's query, empty where they are absent.
pub record HistoryQueryParams : Type 0 where
  pub device_guid : String
  pub location_guid : String
  pub status : String
  pub start : String
  pub stop : String
  pub limit : String
  pub page : String

-- `if s != "" { p = &s }`
abbrev pub pointer_of : String → Option String
pointer_of s = if str_eq s "" then none else some s

-- `if err == alarm.ErrAlarmNotFound { ... }`
abbrev pub not_found_or_internal : {A : Type 0} → Err → Reply A
not_found_or_internal alarm_not_found = error 404 "RESOURCE_NOT_FOUND" (text "Alarm not found")
not_found_or_internal e = internal_error e

unfoldable pub handle_active : String → Env → World → Reply (List Alarm) × World
handle_active device_guid =
    answer (list_active_alarms device_guid)
      (λ alarms. success 200 alarms "Active alarms retrieved successfully") internal_error

-- `if s != "" { if t, err := time.Parse(...); err == nil { p = &t } }`
abbrev time_pointer : Env → String → Option ℕ
time_pointer env s = if str_eq s "" then none else env.parse_time s

abbrev pub params_of : (String → ℤ) → HistoryQueryParams → Env → AlarmListParams
params_of atoi_or_zero q env = record {
  device_guid = pointer_of q.device_guid;
  location_guid = pointer_of q.location_guid;
  status = pointer_of q.status;
  limit = atoi_or_zero q.limit;
  page = atoi_or_zero q.page;
  start_time = time_pointer env q.start;
  end_time = time_pointer env q.stop;
}

-- `atoi_or_zero` is strconv.Atoi with its error left out: 0 where it fails.
unfoldable pub handle_history :
    (String → ℤ) → HistoryQueryParams → Env → World → Reply (List Alarm) × World
handle_history atoi_or_zero q env w =
    answer (list_alarm_history (params_of atoi_or_zero q env))
      (λ r. page_reply r.alarms r.page r.limit r.total r.total_page) internal_error env w

-- What the context holds under "user": nothing, a token without MapClaims, or the subject of its
-- claims. A value of another type, or a subject that is no string, panics.
pub data ContextUser : Type 0 where
  missing : ContextUser
  other_claims : ContextUser
  subject : String → ContextUser
  not_asserted : ContextUser

-- `none` is a panic.
unfoldable pub handle_acknowledge :
    ContextUser → String → Env → World → Option (Reply Alarm × World)
handle_acknowledge missing guid env w =
    some (error 401 "UNAUTHORIZED" (text "Missing auth token"), w)
handle_acknowledge other_claims guid env w =
    some (error 401 "UNAUTHORIZED" (text "Invalid token claims"), w)
handle_acknowledge not_asserted guid env w = none
handle_acknowledge (subject user_id) guid env w = some (
    answer (acknowledge_alarm guid user_id) (λ a. success 200 a "Alarm acknowledged successfully")
      not_found_or_internal env w)

unfoldable pub handle_resolve : String → Env → World → Reply Alarm × World
handle_resolve guid =
    answer (resolve_alarm guid) (λ a. success 200 a "Alarm resolved successfully")
      not_found_or_internal

unfoldable pub handle_stats : String → Env → World → Reply Stats × World
handle_stats device_guid =
    answer (get_alarm_stats (pointer_of device_guid))
      (λ stats. success 200 stats "Alarm stats retrieved successfully") internal_error

-- What one round of StreamAlarms sends.
unfoldable pub send_active_alarms : M ListResult
send_active_alarms = list_alarm_history (record {
  device_guid = none;
  location_guid = none;
  status = some "active";
  limit = pos 50;
  page = pos 1;
  start_time = none;
  end_time = none;
})
