-- ===== src/Alarm/Service.antt =====
-- internal/service/alarm.
use be_aether_node.Base.{ℕ, String, Option, none, some, List}
use be_aether_node.Base.Int.{ℤ}
use be_aether_node.Store.{M}
use be_aether_node.Store.Sql.{positive_or}
use be_aether_node.Alarm.{
  Alarm, Stats, create, get_by_guid, list_active_by_device, get_stats, update_status,
}
use be_aether_node.Alarm.History.{ListResult, list_history}

pub record CreateAlarmRequest : Type 0 where
  pub device_guid : String
  pub threshold_guid : Option String
  pub parameter_name : String
  pub triggered_value : ℕ
  pub severity : String
  pub status : String
  pub triggered_at : ℕ

pub record AlarmListParams : Type 0 where
  pub device_guid : Option String
  pub location_guid : Option String
  pub status : Option String
  pub limit : ℤ
  pub page : ℤ
  pub start_time : Option ℕ
  pub end_time : Option ℕ

abbrev pub new_alarm : CreateAlarmRequest → Alarm
new_alarm req = record {
  guid = "";
  device_guid = req.device_guid;
  device_sn = "";
  device_alias = "";
  location_name = "";
  threshold_guid = req.threshold_guid;
  parameter_name = req.parameter_name;
  triggered_value = req.triggered_value;
  status = req.status;
  severity = req.severity;
  triggered_at = req.triggered_at;
  resolved_at = none;
  acknowledged_at = none;
  acknowledged_by = none;
  created_at = 0;
  updated_at = 0;
  deleted_at = none;
}

unfoldable pub create_alarm : CreateAlarmRequest → M Alarm
create_alarm req = create (new_alarm req)

unfoldable pub get_alarm : String → M Alarm
get_alarm guid = get_by_guid guid

unfoldable pub list_active_alarms : String → M (List Alarm)
list_active_alarms device_guid = list_active_by_device device_guid

unfoldable pub list_alarm_history : AlarmListParams → M ListResult
list_alarm_history params = list_history (record {
  device_guid = params.device_guid;
  location_guid = params.location_guid;
  status = params.status;
  limit = positive_or 10 params.limit;
  page = positive_or 1 params.page;
  start_time = params.start_time;
  end_time = params.end_time;
})

unfoldable pub acknowledge_alarm : String → String → M Alarm
acknowledge_alarm guid user_id = update_status guid "acknowledged" (some user_id)

unfoldable pub resolve_alarm : String → M Alarm
resolve_alarm guid = update_status guid "resolved" none

unfoldable pub get_alarm_stats : Option String → M Stats
get_alarm_stats device_guid = get_stats device_guid
