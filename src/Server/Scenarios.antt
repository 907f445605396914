-- ===== src/Server/Scenarios.antt =====
-- Runs of the handlers of devices, locations, installation points, thresholds and alarms.
use be_aether_node.Base.{true, false, none, some, List, [], ◌∷◌, ◌≡◌, ◌≢◌, refl, ◌↔◌}
use be_aether_node.Base.Int.{pos}
use be_aether_node.Store.{
  World, DeviceRow, LocationRow, ThresholdRow, AlarmRow, ok, ask, or_raise, on_error, query_row,
  exec, now, pure, fresh_uuid, fresh_if_empty, ◌>>=◌,
}
use be_aether_node.Store.Sql.{select, exists}
use be_aether_node.Store.Samples.{small_env, empty_world, small_env-ParsesBack}
use be_aether_node.Store.Announces.{Told}
use be_aether_node.Http.{status}
use be_aether_node.Health.{no_url}
use be_aether_node.Telemetry.Query.{responded}
use be_aether_node.Device.Service.{
  DeviceService, CreateDeviceRequest, UpdateDeviceRequest, create_device, update_device,
  delete_device,
}
use be_aether_node.Device.Events.{Notified, device_changes_notify}
use be_aether_node.Location.{
  Location, live_location, installed_at, counted, location_from_db, get_by_guid, get_location_row,
}
use be_aether_node.Location.Service.{get_location}
use be_aether_node.InstallationPoint.{InstallationPoint, create, insert_point}
use be_aether_node.InstallationPoint.Service.{
  CreateInstallationPointRequest, create_installation_point, new_point,
}
use be_aether_node.InstallationPoint.Counts.{create_point-get_location, with_more}
use be_aether_node.Threshold.Service.{
  ThresholdService, CreateThresholdRequest, UpdateThresholdRequest, create_threshold,
  update_threshold, delete_threshold,
}
use be_aether_node.Threshold.Events.{ToldOf, ToldDeleted, threshold_changes_publish}
use be_aether_node.Threshold.Handler.{handle_get, handle_update, handle_delete}
use be_aether_node.Threshold.Replies.{Missing, handlers-404_iff}
use be_aether_node.Alarm.{is_status, in_stats}
use be_aether_node.Alarm.Handler.{subject}
use be_aether_node.Alarm.Service.{get_alarm_stats}
use be_aether_node.Alarm.Statistics.{get_alarm_stats-counts}
use be_aether_node.Alarm.Lifecycle.{
  AllStamped, IsStamped, Call, acknowledge_call, resolve_call, run_calls, run_calls-AllStamped,
}
use be_aether_node.Server.{
  Services, Request, unprotected, protected, refused, post_logout, post_login, get_device,
  get_location as location_route, serve, answered,
}
use be_aether_node.Server.Answers.{serve-missed}
use be_aether_node.Server.Intact.{Intact}
use be_aether_node.Server.Access.{serve_requests, serve_requests-Intact}
use be_aether_node.Middleware.{plain, other}

abbrev probe : DeviceRow
probe = record {
  guid = some 4;
  type = "air";
  serial_number = "s1";
  alias = none;
  notes = none;
  is_active = true;
  created_at = some 1;
  updated_at = some 1;
  deleted_at = none;
}

abbrev room : LocationRow
room = record {
  guid = some 2;
  name = "room";
  notes = none;
  created_at = some 1;
  updated_at = some 1;
  deleted_at = none;
}

abbrev limit : ThresholdRow
limit = record {
  guid = some 1;
  device_guid = some 4;
  parameter_name = "co2";
  min_value = none;
  max_value = some 7;
  severity = "warning";
  is_active = true;
  created_at = some 1;
  updated_at = some 1;
  deleted_at = none;
}

abbrev high : AlarmRow
high = record {
  guid = some 3;
  device_guid = some 4;
  threshold_guid = some 1;
  parameter_name = "co2";
  triggered_value = 9;
  status = "active";
  severity = "warning";
  triggered_at = some 5;
  resolved_at = none;
  acknowledged_at = none;
  acknowledged_by = none;
  created_at = some 5;
  updated_at = some 5;
  deleted_at = none;
}

abbrev small_world : World
small_world = record empty_world {
  devices = probe ∷ [];
  locations = room ∷ [];
  thresholds = limit ∷ [];
  alarms = high ∷ [];
}

abbrev device_service : DeviceService
device_service = record { on_update = true }

abbrev new_device : CreateDeviceRequest
new_device = record { type = "air"; serial_number = "s2"; alias = ""; notes = "" }

abbrev inactive : UpdateDeviceRequest
inactive = record {
  type = none;
  serial_number = none;
  alias = none;
  notes = none;
  is_active = some false;
}

device_changes_notify_example :
    Told
      (Notified device_service)
      []
      (create_device device_service new_device small_env small_world)
    × Told
        (Notified device_service)
        []
        (update_device device_service "ggggg" inactive small_env small_world)
    × Told (Notified device_service) [] (delete_device device_service "ggggg" small_env small_world)
device_changes_notify_example =
    device_changes_notify device_service new_device "ggggg" inactive small_env small_world

abbrev threshold_service : ThresholdService
threshold_service = record { connected = true }

abbrev new_threshold : CreateThresholdRequest
new_threshold = record {
  device_guid = "ggggg";
  parameter_name = "pm10";
  min_value = none;
  max_value = some 5;
  severity = "info";
  is_active = true;
}

abbrev stricter : UpdateThresholdRequest
stricter = record {
  parameter_name = none;
  min_value = none;
  max_value = some 6;
  severity = none;
  is_active = none;
}

threshold_changes_publish_example :
    Told
      (ToldOf threshold_service "create")
      []
      (create_threshold threshold_service new_threshold small_env small_world)
    × Told
        (ToldOf threshold_service "update")
        []
        (update_threshold threshold_service "gg" stricter small_env small_world)
    × Told
        (ToldDeleted threshold_service)
        []
        (delete_threshold threshold_service "gg" small_env small_world)
threshold_changes_publish_example =
    threshold_changes_publish threshold_service new_threshold "gg" stricter small_env small_world

handlers-404_iff_example :
    ((status (handle_get "gg" small_env small_world).0 ≡ 404) ↔ Missing "gg" small_env small_world)
    × ((status (handle_update threshold_service "gg" (some stricter) small_env small_world).0 ≡ 404)
        ↔ Missing "gg" small_env small_world)
    × ((status (handle_delete threshold_service "gg" small_env small_world).0 ≡ 404)
        ↔ Missing "gg" small_env small_world)
handlers-404_iff_example =
    handlers-404_iff threshold_service "gg" stricter small_env small_world small_env-ParsesBack refl

abbrev in_room : CreateInstallationPointRequest
in_room = record { name = "wall"; device_guid = "ggggg"; location_guid = "ggg"; notes = "" }

abbrev room_before : Location
room_before = record {
  guid = "ggg";
  name = "room";
  notes = "";
  device_count = 0;
  created_at = 1;
  updated_at = 1;
  deleted_at = none;
}

abbrev wall : InstallationPoint
wall = record (new_point in_room) { guid = "g" }

abbrev room_after : Location
room_after = record room_before { device_count = 1 }

create_point-get_location_example : room_after ≡ with_more room_before 1
unfolding get_location get_by_guid get_location_row on_error query_row or_raise ask ◌>>=◌
    create_installation_point create insert_point fresh_if_empty fresh_uuid now exec pure select
    exists live_location counted installed_at location_from_db
create_point-get_location_example =
    create_point-get_location in_room "ggg" 2 small_env small_world wall room_before room_after refl
      refl refl refl

get_alarm_stats-counts_example :
    (get_alarm_stats (some "ggggg") small_env small_world).0
    ≡ ok (record { total = 1; active = 1; acknowledged = 0; resolved = 0 })
unfolding select in_stats
get_alarm_stats-counts_example = get_alarm_stats-counts (some "ggggg") small_env small_world refl

high-IsStamped : IsStamped high
unfolding is_status
high-IsStamped = record {
  known = refl;
  active = λ _. (refl, refl);
  acknowledged = λ h. cc h;
  resolved = λ h. cc h;
  by_whom = λ _. refl;
}

abbrev some_calls : List Call
some_calls = acknowledge_call "gggg" "ggg" ∷ (resolve_call "gggg" ∷ [])

run_calls-AllStamped_example : AllStamped (run_calls small_env some_calls small_world)
run_calls-AllStamped_example =
    run_calls-AllStamped small_env some_calls small_world (tt, (tt, tt)) (high-IsStamped, tt)

abbrev services : Services
services = record {
  auth = record { jwt_secret = "s"; access_token_ttl = 10; refresh_token_ttl = 20 };
  thresholds = threshold_service;
  atoi_or_zero = λ s. pos 0;
  numbers = record { two_places = λ f. "1.50"; decimal = λ n. "7" };
  unix_nano = λ t. pos t.instant;
  influx = λ n line. responded 204 "";
  ping = λ n. record { error = none; latency = "1ms" };
  probe = λ n. no_url;
}

serve-missed_example :
    (serve services (subject "ggg") (get_device "gggggggg") small_env small_world).0 ≢ answered 404
serve-missed_example =
    serve-missed services (subject "ggg") (get_device "gggggggg") small_env small_world refl

abbrev strangers : List Request
strangers =
    unprotected post_logout
    ∷ (protected (refused (some (plain "no token"))) other (location_route "ggg")
        ∷ (unprotected (post_login (some (record { email = "a"; password = "b" }))) ∷ []))

serve_requests-Intact_example :
    Intact small_world (serve_requests services strangers small_env small_world)
serve_requests-Intact_example =
    serve_requests-Intact services strangers small_env small_world (refl, (refl, (refl, tt)))
