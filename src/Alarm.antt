-- ===== src/Alarm.antt =====
-- Alarms: internal/domain/alarm, the statements of queries/alarms.sql as internal/db runs them,
-- internal/db/convert.go and internal/repository/alarm. The service is in Alarm/Service.
mod Rows
pub mod History
pub mod Service
pub mod Groups
pub mod Statistics
pub mod Lifecycle
pub mod Handler
unfoldable pub use Rows.*
use be_aether_node.Base.{
  ℕ, ◌+◌, ◌*◌, String, Bool, ◌||◌, Option, none, some, List, [], ◌∷◌, map, str_eq, if◌then◌else◌,
  Dict,
}
use be_aether_node.Store.{
  Err, no_rows, alarm_not_found, invalid_device_guid, Result, ok, err, M, pure, ask, on_error,
  parse_uuid, or_nil, time_or_zero, convert, ◌>>=◌,
}

-- `if errors.Is(err, pgx.ErrNoRows) { return ErrAlarmNotFound }`
abbrev pub not_found_if_no_rows : Err → Err
not_found_if_no_rows no_rows = alarm_not_found
not_found_if_no_rows e = e

-- `if p != nil { if u, err := uuid.Parse(*p); err == nil { ... } }`
abbrev pub parse_pointer : Option String → M (Option ℕ)
parse_pointer none = pure none
parse_pointer (some s) = ask (λ env. env.uuid_parse s)

-- The caller's struct comes back with the GUID and the times of the row.
unfoldable pub create : Alarm → M Alarm
create a = do
  device ← parse_uuid a.device_guid invalid_device_guid
  threshold ← parse_pointer a.threshold_guid
  row ← insert_alarm device threshold a
  convert
      (λ env r. record a {
        guid = env.uuid_string (or_nil r.guid);
        created_at = time_or_zero r.created_at;
        updated_at = time_or_zero r.updated_at;
      })
      row

unfoldable pub get_by_guid : String → M Alarm
get_by_guid guid = do
  id ← parse_uuid guid alarm_not_found
  row ← on_error not_found_if_no_rows (get_alarm_row id)
  convert alarm_from_db row

abbrev active_list : Option ℕ → M (List Alarm)
active_list none = pure []
active_list (some device) = do
  rows ← list_active_rows device
  convert (λ env. map (alarm_from_db env)) rows

-- A GUID that does not parse has no alarms.
unfoldable pub list_active_by_device : String → M (List Alarm)
list_active_by_device guid = do device ← ask (λ env. env.uuid_parse guid); active_list device

-- A filter that is absent, empty, "all" or no GUID filters nothing.
abbrev pub is_all : String → Bool
is_all s = str_eq s "" || str_eq s "all"

abbrev pub uuid_filter : Option String → M (Option ℕ)
uuid_filter none = pure none
uuid_filter (some s) = if is_all s then pure none else ask (λ env. env.uuid_parse s)

-- The loop body of GetStats.
unfoldable pub add_group : Stats → String × ℕ → Stats
add_group stats (status, count) =
    let stats' = record stats { total = stats.total + count } in
    if str_eq status "active"
    then record stats' { active = count }
    else if str_eq status "acknowledged"
    then record stats' { acknowledged = count }
    else if str_eq status "resolved"
    then record stats' { resolved = count }
    else stats'

unfoldable pub add_groups : Stats → Dict ℕ → Stats
add_groups stats [] = stats
add_groups stats (group ∷ groups) = add_groups (add_group stats group) groups

unfoldable pub get_stats : Option String → M Stats
get_stats device_guid = do
  device ← uuid_filter device_guid
  groups ← count_by_status device
  pure (add_groups (record { total = 0; active = 0; acknowledged = 0; resolved = 0 }) groups)

unfoldable pub update_status : String → String → Option String → M Alarm
update_status guid status user_id = do
  id ← parse_uuid guid alarm_not_found
  user ← parse_pointer user_id
  row ← update_status_row id status user
  convert alarm_from_db row

abbrev none_if_no_rows : Err → Result (Option Alarm)
none_if_no_rows no_rows = ok none
none_if_no_rows e = err e

-- `if errors.Is(err, pgx.ErrNoRows) { return nil, nil }`, and the alarm where there is one.
abbrev active_row : ℕ → String → M (Option Alarm)
active_row device parameter env w =
    let (r, w') = get_active_row device parameter env w in
    (elim r [ ok row ↦ ok (some (alarm_from_db env row)) | err e ↦ none_if_no_rows e ], w')

abbrev active_for : Option ℕ → String → M (Option Alarm)
active_for none parameter = pure none
active_for (some device) parameter = active_row device parameter

unfoldable pub get_active_by_device_param : String → String → M (Option Alarm)
get_active_by_device_param guid parameter = do
  device ← ask (λ env. env.uuid_parse guid)
  active_for device parameter
