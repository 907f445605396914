-- ===== src/Device.antt =====
-- Devices: internal/domain/device, the statements of queries/devices.sql as internal/db runs them,
-- internal/db/convert.go and internal/repository/device. The service is in Device/Service.
use Prim.Native.String.{◌++◌}
use be_aether_node.Base.{
  ℕ, ◌-◌, ◌*◌, String, Bool, not, ◌&&◌, ◌||◌, Option, none, some, List, [], map, str_eq, length,
}
use be_aether_node.Base.Int.{ℤ}
use be_aether_node.Store.{
  newest_first, to_micros, Err, no_rows, repo_device_not_found, Env, DeviceRow, World, M, pure,
  query, query_row, limit_offset, on_error, exec, unconstrained, now, fresh_if_empty, parse_uuid,
  parse_uuid_or_nil, text_or_empty, time_or_zero, uuid_or_empty, optional_text, convert, ◌>>=◌,
  ◌>>◌,
}
use be_aether_node.Store.Sql.{
  sql_eq, same_guid, is_null, ilike_null, select, update, exists, append_row, positive_or, to_int32,
  total_pages, ListParams,
}
pub mod Service
pub mod Handler
pub mod Replies
pub mod Events

pub record Device : Type 0 where
  pub guid : String
  pub type : String
  pub serial_number : String
  pub alias : String
  pub notes : String
  pub is_active : Bool
  pub created_at : ℕ
  pub updated_at : ℕ
  pub deleted_at : Option ℕ

pub record ListResult : Type 0 where
  pub devices : List Device
  pub total : ℕ
  pub page : ℕ
  pub limit : ℕ
  pub total_page : ℕ

unfoldable pub device_from_db : Env → DeviceRow → Device
device_from_db env row = record {
  guid = uuid_or_empty env row.guid;
  type = row.type;
  serial_number = row.serial_number;
  alias = text_or_empty row.alias;
  notes = text_or_empty row.notes;
  is_active = row.is_active;
  created_at = time_or_zero row.created_at;
  updated_at = time_or_zero row.updated_at;
  deleted_at = row.deleted_at;
}

abbrev pub set_devices : List DeviceRow → World → World
set_devices rows w = record w { devices = rows }

-- `WHERE guid = $1 AND deleted_at IS NULL`
unfoldable pub live_device : ℕ → DeviceRow → Bool
live_device id row = sql_eq row.guid id && is_null row.deleted_at

-- `WHERE serial_number = $1 AND deleted_at IS NULL`
unfoldable pub live_serial : String → DeviceRow → Bool
live_serial serial row = str_eq row.serial_number serial && is_null row.deleted_at

abbrev pub live : DeviceRow → Bool
live row = is_null row.deleted_at

unfoldable pub listed : Env → String → DeviceRow → Bool
listed env pattern row =
    live row
    && (env.ilike row.serial_number pattern
        || (ilike_null env.ilike row.alias pattern || env.ilike row.type pattern))

-- The columns `guid` and `serial_number` are unique among all rows, the deleted ones too.
unfoldable pub insert_device : DeviceRow → M (Unit {0})
insert_device row =
    exec
      (λ w. not (
        exists (λ r. same_guid r.guid row.guid || str_eq r.serial_number row.serial_number)
          w.devices))
      (λ w. set_devices (append_row row w.devices) w)

unfoldable pub get_device_row : ℕ → M DeviceRow
get_device_row id = query_row (λ w. select (live_device id) w.devices)

unfoldable pub get_serial_row : String → M DeviceRow
get_serial_row serial = query_row (λ w. select (live_serial serial) w.devices)

unfoldable pub list_rows : String → ℤ → ℤ → M (List DeviceRow)
list_rows pattern limit offset = limit_offset limit offset (λ env w.
    newest_first env w (λ r. r.guid) (λ r. r.created_at) (select (listed env pattern) w.devices))

unfoldable pub count_rows : M ℕ
count_rows = query (λ env w. length (select live w.devices))

unfoldable pub exists_serial : String → M Bool
exists_serial serial = query (λ env w. exists (live_serial serial) w.devices)

-- The new serial number may not be that of another row, if a row is updated.
unfoldable pub update_row : ℕ → DeviceRow → M (Unit {0})
update_row id new =
    exec
      (λ w.
        not (exists (live_device id) w.devices)
        || not (
            exists (λ r. str_eq r.serial_number new.serial_number && not (sql_eq r.guid id))
              w.devices))
      (λ w.
        set_devices
          (update (live_device id)
            (λ r. record r {
              type = new.type;
              serial_number = new.serial_number;
              alias = new.alias;
              notes = new.notes;
              is_active = new.is_active;
              updated_at = new.updated_at;
            })
            w.devices)
          w)

unfoldable pub delete_row : ℕ → ℕ → M (Unit {0})
delete_row id t = exec unconstrained (λ w.
    set_devices
      (update (live_device id)
        (λ r. record r { deleted_at = some (to_micros t); updated_at = some (to_micros t) })
        w.devices)
      w)

-- `if errors.Is(err, pgx.ErrNoRows) { return ErrDeviceNotFound }`
abbrev pub not_found_if_no_rows : Err → Err
not_found_if_no_rows no_rows = repo_device_not_found
not_found_if_no_rows e = e

-- The row of a device's columns, with the time of the statement.
abbrev row_of : ℕ → Option ℕ → ℕ → Device → DeviceRow
row_of guid created_at t device = record {
  guid = some guid;
  type = device.type;
  serial_number = device.serial_number;
  alias = optional_text device.alias;
  notes = optional_text device.notes;
  is_active = device.is_active;
  created_at = created_at;
  updated_at = some (to_micros t);
  deleted_at = none;
}

-- The caller's struct comes back with the GUID that it then has.
unfoldable pub create : Device → M Device
create device = do
  id ← fresh_if_empty device.guid
  guid ← parse_uuid_or_nil id
  t ← now
  insert_device (row_of guid (some (to_micros t)) t device)
  pure (record device { guid = id })

unfoldable pub get_by_guid : String → M Device
get_by_guid guid = do
  id ← parse_uuid guid repo_device_not_found
  row ← on_error not_found_if_no_rows (get_device_row id)
  convert device_from_db row

unfoldable pub get_by_serial_number : String → M Device
get_by_serial_number serial = do
  row ← on_error not_found_if_no_rows (get_serial_row serial)
  convert device_from_db row

abbrev search_pattern : ListParams → String
search_pattern params = "%" ++ (params.search ++ "%")

abbrev convert_all : List DeviceRow → M (List Device)
convert_all = convert (λ env. map (device_from_db env))

unfoldable pub list : ListParams → M ListResult
list params = do
  let limit = positive_or 10 params.limit
  let page = positive_or 1 params.page
  rows ← list_rows (search_pattern params) (to_int32 limit) (to_int32 ((page - 1) * limit))
  total ← count_rows
  devices ← convert_all rows
  pure (record {
    devices = devices;
    total = total;
    page = page;
    limit = limit;
    total_page = total_pages total limit;
  })

unfoldable pub update_device_record : Device → M (Unit {0})
update_device_record device = do
  guid ← parse_uuid_or_nil device.guid
  t ← now
  on_error not_found_if_no_rows (update_row guid (row_of guid none t device))

unfoldable pub delete_device_record : String → M (Unit {0})
delete_device_record guid = do
  id ← parse_uuid guid repo_device_not_found
  t ← now
  on_error not_found_if_no_rows (delete_row id t)

unfoldable pub exists_by_serial_number : String → M Bool
exists_by_serial_number serial = exists_serial serial
