-- ===== src/Threshold.antt =====
-- Thresholds: internal/domain/threshold, the statements of queries/thresholds.sql as internal/db runs
-- them, internal/db/convert.go and internal/repository/threshold. The service is in Threshold/Service.
use be_aether_node.Base.{
  ℕ, String, Bool, true, false, not, ◌&&◌, ◌||◌, Option, none, some, List, [], ◌∷◌, map, str_eq,
  if◌then◌else◌,
}
use be_aether_node.Store.{
  Err, no_rows, threshold_not_found, invalid_device_guid, Env, ThresholdRow, World, M, pure, query,
  query_row, ask, on_error, exec, exec_returning, unconstrained, parse_uuid, or_raise, or_nil,
  time_or_zero, uuid_or_empty, convert, ◌>>=◌, ◌>>◌, ok, err,
}
use be_aether_node.Store.Sql.{
  sql_eq, same_guid, is_null, select, update, exists, append_row, order_asc,
}
pub mod Service
pub mod Handler
pub mod Events
pub mod Replies

pub record Threshold : Type 0 where
  pub guid : String
  pub device_guid : String
  pub parameter_name : String
  pub min_value : Option ℕ
  pub max_value : Option ℕ
  pub severity : String
  pub is_active : Bool
  pub created_at : ℕ
  pub updated_at : ℕ
  pub deleted_at : Option ℕ

unfoldable pub threshold_from_db : Env → ThresholdRow → Threshold
threshold_from_db env row = record {
  guid = uuid_or_empty env row.guid;
  device_guid = uuid_or_empty env row.device_guid;
  parameter_name = row.parameter_name;
  min_value = row.min_value;
  max_value = row.max_value;
  severity = row.severity;
  is_active = row.is_active;
  created_at = time_or_zero row.created_at;
  updated_at = time_or_zero row.updated_at;
  deleted_at = row.deleted_at;
}

abbrev pub set_thresholds : List ThresholdRow → World → World
set_thresholds rows w = record w { thresholds = rows }

-- The enum alarm_severity.
unfoldable pub is_severity : String → Bool
is_severity s = str_eq s "info" || (str_eq s "warning" || str_eq s "critical")

-- `WHERE guid = $1 AND deleted_at IS NULL`
unfoldable pub live_threshold : ℕ → ThresholdRow → Bool
live_threshold id row = sql_eq row.guid id && is_null row.deleted_at

-- `WHERE device_guid = $1 AND deleted_at IS NULL`
unfoldable pub of_device : ℕ → ThresholdRow → Bool
of_device device row = sql_eq row.device_guid device && is_null row.deleted_at

-- The columns that CreateThreshold and UpdateThreshold set.
abbrev columns : ℕ → Threshold → ThresholdRow → ThresholdRow
columns now t row = record row {
  parameter_name = t.parameter_name;
  min_value = t.min_value;
  max_value = t.max_value;
  severity = t.severity;
  is_active = t.is_active;
  updated_at = some now;
}

-- The row that CreateThreshold inserts, with the defaults of the table.
abbrev pub new_row : ℕ → Threshold → Env → World → ThresholdRow
new_row device t env w = record {
  guid = some (env.db_uuid w.steps);
  device_guid = some device;
  parameter_name = t.parameter_name;
  min_value = t.min_value;
  max_value = t.max_value;
  severity = t.severity;
  is_active = t.is_active;
  created_at = some (env.db_now w.steps);
  updated_at = some (env.db_now w.steps);
  deleted_at = none;
}

-- The severity is one of the enum, the device exists, and the new GUID is no row's.
unfoldable pub insert_threshold : ℕ → Threshold → M ThresholdRow
insert_threshold device t =
    exec_returning
      (λ env w.
        is_severity t.severity
        && (exists (λ d. sql_eq d.guid device) w.devices
            && not (exists (λ r. sql_eq r.guid (env.db_uuid w.steps)) w.thresholds)))
      (λ env w. some (
        new_row device t env w,
        set_thresholds (append_row (new_row device t env w) w.thresholds) w,
      ))

unfoldable pub get_threshold_row : ℕ → M ThresholdRow
get_threshold_row id = query_row (λ w. select (live_threshold id) w.thresholds)

unfoldable pub list_rows : ℕ → M (List ThresholdRow)
list_rows device = query (λ env w.
    order_asc (λ a b. env.text_leb a.parameter_name b.parameter_name)
      (select (of_device device) w.thresholds))

abbrev first_row : List ThresholdRow → World → Option (ThresholdRow × World)
first_row [] w = none
first_row (row ∷ _) w = some (row, w)

-- UPDATE ... RETURNING: the severity's text is read as one of the enum whether a row matches or not.
unfoldable pub update_row : ℕ → Threshold → M ThresholdRow
update_row id t =
    exec_returning (λ env w. is_severity t.severity)
      (λ env w.
        first_row (map (columns (env.db_now w.steps) t) (select (live_threshold id) w.thresholds)) (
          set_thresholds (update (live_threshold id) (columns (env.db_now w.steps) t) w.thresholds)
            w))

-- `UPDATE thresholds SET deleted_at = NOW() WHERE guid = $1`
unfoldable pub delete_row : ℕ → M (Unit {0})
delete_row id env =
    exec unconstrained
      (λ w.
        set_thresholds
          (update (λ r. sql_eq r.guid id) (λ r. record r { deleted_at = some (env.db_now w.steps) })
            w.thresholds)
          w)
      env

-- `if errors.Is(err, pgx.ErrNoRows) { return ErrThresholdNotFound }`
abbrev pub not_found_if_no_rows : Err → Err
not_found_if_no_rows no_rows = threshold_not_found
not_found_if_no_rows e = e

-- The caller's struct comes back with the GUID and the times of the row.
unfoldable pub create : Threshold → M Threshold
create t = do
  device ← parse_uuid t.device_guid invalid_device_guid
  row ← insert_threshold device t
  convert
      (λ env r. record t {
        guid = env.uuid_string (or_nil r.guid);
        created_at = time_or_zero r.created_at;
        updated_at = time_or_zero r.updated_at;
      })
      row

unfoldable pub get_by_guid : String → M Threshold
get_by_guid guid = do
  id ← parse_uuid guid threshold_not_found
  row ← on_error not_found_if_no_rows (get_threshold_row id)
  convert threshold_from_db row

abbrev list_of : Option ℕ → M (List Threshold)
list_of none = pure []
list_of (some device) = do
  rows ← list_rows device
  convert (λ env. map (threshold_from_db env)) rows

-- A GUID that does not parse has no thresholds.
unfoldable pub list_by_device : String → M (List Threshold)
list_by_device guid = do device ← ask (λ env. env.uuid_parse guid); list_of device

-- The caller's struct comes back with the time of the row.
unfoldable pub update_threshold_record : Threshold → M Threshold
update_threshold_record t = do
  id ← parse_uuid t.guid threshold_not_found
  row ← update_row id t
  pure (record t { updated_at = time_or_zero row.updated_at })

unfoldable pub delete_threshold_record : String → M (Unit {0})
delete_threshold_record guid = do id ← parse_uuid guid threshold_not_found; delete_row id
