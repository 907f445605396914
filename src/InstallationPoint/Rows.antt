-- ===== src/InstallationPoint/Rows.antt =====
-- Installation points: internal/domain/installation_point, the statements of
-- queries/installation_points.sql as internal/db runs them, and internal/db/convert.go.
use Prim.Native.String.{◌++◌}
use be_aether_node.Base.{
  ℕ, String, Bool, not, ◌&&◌, ◌||◌, Option, none, some, List, [], ◌∷◌, map, str_eq, length,
}
use be_aether_node.Base.Int.{ℤ}
use be_aether_node.Store.{
  newest_first, to_micros, Env, DeviceRow, LocationRow, InstallationPointRow, World, M, query,
  query_row, limit_offset, exec, unconstrained, text_or_empty, time_or_zero, uuid_or_empty,
}
use be_aether_node.Store.Sql.{
  sql_eq, same_guid, is_null, ilike_null, matches_uuid, select, update, exists, append_row,
  ListParams,
}

pub record InstallationPoint : Type 0 where
  pub guid : String
  pub name : String
  pub device_guid : String
  pub location_guid : String
  pub notes : String
  pub created_at : ℕ
  pub updated_at : ℕ
  pub deleted_at : Option ℕ
  pub device_sn : String
  pub device_alias : String
  pub location_name : String

-- InstallationPointWithRelations, with the embedded struct as a field.
pub record WithRelations : Type 0 where
  pub installation_point : InstallationPoint
  pub device_serial_number : String
  pub device_alias : String
  pub location_name : String

-- ListParams, which has two filters more than those of the other packages.
pub record PointListParams : Type 0 where
  pub common : ListParams
  pub device_guid : String
  pub location_guid : String

pub record ListResult : Type 0 where
  pub installation_points : List InstallationPoint
  pub total : ℕ
  pub page : ℕ
  pub limit : ℕ
  pub total_page : ℕ

-- GetInstallationPointWithRelationsRow and ListInstallationPointsRow.
pub record JoinedRow : Type 0 where
  pub row : InstallationPointRow
  pub serial_number : Option String
  pub alias : Option String
  pub location_name : Option String

unfoldable pub installation_point_from_db : Env → InstallationPointRow → InstallationPoint
installation_point_from_db env row = record {
  guid = uuid_or_empty env row.guid;
  name = row.name;
  device_guid = uuid_or_empty env row.device_guid;
  location_guid = uuid_or_empty env row.location_guid;
  notes = text_or_empty row.notes;
  created_at = time_or_zero row.created_at;
  updated_at = time_or_zero row.updated_at;
  deleted_at = row.deleted_at;
  device_sn = "";
  device_alias = "";
  location_name = "";
}

-- The loop body of List.
unfoldable pub listed_point : Env → JoinedRow → InstallationPoint
listed_point env j = record (installation_point_from_db env j.row) {
  device_sn = text_or_empty j.serial_number;
  device_alias = text_or_empty j.alias;
  location_name = text_or_empty j.location_name;
}

unfoldable pub with_relations : Env → JoinedRow → WithRelations
with_relations env j = record {
  installation_point = installation_point_from_db env j.row;
  device_serial_number = text_or_empty j.serial_number;
  device_alias = text_or_empty j.alias;
  location_name = text_or_empty j.location_name;
}

abbrev pub set_points : List InstallationPointRow → World → World
set_points rows w = record w { installation_points = rows }

-- `WHERE guid = $1 AND deleted_at IS NULL`
unfoldable pub live_point : ℕ → InstallationPointRow → Bool
live_point id row = sql_eq row.guid id && is_null row.deleted_at

abbrev pub live : InstallationPointRow → Bool
live row = is_null row.deleted_at

-- LEFT JOIN on a primary key: the columns of the row, NULL if there is none.
abbrev serial_column : List DeviceRow → Option String
serial_column [] = none
serial_column (d ∷ _) = some d.serial_number

abbrev alias_column : List DeviceRow → Option String
alias_column [] = none
alias_column (d ∷ _) = d.alias

abbrev name_column : List LocationRow → Option String
name_column [] = none
name_column (l ∷ _) = some l.name

unfoldable pub joined : World → InstallationPointRow → JoinedRow
joined w row =
    let devices = select (λ d. same_guid d.guid row.device_guid) w.devices in
    let locations = select (λ l. same_guid l.guid row.location_guid) w.locations in
    record {
      row = row;
      serial_number = serial_column devices;
      alias = alias_column devices;
      location_name = name_column locations;
    }

abbrev matches_search : Env → String → InstallationPointRow → Bool
matches_search env search row =
    str_eq search ""
    || (env.ilike row.name ("%" ++ (search ++ "%"))
        || ilike_null env.ilike row.notes ("%" ++ (search ++ "%")))

unfoldable pub listed : Env → String → Option ℕ → Option ℕ → InstallationPointRow → Bool
listed env search device location row =
    live row
    && (matches_search env search row
        && (matches_uuid row.device_guid device && matches_uuid row.location_guid location))

-- The foreign keys, which deleted rows satisfy too.
abbrev has_parents : Option ℕ → Option ℕ → World → Bool
has_parents device location w =
    exists (λ d. same_guid d.guid device) w.devices
    && exists (λ l. same_guid l.guid location) w.locations

unfoldable pub insert_point : InstallationPointRow → M (Unit {0})
insert_point row =
    exec
      (λ w.
        not (exists (λ r. same_guid r.guid row.guid) w.installation_points)
        && has_parents row.device_guid row.location_guid w)
      (λ w. set_points (append_row row w.installation_points) w)

unfoldable pub get_point_row : ℕ → M InstallationPointRow
get_point_row id = query_row (λ w. select (live_point id) w.installation_points)

unfoldable pub get_joined_row : ℕ → M JoinedRow
get_joined_row id = query_row (λ w. map (joined w) (select (live_point id) w.installation_points))

unfoldable pub list_rows : ℤ → ℤ → String → Option ℕ → Option ℕ → M (List JoinedRow)
list_rows limit offset search device location = limit_offset limit offset (λ env w. map (joined w) (
    newest_first env w (λ r. r.guid) (λ r. r.created_at)
      (select (listed env search device location) w.installation_points)))

unfoldable pub count_rows : M ℕ
count_rows = query (λ env w. length (select live w.installation_points))

unfoldable pub update_row : ℕ → InstallationPointRow → M (Unit {0})
update_row id new =
    exec
      (λ w.
        not (exists (live_point id) w.installation_points)
        || has_parents new.device_guid new.location_guid w)
      (λ w.
        set_points
          (update (live_point id)
            (λ r. record r {
              name = new.name;
              device_guid = new.device_guid;
              location_guid = new.location_guid;
              notes = new.notes;
              updated_at = new.updated_at;
            })
            w.installation_points)
          w)

unfoldable pub delete_row : ℕ → ℕ → M (Unit {0})
delete_row id t = exec unconstrained (λ w.
    set_points
      (update (live_point id)
        (λ r. record r { deleted_at = some (to_micros t); updated_at = some (to_micros t) })
        w.installation_points)
      w)
