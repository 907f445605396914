-- ===== src/Location.antt =====
-- Locations: internal/domain/location, the statements of queries/locations.sql as internal/db runs
-- them, internal/db/convert.go and internal/repository/location. The service is in Location/Service.
use Prim.Native.String.{◌++◌}
use be_aether_node.Base.{
  ℕ, ◌-◌, ◌*◌, String, Bool, not, ◌&&◌, ◌||◌, Option, none, some, List, map, str_eq, length,
}
use be_aether_node.Base.Int.{ℤ}
use be_aether_node.Store.{
  newest_first, to_micros, Err, no_rows, repo_location_not_found, Env, LocationRow,
  InstallationPointRow, World, M, pure, query, query_row, limit_offset, on_error, exec,
  unconstrained, now, fresh_if_empty, parse_uuid, parse_uuid_or_nil, text_or_empty, time_or_zero,
  uuid_or_empty, optional_text, convert, ◌>>=◌, ◌>>◌,
}
use be_aether_node.Store.Sql.{
  sql_eq, same_guid, is_null, ilike_null, select, update, exists, append_row, positive_or, to_int32,
  total_pages, ListParams,
}
pub mod Service
pub mod Handler
pub mod Replies

pub record Location : Type 0 where
  pub guid : String
  pub name : String
  pub notes : String
  pub device_count : ℕ
  pub created_at : ℕ
  pub updated_at : ℕ
  pub deleted_at : Option ℕ

pub record ListResult : Type 0 where
  pub locations : List Location
  pub total : ℕ
  pub page : ℕ
  pub limit : ℕ
  pub total_page : ℕ

-- GetLocationByGUIDRow and ListLocationsRow: a row, and the number of its installation points.
pub record CountedRow : Type 0 where
  pub row : LocationRow
  pub device_count : ℕ

-- LocationFromGetRow, and LocationFromListRow, which is the same.
unfoldable pub location_from_db : Env → CountedRow → Location
location_from_db env c = record {
  guid = uuid_or_empty env c.row.guid;
  name = c.row.name;
  notes = text_or_empty c.row.notes;
  device_count = c.device_count;
  created_at = time_or_zero c.row.created_at;
  updated_at = time_or_zero c.row.updated_at;
  deleted_at = c.row.deleted_at;
}

abbrev pub set_locations : List LocationRow → World → World
set_locations rows w = record w { locations = rows }

-- `WHERE guid = $1 AND deleted_at IS NULL`
unfoldable pub live_location : ℕ → LocationRow → Bool
live_location id row = sql_eq row.guid id && is_null row.deleted_at

abbrev pub live : LocationRow → Bool
live row = is_null row.deleted_at

-- `WHERE ip.location_guid = l.guid AND ip.deleted_at IS NULL`
unfoldable pub installed_at : Option ℕ → InstallationPointRow → Bool
installed_at location_guid point =
    same_guid point.location_guid location_guid && is_null point.deleted_at

unfoldable pub counted : World → LocationRow → CountedRow
counted w row = record {
  row = row;
  device_count = length (select (installed_at row.guid) w.installation_points);
}

unfoldable pub listed : Env → String → LocationRow → Bool
listed env pattern row =
    live row && (env.ilike row.name pattern || ilike_null env.ilike row.notes pattern)

-- The column `guid` is unique among all rows, the deleted ones too.
unfoldable pub insert_location : LocationRow → M (Unit {0})
insert_location row =
    exec (λ w. not (exists (λ r. same_guid r.guid row.guid) w.locations))
      (λ w. set_locations (append_row row w.locations) w)

unfoldable pub get_location_row : ℕ → M CountedRow
get_location_row id = query_row (λ w. map (counted w) (select (live_location id) w.locations))

unfoldable pub list_rows : String → ℤ → ℤ → M (List CountedRow)
list_rows pattern limit offset = limit_offset limit offset (λ env w. map (counted w) (
    newest_first env w (λ r. r.guid) (λ r. r.created_at) (select (listed env pattern) w.locations)))

unfoldable pub count_rows : M ℕ
count_rows = query (λ env w. length (select live w.locations))

unfoldable pub exists_name : String → M Bool
exists_name name = query (λ env w. exists (λ r. str_eq r.name name && live r) w.locations)

unfoldable pub update_row : ℕ → String → Option String → ℕ → M (Unit {0})
update_row id name notes t = exec unconstrained (λ w.
    set_locations
      (update (live_location id)
        (λ r. record r { name = name; notes = notes; updated_at = some (to_micros t) }) w.locations)
      w)

unfoldable pub delete_row : ℕ → ℕ → M (Unit {0})
delete_row id t = exec unconstrained (λ w.
    set_locations
      (update (live_location id)
        (λ r. record r { deleted_at = some (to_micros t); updated_at = some (to_micros t) })
        w.locations)
      w)

-- `if errors.Is(err, pgx.ErrNoRows) { return ErrLocationNotFound }`
abbrev pub not_found_if_no_rows : Err → Err
not_found_if_no_rows no_rows = repo_location_not_found
not_found_if_no_rows e = e

-- The caller's struct comes back with the GUID that it then has.
unfoldable pub create : Location → M Location
create loc = do
  id ← fresh_if_empty loc.guid
  guid ← parse_uuid_or_nil id
  t ← now
  insert_location (record {
    guid = some guid;
    name = loc.name;
    notes = optional_text loc.notes;
    created_at = some (to_micros t);
    updated_at = some (to_micros t);
    deleted_at = none;
  })
  pure (record loc { guid = id })

unfoldable pub get_by_guid : String → M Location
get_by_guid guid = do
  id ← parse_uuid guid repo_location_not_found
  row ← on_error not_found_if_no_rows (get_location_row id)
  convert location_from_db row

abbrev search_pattern : ListParams → String
search_pattern params = "%" ++ (params.search ++ "%")

abbrev convert_all : List CountedRow → M (List Location)
convert_all = convert (λ env. map (location_from_db env))

unfoldable pub list : ListParams → M ListResult
list params = do
  let limit = positive_or 10 params.limit
  let page = positive_or 1 params.page
  rows ← list_rows (search_pattern params) (to_int32 limit) (to_int32 ((page - 1) * limit))
  total ← count_rows
  locations ← convert_all rows
  pure (record {
    locations = locations;
    total = total;
    page = page;
    limit = limit;
    total_page = total_pages total limit;
  })

unfoldable pub update_location_record : Location → M (Unit {0})
update_location_record loc = do
  guid ← parse_uuid_or_nil loc.guid
  t ← now
  on_error not_found_if_no_rows (update_row guid loc.name (optional_text loc.notes) t)

unfoldable pub delete_location_record : String → M (Unit {0})
delete_location_record guid = do
  id ← parse_uuid guid repo_location_not_found
  t ← now
  on_error not_found_if_no_rows (delete_row id t)

unfoldable pub exists_by_name : String → M Bool
exists_by_name name = exists_name name
