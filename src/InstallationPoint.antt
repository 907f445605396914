-- ===== src/InstallationPoint.antt =====
-- Installation points: internal/domain/installation_point, the statements of
-- queries/installation_points.sql as internal/db runs them, internal/db/convert.go and
-- internal/repository/installation_point. The service is in InstallationPoint/Service.
mod Rows
pub mod Service
pub mod Handler
pub mod Replies
pub mod Counts
unfoldable pub use Rows.*
use be_aether_node.Base.{ℕ, ◌-◌, ◌*◌, String, Option, none, some, map, str_eq, if◌then◌else◌}
use be_aether_node.Store.{
  to_micros, Err, no_rows, repo_installation_point_not_found, InstallationPointRow, M, pure, ask,
  on_error, now, fresh_if_empty, parse_uuid, parse_uuid_or_nil, or_nil, optional_text, convert,
  ◌>>=◌, ◌>>◌,
}
use be_aether_node.Store.Sql.{positive_or, to_int32, total_pages}

-- `if errors.Is(err, pgx.ErrNoRows) { return ErrInstallationPointNotFound }`
abbrev pub not_found_if_no_rows : Err → Err
not_found_if_no_rows no_rows = repo_installation_point_not_found
not_found_if_no_rows e = e

abbrev pub row_of : ℕ → ℕ → ℕ → Option ℕ → ℕ → InstallationPoint → InstallationPointRow
row_of guid device location created_at t ip = record {
  guid = some guid;
  name = ip.name;
  device_guid = some device;
  location_guid = some location;
  notes = optional_text ip.notes;
  created_at = created_at;
  updated_at = some (to_micros t);
  deleted_at = none;
}

-- The caller's struct comes back with the GUID that it then has.
unfoldable pub create : InstallationPoint → M InstallationPoint
create ip = do
  id ← fresh_if_empty ip.guid
  guid ← parse_uuid_or_nil id
  device ← parse_uuid_or_nil ip.device_guid
  location ← parse_uuid_or_nil ip.location_guid
  t ← now
  insert_point (row_of guid device location (some (to_micros t)) t ip)
  pure (record ip { guid = id })

unfoldable pub get_by_guid : String → M InstallationPoint
get_by_guid guid = do
  id ← parse_uuid guid repo_installation_point_not_found
  row ← on_error not_found_if_no_rows (get_point_row id)
  convert installation_point_from_db row

-- `if s != "" { id, _ := uuid.Parse(s); ... }`
abbrev uuid_filter : String → M (Option ℕ)
uuid_filter s = if str_eq s "" then pure none else ask (λ env. some (or_nil (env.uuid_parse s)))

unfoldable pub list : PointListParams → M ListResult
list params = do
  let limit = positive_or 10 params.common.limit
  let page = positive_or 1 params.common.page
  device ← uuid_filter params.device_guid
  location ← uuid_filter params.location_guid
  rows ←
      list_rows (to_int32 limit) (to_int32 ((page - 1) * limit)) params.common.search device
        location
  total ← count_rows
  points ← convert (λ env. map (listed_point env)) rows
  pure (record {
    installation_points = points;
    total = total;
    page = page;
    limit = limit;
    total_page = total_pages total limit;
  })

unfoldable pub update_point_record : InstallationPoint → M (Unit {0})
update_point_record ip = do
  guid ← parse_uuid_or_nil ip.guid
  device ← parse_uuid_or_nil ip.device_guid
  location ← parse_uuid_or_nil ip.location_guid
  t ← now
  on_error not_found_if_no_rows (update_row guid (row_of guid device location none t ip))

unfoldable pub delete_point_record : String → M (Unit {0})
delete_point_record guid = do
  id ← parse_uuid guid repo_installation_point_not_found
  t ← now
  on_error not_found_if_no_rows (delete_row id t)

unfoldable pub get_by_guid_with_relations : String → M WithRelations
get_by_guid_with_relations guid = do
  id ← parse_uuid guid repo_installation_point_not_found
  row ← on_error not_found_if_no_rows (get_joined_row id)
  convert with_relations row

unfoldable pub list_with_relations : PointListParams → M ListResult
list_with_relations params = list params
