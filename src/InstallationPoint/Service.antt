-- ===== src/InstallationPoint/Service.antt =====
-- internal/service/installation_point.
use be_aether_node.Base.{String, Option, none}
use be_aether_node.Store.{M, pure, override, ◌>>=◌, ◌>>◌}
use be_aether_node.InstallationPoint.{
  InstallationPoint, WithRelations, PointListParams, ListResult, create, get_by_guid, list,
  update_point_record, delete_point_record, get_by_guid_with_relations,
}

pub record CreateInstallationPointRequest : Type 0 where
  pub name : String
  pub device_guid : String
  pub location_guid : String
  pub notes : String

pub record UpdateInstallationPointRequest : Type 0 where
  pub name : Option String
  pub device_guid : Option String
  pub location_guid : Option String
  pub notes : Option String

abbrev pub new_point : CreateInstallationPointRequest → InstallationPoint
new_point req = record {
  guid = "";
  name = req.name;
  device_guid = req.device_guid;
  location_guid = req.location_guid;
  notes = req.notes;
  created_at = 0;
  updated_at = 0;
  deleted_at = none;
  device_sn = "";
  device_alias = "";
  location_name = "";
}

unfoldable pub create_installation_point : CreateInstallationPointRequest → M InstallationPoint
create_installation_point req = create (new_point req)

unfoldable pub get_installation_point : String → M InstallationPoint
get_installation_point guid = get_by_guid guid

unfoldable pub get_installation_point_with_relations : String → M WithRelations
get_installation_point_with_relations guid = get_by_guid_with_relations guid

unfoldable pub list_installation_points : PointListParams → M ListResult
list_installation_points params = list params

unfoldable pub update_installation_point :
    String → UpdateInstallationPointRequest → M InstallationPoint
update_installation_point guid req = do
  ip ← get_by_guid guid
  let changed = record ip {
    name = override req.name ip.name;
    device_guid = override req.device_guid ip.device_guid;
    location_guid = override req.location_guid ip.location_guid;
    notes = override req.notes ip.notes;
  }
  update_point_record changed
  pure changed

unfoldable pub delete_installation_point : String → M (Unit {0})
delete_installation_point guid = delete_point_record guid
