-- ===== src/Location/Service.antt =====
-- internal/service/location.
use be_aether_node.Base.{String, Option, none}
use be_aether_node.Store.{M, pure, override, ◌>>=◌, ◌>>◌}
use be_aether_node.Store.Sql.{ListParams}
use be_aether_node.Location.{
  Location, ListResult, create, get_by_guid, list, update_location_record, delete_location_record,
}

pub record CreateLocationRequest : Type 0 where
  pub name : String
  pub notes : String

pub record UpdateLocationRequest : Type 0 where
  pub name : Option String
  pub notes : Option String

unfoldable pub create_location : CreateLocationRequest → M Location
create_location req = create (record {
  guid = "";
  name = req.name;
  notes = req.notes;
  device_count = 0;
  created_at = 0;
  updated_at = 0;
  deleted_at = none;
})

unfoldable pub get_location : String → M Location
get_location guid = get_by_guid guid

unfoldable pub list_locations : ListParams → M ListResult
list_locations params = list params

unfoldable pub update_location : String → UpdateLocationRequest → M Location
update_location guid req = do
  location ← get_by_guid guid
  let changed = record location {
    name = override req.name location.name;
    notes = override req.notes location.notes;
  }
  update_location_record changed
  pure changed

unfoldable pub delete_location : String → M (Unit {0})
delete_location guid = delete_location_record guid
