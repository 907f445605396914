-- ===== src/Device/Service.antt =====
-- internal/service/device.
use be_aether_node.Base.{String, Bool, true, Option, none, some, if◌then◌else◌, str_eq}
use be_aether_node.Store.{
  serial_number_exists, devices_changed, M, pure, raise, emit, override, ◌>>=◌, ◌>>◌,
}
use be_aether_node.Store.Sql.{ListParams}
use be_aether_node.Device.{
  Device, ListResult, create, get_by_guid, get_by_serial_number, list, update_device_record,
  delete_device_record, exists_by_serial_number,
}

pub record CreateDeviceRequest : Type 0 where
  pub type : String
  pub serial_number : String
  pub alias : String
  pub notes : String

pub record UpdateDeviceRequest : Type 0 where
  pub type : Option String
  pub serial_number : Option String
  pub alias : Option String
  pub notes : Option String
  pub is_active : Option Bool

-- Whether the callback onUpdate is set.
pub record DeviceService : Type 0 where
  pub on_update : Bool

-- `if s.onUpdate != nil { s.onUpdate() }`
unfoldable pub notify : DeviceService → M (Unit {0})
notify s = if s.on_update then emit devices_changed else pure tt

-- `if exists { return ErrDeviceSerialNumberExists }`
unfoldable pub refuse_if : Bool → M (Unit {0})
refuse_if b = if b then raise serial_number_exists else pure tt

abbrev pub new_device : CreateDeviceRequest → Device
new_device req = record {
  guid = "";
  type = req.type;
  serial_number = req.serial_number;
  alias = req.alias;
  notes = req.notes;
  is_active = true;
  created_at = 0;
  updated_at = 0;
  deleted_at = none;
}

unfoldable pub create_device : DeviceService → CreateDeviceRequest → M Device
create_device s req = do
  exists ← exists_by_serial_number req.serial_number
  refuse_if exists
  device ← create (new_device req)
  notify s
  pure device

unfoldable pub get_device : String → M Device
get_device guid = get_by_guid guid

unfoldable pub get_device_by_serial_number : String → M Device
get_device_by_serial_number serial = get_by_serial_number serial

unfoldable pub list_devices : ListParams → M ListResult
list_devices params = list params

abbrev check_serial : String → M String
check_serial serial = do exists ← exists_by_serial_number serial; refuse_if exists; pure serial

-- The serial number of an update, the old one where it names none or the same.
unfoldable pub new_serial : Option String → String → M String
new_serial none old = pure old
new_serial (some serial) old = if str_eq serial old then pure old else check_serial serial

unfoldable pub update_device : DeviceService → String → UpdateDeviceRequest → M Device
update_device s guid req = do
  device ← get_by_guid guid
  serial_number ← new_serial req.serial_number device.serial_number
  let changed = record device {
    type = override req.type device.type;
    serial_number = serial_number;
    alias = override req.alias device.alias;
    notes = override req.notes device.notes;
    is_active = override req.is_active device.is_active;
  }
  update_device_record changed
  notify s
  pure changed

unfoldable pub delete_device : DeviceService → String → M (Unit {0})
delete_device s guid = do delete_device_record guid; notify s
