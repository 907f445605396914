-- ===== src/Device/Handler.antt =====
-- internal/handler/device_handler.go. A body is `none` where it does not bind.
use be_aether_node.Base.{String, Option, none, some, List}
use be_aether_node.Store.{Err, device_not_found, serial_number_exists, Env, World}
use be_aether_node.Store.Sql.{ListParams}
use be_aether_node.Device.{Device}
use be_aether_node.Device.Service.{
  CreateDeviceRequest, UpdateDeviceRequest, DeviceService, create_device, get_device, list_devices,
  update_device, delete_device,
}
use be_aether_node.Http.{
  Reply, success, error, text, answer, internal_error, bad_request, page_reply,
}

-- `if err == device.ErrDeviceSerialNumberExists { ... }`
abbrev pub conflict_or_internal : {A : Type 0} → Err → Reply A
conflict_or_internal serial_number_exists =
    error 409 "DUPLICATE_ENTRY" (text "Serial number already exists")
conflict_or_internal e = internal_error e

-- `if err == device.ErrDeviceNotFound { ... }`
abbrev pub not_found_or_internal : {A : Type 0} → Err → Reply A
not_found_or_internal device_not_found = error 404 "RESOURCE_NOT_FOUND" (text "Device not found")
not_found_or_internal e = internal_error e

-- Both tests, as UpdateDevice makes them.
abbrev pub not_found_or_conflict : {A : Type 0} → Err → Reply A
not_found_or_conflict device_not_found = error 404 "RESOURCE_NOT_FOUND" (text "Device not found")
not_found_or_conflict e = conflict_or_internal e

unfoldable pub handle_create :
    DeviceService → Option CreateDeviceRequest → Env → World → Reply Device × World
handle_create s none env w = (bad_request, w)
handle_create s (some req) env w =
    answer (create_device s req) (λ d. success 201 d "Device created successfully")
      conflict_or_internal env w

unfoldable pub handle_get : String → Env → World → Reply Device × World
handle_get guid =
    answer (get_device guid) (λ d. success 200 d "Device retrieved successfully")
      not_found_or_internal

unfoldable pub handle_list : Option ListParams → Env → World → Reply (List Device) × World
handle_list none env w = (bad_request, w)
handle_list (some params) env w =
    answer (list_devices params) (λ r. page_reply r.devices r.page r.limit r.total r.total_page)
      internal_error env w

unfoldable pub handle_update :
    DeviceService → String → Option UpdateDeviceRequest → Env → World → Reply Device × World
handle_update s guid none env w = (bad_request, w)
handle_update s guid (some req) env w =
    answer (update_device s guid req) (λ d. success 200 d "Device updated successfully")
      not_found_or_conflict env w

unfoldable pub handle_delete : DeviceService → String → Env → World → Reply (Unit {0}) × World
handle_delete s guid =
    answer (delete_device s guid) (λ _. success 200 tt "Device deleted successfully")
      not_found_or_internal
