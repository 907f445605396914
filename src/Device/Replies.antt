-- ===== src/Device/Replies.antt =====
-- The status codes of internal/handler/device_handler.go.
use be_aether_node.Base.{String, Bool, Option, none, some, refl, ◌≢◌, arith, str_eq}
use be_aether_node.Store.{Env, World, Err, no_rows, device_not_found, serial_number_exists}
use be_aether_node.Store.Raises.{Raises, Raises-if, raises}
use be_aether_node.Http.{status}
use be_aether_node.Http.Answers.{NotDomain, answer-status, ok≢not_found}
use be_aether_node.Device.{
  Device, get_by_guid, get_device_row, update_device_record, update_row, delete_device_record,
  delete_row, not_found_if_no_rows, exists_by_serial_number, exists_serial,
}
use be_aether_node.Device.Service.{
  DeviceService, UpdateDeviceRequest, get_device, update_device, delete_device, new_serial,
  refuse_if, notify,
}
use be_aether_node.Device.Handler.{
  handle_get, handle_update, handle_delete, not_found_or_internal, not_found_or_conflict,
}

not_found-NotDomain : (x : Err) → NotDomain x → NotDomain (not_found_if_no_rows x)
not_found-NotDomain no_rows n = refl
not_found-NotDomain x n = n

get-NotDomain : (guid : String) → Raises NotDomain (get_by_guid guid)
unfolding get_by_guid get_device_row
get-NotDomain guid = search (raises, not_found-NotDomain)

notify-NotDomain : (s : DeviceService) → Raises NotDomain (notify s)
unfolding notify
notify-NotDomain s = Raises-if NotDomain s.on_update _ _ (search raises) (search raises)

refuse-NotDomain : (b : Bool) → Raises NotDomain (refuse_if b)
unfolding refuse_if
refuse-NotDomain b = Raises-if NotDomain b _ _ (search raises) (search raises)

delete-NotDomain : (s : DeviceService) (guid : String) → Raises NotDomain (delete_device s guid)
unfolding delete_device delete_device_record delete_row
delete-NotDomain s guid = search (raises, not_found-NotDomain, notify-NotDomain)

serial-NotDomain :
    (serial : Option String) (old : String) → Raises NotDomain (new_serial serial old)
unfolding new_serial exists_by_serial_number exists_serial
serial-NotDomain none old = search raises
serial-NotDomain (some serial) old =
    Raises-if NotDomain (str_eq serial old) _ _ (search raises) (search (raises, refuse-NotDomain))

record-NotDomain : (d : Device) → Raises NotDomain (update_device_record d)
unfolding update_device_record update_row
record-NotDomain d = search (raises, not_found-NotDomain)

update-NotDomain :
    (s : DeviceService) (guid : String) (req : UpdateDeviceRequest)
    → Raises NotDomain (update_device s guid req)
unfolding update_device
update-NotDomain s guid req =
    search (raises, get-NotDomain, serial-NotDomain, record-NotDomain, notify-NotDomain)

not_found-status :
    (A : Type 0) (e : Err) → NotDomain e → status (not_found_or_internal {A = A} e) ≢ 404
not_found-status A device_not_found n h = cc n
not_found-status A _ n h = omega (arith, h)

conflict-status :
    (A : Type 0) (e : Err) → NotDomain e → status (not_found_or_conflict {A = A} e) ≢ 404
conflict-status A device_not_found n h = cc n
conflict-status A serial_number_exists n h = omega (arith, h)
conflict-status A _ n h = omega (arith, h)

pub handle_get-status :
    (guid : String) (env : Env) (w : World) → status (handle_get guid env w).0 ≢ 404
unfolding handle_get get_device
handle_get-status guid env w =
    answer-status 404 (get_by_guid guid) _ _ env w (λ d. ok≢not_found) (not_found-status _)
      (get-NotDomain guid)

pub handle_update-status :
    (s : DeviceService) (guid : String) (req : Option UpdateDeviceRequest) (env : Env) (w : World)
    → status (handle_update s guid req env w).0 ≢ 404
unfolding handle_update
handle_update-status s guid none env w = λ h. omega (arith, h)
handle_update-status s guid (some req) env w =
    answer-status 404 (update_device s guid req) _ _ env w (λ d. ok≢not_found) (conflict-status _)
      (update-NotDomain s guid req)

pub handle_delete-status :
    (s : DeviceService) (guid : String) (env : Env) (w : World)
    → status (handle_delete s guid env w).0 ≢ 404
unfolding handle_delete
handle_delete-status s guid env w =
    answer-status 404 (delete_device s guid) _ _ env w (λ d. ok≢not_found) (not_found-status _)
      (delete-NotDomain s guid)
