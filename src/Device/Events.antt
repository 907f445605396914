-- ===== src/Device/Events.antt =====
-- When the device service calls its callback.
use be_aether_node.Base.{
  ℕ, String, Bool, Option, none, some, List, [], ◌∷◌, ◌≡◌, refl, inl, inr, Bool-cases, str_eq,
  if◌then◌else◌,
}
use be_aether_node.Store.{DeviceRow, tick, Env, World, Event, devices_changed, pure, ◌>>=◌}
use be_aether_node.Store.Keeps.{Keeps, Keeps-if, Keeps-exec, keeps}
use be_aether_node.Store.Announces.{
  HasEvents, HasEvents-ignores, Told, Announces, Announces->>=, Announces-emit, Announces-emit_last,
  Announces-pure,
}
use be_aether_node.Device.{
  Device, create, insert_device, get_by_guid, get_device_row, update_device_record, update_row,
  delete_device_record, delete_row, exists_by_serial_number, exists_serial,
}
use be_aether_node.Device.Service.{
  DeviceService, CreateDeviceRequest, UpdateDeviceRequest, create_device, update_device,
  delete_device, new_serial, refuse_if, notify,
}

-- One call of the callback, where it is set.
abbrev pub Notified : {A : Type 0} → DeviceService → A → List Event → Type 0
Notified s a new = new ≡ (if s.on_update then devices_changed ∷ [] else [])

module _ (env : Env) (es : List Event) where
  abbrev P : World → Type 0
  P = HasEvents es

  ignores : (w : World) → P w → P (tick w)
  ignores = HasEvents-ignores es

  insert-Keeps : (row : DeviceRow) → Keeps env P (insert_device row)
  unfolding insert_device
  insert-Keeps row = Keeps-exec env P ignores _ _ (λ w h. h)

  create-Keeps : (d : Device) → Keeps env P (create d)
  unfolding create
  create-Keeps d = search (keeps, ignores, insert-Keeps)

  exists-Keeps : (serial : String) → Keeps env P (exists_by_serial_number serial)
  unfolding exists_by_serial_number exists_serial
  exists-Keeps serial = search (keeps, ignores)

  refuse-Keeps : (b : Bool) → Keeps env P (refuse_if b)
  unfolding refuse_if
  refuse-Keeps b = Keeps-if env P b _ _ (search keeps) (search keeps)

  get-Keeps : (guid : String) → Keeps env P (get_by_guid guid)
  unfolding get_by_guid get_device_row
  get-Keeps guid = search (keeps, ignores)

  serial-Keeps : (serial : Option String) (old : String) → Keeps env P (new_serial serial old)
  unfolding new_serial
  serial-Keeps none old = search keeps
  serial-Keeps (some serial) old =
      Keeps-if env P (str_eq serial old) _ _ (search keeps)
        (search (keeps, exists-Keeps, refuse-Keeps))

  update_row-Keeps : (id : ℕ) (row : DeviceRow) → Keeps env P (update_row id row)
  unfolding update_row
  update_row-Keeps id row = Keeps-exec env P ignores _ _ (λ w h. h)

  delete_row-Keeps : (id t : ℕ) → Keeps env P (delete_row id t)
  unfolding delete_row
  delete_row-Keeps id t = Keeps-exec env P ignores _ _ (λ w h. h)

  update_record-Keeps : (d : Device) → Keeps env P (update_device_record d)
  unfolding update_device_record
  update_record-Keeps d = search (keeps, ignores, update_row-Keeps)

  delete_record-Keeps : (guid : String) → Keeps env P (delete_device_record guid)
  unfolding delete_device_record
  delete_record-Keeps guid = search (keeps, ignores, delete_row-Keeps)

  notify-Announces :
      {A : Type 0} (s : DeviceService) (a : A)
      → Announces env es (Notified s) (notify s >>= λ _. pure a)
  unfolding notify ◌>>=◌ pure
  notify-Announces s a = elim (Bool-cases s.on_update) [
    | inl e ↦ rw e (Announces-emit env es _ devices_changed a refl)
    | inr e ↦ rw e (Announces-pure env es _ a refl)
  ]

  notify_last-Announces : (s : DeviceService) → Announces env es (Notified s) (notify s)
  unfolding notify
  notify_last-Announces s = elim (Bool-cases s.on_update) [
    | inl e ↦ rw e (Announces-emit_last env es _ devices_changed refl)
    | inr e ↦ rw e (Announces-pure env es _ tt refl)
  ]

  create-Announces :
      (s : DeviceService) (req : CreateDeviceRequest)
      → Announces env es (Notified s) (create_device s req)
  unfolding create_device
  create-Announces s req =
      search (Announces->>=, notify-Announces, exists-Keeps, refuse-Keeps, create-Keeps)

  update-Announces :
      (s : DeviceService) (guid : String) (req : UpdateDeviceRequest)
      → Announces env es (Notified s) (update_device s guid req)
  unfolding update_device
  update-Announces s guid req =
      search (Announces->>=, notify-Announces, get-Keeps, serial-Keeps, update_record-Keeps)

  delete-Announces :
      (s : DeviceService) (guid : String) → Announces env es (Notified s) (delete_device s guid)
  unfolding delete_device
  delete-Announces s guid = search (Announces->>=, notify_last-Announces, delete_record-Keeps)

-- CreateDevice, UpdateDevice and DeleteDevice call the callback once if they return and it is set,
-- and not at all if they fail or it is not set.
pub device_changes_notify :
    (s : DeviceService) (create_req : CreateDeviceRequest) (guid : String)
    (update_req : UpdateDeviceRequest) (env : Env) (w : World)
    → Told (Notified s) w.events (create_device s create_req env w)
      × Told (Notified s) w.events (update_device s guid update_req env w)
      × Told (Notified s) w.events (delete_device s guid env w)
device_changes_notify s create_req guid update_req env w = (
  (create-Announces env w.events s create_req).announced w refl,
  (update-Announces env w.events s guid update_req).announced w refl,
  (delete-Announces env w.events s guid).announced w refl,
)
