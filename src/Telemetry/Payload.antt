-- ===== src/Telemetry/Payload.antt =====
-- What the payload of all devices has of each device, in internal/service/telemetry.
use be_aether_node.Base.{
  String, Bool, Option, none, some, List, [], ◌∷◌, str_eq, Dict, lookup, if◌then◌else◌,
}
use be_aether_node.Device.{Device}
use be_aether_node.Telemetry.Dashboard.{
  HealthData, DeviceEntry, type_name, health_or_offline, fields_or_none,
}

-- The last record of the serial number.
abbrev pub latest : {F : Type 0} → String → List (HealthData F) → Option (HealthData F)
latest sn [] = none
latest sn (h ∷ hs) = elim (latest sn hs) [
  | some later ↦ some later
  | none ↦ if str_eq h.device_sn sn then some h else none
]

abbrev or_old : {A : Type 0} → Option A → Option A → Option A
or_old none old = old
or_old (some a) old = some a

abbrev pub has_type : String → Device → Bool
has_type type dev = str_eq (type_name dev) type

module _ {F D : Type 0} (zero : F) (no_fields : D) where
  -- The device with the last health record of its serial number, named as its alias, or offline.
  abbrev pub shown : List (HealthData F) → Dict D → Device → DeviceEntry F D
  shown health telemetry dev = record {
    health = health_or_offline zero dev (latest dev.serial_number health);
    telemetry = fields_or_none no_fields (lookup dev.serial_number telemetry);
  }
