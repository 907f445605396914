-- ===== src/Telemetry/Dashboard.antt =====
-- internal/service/telemetry: the payload of all devices and the entry of one, which put together
-- what InfluxDB and PostgreSQL know of a device, and the cache of the devices' names.
use be_aether_node.Base.{
  ℕ, ◌-◌, ◌*◌, String, Bool, true, false, Option, none, some, List, [], ◌∷◌, ◌++◌, length, str_eq,
  ltb, minute, Dict, lookup, insert, if◌then◌else◌,
}
use be_aether_node.Base.Int.{pos}
use be_aether_node.Store.{Env, World, M, Result, ok, err, pure, now, tick, ◌>>=◌}
use be_aether_node.Store.Sql.{ListParams}
use be_aether_node.Telemetry.{Time, zero_time}
use be_aether_node.Device.{Device, list, get_by_serial_number}

-- A float64 is an `F`.
pub record HealthData (F : Type 0) : Type 0 where
  pub device_sn : String
  pub device_name : String
  pub gateway_sn : String
  pub project : String
  pub type : String
  pub model : String
  pub status : String
  pub uptime : F
  pub temp : F
  pub hum : F
  pub rssi : F
  pub reset_reason : String
  pub last_seen : Time

pub record DeviceEntry (F D : Type 0) : Type 0 where
  pub health : HealthData F
  pub telemetry : D

-- What GetLatestHealthSSE and GetLatestTelemetrySSE answer, `none` where they fail.
pub record Source (F D : Type 0) : Type 0 where
  pub health : Option (List (HealthData F))
  pub telemetry : Option (Dict D)

abbrev pub offline : {F : Type 0} → F → Device → String → HealthData F
offline zero dev type_name = record {
  device_sn = dev.serial_number;
  device_name = dev.alias;
  gateway_sn = "";
  project = "";
  type = type_name;
  model = "";
  status = "offline";
  uptime = zero;
  temp = zero;
  hum = zero;
  rssi = zero;
  reset_reason = "";
  last_seen = zero_time;
}

-- `if typeName == "" { typeName = "unknown" }`
unfoldable pub type_name : Device → String
type_name dev = if str_eq dev.type "" then "unknown" else dev.type

abbrev pub or_empty {ℓ} : {A : Type ℓ} → Option (List A) → List A
or_empty none = []
or_empty (some xs) = xs

-- `for _, h := range healthList { healthMap[h.DeviceSN] = h }`
unfoldable pub health_map :
    {F : Type 0} → List (HealthData F) → Dict (HealthData F) → Dict (HealthData F)
health_map [] found = found
health_map (h ∷ hs) found = health_map hs (insert h.device_sn h found)

abbrev pub health_or_offline : {F : Type 0} → F → Device → Option (HealthData F) → HealthData F
health_or_offline zero dev none = offline zero dev (type_name dev)
health_or_offline zero dev (some h) = record h { device_name = dev.alias }

abbrev pub all_params : ListParams
all_params = record { limit = pos 1000; page = pos 0; order = ""; sort = ""; search = "" }

abbrev pub fields_or_none : {D : Type 0} → D → Option D → D
fields_or_none no_fields none = no_fields
fields_or_none no_fields (some d) = d

-- A map of telemetry fields is `D`, `no_fields` the empty one, and `zero` the number 0.
module _ {F D : Type 0} (zero : F) (no_fields : D) where
  unfoldable pub entry_of : Dict (HealthData F) → Dict D → Device → DeviceEntry F D
  entry_of health telemetry dev = record {
    health = health_or_offline zero dev (lookup dev.serial_number health);
    telemetry = fields_or_none no_fields (lookup dev.serial_number telemetry);
  }

  -- The loop over the devices.
  unfoldable pub add_devices :
      Dict (HealthData F)
      → Dict D
      → List Device
      → Dict (List (DeviceEntry F D))
      → Dict (List (DeviceEntry F D))
  add_devices health telemetry [] payload = payload
  add_devices health telemetry (dev ∷ devices) payload = add_devices health telemetry devices (
      insert (type_name dev)
        (or_empty (lookup (type_name dev) payload) ++ (entry_of health telemetry dev ∷ [])) payload)

  abbrev merge_all : List (HealthData F) → Dict D → M (Option (Dict (List (DeviceEntry F D))))
  merge_all health telemetry = do
    devices ← list all_params
    pure (some (add_devices (health_map health []) telemetry devices.devices []))

  abbrev if_answered :
      Option (List (HealthData F)) → Option (Dict D) → M (Option (Dict (List (DeviceEntry F D))))
  if_answered none telemetry = pure none
  if_answered (some health) none = pure none
  if_answered (some health) (some telemetry) = merge_all health telemetry

  -- `ok none` is an error of InfluxDB.
  unfoldable pub stream_all_devices_with_health :
      Source F D → M (Option (Dict (List (DeviceEntry F D))))
  stream_all_devices_with_health source = if_answered source.health source.telemetry

  -- What StreamDeviceWithHealth returns: an error of InfluxDB, nothing, or the entry.
  pub data OneDevice : Type 0 where
    influx_error : OneDevice
    no_device : OneDevice
    one_device : DeviceEntry F D → OneDevice

  abbrev name_or_old : HealthData F → Result Device → HealthData F
  name_or_old h (ok dev) = record h { device_name = dev.alias }
  name_or_old h (err e) = h

  abbrev named_entry : String → HealthData F → Dict D → Env → World → OneDevice × World
  named_entry sn h telemetry env w =
      let (r, w') = get_by_serial_number sn env w in
      (
        one_device (record {
          health = name_or_old h r;
          telemetry = fields_or_none no_fields (lookup sn telemetry);
        }),
        w',
      )

  abbrev first_health :
      String → List (HealthData F) → Option (Dict D) → Env → World → OneDevice × World
  first_health sn [] telemetry env w = (no_device, w)
  first_health sn (h ∷ hs) none env w = (influx_error, w)
  first_health sn (h ∷ hs) (some telemetry) env w = named_entry sn h telemetry env w

  unfoldable pub stream_device_with_health : String → Source F D → Env → World → OneDevice × World
  stream_device_with_health sn source env w = elim source.health [
    | none ↦ (influx_error, w)
    | some hs ↦ first_health sn hs source.telemetry env w
  ]

-- The cache of names, empty and of the zero time at the start.
pub record NameCache : Type 0 where
  pub names : Dict String
  pub last_update : ℕ

unfoldable pub invalidate_device_cache : NameCache → NameCache
invalidate_device_cache cache = record { names = []; last_update = 0 }

-- `newMap[d.SerialNumber] = d.Alias`
unfoldable pub name_map : List Device → Dict String → Dict String
name_map [] names = names
name_map (dev ∷ devices) names = name_map devices (insert dev.serial_number dev.alias names)

-- `len(s.nameCache) > 0 && time.Since(s.lastCacheUpdate) < 5*time.Minute`
unfoldable pub is_current : NameCache → M Bool
is_current cache =
    if ltb 0 (length cache.names)
    then (do t ← now; pure (ltb (t - cache.last_update) (5 * minute)))
    else pure false

unfoldable pub refresh : NameCache → Env → World → NameCache × World
refresh cache env w =
    let (r, w') = list all_params env w in
    elim r [
      | ok devices ↦ (
        record { names = name_map devices.devices []; last_update = env.clock w'.steps },
        tick w',
      )
      | err e ↦ (cache, w')
    ]

-- The cache is looked at twice, without and with the lock; the names are those of the cache then.
unfoldable pub get_name_map : NameCache → Env → World → NameCache × World
get_name_map cache env w =
    let (first, w1) = is_current cache env w in
    elim first [
      | err e ↦ (cache, w1)
      | ok true ↦ (cache, w1)
      | ok false ↦
          let (second, w2) = is_current cache env w1 in
          elim second [
            | err e ↦ (cache, w2)
            | ok true ↦ (cache, w2)
            | ok false ↦ refresh cache env w2
          ]
    ]
