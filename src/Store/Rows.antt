-- ===== src/Store/Rows.antt =====
-- The rows of the tables, internal/db/models.go, with `none` for a pgtype value that is not valid;
-- and what the services tell others.
use be_aether_node.Base.{ℕ, String, Bool, Option}

-- internal/db/models.go: Apikey
pub record ApikeyRow : Type 0 where
  pub guid : Option ℕ
  pub key_hash : String
  pub notes : Option String
  pub expire_date : Option ℕ
  pub is_active : Bool
  pub created_at : Option ℕ
  pub updated_at : Option ℕ
  pub deleted_at : Option ℕ

-- internal/db/models.go: User
pub record UserRow : Type 0 where
  pub guid : Option ℕ
  pub email : String
  pub password_hash : String
  pub first_name : String
  pub last_name : String
  pub role_guid : Option ℕ
  pub is_active : Bool
  pub created_at : Option ℕ
  pub updated_at : Option ℕ
  pub deleted_at : Option ℕ

-- internal/db/models.go: RefreshToken
pub record RefreshTokenRow : Type 0 where
  pub guid : Option ℕ
  pub user_guid : Option ℕ
  pub token_hash : String
  pub expires_at : Option ℕ
  pub created_at : Option ℕ

-- internal/db/models.go: Device
pub record DeviceRow : Type 0 where
  pub guid : Option ℕ
  pub type : String
  pub serial_number : String
  pub alias : Option String
  pub notes : Option String
  pub is_active : Bool
  pub created_at : Option ℕ
  pub updated_at : Option ℕ
  pub deleted_at : Option ℕ

-- internal/db/models.go: Location
pub record LocationRow : Type 0 where
  pub guid : Option ℕ
  pub name : String
  pub notes : Option String
  pub created_at : Option ℕ
  pub updated_at : Option ℕ
  pub deleted_at : Option ℕ

-- internal/db/models.go: InstallationPoint
pub record InstallationPointRow : Type 0 where
  pub guid : Option ℕ
  pub name : String
  pub device_guid : Option ℕ
  pub location_guid : Option ℕ
  pub notes : Option String
  pub created_at : Option ℕ
  pub updated_at : Option ℕ
  pub deleted_at : Option ℕ

-- internal/db/models.go: Threshold. A float64 is its bits; the code only copies it.
pub record ThresholdRow : Type 0 where
  pub guid : Option ℕ
  pub device_guid : Option ℕ
  pub parameter_name : String
  pub min_value : Option ℕ
  pub max_value : Option ℕ
  pub severity : String
  pub is_active : Bool
  pub created_at : Option ℕ
  pub updated_at : Option ℕ
  pub deleted_at : Option ℕ

-- internal/db/models.go: Alarm
pub record AlarmRow : Type 0 where
  pub guid : Option ℕ
  pub device_guid : Option ℕ
  pub threshold_guid : Option ℕ
  pub parameter_name : String
  pub triggered_value : ℕ
  pub status : String
  pub severity : String
  pub triggered_at : Option ℕ
  pub resolved_at : Option ℕ
  pub acknowledged_at : Option ℕ
  pub acknowledged_by : Option ℕ
  pub created_at : Option ℕ
  pub updated_at : Option ℕ
  pub deleted_at : Option ℕ

-- What the services tell others: the call of onUpdate of the device service, and the message on the
-- subject aether.threshold.updated with its action, device and time.
pub data Event : Type 0 where
  devices_changed : Event
  threshold_updated : String → String → ℕ → Event
