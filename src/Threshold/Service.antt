-- ===== src/Threshold/Service.antt =====
-- internal/service/threshold.
use be_aether_node.Base.{ℕ, String, Bool, Option, none, some, List, if◌then◌else◌}
use be_aether_node.Store.{M, pure, now, emit, threshold_updated, override, ◌>>=◌, ◌>>◌}
use be_aether_node.Threshold.{
  Threshold, create, get_by_guid, list_by_device, update_threshold_record, delete_threshold_record,
}

-- Whether there is a connection to NATS.
pub record ThresholdService : Type 0 where
  pub connected : Bool

pub record CreateThresholdRequest : Type 0 where
  pub device_guid : String
  pub parameter_name : String
  pub min_value : Option ℕ
  pub max_value : Option ℕ
  pub severity : String
  pub is_active : Bool

pub record UpdateThresholdRequest : Type 0 where
  pub parameter_name : Option String
  pub min_value : Option ℕ
  pub max_value : Option ℕ
  pub severity : Option String
  pub is_active : Option Bool

abbrev publish : String → String → M (Unit {0})
publish action device_guid = do t ← now; emit (threshold_updated action device_guid t)

unfoldable pub publish_update : ThresholdService → String → String → M (Unit {0})
publish_update s action device_guid = if s.connected then publish action device_guid else pure tt

unfoldable pub create_threshold : ThresholdService → CreateThresholdRequest → M Threshold
create_threshold s req = do
  t ← create (record {
    guid = "";
    device_guid = req.device_guid;
    parameter_name = req.parameter_name;
    min_value = req.min_value;
    max_value = req.max_value;
    severity = req.severity;
    is_active = req.is_active;
    created_at = 0;
    updated_at = 0;
    deleted_at = none;
  })
  publish_update s "create" t.device_guid
  pure t

unfoldable pub get_threshold : String → M Threshold
get_threshold guid = get_by_guid guid

unfoldable pub list_thresholds_by_device : String → M (List Threshold)
list_thresholds_by_device guid = list_by_device guid

-- A bound that the request names replaces the old one.
abbrev pub or_else : Option ℕ → Option ℕ → Option ℕ
or_else none old = old
or_else (some v) old = some v

unfoldable pub update_threshold : ThresholdService → String → UpdateThresholdRequest → M Threshold
update_threshold s guid req = do
  t ← get_by_guid guid
  updated ← update_threshold_record (record t {
    parameter_name = override req.parameter_name t.parameter_name;
    min_value = or_else req.min_value t.min_value;
    max_value = or_else req.max_value t.max_value;
    severity = override req.severity t.severity;
    is_active = override req.is_active t.is_active;
  })
  publish_update s "update" updated.device_guid
  pure updated

unfoldable pub delete_threshold : ThresholdService → String → M (Unit {0})
delete_threshold s guid = do
  t ← get_by_guid guid
  delete_threshold_record guid
  publish_update s "delete" t.device_guid
