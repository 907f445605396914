-- ===== src/Threshold/Handler.antt =====
-- internal/handler/threshold_handler.go. A body is `none` where it does not bind.
use be_aether_node.Base.{String, Option, none, some, List}
use be_aether_node.Store.{Err, threshold_not_found, Env, World}
use be_aether_node.Threshold.{Threshold}
use be_aether_node.Threshold.Service.{
  ThresholdService, CreateThresholdRequest, UpdateThresholdRequest, create_threshold, get_threshold,
  list_thresholds_by_device, update_threshold, delete_threshold,
}
use be_aether_node.Http.{Reply, success, error, text, answer, internal_error, bad_request}

-- `if err == threshold.ErrThresholdNotFound { ... }`
abbrev pub not_found_or_internal : {A : Type 0} → Err → Reply A
not_found_or_internal threshold_not_found =
    error 404 "RESOURCE_NOT_FOUND" (text "Threshold not found")
not_found_or_internal e = internal_error e

unfoldable pub handle_create :
    ThresholdService → Option CreateThresholdRequest → Env → World → Reply Threshold × World
handle_create s none env w = (bad_request, w)
handle_create s (some req) env w =
    answer (create_threshold s req) (λ t. success 201 t "Threshold created successfully")
      internal_error env w

unfoldable pub handle_get : String → Env → World → Reply Threshold × World
handle_get guid =
    answer (get_threshold guid) (λ t. success 200 t "Threshold retrieved successfully")
      not_found_or_internal

unfoldable pub handle_list : String → Env → World → Reply (List Threshold) × World
handle_list device_guid =
    answer (list_thresholds_by_device device_guid)
      (λ ts. success 200 ts "Thresholds retrieved successfully") internal_error

unfoldable pub handle_update :
    ThresholdService
    → String
    → Option UpdateThresholdRequest
    → Env
    → World
    → Reply Threshold × World
handle_update s guid none env w = (bad_request, w)
handle_update s guid (some req) env w =
    answer (update_threshold s guid req) (λ t. success 200 t "Threshold updated successfully")
      not_found_or_internal env w

unfoldable pub handle_delete : ThresholdService → String → Env → World → Reply (Unit {0}) × World
handle_delete s guid =
    answer (delete_threshold s guid) (λ _. success 200 tt "Threshold deleted successfully")
      not_found_or_internal
