-- ===== src/InstallationPoint/Handler.antt =====
-- internal/handler/installation_point_handler.go. A body is `none` where it does not bind.
use be_aether_node.Base.{String, Option, none, some, List}
use be_aether_node.Store.{Err, installation_point_not_found, Env, World}
use be_aether_node.InstallationPoint.{InstallationPoint, WithRelations, PointListParams}
use be_aether_node.InstallationPoint.Service.{
  CreateInstallationPointRequest, UpdateInstallationPointRequest, create_installation_point,
  get_installation_point, get_installation_point_with_relations, list_installation_points,
  update_installation_point, delete_installation_point,
}
use be_aether_node.Http.{
  Reply, success, error, text, answer, internal_error, bad_request, page_reply,
}

-- `if err == installation_point.ErrInstallationPointNotFound { ... }`
abbrev pub not_found_or_internal : {A : Type 0} → Err → Reply A
not_found_or_internal installation_point_not_found =
    error 404 "RESOURCE_NOT_FOUND" (text "Installation point not found")
not_found_or_internal e = internal_error e

unfoldable pub handle_create :
    Option CreateInstallationPointRequest → Env → World → Reply InstallationPoint × World
handle_create none env w = (bad_request, w)
handle_create (some req) env w =
    answer (create_installation_point req)
      (λ p. success 201 p "Installation point created successfully") internal_error env w

unfoldable pub handle_get : String → Env → World → Reply InstallationPoint × World
handle_get guid =
    answer (get_installation_point guid)
      (λ p. success 200 p "Installation point retrieved successfully") not_found_or_internal

unfoldable pub handle_get_with_relations : String → Env → World → Reply WithRelations × World
handle_get_with_relations guid =
    answer (get_installation_point_with_relations guid)
      (λ p. success 200 p "Installation point retrieved successfully") not_found_or_internal

unfoldable pub handle_list :
    Option PointListParams → Env → World → Reply (List InstallationPoint) × World
handle_list none env w = (bad_request, w)
handle_list (some params) env w =
    answer (list_installation_points params)
      (λ r. page_reply r.installation_points r.page r.limit r.total r.total_page) internal_error env
      w

unfoldable pub handle_update :
    String → Option UpdateInstallationPointRequest → Env → World → Reply InstallationPoint × World
handle_update guid none env w = (bad_request, w)
handle_update guid (some req) env w =
    answer (update_installation_point guid req)
      (λ p. success 200 p "Installation point updated successfully") not_found_or_internal env w

unfoldable pub handle_delete : String → Env → World → Reply (Unit {0}) × World
handle_delete guid =
    answer (delete_installation_point guid)
      (λ _. success 200 tt "Installation point deleted successfully") not_found_or_internal
