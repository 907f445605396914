-- ===== src/Location/Handler.antt =====
-- internal/handler/location_handler.go. A body is `none` where it does not bind.
use be_aether_node.Base.{String, Option, none, some, List}
use be_aether_node.Store.{Err, location_not_found, Env, World}
use be_aether_node.Store.Sql.{ListParams}
use be_aether_node.Location.{Location}
use be_aether_node.Location.Service.{
  CreateLocationRequest, UpdateLocationRequest, create_location, get_location, list_locations,
  update_location, delete_location,
}
use be_aether_node.Http.{
  Reply, success, error, text, answer, internal_error, bad_request, page_reply,
}

-- `if err == location.ErrLocationNotFound { ... }`
abbrev pub not_found_or_internal : {A : Type 0} → Err → Reply A
not_found_or_internal location_not_found =
    error 404 "RESOURCE_NOT_FOUND" (text "Location not found")
not_found_or_internal e = internal_error e

unfoldable pub handle_create : Option CreateLocationRequest → Env → World → Reply Location × World
handle_create none env w = (bad_request, w)
handle_create (some req) env w =
    answer (create_location req) (λ l. success 201 l "Location created successfully") internal_error
      env w

unfoldable pub handle_get : String → Env → World → Reply Location × World
handle_get guid =
    answer (get_location guid) (λ l. success 200 l "Location retrieved successfully")
      not_found_or_internal

unfoldable pub handle_list : Option ListParams → Env → World → Reply (List Location) × World
handle_list none env w = (bad_request, w)
handle_list (some params) env w =
    answer (list_locations params) (λ r. page_reply r.locations r.page r.limit r.total r.total_page)
      internal_error env w

unfoldable pub handle_update :
    String → Option UpdateLocationRequest → Env → World → Reply Location × World
handle_update guid none env w = (bad_request, w)
handle_update guid (some req) env w =
    answer (update_location guid req) (λ l. success 200 l "Location updated successfully")
      not_found_or_internal env w

unfoldable pub handle_delete : String → Env → World → Reply (Unit {0}) × World
handle_delete guid =
    answer (delete_location guid) (λ _. success 200 tt "Location deleted successfully")
      not_found_or_internal
