-- ===== src/Location/Replies.antt =====
-- The status codes of internal/handler/location_handler.go.
use be_aether_node.Base.{String, Option, none, some, refl, ◌≢◌, arith}
use be_aether_node.Store.{Env, World, Err, no_rows, location_not_found}
use be_aether_node.Store.Raises.{Raises, raises}
use be_aether_node.Http.{status}
use be_aether_node.Http.Answers.{NotDomain, answer-status, ok≢not_found}
use be_aether_node.Location.{
  Location, get_by_guid, get_location_row, update_location_record, update_row,
  delete_location_record, delete_row, not_found_if_no_rows,
}
use be_aether_node.Location.Service.{
  UpdateLocationRequest, get_location, update_location, delete_location,
}
use be_aether_node.Location.Handler.{
  handle_get, handle_update, handle_delete, not_found_or_internal,
}

not_found-NotDomain : (x : Err) → NotDomain x → NotDomain (not_found_if_no_rows x)
not_found-NotDomain no_rows n = refl
not_found-NotDomain x n = n

get-NotDomain : (guid : String) → Raises NotDomain (get_by_guid guid)
unfolding get_by_guid get_location_row
get-NotDomain guid = search (raises, not_found-NotDomain)

delete-NotDomain : (guid : String) → Raises NotDomain (delete_location guid)
unfolding delete_location delete_location_record delete_row
delete-NotDomain guid = search (raises, not_found-NotDomain)

record-NotDomain : (l : Location) → Raises NotDomain (update_location_record l)
unfolding update_location_record update_row
record-NotDomain l = search (raises, not_found-NotDomain)

update-NotDomain :
    (guid : String) (req : UpdateLocationRequest) → Raises NotDomain (update_location guid req)
unfolding update_location
update-NotDomain guid req = search (raises, get-NotDomain, record-NotDomain)

not_found-status :
    (A : Type 0) (e : Err) → NotDomain e → status (not_found_or_internal {A = A} e) ≢ 404
not_found-status A location_not_found n h = cc n
not_found-status A _ n h = omega (arith, h)

pub handle_get-status :
    (guid : String) (env : Env) (w : World) → status (handle_get guid env w).0 ≢ 404
unfolding handle_get get_location
handle_get-status guid env w =
    answer-status 404 (get_by_guid guid) _ _ env w (λ _. ok≢not_found) (not_found-status _)
      (get-NotDomain guid)

pub handle_update-status :
    (guid : String) (req : Option UpdateLocationRequest) (env : Env) (w : World)
    → status (handle_update guid req env w).0 ≢ 404
unfolding handle_update
handle_update-status guid none env w = λ h. omega (arith, h)
handle_update-status guid (some req) env w =
    answer-status 404 (update_location guid req) _ _ env w (λ _. ok≢not_found) (not_found-status _)
      (update-NotDomain guid req)

pub handle_delete-status :
    (guid : String) (env : Env) (w : World) → status (handle_delete guid env w).0 ≢ 404
unfolding handle_delete
handle_delete-status guid env w =
    answer-status 404 (delete_location guid) _ _ env w (λ _. ok≢not_found) (not_found-status _)
      (delete-NotDomain guid)
