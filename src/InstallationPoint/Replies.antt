-- ===== src/InstallationPoint/Replies.antt =====
-- The status codes of internal/handler/installation_point_handler.go.
use be_aether_node.Base.{String, Option, none, some, refl, ◌≢◌, arith}
use be_aether_node.Store.{Env, World, Err, no_rows, installation_point_not_found}
use be_aether_node.Store.Raises.{Raises, raises}
use be_aether_node.Http.{status}
use be_aether_node.Http.Answers.{NotDomain, answer-status, ok≢not_found}
use be_aether_node.InstallationPoint.{
  InstallationPoint, get_by_guid, get_point_row, update_point_record, update_row,
  delete_point_record, get_by_guid_with_relations, get_joined_row, delete_row, not_found_if_no_rows,
}
use be_aether_node.InstallationPoint.Service.{
  UpdateInstallationPointRequest, get_installation_point, get_installation_point_with_relations,
  update_installation_point, delete_installation_point,
}
use be_aether_node.InstallationPoint.Handler.{
  handle_get, handle_get_with_relations, handle_update, handle_delete, not_found_or_internal,
}

not_found-NotDomain : (x : Err) → NotDomain x → NotDomain (not_found_if_no_rows x)
not_found-NotDomain no_rows n = refl
not_found-NotDomain x n = n

get-NotDomain : (guid : String) → Raises NotDomain (get_by_guid guid)
unfolding get_by_guid get_point_row
get-NotDomain guid = search (raises, not_found-NotDomain)

joined-NotDomain : (guid : String) → Raises NotDomain (get_by_guid_with_relations guid)
unfolding get_by_guid_with_relations get_joined_row
joined-NotDomain guid = search (raises, not_found-NotDomain)

delete-NotDomain : (guid : String) → Raises NotDomain (delete_installation_point guid)
unfolding delete_installation_point delete_point_record delete_row
delete-NotDomain guid = search (raises, not_found-NotDomain)

record-NotDomain : (p : InstallationPoint) → Raises NotDomain (update_point_record p)
unfolding update_point_record update_row
record-NotDomain p = search (raises, not_found-NotDomain) depth 8

update-NotDomain :
    (guid : String) (req : UpdateInstallationPointRequest)
    → Raises NotDomain (update_installation_point guid req)
unfolding update_installation_point
update-NotDomain guid req = search (raises, get-NotDomain, record-NotDomain)

not_found-status :
    (A : Type 0) (e : Err) → NotDomain e → status (not_found_or_internal {A = A} e) ≢ 404
not_found-status A installation_point_not_found n h = cc n
not_found-status A _ n h = omega (arith, h)

pub handle_get-status :
    (guid : String) (env : Env) (w : World) → status (handle_get guid env w).0 ≢ 404
unfolding handle_get get_installation_point
handle_get-status guid env w =
    answer-status 404 (get_by_guid guid) _ _ env w (λ _. ok≢not_found) (not_found-status _)
      (get-NotDomain guid)

pub handle_update-status :
    (guid : String) (req : Option UpdateInstallationPointRequest) (env : Env) (w : World)
    → status (handle_update guid req env w).0 ≢ 404
unfolding handle_update
handle_update-status guid none env w = λ h. omega (arith, h)
handle_update-status guid (some req) env w =
    answer-status 404 (update_installation_point guid req) _ _ env w (λ _. ok≢not_found)
      (not_found-status _) (update-NotDomain guid req)

pub handle_delete-status :
    (guid : String) (env : Env) (w : World) → status (handle_delete guid env w).0 ≢ 404
unfolding handle_delete
handle_delete-status guid env w =
    answer-status 404 (delete_installation_point guid) _ _ env w (λ _. ok≢not_found)
      (not_found-status _) (delete-NotDomain guid)

pub handle_get_with_relations-status :
    (guid : String) (env : Env) (w : World) → status (handle_get_with_relations guid env w).0 ≢ 404
unfolding handle_get_with_relations get_installation_point_with_relations
handle_get_with_relations-status guid env w =
    answer-status 404 (get_by_guid_with_relations guid) _ _ env w (λ _. ok≢not_found)
      (not_found-status _) (joined-NotDomain guid)
