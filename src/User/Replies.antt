-- ===== src/User/Replies.antt =====
-- The status codes of internal/handler/user_handler.go.
use be_aether_node.Base.{
  String, Bool, true, false, Option, none, some, ◌≡◌, refl, ◌≢◌, arith, inl, inr,
}
use be_aether_node.Store.{
  Env, World, M, Err, no_rows, user_not_found, email_already_exists, parse_optional_uuid,
}
use be_aether_node.Store.Keeps.{Result-cases}
use be_aether_node.Store.Raises.{
  Raises, Raises->>=, Raises-pure, Raises-raise, Raises-ask, Raises-now, Raises-or_raise,
  Raises-on_error, Raises-query, Raises-exec, Raises-query_row, Raises-hash_password,
}
use be_aether_node.User.{
  User, get_by_guid, get_user_row, exists_by_email, exists_email, update_user_record, update_row,
  delete_user_record, delete_row, not_found_if_no_rows,
}
use be_aether_node.User.Service.{
  UpdateUserRequest, get_user, update_user, delete_user, refuse_if, new_email, new_password,
}
use be_aether_node.User.Handler.{
  UpdateBody, update_req, not_found_or_internal, not_found_or_conflict, handle_get, handle_update,
  handle_delete,
}
use be_aether_node.Http.{Reply, status, answer}

-- Not the error of a missing user that the handlers know.
abbrev Unknown : Err → Type 0
Unknown x = x ≢ user_not_found

not_found-Unknown : (x : Err) → Unknown x → Unknown (not_found_if_no_rows x)
not_found-Unknown no_rows n = λ h. cc h
not_found-Unknown x n = n

get_by_guid-Unknown : (guid : String) → Raises Unknown (get_by_guid guid)
unfolding get_by_guid get_user_row
get_by_guid-Unknown guid = Raises->>= _ (Raises-or_raise _ _ _ (λ h. cc h)) (λ id.
    Raises->>= _
      (Raises-on_error _ _ not_found-Unknown (Raises-query_row _ (λ h. cc h) _ (λ h. cc h)))
      (λ row. Raises-ask _ _))

pub role-Raises : (Q : Err → Type 0) (role : Option String) → Raises Q (parse_optional_uuid role)
role-Raises Q none = Raises-pure Q _
role-Raises Q (some s) = Raises-ask Q _

delete-Unknown : (guid : String) → Raises Unknown (delete_user_record guid)
unfolding delete_user_record delete_row
delete-Unknown guid = Raises->>= _ (Raises-or_raise _ _ _ (λ h. cc h)) (λ id.
    Raises->>= _ (Raises-now _)
      (λ t. Raises-on_error _ _ not_found-Unknown (Raises-exec _ (λ h. cc h) _ _)))

update-Unknown : (user : User) → Raises Unknown (update_user_record user)
unfolding update_user_record update_row
update-Unknown user = Raises->>= _ (Raises-ask _ _) (λ guid. Raises->>= _ (Raises-now _) (λ t.
    Raises->>= _ (role-Raises _ user.role_guid)
      (λ role. Raises-on_error _ _ not_found-Unknown (Raises-exec _ (λ h. cc h) _ _))))

refuse-Unknown : (b : Bool) → Raises Unknown (refuse_if b)
unfolding refuse_if
refuse-Unknown true = Raises-raise _ _ (λ h. cc h)
refuse-Unknown false = Raises-pure _ _

new_email-Unknown : (email : Option String) (old : String) → Raises Unknown (new_email email old)
unfolding new_email exists_by_email exists_email
new_email-Unknown none old = Raises-pure _ _
new_email-Unknown (some email) old =
    Raises->>= _ (Raises-query _ (λ h. cc h) _)
      (λ exists. Raises->>= _ (refuse-Unknown _) (λ _. Raises-pure _ _))

new_password-Unknown :
    (password : Option String) (old : String) → Raises Unknown (new_password password old)
unfolding new_password
new_password-Unknown none old = Raises-pure _ _
new_password-Unknown (some password) old = Raises-hash_password _ _ (λ h. cc h)

update_user-Unknown :
    (guid : String) (req : UpdateUserRequest) → Raises Unknown (update_user guid req)
unfolding update_user
update_user-Unknown guid req = Raises->>= _ (get_by_guid-Unknown guid) (λ user.
    Raises->>= _ (new_email-Unknown req.email user.email) (λ email.
      Raises->>= _ (new_password-Unknown req.password user.password_hash)
        (λ hash. Raises->>= _ (update-Unknown _) (λ _. Raises-pure _ _))))

not_found_or_internal-status :
    (A : Type 0) (e : Err) → Unknown e → status (not_found_or_internal {A = A} e) ≢ 404
not_found_or_internal-status A user_not_found n h = n refl
not_found_or_internal-status A _ n h = omega (arith, h)

not_found_or_conflict-status :
    (A : Type 0) (e : Err) → Unknown e → status (not_found_or_conflict {A = A} e) ≢ 404
not_found_or_conflict-status A user_not_found n h = n refl
not_found_or_conflict-status A email_already_exists n h = omega (arith, h)
not_found_or_conflict-status A _ n h = omega (arith, h)

answer-status :
    {A B : Type 0} (m : M A) (on_ok : A → Reply B) (on_err : Err → Reply B) (env : Env) (w : World)
    → ((a : A) → status (on_ok a) ≡ 200)
    → ((e : Err) → Unknown e → status (on_err e) ≢ 404)
    → Raises Unknown m
    → status (answer m on_ok on_err env w).0 ≢ 404
answer-status m on_ok on_err env w good bad hm h = elim (Result-cases (m env w).0) [
  | inl (a, e) ↦ ground (arith, good a, e, h)
  | inr (x, e) ↦ bad x (hm.raised env w x e) (rw e at h)
]

handle_update-status :
    (guid : String) (body : Option UpdateBody) (env : Env) (w : World)
    → status (handle_update guid body env w).0 ≢ 404
unfolding handle_update
handle_update-status guid none env w = λ h. omega (arith, h)
handle_update-status guid (some body) env w =
    answer-status (update_user guid (update_req body)) _ _ env w (λ u. refl)
      (not_found_or_conflict-status _) (update_user-Unknown guid _)

-- The handlers of GET, PATCH and DELETE /user/:guid never answer 404.
pub user_handlers_never_404 :
    (guid : String) (body : Option UpdateBody) (env : Env) (w : World)
    → (status (handle_get guid env w).0 ≢ 404)
      × (status (handle_update guid body env w).0 ≢ 404)
      × (status (handle_delete guid env w).0 ≢ 404)
unfolding handle_get handle_delete get_user delete_user
user_handlers_never_404 guid body env w = (
  answer-status (get_by_guid guid) _ _ env w (λ u. refl) (not_found_or_internal-status _)
      (get_by_guid-Unknown guid),
  handle_update-status guid body env w,
  answer-status (delete_user_record guid) _ _ env w (λ u. refl) (not_found_or_internal-status _)
      (delete-Unknown guid),
)
