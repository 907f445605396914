-- ===== src/User/Handler.antt =====
-- internal/handler/user_handler.go. A body is `none` where it does not bind.
use be_aether_node.Base.{String, false, Option, none, some, List}
use be_aether_node.Store.{Err, user_not_found, email_already_exists, Env, World}
use be_aether_node.Store.Sql.{ListParams}
use be_aether_node.User.{User}
use be_aether_node.User.Service.{
  CreateUserRequest, UpdateUserRequest, create_user, get_user, list_users, update_user, delete_user,
}
use be_aether_node.Http.{
  Reply, success, paginated, error, text, answer, internal_error, bad_request,
}

pub record CreateBody : Type 0 where
  pub email : String
  pub password : String
  pub first_name : String
  pub last_name : String

pub record UpdateBody : Type 0 where
  pub email : Option String
  pub password : Option String
  pub first_name : Option String
  pub last_name : Option String

abbrev pub create_req : CreateBody → CreateUserRequest
create_req b = record {
  email = b.email;
  password = b.password;
  first_name = b.first_name;
  last_name = b.last_name;
  role_guid = none;
}

abbrev pub update_req : UpdateBody → UpdateUserRequest
update_req b = record {
  email = b.email;
  password = b.password;
  first_name = b.first_name;
  last_name = b.last_name;
  role_guid = none;
  is_active = none;
}

-- `if err == user.ErrEmailAlreadyExists { ... }`
abbrev pub conflict_or_internal : {A : Type 0} → Err → Reply A
conflict_or_internal email_already_exists =
    error 409 "DUPLICATE_ENTRY" (text "Email already exists")
conflict_or_internal e = internal_error e

-- `if err == user.ErrUserNotFound { ... }`
abbrev pub not_found_or_internal : {A : Type 0} → Err → Reply A
not_found_or_internal user_not_found = error 404 "RESOURCE_NOT_FOUND" (text "User not found")
not_found_or_internal e = internal_error e

-- Both tests, as UpdateUser makes them.
abbrev pub not_found_or_conflict : {A : Type 0} → Err → Reply A
not_found_or_conflict user_not_found = error 404 "RESOURCE_NOT_FOUND" (text "User not found")
not_found_or_conflict e = conflict_or_internal e

unfoldable pub handle_create : Option CreateBody → Env → World → Reply User × World
handle_create none env w = (bad_request, w)
handle_create (some body) env w =
    answer (create_user (create_req body)) (λ u. success 201 u "User created successfully")
      conflict_or_internal env w

unfoldable pub handle_get : String → Env → World → Reply User × World
handle_get guid =
    answer (get_user guid) (λ u. success 200 u "User retrieved successfully") not_found_or_internal

-- The subject of the token; without a token or a subject of type string a type assertion panics,
-- which is `none`.
unfoldable pub handle_get_me : Option String → Env → World → Option (Reply User × World)
handle_get_me none env w = none
handle_get_me (some guid) env w = some (
    answer (get_user guid) (λ u. success 200 u "User retrieved successfully") not_found_or_internal
      env w)

unfoldable pub handle_list : Option ListParams → Env → World → Reply (List User) × World
handle_list none env w = (bad_request, w)
handle_list (some params) env w =
    answer (list_users params)
      (λ result. paginated 200 result.users (record {
        page = result.page;
        limit = result.limit;
        total = result.total;
        total_pages = result.total_page;
        has_more = false;
      }))
      internal_error env w

unfoldable pub handle_update : String → Option UpdateBody → Env → World → Reply User × World
handle_update guid none env w = (bad_request, w)
handle_update guid (some body) env w =
    answer (update_user guid (update_req body)) (λ u. success 200 u "User updated successfully")
      not_found_or_conflict env w

unfoldable pub handle_delete : String → Env → World → Reply (Unit {0}) × World
handle_delete guid =
    answer (delete_user guid) (λ _. success 200 tt "User deleted successfully")
      not_found_or_internal
