-- ===== src/User/Service.antt =====
-- internal/service/user.
use be_aether_node.Base.{String, Bool, true, not, ◌&&◌, Option, none, some, if◌then◌else◌, str_eq}
use be_aether_node.Store.{
  email_already_exists, M, pure, raise, hash_password, override, ◌>>=◌, ◌>>◌,
}
use be_aether_node.Store.Sql.{ListParams}
use be_aether_node.User.{
  User, ListResult, create, get_by_guid, list, update_user_record, delete_user_record,
  exists_by_email,
}

pub record CreateUserRequest : Type 0 where
  pub email : String
  pub password : String
  pub first_name : String
  pub last_name : String
  pub role_guid : Option String

pub record UpdateUserRequest : Type 0 where
  pub email : Option String
  pub password : Option String
  pub first_name : Option String
  pub last_name : Option String
  pub role_guid : Option String
  pub is_active : Option Bool

-- `if exists { return ErrEmailAlreadyExists }`
unfoldable pub refuse_if : Bool → M (Unit {0})
refuse_if b = if b then raise email_already_exists else pure tt

abbrev pub new_user : CreateUserRequest → String → User
new_user req hashed_password = record {
  guid = "";
  email = req.email;
  password_hash = hashed_password;
  first_name = req.first_name;
  last_name = req.last_name;
  role_guid = req.role_guid;
  is_active = true;
  created_at = 0;
  updated_at = 0;
  deleted_at = none;
}

unfoldable pub create_user : CreateUserRequest → M User
create_user req = do
  exists ← exists_by_email req.email
  refuse_if exists
  hashed_password ← hash_password req.password
  create (new_user req hashed_password)

unfoldable pub get_user : String → M User
get_user guid = get_by_guid guid

unfoldable pub list_users : ListParams → M ListResult
list_users params = list params

-- The email of an update, the old one where it names none.
unfoldable pub new_email : Option String → String → M String
new_email none old = pure old
new_email (some email) old = do
  exists ← exists_by_email email
  refuse_if (exists && not (str_eq email old))
  pure email

unfoldable pub new_password : Option String → String → M String
new_password none old = pure old
new_password (some password) old = hash_password password

-- `if req.RoleGUID != nil { user.RoleGUID = req.RoleGUID }`
abbrev pub or_else : {A : Type 0} → Option A → Option A → Option A
or_else none old = old
or_else (some a) old = some a

unfoldable pub update_user : String → UpdateUserRequest → M User
update_user guid req = do
  user ← get_by_guid guid
  email ← new_email req.email user.email
  password_hash ← new_password req.password user.password_hash
  let changed = record user {
    email = email;
    password_hash = password_hash;
    first_name = override req.first_name user.first_name;
    last_name = override req.last_name user.last_name;
    role_guid = or_else req.role_guid user.role_guid;
    is_active = override req.is_active user.is_active;
  }
  update_user_record changed
  pure changed

unfoldable pub delete_user : String → M (Unit {0})
delete_user guid = delete_user_record guid
