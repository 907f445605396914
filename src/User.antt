-- ===== src/User.antt =====
-- Users: internal/domain/user, the statements of queries/users.sql as internal/db runs them,
-- internal/db/convert.go and internal/repository/user. The service is in User/Service.
mod Rows
pub mod Service
pub mod Create
pub mod Emails
pub mod Handler
pub mod Replies
pub mod Conflict
mod Scenarios
unfoldable pub use Rows.*
use Prim.Native.String.{◌++◌}
use be_aether_node.Base.{ℕ, ◌+◌, ◌-◌, ◌*◌, String, Bool, none, some, List, map, if◌then◌else◌}
use be_aether_node.Store.{
  to_micros, Err, no_rows, repo_user_not_found, UserRow, M, pure, on_error, now, fresh_if_empty,
  parse_uuid, parse_uuid_or_nil, parse_optional_uuid, convert, ◌>>=◌, ◌>>◌,
}
use be_aether_node.Store.Sql.{page, positive_or, to_int32, total_pages, ListParams}

-- `if errors.Is(err, pgx.ErrNoRows) { return ErrUserNotFound }`
abbrev pub not_found_if_no_rows : Err → Err
not_found_if_no_rows no_rows = repo_user_not_found
not_found_if_no_rows e = e

-- The caller's struct comes back with the GUID that it then has.
unfoldable pub create : User → M User
create user = do
  id ← fresh_if_empty user.guid
  guid ← parse_uuid_or_nil id
  t ← now
  role ← parse_optional_uuid user.role_guid
  insert_user (record {
    guid = some guid;
    email = user.email;
    password_hash = user.password_hash;
    first_name = user.first_name;
    last_name = user.last_name;
    role_guid = role;
    is_active = user.is_active;
    created_at = some (to_micros t);
    updated_at = some (to_micros t);
    deleted_at = none;
  })
  pure (record user { guid = id })

unfoldable pub get_by_guid : String → M User
get_by_guid guid = do
  id ← parse_uuid guid repo_user_not_found
  row ← on_error not_found_if_no_rows (get_user_row id)
  convert user_from_db row

unfoldable pub get_by_email : String → M User
get_by_email email = do
  row ← on_error not_found_if_no_rows (get_email_row email)
  convert user_from_db row

abbrev pub search_pattern : ListParams → String
search_pattern params = "%" ++ (params.search ++ "%")

abbrev convert_all : List UserRow → M (List User)
convert_all = convert (λ env. map (user_from_db env))

unfoldable pub list : ListParams → M ListResult
list params = do
  let limit = positive_or 10 params.limit
  let page = positive_or 1 params.page
  rows ← list_rows (search_pattern params) (to_int32 limit) (to_int32 ((page - 1) * limit))
  total ← count_rows
  users ← convert_all rows
  pure (record {
    users = users;
    total = total;
    page = page;
    limit = limit;
    total_page = total_pages total limit;
  })

unfoldable pub update_user_record : User → M (Unit {0})
update_user_record user = do
  guid ← parse_uuid_or_nil user.guid
  t ← now
  role ← parse_optional_uuid user.role_guid
  on_error not_found_if_no_rows (
      update_row guid (record {
        guid = some guid;
        email = user.email;
        password_hash = user.password_hash;
        first_name = user.first_name;
        last_name = user.last_name;
        role_guid = role;
        is_active = user.is_active;
        created_at = none;
        updated_at = some (to_micros t);
        deleted_at = none;
      }))

unfoldable pub delete_user_record : String → M (Unit {0})
delete_user_record guid = do
  id ← parse_uuid guid repo_user_not_found
  t ← now
  on_error not_found_if_no_rows (delete_row id t)

unfoldable pub exists_by_email : String → M Bool
exists_by_email email = exists_email email

unfoldable pub update_last_login : String → ℕ → M (Unit {0})
update_last_login guid login_at = do id ← parse_uuid_or_nil guid; update_login_row id login_at
