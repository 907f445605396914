-- ===== src/User/Rows.antt =====
-- Users: internal/domain/user, the statements of queries/users.sql as internal/db runs them, and
-- internal/db/convert.go.
use be_aether_node.Base.{ℕ, String, Bool, not, ◌&&◌, ◌||◌, Option, none, some, List, str_eq, length}
use be_aether_node.Base.Int.{ℤ}
use be_aether_node.Store.{
  newest_first, to_micros, Env, UserRow, World, M, query, query_row, limit_offset, exec,
  unconstrained, time_or_zero, uuid_or_empty,
}
use be_aether_node.Store.Sql.{sql_eq, same_guid, is_null, select, update, exists, append_row}

pub record User : Type 0 where
  pub guid : String
  pub email : String
  pub password_hash : String
  pub first_name : String
  pub last_name : String
  pub role_guid : Option String
  pub is_active : Bool
  pub created_at : ℕ
  pub updated_at : ℕ
  pub deleted_at : Option ℕ

pub record ListResult : Type 0 where
  pub users : List User
  pub total : ℕ
  pub page : ℕ
  pub limit : ℕ
  pub total_page : ℕ

abbrev uuid_text : Env → Option ℕ → Option String
uuid_text env none = none
uuid_text env (some u) = some (env.uuid_string u)

unfoldable pub user_from_db : Env → UserRow → User
user_from_db env row = record {
  guid = uuid_or_empty env row.guid;
  email = row.email;
  password_hash = row.password_hash;
  first_name = row.first_name;
  last_name = row.last_name;
  role_guid = uuid_text env row.role_guid;
  is_active = row.is_active;
  created_at = time_or_zero row.created_at;
  updated_at = time_or_zero row.updated_at;
  deleted_at = row.deleted_at;
}

abbrev pub set_users : List UserRow → World → World
set_users rows w = record w { users = rows }

-- `WHERE guid = $1 AND deleted_at IS NULL`
unfoldable pub live_user : ℕ → UserRow → Bool
live_user id row = sql_eq row.guid id && is_null row.deleted_at

-- `WHERE email = $1 AND deleted_at IS NULL`
unfoldable pub live_email : String → UserRow → Bool
live_email email row = str_eq row.email email && is_null row.deleted_at

abbrev pub live : UserRow → Bool
live row = is_null row.deleted_at

unfoldable pub listed : Env → String → UserRow → Bool
listed env pattern row =
    live row
    && (env.ilike row.email pattern
        || (env.ilike row.first_name pattern || env.ilike row.last_name pattern))

-- The columns `guid`, the primary key, and `email` are unique among all rows, the deleted ones too.
unfoldable pub insert_user : UserRow → M (Unit {0})
insert_user row =
    exec (λ w. not (exists (λ r. same_guid r.guid row.guid || str_eq r.email row.email) w.users))
      (λ w. set_users (append_row row w.users) w)

unfoldable pub get_user_row : ℕ → M UserRow
get_user_row id = query_row (λ w. select (live_user id) w.users)

unfoldable pub get_email_row : String → M UserRow
get_email_row email = query_row (λ w. select (live_email email) w.users)

unfoldable pub list_rows : String → ℤ → ℤ → M (List UserRow)
list_rows pattern limit offset = limit_offset limit offset (λ env w.
    newest_first env w (λ r. r.guid) (λ r. r.created_at) (select (listed env pattern) w.users))

unfoldable pub count_rows : M ℕ
count_rows = query (λ env w. length (select live w.users))

unfoldable pub exists_email : String → M Bool
exists_email email = query (λ env w. exists (live_email email) w.users)

-- The new email may not be that of another row, if a row is updated.
unfoldable pub update_row : ℕ → UserRow → M (Unit {0})
update_row id new =
    exec
      (λ w.
        not (exists (live_user id) w.users)
        || not (exists (λ r. str_eq r.email new.email && not (sql_eq r.guid id)) w.users))
      (λ w.
        set_users
          (update (live_user id)
            (λ r. record r {
              email = new.email;
              password_hash = new.password_hash;
              first_name = new.first_name;
              last_name = new.last_name;
              role_guid = new.role_guid;
              is_active = new.is_active;
              updated_at = new.updated_at;
            })
            w.users)
          w)

unfoldable pub delete_row : ℕ → ℕ → M (Unit {0})
delete_row id t = exec unconstrained (λ w.
    set_users
      (update (live_user id)
        (λ r. record r { deleted_at = some (to_micros t); updated_at = some (to_micros t) })
        w.users)
      w)

-- `UPDATE users SET updated_at = $2 WHERE guid = $1`
unfoldable pub update_login_row : ℕ → ℕ → M (Unit {0})
update_login_row id t = exec unconstrained (λ w.
    set_users
      (update (λ r. sql_eq r.guid id) (λ r. record r { updated_at = some (to_micros t) }) w.users)
      w)
