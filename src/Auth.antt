-- ===== src/Auth.antt =====
-- Refresh tokens: internal/domain/auth, the statements of queries/refresh_tokens.sql as internal/db
-- runs them, internal/db/convert.go and internal/repository/auth. The service and the handlers are
-- in the modules below.
use be_aether_node.Base.{
  ℕ, String, Bool, false, not, ◌&&◌, Option, none, some, List, [], ltb, if◌then◌else◌, str_eq,
}
use be_aether_node.Base.Hex.{hex_encode}
use be_aether_node.Store.{
  to_micros, Err, no_rows, refresh_token_not_found, refresh_token_expired, Env, RefreshTokenRow,
  World, M, pure, raise, query_row, on_error, exec, unconstrained, now, fresh_if_empty,
  parse_uuid_or_nil, time_or_zero, uuid_or_empty, convert, ◌>>=◌, ◌>>◌,
}
use be_aether_node.Store.Sql.{sql_eq, same_guid, select, delete, exists, append_row}
pub mod Service
mod Scenarios
pub mod Emails
pub mod Register
pub mod Rotation
pub mod Tokens
pub mod Handler

pub record RefreshToken : Type 0 where
  pub guid : String
  pub user_guid : String
  pub token_hash : String
  pub expires_at : ℕ
  pub created_at : ℕ

unfoldable pub refresh_token_from_db : Env → RefreshTokenRow → RefreshToken
refresh_token_from_db env row = record {
  guid = uuid_or_empty env row.guid;
  user_guid = uuid_or_empty env row.user_guid;
  token_hash = row.token_hash;
  expires_at = time_or_zero row.expires_at;
  created_at = time_or_zero row.created_at;
}

abbrev pub set_tokens : List RefreshTokenRow → World → World
set_tokens rows w = record w { refresh_tokens = rows }

-- `WHERE token_hash = $1`
unfoldable pub has_hash : String → RefreshTokenRow → Bool
has_hash h row = str_eq row.token_hash h

-- The primary key is new, and `user_guid` refers to a user, deleted or not.
unfoldable pub insert_token : RefreshTokenRow → M (Unit {0})
insert_token row =
    exec
      (λ w.
        not (exists (λ r. same_guid r.guid row.guid) w.refresh_tokens)
        && exists (λ u. same_guid u.guid row.user_guid) w.users)
      (λ w. set_tokens (append_row row w.refresh_tokens) w)

unfoldable pub get_token_row : String → M RefreshTokenRow
get_token_row h = query_row (λ w. select (has_hash h) w.refresh_tokens)

unfoldable pub delete_user_rows : ℕ → M (Unit {0})
delete_user_rows id =
    exec unconstrained (λ w. set_tokens (delete (λ r. sql_eq r.user_guid id) w.refresh_tokens) w)

unfoldable pub delete_hash_rows : String → M (Unit {0})
delete_hash_rows h = exec unconstrained (λ w. set_tokens (delete (has_hash h) w.refresh_tokens) w)

-- `expires_at < $1`, which is not true of NULL.
abbrev expires_before : ℕ → Option ℕ → Bool
expires_before t none = false
expires_before t (some e) = ltb e t

-- `DELETE FROM refresh_tokens WHERE expires_at < $1`
unfoldable pub delete_expired_rows : ℕ → M (Unit {0})
delete_expired_rows t =
    exec unconstrained
      (λ w. set_tokens (delete (λ r. expires_before t r.expires_at) w.refresh_tokens) w)

-- The caller's struct comes back with the GUID that it then has.
unfoldable pub create : RefreshToken → M RefreshToken
create token = do
  id ← fresh_if_empty token.guid
  guid ← parse_uuid_or_nil id
  user_guid ← parse_uuid_or_nil token.user_guid
  t ← now
  insert_token (record {
    guid = some guid;
    user_guid = some user_guid;
    token_hash = token.token_hash;
    expires_at = some (to_micros token.expires_at);
    created_at = some (to_micros t);
  })
  pure (record token { guid = id })

-- `if errors.Is(err, pgx.ErrNoRows) { return errors.New("refresh token not found") }`
abbrev pub not_found_if_no_rows : Err → Err
not_found_if_no_rows no_rows = refresh_token_not_found
not_found_if_no_rows e = e

unfoldable pub check_expiry : RefreshToken → M RefreshToken
check_expiry rt = do t ← now; if ltb rt.expires_at t then raise refresh_token_expired else pure rt

unfoldable pub get_by_token_hash : String → M RefreshToken
get_by_token_hash h = do
  row ← on_error not_found_if_no_rows (get_token_row h)
  rt ← convert refresh_token_from_db row
  check_expiry rt

unfoldable pub delete_by_user_guid : String → M (Unit {0})
delete_by_user_guid user_guid = do id ← parse_uuid_or_nil user_guid; delete_user_rows id

unfoldable pub delete_by_token_hash : String → M (Unit {0})
delete_by_token_hash h = delete_hash_rows h

unfoldable pub delete_expired : M (Unit {0})
delete_expired = do t ← now; delete_expired_rows t

unfoldable pub update_last_used : String → String → M (Unit {0})
update_last_used guid used_at = pure tt

unfoldable pub hash_token_sha256 : Env → String → String
hash_token_sha256 env token = hex_encode (env.sha256 token)
