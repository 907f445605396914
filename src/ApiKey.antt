-- ===== src/ApiKey.antt =====
-- API keys: internal/domain/apikey, the statements of queries/apikeys.sql as internal/db runs them,
-- internal/db/convert.go and internal/repository/apikey. The service and the handlers are in the
-- modules below.
mod Rows
pub mod Service
pub mod Handler
pub mod Issue
mod Scenarios
pub mod Replies
pub mod Unlisted
pub mod Pages
pub mod Change
pub mod Validate
unfoldable pub use Rows.*
use Prim.Native.String.{◌++◌}
use be_aether_node.Base.{◌+◌, ◌-◌, ◌*◌, ◌%◌, String, not, none, some, List, map, ltb, if◌then◌else◌}
use be_aether_node.Base.Hex.{hex_encode}
use be_aether_node.Store.{
  to_micros, Err, no_rows, repo_api_key_not_found, repo_api_key_invalid, Env, ApikeyRow, M, pure,
  raise, ask, on_error, now, fresh_if_empty, parse_uuid, parse_uuid_or_nil, optional_text, convert,
  ◌>>=◌, ◌>>◌,
}
use be_aether_node.Store.Sql.{page, positive_or, to_int32, total_pages, ListParams}

-- `if errors.Is(err, pgx.ErrNoRows) { return ErrAPIKeyNotFound }`
abbrev pub not_found_if_no_rows : Err → Err
not_found_if_no_rows no_rows = repo_api_key_not_found
not_found_if_no_rows e = e

-- The caller's struct comes back with the GUID that it then has.
unfoldable pub create : ApiKey → M ApiKey
create key = do
  id ← fresh_if_empty key.guid
  guid ← parse_uuid_or_nil id
  t ← now
  insert_api_key (record {
    guid = some guid;
    key_hash = key.key_hash;
    notes = optional_text key.notes;
    expire_date = some (to_micros key.expire_date);
    is_active = key.is_active;
    created_at = some (to_micros t);
    updated_at = some (to_micros t);
    deleted_at = none;
  })
  pure (record key { guid = id })

unfoldable pub get_by_guid : String → M ApiKey
get_by_guid guid = do
  id ← parse_uuid guid repo_api_key_not_found
  row ← on_error not_found_if_no_rows (get_by_guid_row id)
  convert api_key_from_db row

unfoldable pub get_by_key_hash : String → M ApiKey
get_by_key_hash h = do
  row ← on_error not_found_if_no_rows (get_by_key_hash_row h)
  convert api_key_from_db row

abbrev pub search_pattern : ListParams → String
search_pattern params = "%" ++ (params.search ++ "%")

abbrev convert_all : List ApikeyRow → M (List ApiKey)
convert_all = convert (λ env. map (api_key_from_db env))

unfoldable pub list : ListParams → M ListResult
list params = do
  let limit = positive_or 10 params.limit
  let page = positive_or 1 params.page
  rows ← list_rows (search_pattern params) (to_int32 limit) (to_int32 ((page - 1) * limit))
  total ← count_rows
  keys ← convert_all rows
  pure (record {
    api_keys = keys;
    total = total;
    page = page;
    limit = limit;
    total_page = total_pages total limit;
  })

unfoldable pub update_key : ApiKey → M (Unit {0})
update_key key = do
  guid ← parse_uuid_or_nil key.guid
  t ← now
  on_error not_found_if_no_rows
      (update_row guid (optional_text key.notes) key.expire_date key.is_active t)

unfoldable pub delete_key : String → M (Unit {0})
delete_key guid = do
  id ← parse_uuid guid repo_api_key_not_found
  t ← now
  on_error not_found_if_no_rows (delete_row id t)

-- `if errors.Is(err, ErrAPIKeyNotFound) { return ErrAPIKeyInvalid }`
abbrev invalid_if_not_found : Err → Err
invalid_if_not_found repo_api_key_not_found = repo_api_key_invalid
invalid_if_not_found e = e

-- hex.EncodeToString of sha256.Sum256.
abbrev pub sha256_hex : Env → String → String
sha256_hex env key = hex_encode (env.sha256 key)

-- The tests of a key that was found; the clock is read for an active one alone.
unfoldable pub check_key : ApiKey → M ApiKey
check_key key =
    if not key.is_active
    then raise repo_api_key_invalid
    else do t ← now; if ltb key.expire_date t then raise repo_api_key_invalid else pure key

unfoldable pub validate_key : String → M ApiKey
validate_key key = do
  h ← ask (λ env. sha256_hex env key)
  found ← on_error invalid_if_not_found (get_by_key_hash h)
  check_key found
