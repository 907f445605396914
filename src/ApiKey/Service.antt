-- ===== src/ApiKey/Service.antt =====
-- internal/service/apikey.
use Prim.Native.String.{◌++◌, len, slice}
use be_aether_node.Base.{ℕ, ◌-◌, String, Bool, Option, none, some, if◌then◌else◌, str_eq}
use be_aether_node.Base.Hex.{hex_encode}
use be_aether_node.Store.{time_error, M, pure, or_raise, random_bytes, override, ◌>>=◌, ◌>>◌}
use be_aether_node.Store.Sql.{ListParams}
use be_aether_node.ApiKey.{
  ApiKey, ListResult, create, get_by_guid, list, update_key, delete_key, validate_key,
}

pub record CreateApiKeyRequest : Type 0 where
  pub expire_date : String
  pub notes : String
  pub is_active : Bool

pub record UpdateApiKeyRequest : Type 0 where
  pub expire_date : Option String
  pub notes : Option String
  pub is_active : Option Bool

pub record ApiKeyWithKey : Type 0 where
  pub api_key : ApiKey
  pub key : String

pub record ApiKeyService : Type 0 where
  pub key_prefix : String

unfoldable pub new_service : String → ApiKeyService
new_service key_prefix = record {
  key_prefix = if str_eq key_prefix "" then "aeth_live_pk_" else key_prefix;
}

unfoldable pub hash_key : String → String
hash_key key = key

-- time.Parse of RFC 3339.
abbrev parse_date : String → M ℕ
parse_date s = or_raise (λ env. env.parse_time s) time_error

-- The first eight bytes and the last four.
unfoldable pub mask_key : String → String
mask_key key = slice key 0 8 ++ ("..." ++ slice key (len key - 4) (len key))

unfoldable pub create_api_key : ApiKeyService → CreateApiKeyRequest → M ApiKeyWithKey
create_api_key s req = do
  bytes ← random_bytes
  let plain_key = s.key_prefix ++ hex_encode bytes
  expire_date ← parse_date req.expire_date
  key ← create (record {
    guid = "";
    key_hash = hash_key plain_key;
    key_masked = mask_key plain_key;
    notes = req.notes;
    expire_date = expire_date;
    is_active = req.is_active;
    created_at = 0;
    updated_at = 0;
    deleted_at = none;
  })
  pure (record { api_key = key; key = plain_key })

unfoldable pub get_api_key : String → M ApiKey
get_api_key guid = get_by_guid guid

unfoldable pub list_api_keys : ListParams → M ListResult
list_api_keys params = list params

-- The new date of a request, the old one where it names none.
unfoldable pub new_date : Option String → ℕ → M ℕ
new_date none old = pure old
new_date (some s) _ = parse_date s

unfoldable pub update_api_key : String → UpdateApiKeyRequest → M ApiKey
update_api_key guid req = do
  key ← get_by_guid guid
  date ← new_date req.expire_date key.expire_date
  let changed = record key {
    notes = override req.notes key.notes;
    expire_date = date;
    is_active = override req.is_active key.is_active;
  }
  update_key changed
  pure changed

unfoldable pub delete_api_key : String → M (Unit {0})
delete_api_key guid = delete_key guid

unfoldable pub validate_api_key : String → M ApiKey
validate_api_key key = validate_key key
