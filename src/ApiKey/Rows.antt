-- ===== src/ApiKey/Rows.antt =====
-- API keys: internal/domain/apikey, the statements of queries/apikeys.sql as internal/db runs them, and
-- internal/db/convert.go.
use Prim.Native.String.{◌++◌, len, slice}
use be_aether_node.Base.{
  ℕ, ◌-◌, String, Bool, false, not, ◌&&◌, Option, none, some, List, ltb, if◌then◌else◌, str_eq,
  length,
}
use be_aether_node.Base.Int.{ℤ}
use be_aether_node.Store.{
  newest_first, to_micros, Env, ApikeyRow, World, M, query, query_row, limit_offset, exec,
  unconstrained, text_or_empty, time_or_zero, uuid_or_empty,
}
use be_aether_node.Store.Sql.{sql_eq, same_guid, is_null, select, update, exists, append_row}

pub record ApiKey : Type 0 where
  pub guid : String
  pub key_hash : String
  pub key_masked : String
  pub notes : String
  pub expire_date : ℕ
  pub is_active : Bool
  pub created_at : ℕ
  pub updated_at : ℕ
  pub deleted_at : Option ℕ

pub record ListResult : Type 0 where
  pub api_keys : List ApiKey
  pub total : ℕ
  pub page : ℕ
  pub limit : ℕ
  pub total_page : ℕ

-- The mask made of the text of the GUID.
abbrev mask : String → String
mask id =
    if ltb 4 (len id) then "sk_..." ++ slice id (len id - 4) (len id) else "sk_****************"

abbrev masked : Env → Option ℕ → String
masked env none = ""
masked env (some u) = mask (env.uuid_string u)

unfoldable pub api_key_from_db : Env → ApikeyRow → ApiKey
api_key_from_db env row = record {
  guid = uuid_or_empty env row.guid;
  key_hash = row.key_hash;
  key_masked = masked env row.guid;
  notes = text_or_empty row.notes;
  expire_date = time_or_zero row.expire_date;
  is_active = row.is_active;
  created_at = time_or_zero row.created_at;
  updated_at = time_or_zero row.updated_at;
  deleted_at = row.deleted_at;
}

abbrev pub set_api_keys : List ApikeyRow → World → World
set_api_keys rows w = record w { api_keys = rows }

-- `WHERE guid = $1 AND deleted_at IS NULL`
unfoldable pub live_guid : ℕ → ApikeyRow → Bool
live_guid id row = sql_eq row.guid id && is_null row.deleted_at

-- `WHERE key_hash = $1 AND deleted_at IS NULL`
unfoldable pub live_hash : String → ApikeyRow → Bool
live_hash h row = str_eq row.key_hash h && is_null row.deleted_at

abbrev pub live : ApikeyRow → Bool
live row = is_null row.deleted_at

-- `notes ILIKE $1`, which is not true of NULL.
abbrev pub like_notes : Env → String → Option String → Bool
like_notes env pattern none = false
like_notes env pattern (some notes) = env.ilike notes pattern

unfoldable pub listed : Env → String → ApikeyRow → Bool
listed env pattern row = live row && like_notes env pattern row.notes

-- The primary key refuses a GUID that a row has, deleted or not.
unfoldable pub insert_api_key : ApikeyRow → M (Unit {0})
insert_api_key row =
    exec (λ w. not (exists (λ r. same_guid r.guid row.guid) w.api_keys))
      (λ w. set_api_keys (append_row row w.api_keys) w)

unfoldable pub get_by_guid_row : ℕ → M ApikeyRow
get_by_guid_row id = query_row (λ w. select (live_guid id) w.api_keys)

unfoldable pub get_by_key_hash_row : String → M ApikeyRow
get_by_key_hash_row h = query_row (λ w. select (live_hash h) w.api_keys)

unfoldable pub list_rows : String → ℤ → ℤ → M (List ApikeyRow)
list_rows pattern limit offset = limit_offset limit offset (λ env w.
    newest_first env w (λ r. r.guid) (λ r. r.created_at) (select (listed env pattern) w.api_keys))

unfoldable pub count_rows : M ℕ
count_rows = query (λ env w. length (select live w.api_keys))

unfoldable pub update_row : ℕ → Option String → ℕ → Bool → ℕ → M (Unit {0})
update_row id notes expire_date is_active updated_at = exec unconstrained (λ w.
    set_api_keys
      (update (live_guid id)
        (λ r. record r {
          notes = notes;
          expire_date = some (to_micros expire_date);
          is_active = is_active;
          updated_at = some (to_micros updated_at);
        })
        w.api_keys)
      w)

unfoldable pub delete_row : ℕ → ℕ → M (Unit {0})
delete_row id deleted_at = exec unconstrained (λ w.
    set_api_keys
      (update (live_guid id)
        (λ r. record r {
          deleted_at = some (to_micros deleted_at);
          updated_at = some (to_micros deleted_at);
        })
        w.api_keys)
      w)
