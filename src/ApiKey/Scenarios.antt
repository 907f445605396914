-- ===== src/ApiKey/Scenarios.antt =====
-- Runs of the API key service in a small world: an environment whose statements all answer.
use be_aether_node.Base.{true, false, none, some, [], ◌∷◌, ◌≡◌, refl, ◌↔◌, map, arith}
use be_aether_node.Base.Int.{pos}
use be_aether_node.Store.{
  newest_first, to_micros, World, ApikeyRow, ok, err, repo_api_key_invalid, ask, or_raise, on_error,
  query, query_row, limit_offset, pure, now, exec, ◌>>=◌, random_bytes, fresh_uuid, fresh_if_empty,
}
use be_aether_node.Store.Samples.{small_env, small_env-ParsesBack, empty_world}
use be_aether_node.ApiKey.{
  ApiKey, ListResult, validate_key, get_by_guid, list, api_key_from_db, get_by_guid_row, update_key,
  update_row, live_hash, live_guid, list_rows, count_rows, listed, create, insert_api_key,
}
use be_aether_node.Base.Hex.{hex_encode, hex_digit}
use be_aether_node.Store.Sql.{
  select, ListParams, positive_or, order_desc, insert_desc, page, take, drop, total_pages, to_int32,
  exists,
}
use be_aether_node.ApiKey.Validate.{Accepts, validate_key-Accepts_iff}
use be_aether_node.ApiKey.Pages.{keys_of_pages, matching, list-pages}
use be_aether_node.ApiKey.Unlisted.{create_api_key_unlisted, one_more}
use be_aether_node.ApiKey.Service.{
  new_service, CreateApiKeyRequest, UpdateApiKeyRequest, create_api_key, update_api_key,
  get_api_key, validate_api_key, new_date, hash_key,
}
use be_aether_node.ApiKey.Issue.{
  create_call, update_call, run_calls, run_calls-validate_none, FillsBuffer,
}
use be_aether_node.ApiKey.Change.{update_api_key-get_api_key}

small_env-FillsBuffer : FillsBuffer small_env
small_env-FillsBuffer n bytes h = ground (arith, h)

-- A key whose hash is the sum of 32 zeros.
abbrev stored_row : ApikeyRow
stored_row = record {
  guid = some 3;
  key_hash = "0000000000000000000000000000000000000000000000000000000000000000";
  notes = some "gate";
  expire_date = some 200;
  is_active = true;
  created_at = some 1;
  updated_at = some 1;
  deleted_at = none;
}

abbrev one_key : World
one_key = record empty_world { api_keys = stored_row ∷ [] }

abbrev stored_key : ApiKey
stored_key = record {
  guid = "gggg";
  key_hash = "0000000000000000000000000000000000000000000000000000000000000000";
  key_masked = "sk_****************";
  notes = "gate";
  expire_date = 200;
  is_active = true;
  created_at = 1;
  updated_at = 1;
  deleted_at = none;
}

stored_row-stored_key : api_key_from_db small_env stored_row ≡ stored_key
unfolding api_key_from_db
stored_row-stored_key = refl

abbrev gate_request : CreateApiKeyRequest
gate_request = record { expire_date = "2030-01-01T00:00:00Z"; notes = ""; is_active = true }

abbrev rename : UpdateApiKeyRequest
rename = record { expire_date = none; notes = some "door"; is_active = some false }

run_calls-validate_none_example :
    (validate_api_key "key" small_env (
      run_calls
        (new_service "")
        small_env
        (create_call gate_request ∷ update_call "g" rename ∷ create_call gate_request ∷ [])
        empty_world)).0
    ≡ err repo_api_key_invalid
run_calls-validate_none_example =
    run_calls-validate_none "" small_env
      (create_call gate_request ∷ update_call "g" rename ∷ create_call gate_request ∷ [])
      empty_world "key" small_env-FillsBuffer (λ s. refl) refl

-- Every definition that a run of the store goes through.
validate_key-Accepts_iff_example :
    ((validate_key "key" small_env one_key).0 ≡ ok stored_key)
    ↔ Accepts small_env one_key "key" stored_key
validate_key-Accepts_iff_example = validate_key-Accepts_iff small_env one_key "key" stored_key

stored_key_accepted : Accepts small_env one_key "key" stored_key
unfolding select live_hash hex_encode hex_digit api_key_from_db
stored_key_accepted = (stored_row, [], refl, refl, refl, omega arith, refl)

abbrev renamed : ApiKey
renamed = record stored_key { notes = "door"; is_active = false }

update_api_key-get_api_key_example :
    (get_api_key "gggg" small_env (update_api_key "gggg" rename small_env one_key).1).0
    ≡ ok (record renamed { expire_date = to_micros 200; updated_at = to_micros 101 })
unfolding update_api_key get_by_guid get_by_guid_row update_key update_row new_date ask or_raise
    on_error query_row pure now exec ◌>>=◌ select live_guid api_key_from_db
update_api_key-get_api_key_example =
    update_api_key-get_api_key "gggg" rename small_env one_key renamed small_env-ParsesBack refl
      refl

abbrev search_all : ListParams
search_all = record { limit = pos 0; page = pos 0; order = ""; sort = ""; search = "" }

abbrev first_page : ListResult
first_page = record { api_keys = stored_key ∷ []; total = 1; page = 1; limit = 10; total_page = 1 }

list-pages_example :
    keys_of_pages search_all 9 1 small_env one_key
    ≡ map (api_key_from_db small_env) (matching small_env one_key search_all)
unfolding list list_rows count_rows ask query limit_offset pure ◌>>=◌ positive_or select
    newest_first order_desc insert_desc listed page take drop total_pages to_int32 api_key_from_db
list-pages_example =
    list-pages search_all 9 0 small_env one_key first_page (λ n. refl) (tt, tt) (omega arith) refl
      (omega arith)

create_api_key_unlisted_example :
    let w = (create_api_key (new_service "") gate_request small_env one_key).1 in
    (list search_all small_env w).0
    ≡ one_more (list search_all small_env (record w { api_keys = one_key.api_keys })).0
unfolding create_api_key create insert_api_key new_service hash_key random_bytes ask or_raise pure
    now exec ◌>>=◌ fresh_if_empty fresh_uuid exists
create_api_key_unlisted_example =
    create_api_key_unlisted (new_service "") gate_request small_env one_key _ search_all refl refl
