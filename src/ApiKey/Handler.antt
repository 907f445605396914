-- ===== src/ApiKey/Handler.antt =====
-- internal/handler/apikey_handler.go. A body is `none` where it does not bind.
use be_aether_node.Base.{String, false, Option, none, some, List}
use be_aether_node.Store.{Err, api_key_not_found, Env, World}
use be_aether_node.Store.Sql.{ListParams}
use be_aether_node.ApiKey.{ApiKey}
use be_aether_node.ApiKey.Service.{
  CreateApiKeyRequest, UpdateApiKeyRequest, ApiKeyWithKey, ApiKeyService, create_api_key,
  get_api_key, list_api_keys, update_api_key, delete_api_key,
}
use be_aether_node.Http.{
  Reply, success, paginated, error, text, answer, internal_error, bad_request,
}

-- `if err == apikey.ErrAPIKeyNotFound { ... }`
abbrev pub not_found_or_internal : {A : Type 0} → Err → Reply A
not_found_or_internal api_key_not_found = error 404 "RESOURCE_NOT_FOUND" (text "API key not found")
not_found_or_internal e = internal_error e

unfoldable pub handle_create :
    ApiKeyService → Option CreateApiKeyRequest → Env → World → Reply ApiKeyWithKey × World
handle_create svc none env w = (bad_request, w)
handle_create svc (some req) env w =
    answer (create_api_key svc req)
      (λ key.
        success 201 key
          "API key created successfully. Please save this key - it will not be shown again.")
      internal_error env w

unfoldable pub handle_get : String → Env → World → Reply ApiKey × World
handle_get guid =
    answer (get_api_key guid) (λ key. success 200 key "API key retrieved successfully")
      not_found_or_internal

unfoldable pub handle_list : Option ListParams → Env → World → Reply (List ApiKey) × World
handle_list none env w = (bad_request, w)
handle_list (some params) env w =
    answer (list_api_keys params)
      (λ result. paginated 200 result.api_keys (record {
        page = result.page;
        limit = result.limit;
        total = result.total;
        total_pages = result.total_page;
        has_more = false;
      }))
      internal_error env w

unfoldable pub handle_update :
    String → Option UpdateApiKeyRequest → Env → World → Reply ApiKey × World
handle_update guid none env w = (bad_request, w)
handle_update guid (some req) env w =
    answer (update_api_key guid req) (λ key. success 200 key "API key updated successfully")
      not_found_or_internal env w

unfoldable pub handle_delete : String → Env → World → Reply (Unit {0}) × World
handle_delete guid =
    answer (delete_api_key guid) (λ _. success 200 tt "API key deleted successfully")
      not_found_or_internal
