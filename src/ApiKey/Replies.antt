-- ===== src/ApiKey/Replies.antt =====
-- The status codes of internal/handler/apikey_handler.go.
use be_aether_node.Base.{
  ℕ, String, Option, none, some, ◌≡◌, refl, ap, ◌∙◌, ◌≢◌, arith, Option-cases, inl, inr,
}
use be_aether_node.Store.{
  Env, World, M, Err, api_key_not_found, ask, or_raise, on_error, query_row, pure, now, exec, ◌>>=◌,
  err, Result,
}
use be_aether_node.Store.Keeps.{Result-cases}
use be_aether_node.Store.Sql.{select}
use be_aether_node.Store.Laws.{List-cases}
use be_aether_node.ApiKey.{
  ApiKey, get_by_guid, get_by_guid_row, update_key, update_row, delete_key, delete_row, live_guid,
}
use be_aether_node.ApiKey.Service.{
  UpdateApiKeyRequest, update_api_key, delete_api_key, get_api_key, new_date,
}
use be_aether_node.ApiKey.Handler.{handle_get, handle_update, handle_delete, not_found_or_internal}
use be_aether_node.Http.{Reply, status, answer}

get-not_domain :
    (guid : String) (env : Env) (w : World) → (get_by_guid guid env w).0 ≢ err api_key_not_found
unfolding get_by_guid get_by_guid_row ask or_raise on_error query_row ◌>>=◌
get-not_domain guid env w h = elim (Option-cases (env.uuid_parse guid)) [
  | inl e ↦ ground (arith, e, h)
  | inr (id, e) ↦ elim (List-cases (select (live_guid id) w.api_keys)) [
    | inl n ↦ ground (arith, e, h, n)
    | inr (row, rows, f) ↦ ground (arith, e, h, f)
  ]
]

delete-not_domain :
    (guid : String) (env : Env) (w : World) → (delete_key guid env w).0 ≢ err api_key_not_found
unfolding delete_key delete_row ask or_raise on_error now exec ◌>>=◌
delete-not_domain guid env w h = elim (Option-cases (env.uuid_parse guid)) [
  | inl e ↦ ground (arith, e, h)
  | inr (id, e) ↦ ground (arith, e, h)
]

update-not_domain :
    (key : ApiKey) (env : Env) (w : World) → (update_key key env w).0 ≢ err api_key_not_found
unfolding update_key update_row ask on_error now exec ◌>>=◌
update-not_domain key env w h = ground (arith, h)

new_date-not_domain :
    (date : Option String) (old : ℕ) (env : Env) (w : World)
    → (new_date date old env w).0 ≢ err api_key_not_found
unfolding new_date pure or_raise
new_date-not_domain none old env w h = cc h
new_date-not_domain (some s) old env w h = elim (Option-cases (env.parse_time s)) [
  | inl e ↦ ground (arith, e, h)
  | inr (t, e) ↦ ground (arith, e, h)
]

err-injective : {A : Type 0} {x y : Err} → ◌≡◌ {A = Result A} (err x) (err y) → x ≡ y
err-injective h = cc h

>>=-not_domain :
    {A B : Type 0} (m : M A) (f : A → M B) (env : Env) (w : World)
    → (m env w).0 ≢ err api_key_not_found
    → ((a : A) → (f a env (m env w).1).0 ≢ err api_key_not_found)
    → ((m >>= f) env w).0 ≢ err api_key_not_found
unfolding ◌>>=◌
>>=-not_domain m f env w hm hf h = elim (Result-cases (m env w).0) [
  | inl (a, e) ↦ hf a (rw (e, ◌>>=◌) at h)
  | inr (x, e) ↦ hm (e ∙ ap err (err-injective (rw (e, ◌>>=◌) at h)))
]

update_api_key-not_domain :
    (guid : String) (req : UpdateApiKeyRequest) (env : Env) (w : World)
    → (update_api_key guid req env w).0 ≢ err api_key_not_found
unfolding update_api_key pure
update_api_key-not_domain guid req env w =
    >>=-not_domain _ _ env w (get-not_domain guid env w) (λ key.
      >>=-not_domain _ _ env _ (new_date-not_domain req.expire_date key.expire_date env _)
        (λ date. >>=-not_domain _ _ env _ (update-not_domain _ env _) (λ _ h. cc h)))

not_found_or_internal-status :
    (A : Type 0) (e : Err) → e ≢ api_key_not_found → status (not_found_or_internal {A = A} e) ≢ 404
not_found_or_internal-status A api_key_not_found n h = n refl
not_found_or_internal-status A _ n h = omega (arith, h)

answer-status :
    {A B : Type 0} (m : M A) (on_ok : A → Reply B) (env : Env) (w : World)
    → ((a : A) → status (on_ok a) ≡ 200)
    → (m env w).0 ≢ err api_key_not_found
    → status (answer m on_ok not_found_or_internal env w).0 ≢ 404
answer-status m on_ok env w good hm h = elim (Result-cases (m env w).0) [
  | inl (a, e) ↦ ground (arith, good a, e, h)
  | inr (x, e) ↦ not_found_or_internal-status _ x (λ same. hm (e ∙ ap err same)) (rw e at h)
]

handle_update-status :
    (guid : String) (req : Option UpdateApiKeyRequest) (env : Env) (w : World)
    → status (handle_update guid req env w).0 ≢ 404
unfolding handle_update
handle_update-status guid none env w = λ h. omega (arith, h)
handle_update-status guid (some req) env w =
    answer-status (update_api_key guid req) _ env w (λ k. refl)
      (update_api_key-not_domain guid req env w)

-- The handlers of GET, PATCH and DELETE /apikey/:guid never answer 404.
pub handlers_never_404 :
    (guid : String) (req : Option UpdateApiKeyRequest) (env : Env) (w : World)
    → (status (handle_get guid env w).0 ≢ 404)
      × (status (handle_update guid req env w).0 ≢ 404)
      × (status (handle_delete guid env w).0 ≢ 404)
unfolding handle_get handle_delete get_api_key delete_api_key
handlers_never_404 guid req env w = (
  answer-status (get_by_guid guid) _ env w (λ k. refl) (get-not_domain guid env w),
  handle_update-status guid req env w,
  answer-status (delete_key guid) _ env w (λ k. refl) (delete-not_domain guid env w),
)
