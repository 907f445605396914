-- ===== src/ApiKey/Unlisted.antt =====
-- A key without notes, between CreateAPIKey and List.
use Prim.Native.String.{◌++◌ as text_append}
use be_aether_node.Base.Int.{ℤ, pos, negsuc}
use be_aether_node.Base.{
  ◌-◌, ◌*◌, map, if◌then◌else◌, ℕ, suc, subst, sym, String, false, none, some, List, ◌≡◌, refl, ap,
  ◌∙◌, arith, length, Option-cases, Bool-cases, inl, inr, str_eq, eq_iff,
}
use be_aether_node.Base.Hex.{hex_encode}
use be_aether_node.Store.{
  to_micros, Env, World, ApikeyRow, ask, or_raise, now, exec, fresh_if_empty, fresh_uuid,
  random_bytes, pure, ◌>>=◌, ok, err, Result, db_error, newest_first, query, limit_offset, refused,
  tick, optional_text, or_nil,
}
use be_aether_node.Store.Sql.{ListParams, select, append_row, total_pages, positive_or, to_int32}
use be_aether_node.Store.Keeps.{Result-cases}
use be_aether_node.Store.Laws.{select-append_none, length-select-append}
use be_aether_node.ApiKey.{
  ApiKey, ListResult, list, list_rows, count_rows, create, insert_api_key, live, listed,
  search_pattern, api_key_from_db,
}
use be_aether_node.ApiKey.Service.{
  ApiKeyService, CreateApiKeyRequest, ApiKeyWithKey, create_api_key, hash_key, mask_key,
}

-- The row that Create writes for a key.
abbrev created_row : ApiKey → ℕ → ℕ → ApikeyRow
created_row key guid t = record {
  guid = some guid;
  key_hash = key.key_hash;
  notes = optional_text key.notes;
  expire_date = some (to_micros key.expire_date);
  is_active = key.is_active;
  created_at = some (to_micros t);
  updated_at = some (to_micros t);
  deleted_at = none;
}

-- A successful Create adds a row.
create-adds :
    (key : ApiKey) (env : Env) (w : World) (k : ApiKey)
    → (create key env w).0 ≡ ok k
    → (guid : ℕ) × (t : ℕ) × ((create key env w).1.api_keys
        ≡ append_row (created_row key guid t) w.api_keys)
unfolding create insert_api_key fresh_if_empty fresh_uuid ask now exec pure ◌>>=◌
create-adds key env w k h = elim (Bool-cases (str_eq key.guid "")) [
  | inl e ↦ (
    or_nil (env.uuid_parse (env.uuid_string (env.uuid_new w.steps))),
    env.clock (suc w.steps),
    ground (arith, h, e),
  )
  | inr e ↦ (or_nil (env.uuid_parse key.guid), env.clock w.steps, ground (arith, h, e))
]

created-listed :
    (env : Env) (pattern : String) (key : ApiKey) (guid t : ℕ)
    → key.notes ≡ ""
    → listed env pattern (created_row key guid t) ≡ false
unfolding listed
created-listed env pattern key guid t empty = ground (arith, empty, eq_iff key.notes "")

-- The key that CreateAPIKey asks the repository to store.
abbrev requested : ApiKeyService → CreateApiKeyRequest → List ℕ → ℕ → ApiKey
requested s req bytes date =
    let plain_key = text_append s.key_prefix (hex_encode bytes) in
    record {
      guid = "";
      key_hash = hash_key plain_key;
      key_masked = mask_key plain_key;
      notes = req.notes;
      expire_date = date;
      is_active = req.is_active;
      created_at = 0;
      updated_at = 0;
      deleted_at = none;
    }

-- The same result, but for one key more in Total and TotalPage.
abbrev pub one_more : Result ListResult → Result ListResult
one_more (ok r) =
    ok (record r { total = suc r.total; total_page = total_pages (suc r.total) r.limit })
one_more (err e) = err e

-- The rows of a page are the same in two states that differ in the rows, of which the same match.
list_rows-same :
    (pattern : String) (limit offset : ℤ) (env : Env) (v : World) (rows more : List ApikeyRow)
    → select (listed env pattern) more ≡ select (listed env pattern) rows
    → ((list_rows pattern limit offset env (record v { api_keys = more })).0
        ≡ (list_rows pattern limit offset env (record v { api_keys = rows })).0)
      × ((list_rows pattern limit offset env (record v { api_keys = more })).1
          ≡ tick (record v { api_keys = more }))
      × ((list_rows pattern limit offset env (record v { api_keys = rows })).1
          ≡ tick (record v { api_keys = rows }))
unfolding list_rows limit_offset query refused newest_first
list_rows-same pattern (pos limit) (pos offset) env v rows more same = (rw same refl, refl, refl)
list_rows-same pattern (pos limit) (negsuc offset) env v rows more same = (refl, refl, refl)
list_rows-same pattern (negsuc limit) offset env v rows more same = (refl, refl, refl)

-- List after the statement that reads the page.
abbrev rest_of_list : ℕ → ℕ → Result (List ApikeyRow) → Env → World → Result ListResult
rest_of_list limit page (err e) env w = err e
rest_of_list limit page (ok rows) env w =
    if env.fault w.steps
    then err db_error
    else let total = length (select live w.api_keys) in
      ok (record {
        api_keys = map (api_key_from_db env) rows;
        total = total;
        page = page;
        limit = limit;
        total_page = total_pages total limit;
      })

list-rest :
    (params : ListParams) (env : Env) (w : World)
    → let limit = positive_or 10 params.limit in
      let page = positive_or 1 params.page in
      let read =
        list_rows (search_pattern params) (to_int32 limit) (to_int32 ((page - 1) * limit)) env w in
      (list params env w).0 ≡ rest_of_list limit page read.0 env read.1
unfolding list count_rows query ask pure ◌>>=◌
list-rest params env w =
    let limit = positive_or 10 params.limit in
    let page = positive_or 1 params.page in
    let read =
      list_rows (search_pattern params) (to_int32 limit) (to_int32 ((page - 1) * limit)) env w in
    elim (Result-cases read.0) [
      | inl (rows, r) ↦ elim (Bool-cases (env.fault read.1.steps)) [
        | inl f ↦ ground (arith, r, f)
        | inr f ↦ ground (arith, r, f)
      ]
      | inr (e, r) ↦ ground (arith, r)
    ]

rest-one_more :
    (limit page : ℕ) (r : Result (List ApikeyRow)) (env : Env) (v : World)
    (rows more : List ApikeyRow)
    → length (select live more) ≡ suc (length (select live rows))
    → rest_of_list limit page r env (tick (record v { api_keys = more }))
      ≡ one_more (rest_of_list limit page r env (tick (record v { api_keys = rows })))
rest-one_more limit page (err e) env v rows more count = refl
rest-one_more limit page (ok found) env v rows more count =
    elim (Bool-cases (env.fault (suc v.steps))) [ inl f ↦ rw f refl | inr f ↦ rw (f, count) refl ]

list-one_more :
    (params : ListParams) (env : Env) (v : World) (rows more : List ApikeyRow)
    → select (listed env (search_pattern params)) more
      ≡ select (listed env (search_pattern params)) rows
    → length (select live more) ≡ suc (length (select live rows))
    → (list params env (record v { api_keys = more })).0
      ≡ one_more (list params env (record v { api_keys = rows })).0
list-one_more params env v rows more same count =
    let limit = positive_or 10 params.limit in
    let page = positive_or 1 params.page in
    let (read, after_more, after_rows) =
      list_rows-same (search_pattern params) (to_int32 limit) (to_int32 ((page - 1) * limit)) env v
        rows more same in
    rw
      (
        list-rest params env (record v { api_keys = more }),
        list-rest params env (record v { api_keys = rows }),
        read,
        after_more,
        after_rows,
      )
      (rest-one_more limit page _ env v rows more count)

unlisted_rows :
    (env : Env) (w : World) (params : ListParams) (key k : ApiKey)
    → key.notes ≡ ""
    → (create key env w).0 ≡ ok k
    → let rows = (create key env w).1.api_keys in
      (select (listed env (search_pattern params)) rows
        ≡ select (listed env (search_pattern params)) w.api_keys)
      × (length (select live rows) ≡ suc (length (select live w.api_keys)))
unlisted_rows env w params key k empty c =
    let (guid, t, rows) = create-adds key env w k c in
    let row = created_row key guid t in
    (
      ap (select (listed env (search_pattern params))) rows
          ∙ select-append_none (listed env (search_pattern params)) row w.api_keys
              (created-listed env (search_pattern params) key guid t empty),
      ap (λ rs. length (select live rs)) rows ∙ length-select-append live row w.api_keys refl,
    )

-- After CreateAPIKey has returned a key without notes, List answers every request, an empty search
-- included, as it would in the same state without that key, but that Total, and so TotalPage, counts
-- one key more.
pub create_api_key_unlisted :
    (s : ApiKeyService) (req : CreateApiKeyRequest) (env : Env) (w : World) (k : ApiKeyWithKey)
    (params : ListParams)
    → req.notes ≡ ""
    → (create_api_key s req env w).0 ≡ ok k
    → let w' = (create_api_key s req env w).1 in
      (list params env w').0 ≡ one_more (list params env (record w' { api_keys = w.api_keys })).0
unfolding create_api_key random_bytes or_raise pure ◌>>=◌
create_api_key_unlisted s req env w k params empty h = elim (Option-cases (env.random w.steps)) [
  | inl e ↦ ground (arith, h, e)
  | inr (bytes, b) ↦ elim (Option-cases (env.parse_time req.expire_date)) [
    | inl e ↦ ground (arith, h, e, b)
    | inr (date, d) ↦ elim (Result-cases (create (requested s req bytes date) env (tick w)).0) [
      | inl (key, c) ↦
          let (matching, live_keys) =
            unlisted_rows env (tick w) params (requested s req bytes date) key empty c in
          let made : (create_api_key s req env w).1
              ≡ (create (requested s req bytes date) env (tick w)).1 =
            ground (arith, b, d, c) in
          subst
            (λ v.
              (list params env v).0
              ≡ one_more (list params env (record v { api_keys = w.api_keys })).0)
            (sym made)
            (list-one_more params env (create (requested s req bytes date) env (tick w)).1
              w.api_keys _ matching live_keys)
      | inr (e, c) ↦ ground (arith, h, b, d, c)
    ]
  ]
]
