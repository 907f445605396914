-- ===== src/ApiKey/Change.antt =====
-- What the service's updates and deletions do to a later lookup.
use be_aether_node.Base.{
  ℕ, suc, String, true, false, Option, none, some, List, ◌∷◌, ◌≡◌, refl, ap, ◌∙◌, arith, map,
  eq_iff, Option-cases, inl, inr,
}
use be_aether_node.Store.{
  to_micros, Env, World, ApikeyRow, ask, or_raise, on_error, query_row, pure, now, exec, ◌>>=◌, ok,
  err, repo_api_key_not_found, optional_text, text_or_empty, override,
}
use be_aether_node.Store.Sql.{select, update}
use be_aether_node.Store.Laws.{select-update, select-update_none, select-head, List-cases}
use be_aether_node.ApiKey.{
  ApiKey, get_by_guid, get_by_guid_row, update_key, update_row, delete_key, delete_row, live_guid,
  api_key_from_db,
}
use be_aether_node.ApiKey.Service.{
  UpdateApiKeyRequest, update_api_key, delete_api_key, get_api_key, new_date,
}

-- What the statements of UpdateAPIKey and DeleteAPIKey make of a row.
abbrev deleted_row : ℕ → ApikeyRow → ApikeyRow
deleted_row t r = record r { deleted_at = some (to_micros t); updated_at = some (to_micros t) }

deleted_row-live_guid : (id t : ℕ) (r : ApikeyRow) → live_guid id (deleted_row t r) ≡ false
unfolding live_guid
deleted_row-live_guid id t r = ground arith

-- After a successful DeleteAPIKey, if the database answers, GetAPIKey of the GUID finds no key.
pub delete_api_key-get_api_key :
    (guid : String) (env : Env) (w : World)
    → (delete_api_key guid env w).0 ≡ ok tt
    → let w' = (delete_api_key guid env w).1 in
      env.fault w'.steps ≡ false → (get_api_key guid env w').0 ≡ err repo_api_key_not_found
unfolding delete_api_key get_api_key delete_key delete_row get_by_guid get_by_guid_row ask or_raise
    on_error query_row pure now exec ◌>>=◌
delete_api_key-get_api_key guid env w h answers = elim (Option-cases (env.uuid_parse guid)) [
  | inl e ↦ ground (arith, e, h)
  | inr (id, e) ↦ ground (
    arith,
    e,
    h,
    answers,
    select-update_none (live_guid id) (deleted_row (env.clock w.steps)) w.api_keys
        (deleted_row-live_guid id (env.clock w.steps)),
  )
]

text_or_empty-optional_text : (s : String) → text_or_empty (optional_text s) ≡ s
text_or_empty-optional_text s = ground (arith, eq_iff s "")

abbrev updated_row : ApiKey → ℕ → ApikeyRow → ApikeyRow
updated_row key t r = record r {
  notes = optional_text key.notes;
  expire_date = some (to_micros key.expire_date);
  is_active = key.is_active;
  updated_at = some (to_micros t);
}

updated_row-live_guid :
    (id t : ℕ) (key : ApiKey) (r : ApikeyRow)
    → live_guid id r ≡ true
    → live_guid id (updated_row key t r) ≡ true
unfolding live_guid
updated_row-live_guid id t key r h = h

-- uuid.Parse reads what String writes.
abbrev pub ParsesBack : Env → Type 0
ParsesBack env = (u : ℕ) → env.uuid_parse (env.uuid_string u) ≡ some u

live_guid-guid : (id : ℕ) (r : ApikeyRow) → live_guid id r ≡ true → r.guid ≡ some id
unfolding live_guid
live_guid-guid id r h = ground (arith, h)

-- The request applied to what was read, with the date that it then has.
abbrev changed : UpdateApiKeyRequest → ℕ → ApiKey → ApiKey
changed req date key = record key {
  notes = override req.notes key.notes;
  expire_date = date;
  is_active = override req.is_active key.is_active;
}

-- A row that was written is read as the key, at its new time.
from_updated :
    (env : Env) (id t date : ℕ) (req : UpdateApiKeyRequest) (row : ApikeyRow)
    → let k = changed req date (api_key_from_db env row) in
      api_key_from_db env (updated_row k t row)
      ≡ record k { expire_date = to_micros date; updated_at = to_micros t }
unfolding api_key_from_db
from_updated env id t date req row = rw (text_or_empty-optional_text _) refl

from_db-guid :
    (env : Env) (row : ApikeyRow) (id : ℕ)
    → row.guid ≡ some id
    → (api_key_from_db env row).guid ≡ env.uuid_string id
unfolding api_key_from_db
from_db-guid env row id g = ground (arith, g)

date_of : Env → UpdateApiKeyRequest → ApiKey → Option ℕ
date_of env req key = elim req.expire_date [
  | none ↦ some key.expire_date
  | some s ↦ env.parse_time s
]

found_updated :
    (id t : ℕ) (key : ApiKey) (rows : List ApikeyRow) (x : ApikeyRow) (xs : List ApikeyRow)
    → select (live_guid id) rows ≡ x ∷ xs
    → select (live_guid id) (update (live_guid id) (updated_row key t) rows)
      ≡ updated_row key t x ∷ map (updated_row key t) xs
found_updated id t key rows x xs e =
    select-update (live_guid id) (updated_row key t) rows (updated_row-live_guid id t key)
    ∙ ap (map (updated_row key t)) e

-- Where uuid.Parse reads back what String writes: after an UpdateAPIKey that returns a key, if the
-- database answers, GetAPIKey of the GUID returns that key with the time of the update, this time
-- and the expiry date cut to whole microseconds.
pub update_api_key-get_api_key :
    (guid : String) (req : UpdateApiKeyRequest) (env : Env) (w : World) (k : ApiKey)
    → ParsesBack env
    → (update_api_key guid req env w).0 ≡ ok k
    → let w' = (update_api_key guid req env w).1 in
      env.fault w'.steps ≡ false
      → (get_api_key guid env w').0
        ≡ ok (record k {
          expire_date = to_micros k.expire_date;
          updated_at = to_micros (env.clock (suc w.steps));
        })
unfolding update_api_key get_api_key update_key update_row get_by_guid get_by_guid_row ask or_raise
    on_error query_row pure now exec ◌>>=◌ new_date date_of
update_api_key-get_api_key guid req env w k back h answers =
    elim (Option-cases (env.uuid_parse guid)) [
      | inl e ↦ ground (arith, e, h)
      | inr (id, e) ↦ elim (List-cases (select (live_guid id) w.api_keys)) [
        | inl n ↦ ground (arith, e, h, n)
        | inr (row, rows, found) ↦ elim (Option-cases (date_of env req (api_key_from_db env row))) [
          | inl n ↦ ground (arith, e, h, found, n)
          | inr (date, d) ↦ ground (
            arith,
            e,
            h,
            answers,
            found,
            d,
            back id,
            from_db-guid env row id
                (live_guid-guid id row (select-head (live_guid id) w.api_keys row rows found)),
            found_updated id (env.clock (suc w.steps)) (changed req date (api_key_from_db env row))
                w.api_keys row rows found,
            from_updated env id (env.clock (suc w.steps)) date req row,
          )
        ]
      ]
    ]
