-- ===== src/ApiKey/Issue.antt =====
-- What the service of internal/service/apikey stores for a new key, and what ValidateKey of
-- internal/repository/apikey then finds.
use Prim.Native.String.{count}
use text.Mathlib.TextLemmas.{length-append, length-pos_iff}
use be_aether_node.Base.{
  ℕ, ◌<◌, String, Bool, Option, none, some, List, [], ◌∷◌, ◌≡◌, refl, ap, All, Option-cases,
  Bool-cases, inl, inr, length, arith, str_eq, eq_iff, if◌then◌else◌,
}
use be_aether_node.Base.Hex.{hex_encode, count-hex_encode}
use be_aether_node.Store.{
  Env, World, ApikeyRow, db_error, repo_api_key_invalid, random_bytes, err, tick, ask, on_error,
  query_row, ◌>>=◌,
}
use be_aether_node.Store.Sql.{ListParams, select}
use be_aether_node.Store.Keeps.{
  keeps, Returns, Keeps, Keeps->>=, Keeps-pure, Keeps-if, Keeps-raise, Keeps-exec, Keeps-now,
  Keeps-random_bytes, Keeps-or_raise, All-append_row, All-update,
}
use be_aether_node.ApiKey.{
  ApiKey, create, insert_api_key, get_by_guid, get_by_guid_row, get_by_key_hash,
  get_by_key_hash_row, list, list_rows, count_rows, update_key, update_row, delete_key, delete_row,
  check_key, validate_key, live_hash, sha256_hex,
}
use be_aether_node.ApiKey.Service.{
  ApiKeyService, new_service, CreateApiKeyRequest, UpdateApiKeyRequest, create_api_key, get_api_key,
  list_api_keys, update_api_key, delete_api_key, validate_api_key, hash_key, new_date,
}

-- A call of the service.
pub data Call : Type 0 where
  create_call : CreateApiKeyRequest → Call
  get_call : String → Call
  list_call : ListParams → Call
  update_call : String → UpdateApiKeyRequest → Call
  delete_call : String → Call
  validate_call : String → Call

unfoldable pub run_call : ApiKeyService → Env → Call → World → World
run_call s env (create_call req) w = (create_api_key s req env w).1
run_call s env (get_call guid) w = (get_api_key guid env w).1
run_call s env (list_call params) w = (list_api_keys params env w).1
run_call s env (update_call guid req) w = (update_api_key guid req env w).1
run_call s env (delete_call guid) w = (delete_api_key guid env w).1
run_call s env (validate_call key) w = (validate_api_key key env w).1

unfoldable pub run_calls : ApiKeyService → Env → List Call → World → World
run_calls s env [] w = w
run_calls s env (c ∷ cs) w = run_calls s env cs (run_call s env c w)

-- rand.Read fills the buffer of 32 bytes.
abbrev pub FillsBuffer : Env → Type 0
FillsBuffer env = (n : ℕ) (bytes : List ℕ) → env.random n ≡ some bytes → length bytes ≡ 32

-- sha256.Sum256 has 32 bytes.
abbrev pub SumsTo32 : Env → Type 0
SumsTo32 env = (s : String) → length (env.sha256 s) ≡ 32

abbrev LongHash : ApikeyRow → Type 0
LongHash row = 64 < count row.key_hash

abbrev LongHashes : World → Type 0
LongHashes w = All LongHash w.api_keys

random_bytes-length :
    (env : Env)
    → FillsBuffer env
    → (bytes : List ℕ) → Returns env random_bytes bytes
    → length bytes ≡ 32
unfolding random_bytes
random_bytes-length env fills bytes (w, e) = elim (Option-cases (env.random w.steps)) [
  | inl n ↦ ground (arith, e)
  | inr (b, s) ↦ ground (arith, e, fills w.steps b s)
]

prefix_pos : (key_prefix : String) → 0 < count (new_service key_prefix).key_prefix
unfolding new_service
prefix_pos key_prefix = elim (Bool-cases (str_eq key_prefix "")) [
  | inl e ↦ rw e (omega arith)
  | inr e ↦ rw e (length-pos_iff.1 (λ n. ground (arith, n, eq_iff key_prefix "")))
]

module _ (env : Env) where
  insert-Keeps : (row : ApikeyRow) → LongHash row → Keeps env LongHashes (insert_api_key row)
  unfolding insert_api_key
  insert-Keeps row l =
      Keeps-exec env LongHashes (λ w p. p) _ _ (λ w h. All-append_row LongHash row w.api_keys l h)

  ignores : (w : World) → LongHashes w → LongHashes (tick w)
  ignores w p = p

  create-Keeps : (key : ApiKey) → 64 < count key.key_hash → Keeps env LongHashes (create key)
  unfolding create
  create-Keeps key l = search (keeps, ignores, insert-Keeps)

  update_row-Keeps :
      (id : ℕ) (notes : Option String) (expire_date : ℕ) (is_active : Bool) (t : ℕ)
      → Keeps env LongHashes (update_row id notes expire_date is_active t)
  unfolding update_row
  update_row-Keeps id notes expire_date is_active t =
      Keeps-exec env LongHashes ignores _ _ (λ w h. All-update LongHash _ _ w.api_keys (λ r l. l) h)

  delete_row-Keeps : (id t : ℕ) → Keeps env LongHashes (delete_row id t)
  unfolding delete_row
  delete_row-Keeps id t =
      Keeps-exec env LongHashes ignores _ _ (λ w h. All-update LongHash _ _ w.api_keys (λ r l. l) h)

  get_by_guid-Keeps : (guid : String) → Keeps env LongHashes (get_by_guid guid)
  unfolding get_by_guid get_by_guid_row
  get_by_guid-Keeps guid = search (keeps, ignores)

  list-Keeps : (params : ListParams) → Keeps env LongHashes (list params)
  unfolding list list_rows count_rows
  list-Keeps params = search (keeps, ignores)

  update_key-Keeps : (key : ApiKey) → Keeps env LongHashes (update_key key)
  unfolding update_key
  update_key-Keeps key = search (keeps, ignores, update_row-Keeps)

  delete_key-Keeps : (guid : String) → Keeps env LongHashes (delete_key guid)
  unfolding delete_key
  delete_key-Keeps guid = search (keeps, ignores, delete_row-Keeps)

  check_key-Keeps : (key : ApiKey) → Keeps env LongHashes (check_key key)
  unfolding check_key
  check_key-Keeps key = Keeps-if env LongHashes _ _ _ (Keeps-raise env LongHashes _) (
      Keeps->>= env LongHashes (Keeps-now env LongHashes ignores) (λ t _.
        Keeps-if env LongHashes _ _ _ (Keeps-raise env LongHashes _) (Keeps-pure env LongHashes _)))

  validate_key-Keeps : (key : String) → Keeps env LongHashes (validate_key key)
  unfolding validate_key get_by_key_hash get_by_key_hash_row
  validate_key-Keeps key = search (keeps, ignores, check_key-Keeps) depth 8

  new_date-Keeps : (date : Option String) (old : ℕ) → Keeps env LongHashes (new_date date old)
  unfolding new_date
  new_date-Keeps none old = Keeps-pure env LongHashes _
  new_date-Keeps (some s) old = Keeps-or_raise env LongHashes _ _

  update_api_key-Keeps :
      (guid : String) (req : UpdateApiKeyRequest) → Keeps env LongHashes (update_api_key guid req)
  unfolding update_api_key
  update_api_key-Keeps guid req =
      search (keeps, get_by_guid-Keeps, new_date-Keeps, update_key-Keeps) depth 8

  module _ (fills : FillsBuffer env) (key_prefix : String) where
    create_api_key-Keeps :
        (req : CreateApiKeyRequest)
        → Keeps env LongHashes (create_api_key (new_service key_prefix) req)
    unfolding create_api_key hash_key
    create_api_key-Keeps req =
        Keeps->>= env LongHashes (Keeps-random_bytes env LongHashes ignores) (λ bytes r.
          Keeps->>= env LongHashes (Keeps-or_raise env LongHashes _ _) (λ t _.
            Keeps->>= env LongHashes
              (create-Keeps _ (
                omega (
                  arith,
                  length-append (new_service key_prefix).key_prefix (hex_encode bytes),
                  count-hex_encode bytes,
                  random_bytes-length env fills bytes r,
                  prefix_pos key_prefix,
                )))
              (λ key _. Keeps-pure env LongHashes _)))

    run_call-LongHashes :
        (c : Call) (w : World)
        → LongHashes w
        → LongHashes (run_call (new_service key_prefix) env c w)
    unfolding run_call get_api_key list_api_keys delete_api_key validate_api_key
    run_call-LongHashes (create_call req) = (create_api_key-Keeps req).kept
    run_call-LongHashes (get_call guid) = (get_by_guid-Keeps guid).kept
    run_call-LongHashes (list_call params) = (list-Keeps params).kept
    run_call-LongHashes (update_call guid req) = (update_api_key-Keeps guid req).kept
    run_call-LongHashes (delete_call guid) = (delete_key-Keeps guid).kept
    run_call-LongHashes (validate_call key) = (validate_key-Keeps key).kept

    run_calls-LongHashes :
        (cs : List Call) (w : World)
        → LongHashes w
        → LongHashes (run_calls (new_service key_prefix) env cs w)
    unfolding run_calls
    run_calls-LongHashes [] w l = l
    run_calls-LongHashes (c ∷ cs) w l = run_calls-LongHashes cs _ (run_call-LongHashes c w l)

select-hash_none :
    (h : String) (rows : List ApikeyRow)
    → count h ≡ 64
    → All LongHash rows
    → select (live_hash h) rows ≡ []
unfolding select live_hash
select-hash_none h [] c l = refl
select-hash_none h (row ∷ rows) c (l, ls) = elim (Bool-cases (str_eq row.key_hash h)) [
  | inl e ↦ ground (arith, l, c, ap count ((eq_iff row.key_hash h).0 e))
  | inr e ↦ rw e (select-hash_none h rows c ls)
]

validate_none :
    (key : String) (env : Env) (w : World)
    → SumsTo32 env
    → LongHashes w
    → (validate_key key env w).0
      ≡ (if env.fault w.steps then err db_error else err repo_api_key_invalid)
unfolding validate_key get_by_key_hash get_by_key_hash_row ◌>>=◌ ask on_error query_row
validate_none key env w sums l = ground (
  arith,
  select-hash_none (sha256_hex env key) w.api_keys
      (omega (arith, count-hex_encode (env.sha256 key), sums key)) l,
)

-- With crypto/rand filling its buffer and SHA-256 sums of 32 bytes: whatever calls of the service
-- follow on a table without keys, and whatever its key prefix, no key is valid afterwards; with
-- the database answering, every key is refused as invalid.
pub run_calls-validate_none :
    (key_prefix : String) (env : Env) (cs : List Call) (w : World) (key : String)
    → FillsBuffer env
    → SumsTo32 env
    → w.api_keys ≡ []
    → let w' = run_calls (new_service key_prefix) env cs w in
      (validate_api_key key env w').0
      ≡ (if env.fault w'.steps then err db_error else err repo_api_key_invalid)
unfolding validate_api_key
run_calls-validate_none key_prefix env cs w key fills sums none_yet =
    validate_none key env _ sums (run_calls-LongHashes env fills key_prefix cs w (rw none_yet tt))
