-- ===== src/ApiKey/Validate.antt =====
-- When ValidateKey of internal/repository/apikey accepts a key, and what the service's updates and
-- deletions do to a later lookup.
use be_aether_node.Base.{suc, ◌≤◌, String, true, false, List, ◌∷◌, ◌≡◌, ◌↔◌, inl, inr, arith}
use be_aether_node.Store.{
  Env, World, ApikeyRow, ask, on_error, query_row, pure, raise, now, ◌>>=◌, ok, time_or_zero,
}
use be_aether_node.Store.Sql.{select}
use be_aether_node.Store.Laws.{List-cases}
use be_aether_node.ApiKey.{
  ApiKey, validate_key, check_key, get_by_key_hash, get_by_key_hash_row, live_hash, sha256_hex,
  api_key_from_db,
}

-- The first row that is not deleted and has the hash of the key is there, active, and not yet
-- expired when the clock is read after it.
abbrev pub Accepts : Env → World → String → ApiKey → Type 0
Accepts env w key k =
    (row : ApikeyRow) × (rows : List ApikeyRow) × (env.fault w.steps ≡ false)
    × (select (live_hash (sha256_hex env key)) w.api_keys ≡ row ∷ rows)
    × (row.is_active ≡ true)
    × (env.clock (suc w.steps) ≤ time_or_zero row.expire_date)
    × (k ≡ api_key_from_db env row)

validate_key-Accepts :
    (env : Env) (w : World) (key : String) (k : ApiKey)
    → (validate_key key env w).0 ≡ ok k
    → Accepts env w key k
unfolding validate_key check_key get_by_key_hash get_by_key_hash_row ask on_error query_row pure
    raise now ◌>>=◌ api_key_from_db
validate_key-Accepts env w key k h =
    elim (List-cases (select (live_hash (sha256_hex env key)) w.api_keys)) [
      | inl e ↦ ground (arith, h, e)
      | inr (row, rows, e) ↦ (
        row,
        rows,
        ground (arith, h, e),
        e,
        ground (arith, h, e),
        ground (arith, h, e),
        ground (arith, h, e),
      )
    ]

Accepts-validate_key :
    (env : Env) (w : World) (key : String) (k : ApiKey)
    → Accepts env w key k
    → (validate_key key env w).0 ≡ ok k
unfolding validate_key check_key get_by_key_hash get_by_key_hash_row ask on_error query_row pure
    raise now ◌>>=◌ api_key_from_db
Accepts-validate_key env w key k (row, rows, fault, found, active, expiry, same) =
    ground (arith, fault, found, active, expiry, same)

-- ValidateKey returns a key exactly if the database answers, a row that is not deleted has the hash
-- of the key, the first such row is active, and its expiry is not before the time read after the
-- lookup; the key is then that row's.
pub validate_key-Accepts_iff :
    (env : Env) (w : World) (key : String) (k : ApiKey)
    → ((validate_key key env w).0 ≡ ok k) ↔ Accepts env w key k
validate_key-Accepts_iff env w key k =
    (validate_key-Accepts env w key k, Accepts-validate_key env w key k)
