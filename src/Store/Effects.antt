-- ===== src/Store/Effects.antt =====
-- The world of internal/repository and internal/service, the environment, and the monad of the operations
-- that use them.
use be_aether_node.Base.{
  ℕ, suc, String, Bool, true, Option, none, some, List, [], ◌∷◌, ◌++◌, if◌then◌else◌,
}
use be_aether_node.Base.Int.{ℤ, pos, negsuc}
use be_aether_node.Store.Sql.{page}
use be_aether_node.Store.Rows.{
  ApikeyRow, UserRow, RefreshTokenRow, DeviceRow, LocationRow, InstallationPointRow, ThresholdRow,
  AlarmRow, Event,
}

-- The errors that the code tells apart, each a value of its own as in Go: two packages that
-- declare the same text declare different errors.
pub data Err : Type 0 where
  -- pgx.ErrNoRows, and any other error of the database or its driver.
  no_rows db_error : Err
  -- crypto/rand, time.Parse and bcrypt.
  random_error time_error bcrypt_error : Err
  -- internal/repository/apikey, internal/domain/apikey.
  repo_api_key_not_found repo_api_key_invalid api_key_not_found : Err
  -- internal/repository/user, internal/domain/user.
  repo_user_not_found user_not_found email_already_exists : Err
  -- internal/domain/auth, internal/service/auth, internal/repository/auth.
  auth_user_not_found invalid_credentials invalid_refresh_token refresh_token_not_found : Err
  refresh_token_expired jwt_error invalid_access_token : Err
  -- internal/repository/device, internal/domain/device.
  repo_device_not_found device_not_found serial_number_exists : Err
  -- internal/repository/location, internal/domain/location.
  repo_location_not_found location_not_found : Err
  -- internal/repository/installation_point, internal/domain/installation_point.
  repo_installation_point_not_found installation_point_not_found : Err
  -- internal/domain/threshold, internal/domain/alarm, and what both repositories make by Errorf.
  threshold_not_found alarm_not_found invalid_device_guid : Err

pub data Result (A : Type 0) : Type 0 where
  ok : A → Result A
  err : Err → Result A

-- internal/service/auth: the claims of an access token, with the times of the registered ones.
pub record AccessTokenClaims : Type 0 where
  pub user_guid : String
  pub email : String
  pub expires_at : ℕ
  pub issued_at : ℕ
  pub not_before : ℕ

-- What is outside the repository: the database's faults and ILIKE, clock and randomness, and the
-- packages uuid, sha256, time, bcrypt and jwt. The database has a clock (NOW()), a source of UUIDs
-- (uuid_generate_v4()) and an order of texts of its own, and returns groups, and rows that ORDER
-- BY leaves open, in any order of its own, another one for each statement. A Commit that fails may
-- have committed.
pub record Env : Type 0 where
  pub fault : ℕ → Bool
  pub ilike : String → String → Bool
  pub clock : ℕ → ℕ
  pub random : ℕ → Option (List ℕ)
  pub uuid_new : ℕ → ℕ
  pub uuid_parse : String → Option ℕ
  pub uuid_string : ℕ → String
  pub sha256 : String → List ℕ
  pub parse_time : String → Option ℕ
  pub bcrypt_hash : ℕ → String → Option String
  pub bcrypt_compare : String → String → Bool
  pub signed_string : String → AccessTokenClaims → Option String
  pub parse_claims : String → ℕ → String → Option AccessTokenClaims
  pub db_now : ℕ → ℕ
  pub db_uuid : ℕ → ℕ
  pub text_leb : String → String → Bool
  pub group_rank : ℕ → String → ℕ
  pub row_rank : ℕ → ℕ → ℕ
  pub commit_kept : ℕ → Bool

-- The tables, in the order of insertion, the events so far, and the number of uses of the environment.
pub record World : Type 0 where
  pub api_keys : List ApikeyRow
  pub users : List UserRow
  pub refresh_tokens : List RefreshTokenRow
  pub devices : List DeviceRow
  pub locations : List LocationRow
  pub installation_points : List InstallationPointRow
  pub thresholds : List ThresholdRow
  pub alarms : List AlarmRow
  pub events : List Event
  pub steps : ℕ

-- What was written stays written when an error comes back.
abbrev pub M : Type 0 → Type 0
M A = Env → World → Result A × World

abbrev pub tick : World → World
tick w = record w { steps = suc w.steps }

module _ {A : Type 0} where
  unfoldable pub pure : A → M A
  pure a _ w = (ok a, w)

  unfoldable pub raise : Err → M A
  raise e _ w = (err e, w)

  -- A value of the environment that is no use of it: a pure function of a package.
  unfoldable pub ask : (Env → A) → M A
  ask f env w = (ok (f env), w)

  -- The same, where the function can fail.
  unfoldable pub or_raise : (Env → Option A) → Err → M A
  or_raise f e env w = (elim (f env) [ none ↦ err e | some a ↦ ok a ], w)

  -- A statement that reads.
  unfoldable pub query : (Env → World → A) → M A
  query f env w = (if env.fault w.steps then err db_error else ok (f env w), tick w)

  abbrev pub head_or_no_rows : List A → Result A
  head_or_no_rows [] = err no_rows
  head_or_no_rows (a ∷ _) = ok a

  -- QueryRow and Scan: the first row.
  unfoldable pub query_row : (World → List A) → M A
  query_row f env w = (if env.fault w.steps then err db_error else head_or_no_rows (f w), tick w)

  -- `if errors.Is(err, from) { return to }`
  unfoldable pub on_error : (Err → Err) → M A → M A
  on_error f m env w = let (r, w') = m env w in (elim r [ ok a ↦ ok a | err e ↦ err (f e) ], w')

unfoldable pub refused : {A : Type 0} → M A
refused _ w = (err db_error, tick w)

-- A statement with LIMIT and OFFSET, both of type int32; PostgreSQL refuses negative ones.
unfoldable pub limit_offset : {A : Type 0} → ℤ → ℤ → (Env → World → List A) → M (List A)
limit_offset (pos limit) (pos offset) f = query (λ env w. page limit offset (f env w))
limit_offset (pos limit) (negsuc offset) f = refused
limit_offset (negsuc limit) offset f = refused

-- A statement that writes, where the constraints of the tables allow it.
unfoldable pub exec : (World → Bool) → (World → World) → M (Unit {0})
exec allowed f env w =
    if env.fault w.steps
    then (err db_error, tick w)
    else if allowed w
    then (ok tt, tick (f w))
    else (err db_error, tick w)

abbrev pub unconstrained : World → Bool
unconstrained w = true

infixl 5 ◌>>=◌ ◌>>◌
unfoldable pub ◌>>=◌ : {A B : Type 0} → M A → (A → M B) → M B
◌>>=◌ m f env w = let (r, w') = m env w in elim r [ ok a ↦ f a env w' | err e ↦ (err e, w') ]

abbrev pub ◌>>◌ : {A B : Type 0} → M A → M B → M B
m >> k = m >>= λ _. k

-- A statement that writes and returns a row, `no_rows` if there is none to return.
unfoldable pub exec_returning :
    {A : Type 0} → (Env → World → Bool) → (Env → World → Option (A × World)) → M A
exec_returning allowed f env w =
    if env.fault w.steps
    then (err db_error, tick w)
    else if allowed env w
    then (elim (f env w) [ none ↦ (err no_rows, tick w) | some (a, w') ↦ (ok a, tick w') ])
    else (err db_error, tick w)

unfoldable pub emit : Event → M (Unit {0})
emit e env w = (ok tt, record w { events = w.events ++ (e ∷ []) })

-- time.Now()
unfoldable pub now : M ℕ
now env w = (ok (env.clock w.steps), tick w)

-- `uuid.New().String()`
unfoldable pub fresh_uuid : M String
fresh_uuid env w = (ok (env.uuid_string (env.uuid_new w.steps)), tick w)

-- `_, err := rand.Read(make([]byte, 32))`
unfoldable pub random_bytes : M (List ℕ)
random_bytes env w = (elim (env.random w.steps) [ none ↦ err random_error | some b ↦ ok b ], tick w)

-- bcrypt.GenerateFromPassword, with a random salt.
unfoldable pub hash_password : String → M String
hash_password password env w =
    (elim (env.bcrypt_hash w.steps password) [ none ↦ err bcrypt_error | some h ↦ ok h ], tick w)

-- `v, err := f(); if err != nil { v = a }`
unfoldable pub or_value : {A : Type 0} → A → M A → M A
or_value a m env w = let (r, w') = m env w in (elim r [ ok b ↦ ok b | err e ↦ ok a ], w')

-- `_ = f()`
unfoldable pub ignore_error : M (Unit {0}) → M (Unit {0})
ignore_error m env w = (ok tt, (m env w).1)

-- The tables of one world with the steps of another.
abbrev pub restore_tables : World → World → World
restore_tables before w = record before { steps = w.steps; events = w.events }

-- What follows the work of a transaction: the commit, or the deferred rollback.
unfoldable pub finish : {A : Type 0} → World → Result A → Env → World → Result A × World
finish before (ok a) env w =
    if env.fault w.steps
    then (err db_error, if env.commit_kept w.steps then tick w else restore_tables before (tick w))
    else (ok a, tick w)
finish before (err e) env w = (err e, restore_tables before (tick w))

-- internal/repository/base.go: Begin, the work, `cleanup(true)`, and `defer cleanup(false)`. The
-- rollback leaves the tables as they were even if it reports an error.
unfoldable pub in_transaction : {A : Type 0} → M A → M A
in_transaction m env w =
    if env.fault w.steps
    then (err db_error, tick w)
    else let (r, w') = m env (tick w) in finish w r env w'
