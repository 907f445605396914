-- ===== src/Auth/Service.antt =====
-- internal/service/auth: login, registration and the rotation of refresh tokens.
use be_aether_node.Base.{ℕ, ◌+◌, ◌/◌, String, true, none, some, if◌then◌else◌, second}
use be_aether_node.Base.Hex.{hex_encode}
use be_aether_node.Store.{
  Err, user_not_found, invalid_credentials, invalid_refresh_token, auth_user_not_found, jwt_error,
  invalid_access_token, M, pure, or_raise, on_error, now, random_bytes, hash_password, ignore_error,
  in_transaction, ◌>>=◌, ◌>>◌, ok, err,
}
use be_aether_node.User.{User, get_by_email, get_by_guid, exists_by_email}
use be_aether_node.User as Users
use be_aether_node.User.Service.{refuse_if}
use be_aether_node.Auth.{create, get_by_token_hash, delete_by_user_guid, delete_by_token_hash}

pub record LoginResult : Type 0 where
  pub access_token : String
  pub refresh_token : String
  pub expires_in : ℕ

pub record LoginRequest : Type 0 where
  pub email : String
  pub password : String

pub record RegisterRequest : Type 0 where
  pub email : String
  pub password : String
  pub first_name : String
  pub last_name : String

pub record UserInfo : Type 0 where
  pub guid : String
  pub email : String
  pub first_name : String
  pub last_name : String

pub record AuthService : Type 0 where
  pub jwt_secret : String
  pub access_token_ttl : ℕ
  pub refresh_token_ttl : ℕ

unfoldable pub hash_token : String → String
hash_token token = token

unfoldable pub generate_refresh_token : M String
generate_refresh_token = do token_bytes ← random_bytes; pure (hex_encode token_bytes)

unfoldable pub generate_access_token : AuthService → User → M String
generate_access_token s u = do
  t ← now
  or_raise
      (λ env. env.signed_string s.jwt_secret (record {
        user_guid = u.guid;
        email = u.email;
        expires_at = t + s.access_token_ttl;
        issued_at = t;
        not_before = t;
      }))
      jwt_error

-- A new refresh token for the user, stored with its expiry.
unfoldable pub issue_refresh_token : AuthService → String → M String
issue_refresh_token s user_guid = do
  refresh_token ← generate_refresh_token
  t ← now
  create (record {
    guid = "";
    user_guid = user_guid;
    token_hash = hash_token refresh_token;
    expires_at = t + s.refresh_token_ttl;
    created_at = 0;
  })
  pure refresh_token

-- The tokens that Login and RefreshToken answer with.
unfoldable pub issue_tokens : AuthService → User → M LoginResult
issue_tokens s u = do
  access_token ← generate_access_token s u
  refresh_token ← issue_refresh_token s u.guid
  pure (record {
    access_token = access_token;
    refresh_token = refresh_token;
    expires_in = s.access_token_ttl / second;
  })

-- `if errors.Is(err, userPkg.ErrUserNotFound) { return ErrInvalidCredentials }`
abbrev pub invalid_if_user_not_found : Err → Err
invalid_if_user_not_found user_not_found = invalid_credentials
invalid_if_user_not_found e = e

-- bcrypt.CompareHashAndPassword
unfoldable pub check_password : User → String → M (Unit {0})
check_password u password =
    or_raise (λ env. if env.bcrypt_compare u.password_hash password then some tt else none)
      invalid_credentials

unfoldable pub login : AuthService → LoginRequest → M LoginResult
login s req = do
  u ← on_error invalid_if_user_not_found (get_by_email req.email)
  check_password u req.password
  issue_tokens s u

unfoldable pub logout : String → M (Unit {0})
logout user_guid = delete_by_user_guid user_guid

-- The work of the transaction of Register: createUserWithQueries and createRefreshTokenWithQueries
-- run the statements of the two repositories.
unfoldable pub register_work : AuthService → RegisterRequest → String → M UserInfo
register_work s req hashed_password = do
  u ← Users.create (record {
    guid = "";
    email = req.email;
    password_hash = hashed_password;
    first_name = req.first_name;
    last_name = req.last_name;
    role_guid = none;
    is_active = true;
    created_at = 0;
    updated_at = 0;
    deleted_at = none;
  })
  issue_refresh_token s u.guid
  pure (record {
    guid = u.guid;
    email = u.email;
    first_name = u.first_name;
    last_name = u.last_name;
  })

unfoldable pub register : AuthService → RegisterRequest → M UserInfo
register s req = do
  exists ← exists_by_email req.email
  refuse_if exists
  hashed_password ← hash_password req.password
  in_transaction (register_work s req hashed_password)

-- An unknown user is no error.
unfoldable pub forgive_user_not_found : M User → M (Unit {0})
forgive_user_not_found m env w =
    let (r, w') = m env w in
    (elim r [ ok _ ↦ ok tt | err user_not_found ↦ ok tt | err e ↦ err e ], w')

unfoldable pub forgot_password : String → M (Unit {0})
forgot_password email = forgive_user_not_found (get_by_email email)

unfoldable pub refresh_token : AuthService → String → M LoginResult
refresh_token s token = do
  rt ← on_error (λ _. invalid_refresh_token) (get_by_token_hash (hash_token token))
  u ← on_error (λ _. auth_user_not_found) (get_by_guid rt.user_guid)
  ignore_error (delete_by_token_hash (hash_token token))
  issue_tokens s u

-- The GUID of the user, where the library finds the token valid at the time.
unfoldable pub validate_access_token : AuthService → String → M String
validate_access_token s token = do
  t ← now
  claims ← or_raise (λ env. env.parse_claims s.jwt_secret t token) invalid_access_token
  pure claims.user_guid
