-- ===== src/Auth/Handler.antt =====
-- internal/handler/auth_handler.go. A body is `none` where it does not bind.
use be_aether_node.Base.{String, Option, none, some}
use be_aether_node.Store.{Err, invalid_credentials, auth_user_not_found, Env, World}
use be_aether_node.Http.{Reply, success, error, text, answer, internal_error, bad_request}
use be_aether_node.Auth.Service.{
  AuthService, LoginRequest, LoginResult, RegisterRequest, UserInfo, login, logout, register,
  forgot_password, refresh_token,
}

-- `if err == auth.ErrInvalidCredentials { ... }`
abbrev pub login_error : {A : Type 0} → Err → Reply A
login_error invalid_credentials =
    error 401 "AUTH_INVALID_CREDENTIALS" (text "Invalid email or password")
login_error e = internal_error e

unfoldable pub handle_login :
    AuthService → Option LoginRequest → Env → World → Reply LoginResult × World
handle_login s none env w = (bad_request, w)
handle_login s (some req) env w =
    answer (login s req) (λ r. success 200 r "Login successful") login_error env w

-- The user of the context is `none` where no middleware has set one.
unfoldable pub handle_logout : Option String → Env → World → Reply (Unit {0}) × World
handle_logout none env w = (error 401 "AUTH_TOKEN_INVALID" (text "Invalid token"), w)
handle_logout (some user_guid) env w =
    answer (logout user_guid) (λ _. success 200 tt "Logged out successfully") internal_error env w

-- `if err == auth.ErrUserNotFound { ... }`
abbrev pub register_error : {A : Type 0} → Err → Reply A
register_error auth_user_not_found = error 409 "DUPLICATE_ENTRY" (text "Email already exists")
register_error e = internal_error e

unfoldable pub handle_register :
    AuthService → Option RegisterRequest → Env → World → Reply UserInfo × World
handle_register s none env w = (bad_request, w)
handle_register s (some req) env w =
    answer (register s req) (λ u. success 201 u "Registration successful") register_error env w

unfoldable pub handle_forgot_password : Option String → Env → World → Reply (Unit {0}) × World
handle_forgot_password none env w = (bad_request, w)
handle_forgot_password (some email) env w =
    answer (forgot_password email) (λ _. success 200 tt "Password reset instructions sent to email")
      internal_error env w

unfoldable pub handle_refresh :
    AuthService → Option String → Env → World → Reply LoginResult × World
handle_refresh s none env w = (bad_request, w)
handle_refresh s (some token) env w =
    answer (refresh_token s token) (λ r. success 200 r "Token refreshed successfully")
      (λ _. error 401 "AUTH_REFRESH_TOKEN_INVALID" (text "Invalid or expired refresh token")) env w
