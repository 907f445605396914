-- ===== src/Middleware.antt =====
-- The JWT error handlers of pkg/middleware/middleware.go.
--
-- A Go error is a tree of what it wraps, and errors.Is looks for a sentinel in it. The library's
-- sentinels are compared by identity. `none` is a nil error.
use be_aether_node.Base.{
  ℕ, String, Bool, true, false, ◌||◌, Option, none, some, if◌then◌else◌, str_eq,
}
pub mod Agreement
mod Scenarios

-- The errors of the package jwt that the code names, and echo.ErrUnauthorized.
pub data Sentinel : Type 0 where
  token_expired token_malformed token_signature_invalid token_invalid_claims : Sentinel
  token_not_valid_yet unauthorized : Sentinel

-- An error with a text alone, one that wraps another or joins two, an *echo.HTTPError without and
-- with an internal error, and a *JWTAuthError of a nil and of another error, with code and reason.
pub data Error : Type 0 where
  sentinel : Sentinel → Error
  plain : String → Error
  wrap : String → Error → Error
  join : Error → Error → Error
  http_error : ℕ → Error
  http_error_internal : ℕ → Error → Error
  jwt_auth_error_nil : String → String → Error
  jwt_auth_error : Error → String → String → Error

abbrev pub same_sentinel : Sentinel → Sentinel → Bool
same_sentinel token_expired token_expired = true
same_sentinel token_malformed token_malformed = true
same_sentinel token_signature_invalid token_signature_invalid = true
same_sentinel token_invalid_claims token_invalid_claims = true
same_sentinel token_not_valid_yet token_not_valid_yet = true
same_sentinel unauthorized unauthorized = true
same_sentinel _ _ = false

-- errors.Is, through Unwrap.
unfoldable pub is : Sentinel → Error → Bool
is t (sentinel s) = same_sentinel s t
is t (plain _) = false
is t (wrap _ e) = is t e
is t (join a b) = is t a || is t b
is t (http_error _) = false
is t (http_error_internal _ e) = is t e
is t (jwt_auth_error_nil _ _) = false
is t (jwt_auth_error e _ _) = is t e

unfoldable pub errors_is : Option Error → Sentinel → Bool
errors_is none t = false
errors_is (some e) t = is t e

-- The state of a handler: the error, the code and the message so far.
pub record Found : Type 0 where
  pub error : Option Error
  pub err_code : String
  pub message : String

-- `if he.Internal != nil { err = he.Internal }`
unfoldable pub unwrap_http : Option Error → Option Error
unwrap_http (some (http_error_internal _ e)) = some e
unwrap_http e = e

-- `if jwtErr, ok := err.(*JWTAuthError); ok`
unfoldable pub unwrap_jwt : Option Error → Found
unwrap_jwt (some (jwt_auth_error e code reason)) = record {
  error = some e;
  err_code = code;
  message = reason;
}
unwrap_jwt (some (jwt_auth_error_nil code reason)) = record {
  error = none;
  err_code = code;
  message = reason;
}
unwrap_jwt e = record { error = e; err_code = ""; message = "" }

-- The lines that both handlers begin with.
unfoldable pub found : Option Error → Found
found e = unwrap_jwt (unwrap_http e)

-- The status code, the error code and the message of an answer.
pub record Answer : Type 0 where
  pub code : ℕ
  pub err_code : String
  pub message : String

-- `if errCode == "" { ... }` and `if message == "" { ... }`
unfoldable pub fill : Found → String → String → Answer
fill f code message = record {
  code = 401;
  err_code = if str_eq f.err_code "" then code else f.err_code;
  message = if str_eq f.message "" then message else f.message;
}

-- The switch of JWTAuthErrorHandler on an error that is not nil.
unfoldable pub classify_some : Error → Found → Answer
classify_some e f =
    if is token_expired e
    then fill f "TOKEN_EXPIRED" "Access token has expired"
    else if is token_malformed e
    then fill f "TOKEN_MALFORMED" "Malformed access token"
    else if is token_signature_invalid e
    then fill f "TOKEN_SIGNATURE_INVALID" "Invalid token signature"
    else if is token_invalid_claims e
    then fill f "TOKEN_INVALID" "Invalid token claims"
    else if is token_not_valid_yet e
    then fill f "TOKEN_INVALID" "Token not valid yet"
    else if is unauthorized e
    then fill f "TOKEN_INVALID" "Unauthorized"
    else fill f "TOKEN_INVALID" "Invalid or expired access token"

unfoldable pub classify : Option Error → Found → Answer
classify none f = record { code = 500; err_code = "TOKEN_INVALID"; message = "Unknown JWT error" }
classify (some e) f = classify_some e f

-- The switch of JWTAuthErrorHandlerWithContext on an error that is not nil.
unfoldable pub classify_some_with_context : Error → Found → Answer
classify_some_with_context e f =
    if is token_expired e
    then fill f "TOKEN_EXPIRED" "Access token has expired"
    else if is token_malformed e
    then fill f "TOKEN_MALFORMED" "Malformed access token"
    else if is token_signature_invalid e
    then fill f "TOKEN_SIGNATURE_INVALID" "Invalid token signature"
    else if is token_invalid_claims e
    then fill f "TOKEN_INVALID" "Invalid token claims"
    else if is token_not_valid_yet e
    then fill f "TOKEN_INVALID" "Token not valid yet"
    else if is unauthorized e
    then fill f "TOKEN_INVALID" "Unauthorized"
    else fill f "TOKEN_INVALID" "Invalid or expired access token"

unfoldable pub classify_with_context : Option Error → Found → Answer
classify_with_context none f = record {
  code = 500;
  err_code = "TOKEN_INVALID";
  message = "Unknown JWT error";
}
classify_with_context (some e) f = classify_some_with_context e f

pub data Method : Type 0 where
  head other : Method

-- What a handler does with the response: nothing if it is committed, a status without or with a
-- body, or a panic.
pub data Written : Type 0 where
  untouched : Written
  no_content : ℕ → Written
  json : Answer → Written
  panicked : Written

-- The lines that both handlers end with.
unfoldable pub respond : Method → Answer → Written
respond head a = no_content a.code
respond other a = json a

unfoldable pub jwt_auth_error_handler : Bool → Method → Option Error → Written
jwt_auth_error_handler committed method e =
    if committed then untouched else let f = found e in respond method (classify f.error f)

-- `err == jwt.ErrTokenExpired`
unfoldable pub is_expired_itself : Option Error → Bool
is_expired_itself (some (sentinel token_expired)) = true
is_expired_itself e = false

-- The lines from the debug event on: `err.Error()` of a nil error panics.
unfoldable pub debug_and_classify : Method → Option Error → Found → Written
debug_and_classify method none f = panicked
debug_and_classify method (some e) f = respond method (classify_with_context (some e) f)

abbrev pub direct_match : Answer
direct_match = record {
  code = 401;
  err_code = "TOKEN_EXPIRED";
  message = "Direct match: token is expired";
}

unfoldable pub jwt_auth_error_handler_with_context : Bool → Method → Option Error → Written
jwt_auth_error_handler_with_context committed method e =
    if committed
    then untouched
    else let f = found e in
      if is_expired_itself f.error
      then respond method direct_match
      else debug_and_classify method f.error f

unfoldable pub get_jwt_err_code : Option Error → String
get_jwt_err_code none = "TOKEN_INVALID"
get_jwt_err_code (some e) =
    if is token_expired e
    then "TOKEN_EXPIRED"
    else if is token_malformed e
    then "TOKEN_MALFORMED"
    else if is token_signature_invalid e
    then "TOKEN_SIGNATURE_INVALID"
    else "TOKEN_INVALID"

unfoldable pub get_jwt_err_reason : Option Error → String
get_jwt_err_reason none = "Invalid or expired access token"
get_jwt_err_reason (some e) =
    if is token_expired e
    then "Access token has expired"
    else if is token_malformed e
    then "Malformed access token"
    else if is token_signature_invalid e
    then "Invalid token signature"
    else "Invalid or expired access token"

abbrev new_jwt_auth_error : Option Error → String → String → Error
new_jwt_auth_error none code reason = jwt_auth_error_nil code reason
new_jwt_auth_error (some e) code reason = jwt_auth_error e code reason

unfoldable pub jwt_auth_error_handler_func : Option Error → Option Error
jwt_auth_error_handler_func e =
    some (new_jwt_auth_error e (get_jwt_err_code e) (get_jwt_err_reason e))
