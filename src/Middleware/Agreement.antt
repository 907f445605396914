-- ===== src/Middleware/Agreement.antt =====
-- How the two JWT error handlers relate, and what the wrapping error does to an answer.
use be_aether_node.Base.{
  String, Bool, true, false, Option, none, some, ◌≡◌, refl, ap, ◌≢◌, ◌↔◌, arith, if◌then◌else◌,
}
use be_aether_node.Middleware.{
  Error, http_error_internal, jwt_auth_error, jwt_auth_error_nil, is, found, unwrap_http,
  unwrap_jwt, Found, Answer, fill, classify, classify_some, classify_with_context,
  classify_some_with_context, Method, head, other, Written, json, panicked, respond,
  jwt_auth_error_handler, is_expired_itself, debug_and_classify,
  jwt_auth_error_handler_with_context, get_jwt_err_code, get_jwt_err_reason,
  jwt_auth_error_handler_func, token_expired, sentinel, direct_match,
}

respond-not_panicked : (method : Method) (a : Answer) → respond method a ≢ panicked
unfolding respond
respond-not_panicked head a h = cc h
respond-not_panicked other a h = cc h

panics-cases :
    (method : Method) (x : Option Error) (f : Found)
    → ((if is_expired_itself x then respond method direct_match else debug_and_classify method x f)
        ≡ panicked)
      ↔ (x ≡ none)
unfolding is_expired_itself debug_and_classify
panics-cases method none f = (λ h. refl, λ h. refl)
panics-cases method (some (sentinel token_expired)) f =
    (λ h. absurd (respond-not_panicked method direct_match h), λ h. cc h)
panics-cases method (some _) f = (λ h. absurd (respond-not_panicked method _ h), λ h. cc h)

switches_agree : (e : Error) (f : Found) → classify_some_with_context e f ≡ classify_some e f
unfolding classify_some_with_context classify_some
switches_agree e f = refl

agree-cases :
    (method : Method) (x : Option Error) (f : Found)
    → x ≢ none
    → x ≢ some (sentinel token_expired)
    → (if is_expired_itself x then respond method direct_match else debug_and_classify method x f)
      ≡ respond method (classify x f)
unfolding is_expired_itself debug_and_classify classify classify_with_context
agree-cases method none f n m = absurd (n refl)
agree-cases method (some (sentinel token_expired)) f n m = absurd (m refl)
agree-cases method (some e) f n m = ap (respond method) (switches_agree e f)

-- JWTAuthErrorHandlerWithContext panics exactly if the response is not committed and the error is
-- nil after its wrappers are taken off.
pub with_context_panics_iff :
    (committed : Bool) (method : Method) (e : Option Error)
    → (jwt_auth_error_handler_with_context committed method e ≡ panicked)
      ↔ ((committed ≡ false) × ((found e).error ≡ none))
unfolding jwt_auth_error_handler_with_context
with_context_panics_iff true method e = (λ h. cc h, λ h. cc h.0)
with_context_panics_iff false method e =
    let k = panics-cases method (found e).error (found e) in (λ h. (refl, k.0 h), λ h. k.1 h.1)

-- Both handlers write the same for every error that, after its wrappers are taken off, is neither
-- nil nor the sentinel of an expired token itself.
pub handlers_agree :
    (committed : Bool) (method : Method) (e : Option Error)
    → (found e).error ≢ none
    → (found e).error ≢ some (sentinel token_expired)
    → jwt_auth_error_handler_with_context committed method e
      ≡ jwt_auth_error_handler committed method e
unfolding jwt_auth_error_handler_with_context jwt_auth_error_handler
handlers_agree true method e some_error other_error = refl
handlers_agree false method e some_error other_error =
    agree-cases method (found e).error (found e) some_error other_error

-- The error code that an answer has.
pub code_of : Written → Option String
code_of (json a) = some a.err_code
code_of _ = none

-- No JWTAuthError stands where the handlers look for one.
abbrev pub IsBare : Error → Type 0
IsBare (jwt_auth_error _ _ _) = ⊥
IsBare (jwt_auth_error_nil _ _) = ⊥
IsBare (http_error_internal _ (jwt_auth_error _ _ _)) = ⊥
IsBare (http_error_internal _ (jwt_auth_error_nil _ _)) = ⊥
IsBare _ = Unit

-- Where no JWTAuthError stands where the handlers look for one, wrapping the error by
-- JWTAuthErrorHandlerFunc does not change the error code of JWTAuthErrorHandler's answer.
pub handler_func-code :
    (e : Error)
    → IsBare e
    → code_of (jwt_auth_error_handler false other (jwt_auth_error_handler_func (some e)))
      ≡ code_of (jwt_auth_error_handler false other (some e))
unfolding code_of jwt_auth_error_handler jwt_auth_error_handler_func found unwrap_http unwrap_jwt
    fill classify classify_some respond get_jwt_err_code get_jwt_err_reason is
handler_func-code (http_error_internal c (jwt_auth_error _ _ _)) bare = absurd bare
handler_func-code (http_error_internal c (jwt_auth_error_nil _ _)) bare = absurd bare
handler_func-code (jwt_auth_error _ _ _) bare = absurd bare
handler_func-code (jwt_auth_error_nil _ _) bare = absurd bare
handler_func-code (http_error_internal c e) bare = ground arith
handler_func-code e bare = ground arith
