-- ===== src/Middleware/Scenarios.antt =====
-- Runs of the JWT error handlers.
use be_aether_node.Base.{false, none, some, ◌≡◌, ◌↔◌}
use be_aether_node.Middleware.{
  Error, wrap, sentinel, token_malformed, jwt_auth_error_nil, found, unwrap_http, unwrap_jwt, head,
  other, panicked, jwt_auth_error_handler, jwt_auth_error_handler_with_context,
}
use be_aether_node.Middleware.Agreement.{with_context_panics_iff, handlers_agree}

abbrev wrapped : Error
wrapped = wrap "token is malformed" (sentinel token_malformed)

with_context_panics_iff_example :
    (jwt_auth_error_handler_with_context false head (some (jwt_auth_error_nil "C" "R")) ≡ panicked)
    ↔ ((false ≡ false) × ((found (some (jwt_auth_error_nil "C" "R"))).error ≡ none))
with_context_panics_iff_example =
    with_context_panics_iff false head (some (jwt_auth_error_nil "C" "R"))

handlers_agree_example :
    jwt_auth_error_handler_with_context false other (some wrapped)
    ≡ jwt_auth_error_handler false other (some wrapped)
unfolding found unwrap_http unwrap_jwt
handlers_agree_example = handlers_agree false other (some wrapped) (λ h. cc h) (λ h. cc h)
