-- ===== src/Server/Access.antt =====
-- What requests without an accepted token do to the tables, through cmd/server/main.go.
use be_aether_node.Base.{true≢false, String, Bool, true, false, none, some, List, [], ◌∷◌, ◌≡◌, All}
use be_aether_node.Store.{World, Env}
use be_aether_node.Store.Keeps.{Keeps, keeps}
use be_aether_node.User.{User}
use be_aether_node.Auth.Service.{
  AuthService, LoginRequest, RegisterRequest, login, register, register_work, forgot_password,
  refresh_token, check_password, issue_tokens, generate_access_token, issue_refresh_token,
  generate_refresh_token, forgive_user_not_found,
}
use be_aether_node.Auth.Handler.{
  handle_login, handle_register, handle_forgot_password, handle_refresh, handle_logout,
}
use be_aether_node.Server.{
  Services, Request, PublicRoute, unprotected, protected, refused, accepted, serve_request,
  serve_public, post_login, post_register, post_forgot_password, post_token_refresh, post_logout,
  get_health, get_liveness, get_readiness, post_telemetry, refused_stream,
}
use be_aether_node.Server.Intact.{
  Intact, Intact-refl, ignores, hash_password-Keeps, ignore_error-Keeps, in_transaction-Keeps,
  refuse_if-Keeps, get_by_guid-Keeps, get_by_email-Keeps, exists_by_email-Keeps, create_user-Keeps,
  create_token-Keeps, delete_hash-Keeps, get_token-Keeps,
}

module _ (env : Env) (before : World) where
  issue_refresh_token-Keeps :
      (s : AuthService) (guid : String) → Keeps env (Intact before) (issue_refresh_token s guid)
  unfolding issue_refresh_token generate_refresh_token
  issue_refresh_token-Keeps s guid = search (keeps, ignores, create_token-Keeps) depth 8

  issue_tokens-Keeps : (s : AuthService) (u : User) → Keeps env (Intact before) (issue_tokens s u)
  unfolding issue_tokens generate_access_token
  issue_tokens-Keeps s u = search (keeps, ignores, issue_refresh_token-Keeps) depth 8

  login-Keeps : (s : AuthService) (req : LoginRequest) → Keeps env (Intact before) (login s req)
  unfolding login check_password
  login-Keeps s req = search (keeps, get_by_email-Keeps, issue_tokens-Keeps) depth 8

  register_work-Keeps :
      (s : AuthService) (req : RegisterRequest) (hash : String)
      → Keeps env (Intact before) (register_work s req hash)
  unfolding register_work
  register_work-Keeps s req hash =
      search (keeps, create_user-Keeps, issue_refresh_token-Keeps) depth 8

  pub register-Keeps :
      (s : AuthService) (req : RegisterRequest) → Keeps env (Intact before) (register s req)
  unfolding register
  register-Keeps s req =
      search
        (
          keeps, exists_by_email-Keeps, refuse_if-Keeps, hash_password-Keeps, in_transaction-Keeps,
          register_work-Keeps,
        )
        depth 8

  forgot_password-Keeps : (email : String) → Keeps env (Intact before) (forgot_password email)
  unfolding forgot_password forgive_user_not_found
  forgot_password-Keeps email = record { kept = (get_by_email-Keeps env before email).kept }

  refresh_token-Keeps :
      (s : AuthService) (token : String) → Keeps env (Intact before) (refresh_token s token)
  unfolding refresh_token
  refresh_token-Keeps s token =
      search
        (
          keeps, get_token-Keeps, get_by_guid-Keeps, ignore_error-Keeps, delete_hash-Keeps,
          issue_tokens-Keeps,
        )
        depth 8

  serve_public-Intact :
      (s : Services) (r : PublicRoute) (w : World)
      → Intact before w
      → Intact before (serve_public s r env w).1
  unfolding serve_public handle_login handle_register handle_forgot_password handle_refresh
      handle_logout
  serve_public-Intact s (post_login none) w p = p
  serve_public-Intact s (post_login (some req)) w p = (login-Keeps s.auth req).kept w p
  serve_public-Intact s (post_register none) w p = p
  serve_public-Intact s (post_register (some req)) w p = (register-Keeps s.auth req).kept w p
  serve_public-Intact s (post_forgot_password none) w p = p
  serve_public-Intact s (post_forgot_password (some email)) w p =
      (forgot_password-Keeps email).kept w p
  serve_public-Intact s (post_token_refresh none) w p = p
  serve_public-Intact s (post_token_refresh (some token)) w p =
      (refresh_token-Keeps s.auth token).kept w p
  serve_public-Intact s post_logout w p = p
  serve_public-Intact s get_health w p = ignores before w p
  serve_public-Intact s get_liveness w p = p
  serve_public-Intact s get_readiness w p = ignores before w p
  serve_public-Intact s (post_telemetry body) w p = ignores before w p

-- The request carries a token that the middleware accepts.
abbrev pub is_accepted : Request → Bool
is_accepted (unprotected r) = false
is_accepted (protected (refused e) method r) = false
is_accepted (protected (accepted u) method r) = true
is_accepted (refused_stream e method) = false

-- The world that requests leave, one after the other.
unfoldable pub serve_requests : Services → List Request → Env → World → World
serve_requests s [] env w = w
serve_requests s (r ∷ rs) env w = serve_requests s rs env (serve_request s r env w).1

serve_request-Intact :
    (s : Services) (r : Request) (env : Env) (before w : World)
    → is_accepted r ≡ false
    → Intact before w
    → Intact before (serve_request s r env w).1
unfolding serve_request
serve_request-Intact s (unprotected r) env before w _ p = serve_public-Intact env before s r w p
serve_request-Intact s (protected (refused e) method r) env before w _ p = p
serve_request-Intact s (protected (accepted u) method r) env before w h _ = absurd (true≢false h)
serve_request-Intact s (refused_stream e method) env before w _ p = p

serve_requests-Intact_from :
    (s : Services) (rs : List Request) (env : Env) (before w : World)
    → All (λ r. is_accepted r ≡ false) rs
    → Intact before w
    → Intact before (serve_requests s rs env w)
unfolding serve_requests
serve_requests-Intact_from s [] env before w _ p = p
serve_requests-Intact_from s (r ∷ rs) env before w (h, hs) p =
    serve_requests-Intact_from s rs env before _ hs (serve_request-Intact s r env before w h p)

-- However many requests come without an accepted token, to any route of main but /metrics and with
-- any bodies: API keys, devices, locations, installation points, thresholds and alarms are as before,
-- the device service and the threshold service have announced nothing, and every user of before is
-- there unchanged.
pub serve_requests-Intact :
    (s : Services) (rs : List Request) (env : Env) (w : World)
    → All (λ r. is_accepted r ≡ false) rs
    → Intact w (serve_requests s rs env w)
serve_requests-Intact s rs env w h = serve_requests-Intact_from s rs env w w h (Intact-refl w)
