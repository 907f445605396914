-- ===== src/Auth/Emails.antt =====
-- What login, registration and the forgotten password make of an email, up to the status code of
-- internal/handler/auth_handler.go.
use be_aether_node.Base.{
  String, true, false, some, List, [], ◌∷◌, ◌≡◌, ap, sym, ◌∙◌, ◌≢◌, ◌↔◌, arith, inl, inr,
  Bool-cases,
}
use be_aether_node.Store.{Env, World, UserRow, on_error, query_row, ask, or_raise, ◌>>=◌, ok}
use be_aether_node.Store.Sql.{select}
use be_aether_node.Store.Laws.{List-cases}
use be_aether_node.Store.Bind.{>>=-elim, >>=-result, on_error-ok}
use be_aether_node.User.{User, get_by_email, get_email_row, live_email, user_from_db}
use be_aether_node.Auth.Service.{
  AuthService, LoginRequest, LoginResult, login, check_password, forgot_password,
  forgive_user_not_found, invalid_if_user_not_found,
}
use be_aether_node.Auth.Tokens.{Adds, Adds-after, issue_tokens-Adds}
use be_aether_node.Auth.Rotation.{get_by_email-SameTables}
use be_aether_node.Auth.Handler.{handle_login, handle_forgot_password}
use be_aether_node.Http.{status}

-- For an email that no live user has, Login and ForgotPassword both answer 500.
unknown_email :
    (s : AuthService) (req : LoginRequest) (env : Env) (w : World)
    → select (live_email req.email) w.users ≡ []
    → (status (handle_login s (some req) env w).0 ≡ 500)
      × (status (handle_forgot_password (some req.email) env w).0 ≡ 500)
unfolding handle_login login handle_forgot_password forgot_password forgive_user_not_found
    get_by_email get_email_row on_error query_row ◌>>=◌
unknown_email s req env w unknown = (ground (arith, unknown), ground (arith, unknown))

-- With the database answering, ForgotPassword answers 200 exactly if a live user has the email.
pub forgot_password_iff :
    (email : String) (env : Env) (w : World)
    → env.fault w.steps ≡ false
    → (status (handle_forgot_password (some email) env w).0 ≡ 200)
      ↔ (select (live_email email) w.users ≢ [])
unfolding handle_forgot_password forgot_password forgive_user_not_found get_by_email get_email_row
    on_error query_row ask ◌>>=◌
forgot_password_iff email env w answers = elim (List-cases (select (live_email email) w.users)) [
  | inl e ↦ (λ h. ground (arith, e, h, answers), λ n. absurd (n e))
  | inr (row, rows, e) ↦ (λ h n. ground (arith, e, n), λ n. ground (arith, e, answers))
]

get_by_email-found :
    (email : String) (env : Env) (w : World) {u : User}
    → (get_by_email email env w).0 ≡ ok u
    → (row : UserRow) × (rows : List UserRow) × (select (live_email email) w.users ≡ row ∷ rows)
      × (u ≡ user_from_db env row)
unfolding get_by_email get_email_row on_error query_row ask ◌>>=◌
get_by_email-found email env w h = elim (List-cases (select (live_email email) w.users)) [
  | inl e ↦ ground (arith, h, e)
  | inr (row, rows, e) ↦ (row, rows, e, ground (arith, h, e))
]

check_password-compares :
    (u : User) (password : String) (env : Env) (w : World) {t : Unit {0}}
    → (check_password u password env w).0 ≡ ok t
    → env.bcrypt_compare u.password_hash password ≡ true
unfolding check_password or_raise
check_password-compares u password env w h =
    elim (Bool-cases (env.bcrypt_compare u.password_hash password)) [
      | inl e ↦ e
      | inr e ↦ ground (arith, h, e)
    ]

login-Adds :
    (s : AuthService) (req : LoginRequest) (env : Env) (w : World) {r : LoginResult}
    → (login s req env w).0 ≡ ok r
    → Adds w r.refresh_token (login s req env w).1
unfolding login check_password or_raise
login-Adds s req env w {r} h =
    >>=-elim (on_error invalid_if_user_not_found (get_by_email req.email)) _ env w
      (Adds w r.refresh_token) h
      (λ u g h₁.
        >>=-elim (check_password u req.password) _ env _ (Adds w r.refresh_token) h₁ (λ t c h₂.
          Adds-after (get_by_email-SameTables env w invalid_if_user_not_found req.email)
            (issue_tokens-Adds s u env _ h₂)))

-- If Login returns, the first live user with the email has a password hash that matches the
-- password, and one row is added to the refresh tokens, whose hash is the token itself.
pub login-ok :
    (s : AuthService) (req : LoginRequest) (env : Env) (w : World) (r : LoginResult)
    → (login s req env w).0 ≡ ok r
    → ((row : UserRow) × (rows : List UserRow) × (select (live_email req.email) w.users
          ≡ row ∷ rows)
        × (env.bcrypt_compare row.password_hash req.password ≡ true))
      × Adds w r.refresh_token (login s req env w).1
unfolding login user_from_db
login-ok s req env w r h = (
  >>=-result (on_error invalid_if_user_not_found (get_by_email req.email)) _ env w h (λ u g h₁.
      >>=-result (check_password u req.password) _ env _ h₁ (λ t c h₂.
        let (row, rows, found, same) =
          get_by_email-found req.email env w (on_error-ok invalid_if_user_not_found _ env w g) in
        (
          row,
          rows,
          found,
          ap (λ (v : User). env.bcrypt_compare v.password_hash req.password) (sym same)
              ∙ check_password-compares u req.password env _ c,
        ))),
  login-Adds s req env w h,
)
