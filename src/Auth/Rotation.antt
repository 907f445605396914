-- ===== src/Auth/Rotation.antt =====
-- The rotation of refresh tokens by RefreshToken of internal/service/auth.
use be_aether_node.Base.{ℕ, String, false, List, [], ◌≡◌, refl, ap, sym, ◌∙◌, ◌≢◌, arith, eq_iff}
use be_aether_node.Store.{
  Env, World, M, RefreshTokenRow, UserRow, on_error, query_row, ignore_error, exec, ◌>>=◌, ok, err,
  invalid_refresh_token, Err, tick,
}
use be_aether_node.Store.Sql.{select, delete, append_row}
use be_aether_node.Store.Bind.{>>=-elim}
use be_aether_node.Store.Keeps.{
  keeps, Keeps, Keeps->>=, Keeps-now, Keeps-if, Keeps-raise, Keeps-pure,
}
use be_aether_node.Store.Laws.{select-delete_none, select-append_none}
use be_aether_node.User.{get_by_guid, get_user_row, get_by_email, get_email_row}
use be_aether_node.Auth.{
  RefreshToken, get_by_token_hash, get_token_row, check_expiry, has_hash, delete_by_token_hash,
  delete_hash_rows,
}
use be_aether_node.Auth.Service.{AuthService, LoginResult, refresh_token, hash_token}
use be_aether_node.Auth.Tokens.{SameTables, issue_tokens-Adds}

abbrev Holds : List RefreshTokenRow → List UserRow → World → Type 0
Holds tokens users w = (w.refresh_tokens ≡ tokens) × (w.users ≡ users)

module _ (env : Env) (w : World) where
  ignores :
      (w' : World) → Holds w.refresh_tokens w.users w' → Holds w.refresh_tokens w.users (tick w')
  ignores w' h = h

  Keeps-SameTables :
      {A : Type 0} (m : M A)
      → Keeps env (Holds w.refresh_tokens w.users) m
      → SameTables w (m env w).1
  Keeps-SameTables m k = let (t, u) = k.kept w (refl, refl) in record { tokens = t; users = u }

  pub get_by_guid-SameTables :
      (f : Err → Err) (guid : String) → SameTables w (on_error f (get_by_guid guid) env w).1
  unfolding get_by_guid get_user_row
  get_by_guid-SameTables f guid =
      Keeps-SameTables (on_error f (get_by_guid guid)) (search (keeps, ignores))

  pub get_by_email-SameTables :
      (f : Err → Err) (email : String) → SameTables w (on_error f (get_by_email email) env w).1
  unfolding get_by_email get_email_row
  get_by_email-SameTables f email =
      Keeps-SameTables (on_error f (get_by_email email)) (search (keeps, ignores))

  check_expiry-Keeps :
      (rt : RefreshToken) → Keeps env (Holds w.refresh_tokens w.users) (check_expiry rt)
  unfolding check_expiry
  check_expiry-Keeps rt =
      Keeps->>= env _ (Keeps-now env _ ignores)
        (λ t _. Keeps-if env _ _ _ _ (Keeps-raise env _ _) (Keeps-pure env _ _))

  pub get_by_token_hash-SameTables :
      (f : Err → Err) (h : String) → SameTables w (on_error f (get_by_token_hash h) env w).1
  unfolding get_by_token_hash get_token_row
  get_by_token_hash-SameTables f h =
      Keeps-SameTables (on_error f (get_by_token_hash h))
        (search (keeps, ignores, check_expiry-Keeps) depth 8)

-- The deletion of a token that answers.
delete-tokens :
    (h : String) (env : Env) (w : World)
    → env.fault w.steps ≡ false
    → (ignore_error (delete_by_token_hash h) env w).1.refresh_tokens
      ≡ delete (has_hash h) w.refresh_tokens
unfolding ignore_error delete_by_token_hash delete_hash_rows exec
delete-tokens h env w answers = ground (arith, answers)

-- A token that no row has is refused.
refresh_token_none :
    (s : AuthService) (token : String) (env : Env) (w : World)
    → select (has_hash token) w.refresh_tokens ≡ []
    → (refresh_token s token env w).0 ≡ err invalid_refresh_token
unfolding refresh_token hash_token get_by_token_hash get_token_row on_error query_row ◌>>=◌
refresh_token_none s token env w none_has = ground (arith, none_has)

has_hash_other : (h : String) (row : RefreshTokenRow) → row.token_hash ≢ h → has_hash h row ≡ false
unfolding has_hash
has_hash_other h row n = ground (arith, n, eq_iff row.token_hash h)

-- What is left of the tokens: the old one's rows are gone, a row of the new one is there.
pub record Rotated (old new : String) (w w' : World) : Type 0 where
  pub row : RefreshTokenRow
  pub has : row.token_hash ≡ new
  pub tokens : w'.refresh_tokens ≡ append_row row (delete (has_hash old) w.refresh_tokens)

refresh_token-Rotated :
    (s : AuthService) (token : String) (env : Env) (w : World) {r : LoginResult}
    → ((n : ℕ) → env.fault n ≡ false)
    → (refresh_token s token env w).0 ≡ ok r
    → Rotated token r.refresh_token w (refresh_token s token env w).1
unfolding refresh_token hash_token
refresh_token-Rotated s token env w {r} answers h =
    >>=-elim (on_error _ (get_by_token_hash token)) _ env w (Rotated token r.refresh_token w) h
      (λ rt g h₁.
        >>=-elim (on_error _ (get_by_guid rt.user_guid)) _ env _ (Rotated token r.refresh_token w)
          h₁
          (λ u g₂ h₂.
            >>=-elim (ignore_error (delete_by_token_hash token)) _ env _
              (Rotated token r.refresh_token w) h₂
              (λ d g₃ h₃.
                let added = issue_tokens-Adds s u env _ h₃ in
                record {
                  row = added.row;
                  has = added.has;
                  tokens =
                      added.tokens
                      ∙ ap (append_row added.row) (
                          delete-tokens token env _ (answers _)
                          ∙ ap (delete (has_hash token)) (
                              (get_by_guid-SameTables env _ _ rt.user_guid).tokens
                              ∙ (get_by_token_hash-SameTables env w _ token).tokens));
                })))

-- With a database that answers: a refresh token that RefreshToken has accepted is refused the next
-- time, where the new token is another text.
pub refresh_token_once :
    (s : AuthService) (token : String) (env : Env) (w : World) (r : LoginResult)
    → ((n : ℕ) → env.fault n ≡ false)
    → (refresh_token s token env w).0 ≡ ok r
    → r.refresh_token ≢ token
    → (refresh_token s token env (refresh_token s token env w).1).0 ≡ err invalid_refresh_token
refresh_token_once s token env w r answers h new =
    let rotated = refresh_token-Rotated s token env w answers h in
    refresh_token_none s token env _ (
      ap (select (has_hash token)) rotated.tokens
      ∙ select-append_none (has_hash token) rotated.row _
          (has_hash_other token rotated.row (λ e. new (sym rotated.has ∙ e)))
      ∙ select-delete_none (has_hash token) w.refresh_tokens)
