-- ===== src/Auth/Tokens.antt =====
-- What the operations of internal/repository/auth and the issuing of tokens leave in the table.
use be_aether_node.Base.{
  ℕ, suc, String, some, ◌≡◌, refl, ap, ◌∙◌, arith, Bool-cases, inl, inr, str_eq,
}
use be_aether_node.Store.{
  to_micros, Env, World, RefreshTokenRow, ask, or_raise, now, exec, fresh_if_empty, fresh_uuid,
  random_bytes, pure, ◌>>=◌, ok, or_nil,
}
use be_aether_node.Store.Sql.{append_row}
use be_aether_node.Store.Bind.{>>=-elim}
use be_aether_node.User.{User}
use be_aether_node.Auth.{RefreshToken, create, insert_token}
use be_aether_node.Auth.Service.{
  AuthService, LoginResult, issue_refresh_token, issue_tokens, generate_refresh_token,
  generate_access_token, hash_token,
}

ok-injective : {A : Type 0} {x y : A} → ok x ≡ ok y → x ≡ y
ok-injective h = cc h

-- One row was added, with the hash and the users as they were.
pub record Adds (w : World) (h : String) (w' : World) : Type 0 where
  pub row : RefreshTokenRow
  pub has : row.token_hash ≡ h
  pub tokens : w'.refresh_tokens ≡ append_row row w.refresh_tokens
  pub users : w'.users ≡ w.users

-- The row that Create writes for a token.
abbrev created_row : Env → RefreshToken → ℕ → ℕ → RefreshTokenRow
created_row env token guid t = record {
  guid = some guid;
  user_guid = some (or_nil (env.uuid_parse token.user_guid));
  token_hash = token.token_hash;
  expires_at = some (to_micros token.expires_at);
  created_at = some (to_micros t);
}

pub create-Adds :
    (token : RefreshToken) (env : Env) (w : World) {t : RefreshToken}
    → (create token env w).0 ≡ ok t
    → Adds w token.token_hash (create token env w).1
unfolding create insert_token fresh_if_empty fresh_uuid ask now exec pure ◌>>=◌
create-Adds token env w h = elim (Bool-cases (str_eq token.guid "")) [
  | inl e ↦ record {
    row =
        created_row env token (or_nil (env.uuid_parse (env.uuid_string (env.uuid_new w.steps))))
          (env.clock (suc w.steps));
    has = refl;
    tokens = ground (arith, h, e);
    users = ground (arith, h, e);
  }
  | inr e ↦ record {
    row = created_row env token (or_nil (env.uuid_parse token.guid)) (env.clock w.steps);
    has = refl;
    tokens = ground (arith, h, e);
    users = ground (arith, h, e);
  }
]

-- The tokens and the users stay as they are.
pub record SameTables (w w' : World) : Type 0 where
  pub tokens : w'.refresh_tokens ≡ w.refresh_tokens
  pub users : w'.users ≡ w.users

pub Adds-after : {w w₁ w₂ : World} {h : String} → SameTables w w₁ → Adds w₁ h w₂ → Adds w h w₂
Adds-after same a = record {
  row = a.row;
  has = a.has;
  tokens = a.tokens ∙ ap (append_row a.row) same.tokens;
  users = a.users ∙ same.users;
}

Adds-hash : {w w' : World} {h k : String} → h ≡ k → Adds w h w' → Adds w k w'
Adds-hash e a = record { row = a.row; has = a.has ∙ e; tokens = a.tokens; users = a.users }

generate_refresh_token-SameTables :
    (env : Env) (w : World) → SameTables w (generate_refresh_token env w).1
unfolding generate_refresh_token random_bytes pure ◌>>=◌
generate_refresh_token-SameTables env w = record { tokens = ground arith; users = ground arith }

generate_access_token-SameTables :
    (s : AuthService) (u : User) (env : Env) (w : World)
    → SameTables w (generate_access_token s u env w).1
unfolding generate_access_token now or_raise ◌>>=◌
generate_access_token-SameTables s u env w = record { tokens = refl; users = refl }

now-SameTables : (env : Env) (w : World) → SameTables w (now env w).1
unfolding now
now-SameTables env w = record { tokens = refl; users = refl }

pub issue_refresh_token-Adds :
    (s : AuthService) (user_guid : String) (env : Env) (w : World) {token : String}
    → (issue_refresh_token s user_guid env w).0 ≡ ok token
    → Adds w token (issue_refresh_token s user_guid env w).1
unfolding issue_refresh_token pure hash_token
issue_refresh_token-Adds s user_guid env w {token} h =
    >>=-elim generate_refresh_token _ env w (Adds w token) h (λ made g h₁.
      >>=-elim now _ env _ (Adds w token) h₁ (λ t n h₂.
        >>=-elim (create _) _ env _ (Adds w token) h₂ (λ rt c h₃.
          Adds-after (generate_refresh_token-SameTables env w) (
            Adds-after (now-SameTables env _)
              (Adds-hash (ok-injective h₃) (create-Adds _ env _ c))))))

pub issue_tokens-Adds :
    (s : AuthService) (u : User) (env : Env) (w : World) {r : LoginResult}
    → (issue_tokens s u env w).0 ≡ ok r
    → Adds w r.refresh_token (issue_tokens s u env w).1
unfolding issue_tokens pure
issue_tokens-Adds s u env w {r} h =
    >>=-elim (generate_access_token s u) _ env w (Adds w r.refresh_token) h (λ access g h₁.
      >>=-elim (issue_refresh_token s u.guid) _ env _ (Adds w r.refresh_token) h₁ (λ token i h₂.
        Adds-after (generate_access_token-SameTables s u env w) (
          Adds-hash (ap (λ (x : LoginResult). x.refresh_token) (ok-injective h₂))
            (issue_refresh_token-Adds s u.guid env _ i))))
