-- ===== src/Auth/Register.antt =====
-- Register of internal/service/auth: its transaction, and what it makes of an email in use.
use be_aether_node.Base.{
  ℕ, suc, String, true, false, none, some, ◌≡◌, refl, ap, sym, ◌∙◌, ◌⊎◌, subst, arith, inl, inr,
  Bool-cases, Option-cases,
}
use be_aether_node.Store.{
  to_micros, Env, World, M, UserRow, in_transaction, finish, tick, pure, raise, ◌>>=◌, ok, err, Err,
  Result, query, hash_password, db_error, email_already_exists, bcrypt_error, RefreshTokenRow,
  fresh_if_empty, fresh_uuid, ask, now, exec, or_nil,
}
use be_aether_node.Store.Sql.{exists, append_row}
use be_aether_node.Store.Bind.{>>=-elim}
use be_aether_node.User.{User, exists_by_email, exists_email, live_email, insert_user}
use be_aether_node.User as Users
use be_aether_node.Server.Intact.{Intact-refl}
use be_aether_node.Server.Access.{register-Keeps}
use be_aether_node.Auth.Tokens.{issue_refresh_token-Adds}
use be_aether_node.User.Service.{refuse_if}
use be_aether_node.Auth.Service.{
  AuthService, RegisterRequest, register, register_work, UserInfo, issue_refresh_token,
}

-- The tables that Register writes are as they were.
pub record Unchanged (w w' : World) : Type 0 where
  pub users : w'.users ≡ w.users
  pub refresh_tokens : w'.refresh_tokens ≡ w.refresh_tokens

-- All others are.
pub record OthersUnchanged (w w' : World) : Type 0 where
  pub api_keys : w'.api_keys ≡ w.api_keys
  pub devices : w'.devices ≡ w.devices
  pub locations : w'.locations ≡ w.locations
  pub installation_points : w'.installation_points ≡ w.installation_points
  pub thresholds : w'.thresholds ≡ w.thresholds
  pub alarms : w'.alarms ≡ w.alarms

register-OthersUnchanged :
    (s : AuthService) (req : RegisterRequest) (env : Env) (w : World)
    → OthersUnchanged w (register s req env w).1
register-OthersUnchanged s req env w =
    let kept = (register-Keeps env w s req).kept w (Intact-refl w) in
    record {
      api_keys = kept.api_keys;
      devices = kept.devices;
      locations = kept.locations;
      installation_points = kept.installation_points;
      thresholds = kept.thresholds;
      alarms = kept.alarms;
    }

same : {w w' : World} → w' ≡ tick w → Unchanged w w'
same e = record { users = ap (λ v. v.users) e; refresh_tokens = ap (λ v. v.refresh_tokens) e }

same2 : {w w' : World} → w' ≡ tick (tick w) → Unchanged w w'
same2 e = record { users = ap (λ v. v.users) e; refresh_tokens = ap (λ v. v.refresh_tokens) e }

-- The transaction failed and left nothing, or its work was done and kept, though its Commit may have
-- reported an error.
abbrev Ended : {A : Type 0} → M A → Env → World → Result A × World → Type 0
Ended {A = A} m env w (r, w') =
    ((e : Err) × (r ≡ err e) × Unchanged w w')
    ⊎ ((a : A) × ((m env (tick w)).0 ≡ ok a)
        × Unchanged (m env (tick w)).1 w'
        × ((r ≡ ok a) ⊎ (r ≡ err db_error)))

finish-Ended :
    {A : Type 0} (m : M A) (env : Env) (w : World) (r : Result A)
    → (m env (tick w)).0 ≡ r
    → Ended m env w (finish w r env (m env (tick w)).1)
unfolding finish
finish-Ended m env w (err e) h = inl (e, refl, record { users = refl; refresh_tokens = refl })
finish-Ended m env w (ok a) h = elim (Bool-cases (env.fault (m env (tick w)).1.steps)) [
  | inl f ↦ rw f (elim (Bool-cases (env.commit_kept (m env (tick w)).1.steps)) [
    | inl c ↦ rw c (inr (a, h, record { users = refl; refresh_tokens = refl }, inr refl))
    | inr c ↦ rw c (inl (db_error, refl, record { users = refl; refresh_tokens = refl }))
  ])
  | inr f ↦ rw f (inr (a, h, record { users = refl; refresh_tokens = refl }, inl refl))
]

in_transaction-Ended :
    {A : Type 0} (m : M A) (env : Env) (w : World) → Ended m env w (in_transaction m env w)
unfolding in_transaction
in_transaction-Ended m env w = elim (Bool-cases (env.fault w.steps)) [
  | inl f ↦ rw f (inl (db_error, refl, record { users = refl; refresh_tokens = refl }))
  | inr f ↦ rw f (finish-Ended m env w (m env (tick w)).0 refl)
]

-- Register fails before the transaction, or ends with it.
register-cases :
    (s : AuthService) (req : RegisterRequest) (env : Env) (w : World)
    → ((e : Err) × ((register s req env w).0 ≡ err e) × Unchanged w (register s req env w).1)
      ⊎ ((hashed_password : String) × (exists (live_email req.email) w.users ≡ false)
          × (register s req env w
              ≡ in_transaction (register_work s req hashed_password) env (tick (tick w))))
unfolding register exists_by_email exists_email query refuse_if raise pure hash_password ◌>>=◌
register-cases s req env w = elim (Bool-cases (env.fault w.steps)) [
  | inl f ↦ inl (db_error, ground (arith, f), same (ground (arith, f)))
  | inr f ↦ elim (Bool-cases (exists (live_email req.email) w.users)) [
    | inl x ↦ inl (email_already_exists, ground (arith, f, x), same (ground (arith, f, x)))
    | inr x ↦ elim (Option-cases (env.bcrypt_hash (suc w.steps) req.password)) [
      | inl b ↦ inl (bcrypt_error, ground (arith, f, x, b), same2 (ground (arith, f, x, b)))
      | inr (hashed, b) ↦ inr (hashed, x, ground (arith, f, x, b))
    ]
  ]
]

-- A user with the email and a refresh token were added.
pub record Registered (email : String) (w w' : World) : Type 0 where
  pub user_row : UserRow
  pub token_row : RefreshTokenRow
  pub has_email : user_row.email ≡ email
  pub users : w'.users ≡ append_row user_row w.users
  pub refresh_tokens : w'.refresh_tokens ≡ append_row token_row w.refresh_tokens

-- The row that Create writes for a user without a role.
abbrev created_row : User → ℕ → ℕ → UserRow
created_row u guid t = record {
  guid = some guid;
  email = u.email;
  password_hash = u.password_hash;
  first_name = u.first_name;
  last_name = u.last_name;
  role_guid = none;
  is_active = u.is_active;
  created_at = some (to_micros t);
  updated_at = some (to_micros t);
  deleted_at = none;
}

new_user : RegisterRequest → String → User
new_user req hashed_password = record {
  guid = "";
  email = req.email;
  password_hash = hashed_password;
  first_name = req.first_name;
  last_name = req.last_name;
  role_guid = none;
  is_active = true;
  created_at = 0;
  updated_at = 0;
  deleted_at = none;
}

create-adds :
    (req : RegisterRequest) (hashed : String) (env : Env) (w : World) {u : User}
    → let w' = (Users.create (new_user req hashed) env w).1 in
      (Users.create (new_user req hashed) env w).0 ≡ ok u
      → (row : UserRow) × (row.email ≡ req.email)
        × (w'.users ≡ append_row row w.users)
        × (w'.refresh_tokens ≡ w.refresh_tokens)
unfolding Users.create new_user insert_user fresh_if_empty fresh_uuid ask now exec pure ◌>>=◌
create-adds req hashed env w h = (
  created_row (new_user req hashed)
      (or_nil (env.uuid_parse (env.uuid_string (env.uuid_new w.steps)))) (env.clock (suc w.steps)),
  refl,
  ground (arith, h),
  ground (arith, h),
)

register_work-Registered :
    (s : AuthService) (req : RegisterRequest) (hashed : String) (env : Env) (w : World)
    {info : UserInfo}
    → (register_work s req hashed env w).0 ≡ ok info
    → Registered req.email w (register_work s req hashed env w).1
unfolding register_work pure new_user
register_work-Registered s req hashed env w h =
    >>=-elim (Users.create (new_user req hashed)) _ env w (Registered req.email w) h (λ u c h₁.
      >>=-elim (issue_refresh_token s u.guid) _ env _ (Registered req.email w) h₁ (λ token i h₂.
        let (row, email, users, tokens) = create-adds req hashed env w c in
        let added = issue_refresh_token-Adds s u.guid env _ i in
        record {
          user_row = row;
          token_row = added.row;
          has_email = email;
          users = added.users ∙ users;
          refresh_tokens = added.tokens ∙ ap (append_row added.row) tokens;
        }))

-- Register has done its work.
abbrev pub Done : RegisterRequest → World → Result UserInfo × World → Type 0
Done req w (r, w') =
    Registered req.email w w' × (((info : UserInfo) × (r ≡ ok info)) ⊎ (r ≡ err db_error))

abbrev pub Failed : World → Result UserInfo × World → Type 0
Failed w (r, w') = (e : Err) × (r ≡ err e) × Unchanged w w'

committed :
    (s : AuthService) (req : RegisterRequest) (hashed : String) (env : Env) (w : World)
    (after : Result UserInfo × World)
    → Ended (register_work s req hashed) env (tick (tick w)) after
    → Failed w after ⊎ Done req w after
committed s req hashed env w after (inl (e, failed, kept)) =
    inl (e, failed, record { users = kept.users; refresh_tokens = kept.refresh_tokens })
committed s req hashed env w after (inr (info, o, kept, result)) =
    let made = register_work-Registered s req hashed env _ o in
    inr (
      record {
        user_row = made.user_row;
        token_row = made.token_row;
        has_email = made.has_email;
        users = kept.users ∙ made.users;
        refresh_tokens = kept.refresh_tokens ∙ made.refresh_tokens;
      },
      elim result [ inl r ↦ inl (info, r) | inr r ↦ inr r ],
    )

-- Register leaves all tables but those of users and of refresh tokens as they were. Either it fails
-- and leaves these two as they were too, or it has added one user with the email of the request and
-- one refresh token, and then it returns, or fails with an error of the database, as a Commit may
-- report one although it has committed.
pub register_atomic :
    (s : AuthService) (req : RegisterRequest) (env : Env) (w : World)
    → OthersUnchanged w (register s req env w).1
      × (Failed w (register s req env w) ⊎ Done req w (register s req env w))
register_atomic s req env w = (
  register-OthersUnchanged s req env w,
  elim (register-cases s req env w) [
    | inl failed ↦ inl failed
    | inr (hashed, _, tx) ↦
        subst (λ after. Failed w after ⊎ Done req w after) (sym tx)
          (committed s req hashed env w _
            (in_transaction-Ended (register_work s req hashed) env (tick (tick w))))
  ],
)
