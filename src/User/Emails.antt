-- ===== src/User/Emails.antt =====
-- The unique emails of internal/service/user and internal/repository/user.
use be_aether_node.Base.{
  ℕ, String, Bool, true, ◌||◌, Option, none, some, ◌≡◌, refl, ◌≢◌, arith, str_eq,
}
use be_aether_node.Store.{
  Env, World, UserRow, ask, now, exec, fresh_if_empty, fresh_uuid, pure, raise, query,
  hash_password, ok, tick, parse_optional_uuid,
}
use be_aether_node.Store.Sql.{exists, same_guid}
use be_aether_node.Store.Laws.{exists_mono}
use be_aether_node.Store.Bind.{>>=-result}
use be_aether_node.User.{User, create, insert_user, exists_by_email, exists_email}
use be_aether_node.User.Service.{CreateUserRequest, create_user, refuse_if}

-- A row with the email, deleted or not.
unfoldable pub has_email : String → UserRow → Bool
has_email email row = str_eq row.email email

taken_or :
    (email : String) (guid : Option ℕ) (r : UserRow)
    → has_email email r ≡ true
    → (same_guid r.guid guid || str_eq r.email email) ≡ true
unfolding has_email
taken_or email guid r h = ground (arith, h)

pub insert_user_refused :
    (row : UserRow) (env : Env) (w : World) {u : Unit {0}}
    → exists (has_email row.email) w.users ≡ true
    → (insert_user row env w).0 ≢ ok u
unfolding insert_user exec has_email
insert_user_refused row env w taken h = ground (
  arith,
  h,
  exists_mono (has_email row.email) (λ r. same_guid r.guid row.guid || str_eq r.email row.email)
      w.users (taken_or row.email row.guid) taken,
)

guid-users : (guid : String) (env : Env) (w : World) → (fresh_if_empty guid env w).1.users ≡ w.users
unfolding fresh_if_empty fresh_uuid pure
guid-users guid env w = ground arith

role-users :
    (role : Option String) (env : Env) (w : World)
    → (parse_optional_uuid role env w).1.users ≡ w.users
unfolding pure ask
role-users none env w = refl
role-users (some r) env w = refl

-- The parts of Create before its statement leave the users alone.
pub create_refused :
    (user : User) (env : Env) (w : World) {u : User}
    → exists (has_email user.email) w.users ≡ true
    → (create user env w).0 ≢ ok u
unfolding create ask now
create_refused user env w taken h = >>=-result (fresh_if_empty user.guid) _ env w h (λ id f h₁.
    >>=-result (ask _) _ env _ h₁ (λ guid g h₂. >>=-result now _ env _ h₂ (λ t n h₃.
      >>=-result (parse_optional_uuid user.role_guid) _ env _ h₃ (λ role p h₄.
        >>=-result (insert_user _) _ env _ h₄ (λ done i h₅.
          insert_user_refused _ env _
            (rw
              (
                role-users user.role_guid env (tick (fresh_if_empty user.guid env w).1),
                guid-users user.guid env w,
              )
              taken)
            i)))))

refuse-users : (b : Bool) (env : Env) (w : World) → (refuse_if b env w).1.users ≡ w.users
unfolding refuse_if pure raise
refuse-users b env w = ground arith

-- CreateUser never returns a user whose email a row has, even if that row is deleted.
create_user_refused :
    (req : CreateUserRequest) (env : Env) (w : World) (u : User)
    → exists (has_email req.email) w.users ≡ true
    → (create_user req env w).0 ≢ ok u
unfolding create_user exists_by_email exists_email query refuse_if pure raise hash_password
create_user_refused req env w u taken h =
    >>=-result (exists_by_email req.email) _ env w h (λ e f h₁.
      >>=-result (refuse_if e) _ env _ h₁ (λ t g h₂.
        >>=-result (hash_password req.password) _ env _ h₂
          (λ hashed k h₃. create_refused _ env _ (rw (refuse-users e env (tick w)) taken) h₃)))
