-- ===== src/User/Conflict.antt =====
-- The answer of POST /user in internal/handler/user_handler.go to an email that is taken.
use be_aether_node.Base.{
  String, Bool, true, false, some, ◌≡◌, refl, ap, ◌∙◌, ◌≢◌, arith, ◌↔◌, sym, inl, inr, Bool-cases,
}
use be_aether_node.Store.{
  Env, World, M, Err, email_already_exists, pure, raise, query, hash_password, ok, err, tick, ◌>>=◌,
}
use be_aether_node.Store.Keeps.{Result-cases}
use be_aether_node.Store.Bind.{>>=-runs}
use be_aether_node.Store.Raises.{
  Raises, Raises->>=, Raises-pure, Raises-ask, Raises-now, Raises-fresh_if_empty, Raises-exec,
  Raises-hash_password,
}
use be_aether_node.Store.Sql.{exists}
use be_aether_node.User.{User, create, insert_user, exists_by_email, exists_email, live_email}
use be_aether_node.User.Service.{CreateUserRequest, create_user, refuse_if, new_user}
use be_aether_node.User.Handler.{CreateBody, create_req, conflict_or_internal, handle_create}
use be_aether_node.Http.{Reply, status, answer}
use be_aether_node.User.Replies.{role-Raises}

-- Not the error of a taken email.
abbrev Free : Err → Type 0
Free x = x ≢ email_already_exists

create-Free : (user : User) → Raises Free (create user)
unfolding create insert_user
create-Free user = Raises->>= _ (Raises-fresh_if_empty _ _) (λ id.
    Raises->>= _ (Raises-ask _ _) (λ guid. Raises->>= _ (Raises-now _) (λ t.
      Raises->>= _ (role-Raises _ user.role_guid)
        (λ role. Raises->>= _ (Raises-exec _ (λ h. cc h) _ _) (λ _. Raises-pure _ _)))))

-- What CreateUser does once the email is free.
abbrev create_with_hash : CreateUserRequest → M User
create_with_hash req = hash_password req.password >>= λ hashed. create (new_user req hashed)

create_with_hash-Free : (req : CreateUserRequest) → Raises Free (create_with_hash req)
create_with_hash-Free req =
    Raises->>= _ (Raises-hash_password _ _ (λ h. cc h)) (λ hashed. create-Free _)

answer-same :
    {A B : Type 0} (m n : M A) (on_ok : A → Reply B) (on_err : Err → Reply B) (env : Env)
    (w w' : World)
    → m env w ≡ n env w'
    → answer m on_ok on_err env w ≡ answer n on_ok on_err env w'
answer-same m n on_ok on_err env w w' e =
    ap (λ p. (elim p.0 [ ok a ↦ on_ok a | err x ↦ on_err x ], p.1)) e

exists-answers :
    (email : String) (env : Env) (w : World) (b : Bool)
    → env.fault w.steps ≡ false
    → exists (live_email email) w.users ≡ b
    → exists_by_email email env w ≡ (ok b, tick w)
unfolding exists_by_email exists_email query
exists-answers email env w b answers e = rw (answers, e) refl

create_user-free :
    (req : CreateUserRequest) (env : Env) (w : World)
    → env.fault w.steps ≡ false
    → exists (live_email req.email) w.users ≡ false
    → create_user req env w ≡ create_with_hash req env (tick w)
unfolding create_user refuse_if pure
create_user-free req env w answers free =
    >>=-runs (exists_by_email req.email) _ env w (tick w) false
      (exists-answers req.email env w false answers free)
    ∙ >>=-runs (refuse_if false) _ env (tick w) (tick w) tt refl

refuse-raises :
    {B : Type 0} (f : Unit {0} → M B) (env : Env) (w : World)
    → (refuse_if true >>= f) env w ≡ (err email_already_exists, w)
unfolding refuse_if raise ◌>>=◌
refuse-raises f env w = refl

create_user-taken :
    (req : CreateUserRequest) (env : Env) (w : World)
    → env.fault w.steps ≡ false
    → exists (live_email req.email) w.users ≡ true
    → create_user req env w ≡ raise email_already_exists env (tick w)
unfolding create_user raise
create_user-taken req env w answers taken =
    >>=-runs (exists_by_email req.email) _ env w (tick w) true
      (exists-answers req.email env w true answers taken)
    ∙ refuse-raises _ env (tick w)

conflict_or_internal-status :
    (A : Type 0) (e : Err) → Free e → status (conflict_or_internal {A = A} e) ≢ 409
conflict_or_internal-status A email_already_exists n h = n refl
conflict_or_internal-status A _ n h = omega (arith, h)

answer-conflict :
    {A B : Type 0} (m : M A) (on_ok : A → Reply B) (env : Env) (w : World)
    → ((a : A) → status (on_ok a) ≡ 201)
    → Raises Free m
    → status (answer m on_ok conflict_or_internal env w).0 ≢ 409
answer-conflict m on_ok env w good hm h = elim (Result-cases (m env w).0) [
  | inl (a, e) ↦ ground (arith, good a, e, h)
  | inr (x, e) ↦ conflict_or_internal-status _ x (hm.raised env w x e) (rw e at h)
]

-- With the database answering, POST /user answers 409 exactly if a live user has the email.
pub create_409_iff :
    (body : CreateBody) (env : Env) (w : World)
    → env.fault w.steps ≡ false
    → (status (handle_create (some body) env w).0 ≡ 409)
      ↔ (exists (live_email body.email) w.users ≡ true)
unfolding handle_create raise
create_409_iff body env w answers =
    let req = create_req body in
    elim (Bool-cases (exists (live_email body.email) w.users)) [
      | inl taken ↦ (
        λ _. taken,
        λ _.
            ap (λ r. status r.0)
              (answer-same (create_user req) (raise email_already_exists) _ _ env w (tick w)
                (create_user-taken req env w answers taken)),
      )
      | inr free ↦ (
        λ h. absurd (
            answer-conflict (create_with_hash req) _ env (tick w) (λ u. refl)
              (create_with_hash-Free req)
              (ap (λ r. status r.0)
                  (sym (
                    answer-same (create_user req) (create_with_hash req) _ _ env w (tick w)
                      (create_user-free req env w answers free)))
                ∙ h)),
        λ h. cc (h, free),
      )
    ]
