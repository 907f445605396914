-- ===== src/User/Create.antt =====
-- A user that internal/service/user creates, as a later lookup reads it.
use be_aether_node.Base.{
  ℕ, suc, String, true, false, ◌||◌, none, some, List, [], ◌∷◌, ◌≡◌, refl, arith, inl, inr,
  Option-cases, str_eq,
}
use be_aether_node.Store.{
  to_micros, Env, World, UserRow, ask, or_raise, now, exec, fresh_if_empty, fresh_uuid, pure, raise,
  query, query_row, on_error, hash_password, ◌>>=◌, ok,
}
use be_aether_node.Store.Sql.{exists, same_guid, append_row, select}
use be_aether_node.User.{
  User, create, insert_user, exists_by_email, exists_email, live_user, get_by_guid, get_user_row,
  user_from_db,
}
use be_aether_node.User.Service.{CreateUserRequest, create_user, refuse_if, get_user}

-- A GUID that no row has selects the row that was added.
select-new :
    (id : ℕ) (email : String) (row : UserRow) (rows : List UserRow)
    → exists (λ r. same_guid r.guid (some id) || str_eq r.email email) rows ≡ false
    → live_user id row ≡ true
    → select (live_user id) (append_row row rows) ≡ row ∷ []
unfolding exists select live_user
select-new id email row [] h l = rw l refl
select-new id email row (r ∷ rows) h l = ground (arith, h, l, select-new id email row rows)

abbrev created_row : CreateUserRequest → String → ℕ → ℕ → UserRow
created_row req hashed guid t = record {
  guid = some guid;
  email = req.email;
  password_hash = hashed;
  first_name = req.first_name;
  last_name = req.last_name;
  role_guid = none;
  is_active = true;
  created_at = some (to_micros t);
  updated_at = some (to_micros t);
  deleted_at = none;
}

created-live :
    (req : CreateUserRequest) (hashed : String) (guid t : ℕ)
    → live_user guid (created_row req hashed guid t) ≡ true
unfolding live_user
created-live req hashed guid t = ground arith

-- Where uuid.Parse reads back what String writes: a user without a role that CreateUser returns is
-- the one that GetUser of its GUID returns next, if the database answers, with the time of creation,
-- cut to whole microseconds.
pub create_user-get_user :
    (req : CreateUserRequest) (env : Env) (w : World) (u : User)
    → ((id : ℕ) → env.uuid_parse (env.uuid_string id) ≡ some id)
    → req.role_guid ≡ none
    → (create_user req env w).0 ≡ ok u
    → let w' = (create_user req env w).1 in
      env.fault w'.steps ≡ false
      → let t = env.clock (suc (suc (suc w.steps))) in
        (get_user u.guid env w').0
        ≡ ok (record u { created_at = to_micros t; updated_at = to_micros t })
unfolding create_user get_user get_by_guid get_user_row create insert_user fresh_if_empty fresh_uuid
    ask or_raise now exec pure raise ◌>>=◌ query query_row on_error hash_password refuse_if
    exists_by_email exists_email user_from_db
create_user-get_user req env w u back role h answers =
    elim (Option-cases (env.bcrypt_hash (suc w.steps) req.password)) [
      | inl e ↦ ground (arith, e, h)
      | inr (hashed, e) ↦
          let id = env.uuid_new (suc (suc w.steps)) in
          let row = created_row req hashed id (env.clock (suc (suc (suc w.steps)))) in
          ground (
            arith,
            e,
            h,
            answers,
            role,
            back id,
            select-new id req.email row w.users,
            created-live req hashed id (env.clock (suc (suc (suc w.steps)))),
          )
    ]
