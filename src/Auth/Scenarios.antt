-- ===== src/Auth/Scenarios.antt =====
-- Runs of the user and the authentication services in a small world.
use be_aether_node.Base.{String, true, none, some, List, [], ◌∷◌, ◌≡◌, refl, ◌⊎◌}
use be_aether_node.Base.Hex.{hex_encode, hex_digit}
use be_aether_node.Store.{
  to_micros, World, UserRow, RefreshTokenRow, ok, err, invalid_refresh_token, ask, or_raise,
  on_error, query, query_row, pure, raise, now, exec, ◌>>=◌, random_bytes, fresh_uuid,
  fresh_if_empty, hash_password, ignore_error,
}
use be_aether_node.Store.Sql.{select, exists, delete}
use be_aether_node.Store.Samples.{small_env, small_env-ParsesBack, empty_world}
use be_aether_node.User.{
  User, live_email, get_by_guid, get_user_row, get_by_email, get_email_row, live_user, user_from_db,
  create, insert_user, exists_by_email, exists_email,
}
use be_aether_node.User.Service.{CreateUserRequest, create_user, get_user, refuse_if}
use be_aether_node.User.Create.{create_user-get_user}
use be_aether_node.Auth as Auth
use be_aether_node.Auth.{
  insert_token, get_by_token_hash, get_token_row, has_hash, refresh_token_from_db, check_expiry,
  delete_by_token_hash, delete_hash_rows,
}
use be_aether_node.Auth.Service.{
  hash_token, check_password, issue_tokens, generate_access_token, issue_refresh_token,
  generate_refresh_token, AuthService, LoginRequest, LoginResult, RegisterRequest, login, register,
  refresh_token,
}
use be_aether_node.Auth.Tokens.{Adds}
use be_aether_node.Auth.Rotation.{refresh_token_once}
use be_aether_node.Auth.Register.{OthersUnchanged, Failed, Done, register_atomic}
use be_aether_node.Auth.Emails.{login-ok}

abbrev service : AuthService
service = record { jwt_secret = "k"; access_token_ttl = 900; refresh_token_ttl = 1000 }

abbrev ana_row : UserRow
ana_row = record {
  guid = some 7;
  email = "ana@x.org";
  password_hash = "pw";
  first_name = "Ana";
  last_name = "X";
  role_guid = none;
  is_active = true;
  created_at = some 1;
  updated_at = some 1;
  deleted_at = none;
}

-- The token that was issued before, not yet expired at time 100.
abbrev old_token : RefreshTokenRow
old_token = record {
  guid = some 9;
  user_guid = some 7;
  token_hash = "old";
  expires_at = some 200;
  created_at = some 1;
}

abbrev one_user : World
one_user = record empty_world { users = ana_row ∷ []; refresh_tokens = old_token ∷ [] }

abbrev new_token : String
new_token = "0000000000000000000000000000000000000000000000000000000000000000"

abbrev refreshed : LoginResult
refreshed = record { access_token = "gggggggg"; refresh_token = new_token; expires_in = 0 }

abbrev ana_login : LoginRequest
ana_login = record { email = "ana@x.org"; password = "pw" }

abbrev bob_login : LoginRequest
bob_login = record { email = "bob@x.org"; password = "pw" }

abbrev bob : RegisterRequest
bob = record { email = "bob@x.org"; password = "pw2"; first_name = "Bob"; last_name = "Y" }

refresh_token_once_example :
    (refresh_token service "old" small_env (refresh_token service "old" small_env one_user).1).0
    ≡ err invalid_refresh_token
unfolding refresh_token hash_token get_by_token_hash get_token_row has_hash refresh_token_from_db
    check_expiry get_by_guid get_user_row live_user user_from_db ignore_error delete_by_token_hash
    delete_hash_rows issue_tokens generate_access_token issue_refresh_token generate_refresh_token
    Auth.create insert_token ask or_raise on_error query query_row pure raise now exec ◌>>=◌
    random_bytes fresh_uuid fresh_if_empty select exists delete hex_encode hex_digit
refresh_token_once_example =
    refresh_token_once service "old" small_env one_user refreshed (λ n. refl) refl (λ e. cc e)

register_atomic_example :
    OthersUnchanged one_user (register service bob small_env one_user).1
    × (Failed one_user (register service bob small_env one_user)
        ⊎ Done bob one_user (register service bob small_env one_user))
register_atomic_example = register_atomic service bob small_env one_user

login-ok_example :
    ((row : UserRow) × (rows : List UserRow) × (select (live_email "ana@x.org") one_user.users
        ≡ row ∷ rows)
      × (small_env.bcrypt_compare row.password_hash "pw" ≡ true))
    × Adds one_user new_token (login service ana_login small_env one_user).1
unfolding login hash_token get_by_email get_email_row live_email user_from_db check_password
    issue_tokens generate_access_token issue_refresh_token generate_refresh_token Auth.create
    insert_token ask or_raise on_error query query_row pure raise now exec ◌>>=◌ random_bytes
    fresh_uuid fresh_if_empty select exists hex_encode hex_digit
login-ok_example = login-ok service ana_login small_env one_user refreshed refl

abbrev ana_request : CreateUserRequest
ana_request = record {
  email = "ana@x.org";
  password = "pw3";
  first_name = "Ana";
  last_name = "Z";
  role_guid = none;
}

abbrev created_ana : User
created_ana = record {
  guid = "ggg";
  email = "ana@x.org";
  password_hash = "pw3";
  first_name = "Ana";
  last_name = "Z";
  role_guid = none;
  is_active = true;
  created_at = 0;
  updated_at = 0;
  deleted_at = none;
}

create_user-get_user_example :
    (get_user "ggg" small_env (create_user ana_request small_env empty_world).1).0
    ≡ ok (record created_ana { created_at = to_micros 103; updated_at = to_micros 103 })
unfolding create_user create insert_user exists_by_email exists_email refuse_if hash_password ask
    or_raise query pure raise now exec ◌>>=◌ fresh_uuid fresh_if_empty exists
create_user-get_user_example =
    create_user-get_user ana_request small_env empty_world created_ana small_env-ParsesBack refl
      refl refl
