-- ===== src/Server/Intact.antt =====
-- What the parts of internal/service/auth leave of the tables.
use mathlib.Core.List.{append-nil, append_assoc}
use be_aether_node.Base.{
  String, Bool, Option, none, some, List, [], ◌∷◌, ◌++◌, ◌≡◌, refl, sym, ◌∙◌, ap, inl, inr,
  Bool-cases,
}
use be_aether_node.Store.{
  World, Env, M, UserRow, RefreshTokenRow, restore_tables, in_transaction, finish, ignore_error,
  tick, hash_password, parse_optional_uuid,
}
use be_aether_node.Store.Sql.{append_row}
use be_aether_node.Store.Keeps.{Keeps, Keeps-if, Keeps-exec, Result-cases, keeps}
use be_aether_node.User.{
  User, get_by_guid, get_by_email, exists_by_email, exists_email, get_user_row, get_email_row,
  insert_user,
}
use be_aether_node.User as Users
use be_aether_node.User.Service.{refuse_if}
use be_aether_node.Auth.{
  RefreshToken, create, insert_token, get_by_token_hash, get_token_row, check_expiry,
  delete_by_token_hash, delete_hash_rows,
}

-- All tables but those of users and of refresh tokens are as before, and so are the events; the
-- users of before are still there, unchanged, perhaps with new ones after them.
pub record Intact (before after : World) : Type 0 where
  pub api_keys : after.api_keys ≡ before.api_keys
  pub devices : after.devices ≡ before.devices
  pub locations : after.locations ≡ before.locations
  pub installation_points : after.installation_points ≡ before.installation_points
  pub thresholds : after.thresholds ≡ before.thresholds
  pub alarms : after.alarms ≡ before.alarms
  pub events : after.events ≡ before.events
  pub users : (new : List UserRow) × (after.users ≡ before.users ++ new)

pub Intact-refl : (w : World) → Intact w w
Intact-refl w = record {
  api_keys = refl;
  devices = refl;
  locations = refl;
  installation_points = refl;
  thresholds = refl;
  alarms = refl;
  events = refl;
  users = ([], sym (append-nil w.users));
}

-- The tables of users and of refresh tokens may be others.
with_tables :
    {before w : World} (users : List UserRow) (tokens : List RefreshTokenRow)
    → (new : List UserRow) × (users ≡ before.users ++ new)
    → Intact before w
    → Intact before (record w { users = users; refresh_tokens = tokens })
with_tables users tokens new p = record {
  api_keys = p.api_keys;
  devices = p.devices;
  locations = p.locations;
  installation_points = p.installation_points;
  thresholds = p.thresholds;
  alarms = p.alarms;
  events = p.events;
  users = new;
}

pub ignores : (before w : World) → Intact before w → Intact before (tick w)
ignores before w p = record {
  api_keys = p.api_keys;
  devices = p.devices;
  locations = p.locations;
  installation_points = p.installation_points;
  thresholds = p.thresholds;
  alarms = p.alarms;
  events = p.events;
  users = p.users;
}

restored :
    (before start w : World)
    → Intact before start
    → Intact before w
    → Intact before (restore_tables start w)
restored before start w s p = record {
  api_keys = s.api_keys;
  devices = s.devices;
  locations = s.locations;
  installation_points = s.installation_points;
  thresholds = s.thresholds;
  alarms = s.alarms;
  events = p.events;
  users = s.users;
}

added :
    {before w : World} (row : UserRow)
    → Intact before w
    → (new : List UserRow) × (append_row row w.users ≡ before.users ++ new)
added {before} row p =
    let (new, e) = p.users in
    (append_row row new, ap (append_row row) e ∙ append_assoc before.users new (row ∷ []))

module _ (env : Env) (before : World) where
  abbrev P : World → Type 0
  P = Intact before

  pub hash_password-Keeps : (password : String) → Keeps env P (hash_password password)
  unfolding hash_password
  hash_password-Keeps password = record { kept = ignores before }

  pub ignore_error-Keeps : {m : M (Unit {0})} → Keeps env P m → Keeps env P (ignore_error m)
  unfolding ignore_error
  ignore_error-Keeps k = record { kept = k.kept }

  pub finish-Keeps :
      {A : Type 0} {m : M A}
      → Keeps env P m
      → (start w : World) → P start
      → P w
      → P (finish start (m env w).0 env (m env w).1).1
  unfolding finish
  finish-Keeps {m = m} k start w s p = elim (Result-cases (m env w).0) [
    | inl (a, e) ↦
        rw (e, finish)
          (elim (Bool-cases (env.fault (m env w).1.steps)) [
            | inl f ↦ rw f (elim (Bool-cases (env.commit_kept (m env w).1.steps)) [
              | inl c ↦ rw c (ignores before _ (k.kept w p))
              | inr c ↦ rw c (restored before start _ s (ignores before _ (k.kept w p)))
            ])
            | inr f ↦ rw f (ignores before _ (k.kept w p))
          ])
    | inr (x, e) ↦ rw (e, finish) (restored before start _ s (ignores before _ (k.kept w p)))
  ]

  pub in_transaction-Keeps : {A : Type 0} {m : M A} → Keeps env P m → Keeps env P (in_transaction m)
  unfolding in_transaction
  in_transaction-Keeps {m = m} k = record {
    kept = λ w p. elim (Bool-cases (env.fault w.steps)) [
      | inl e ↦ rw e (ignores before w p)
      | inr e ↦ rw e (finish-Keeps k w (tick w) p (ignores before w p))
    ];
  }

  pub refuse_if-Keeps : (b : Bool) → Keeps env P (refuse_if b)
  unfolding refuse_if
  refuse_if-Keeps b = Keeps-if env P b _ _ (search keeps) (search keeps)

  pub get_by_guid-Keeps : (guid : String) → Keeps env P (get_by_guid guid)
  unfolding get_by_guid get_user_row
  get_by_guid-Keeps guid = search (keeps, ignores)

  pub get_by_email-Keeps : (email : String) → Keeps env P (get_by_email email)
  unfolding get_by_email get_email_row
  get_by_email-Keeps email = search (keeps, ignores)

  pub exists_by_email-Keeps : (email : String) → Keeps env P (exists_by_email email)
  unfolding exists_by_email exists_email
  exists_by_email-Keeps email = search (keeps, ignores)

  pub role-Keeps : (role : Option String) → Keeps env P (parse_optional_uuid role)
  role-Keeps none = search keeps
  role-Keeps (some s) = search keeps

  pub insert_user-Keeps : (row : UserRow) → Keeps env P (insert_user row)
  unfolding insert_user
  insert_user-Keeps row =
      Keeps-exec env P (ignores before) _ _ (λ w p. with_tables _ _ (added row p) p)

  pub create_user-Keeps : (u : User) → Keeps env P (Users.create u)
  unfolding Users.create
  create_user-Keeps u = search (keeps, ignores, role-Keeps, insert_user-Keeps) depth 8

  pub insert_token-Keeps : (row : RefreshTokenRow) → Keeps env P (insert_token row)
  unfolding insert_token
  insert_token-Keeps row = Keeps-exec env P (ignores before) _ _ (λ w p. with_tables _ _ p.users p)

  pub create_token-Keeps : (token : RefreshToken) → Keeps env P (create token)
  unfolding create
  create_token-Keeps token = search (keeps, ignores, insert_token-Keeps) depth 8

  pub delete_hash-Keeps : (h : String) → Keeps env P (delete_by_token_hash h)
  unfolding delete_by_token_hash delete_hash_rows
  delete_hash-Keeps h = Keeps-exec env P (ignores before) _ _ (λ w p. with_tables _ _ p.users p)

  pub check_expiry-Keeps : (rt : RefreshToken) → Keeps env P (check_expiry rt)
  unfolding check_expiry
  check_expiry-Keeps rt = search (keeps, ignores, Keeps-if)

  pub get_token-Keeps : (h : String) → Keeps env P (get_by_token_hash h)
  unfolding get_by_token_hash get_token_row
  get_token-Keeps h = search (keeps, ignores, check_expiry-Keeps) depth 8
