-- ===== src/User/Scenarios.antt =====
-- Runs of the user handlers.
use be_aether_node.Base.{true, none, some, [], ◌∷◌, ◌≡◌, refl, ◌↔◌}
use be_aether_node.Store.{World, UserRow}
use be_aether_node.Store.Sql.{exists}
use be_aether_node.Store.Samples.{small_env, empty_world}
use be_aether_node.User.{live_email}
use be_aether_node.User.Handler.{CreateBody, UpdateBody, handle_create}
use be_aether_node.User.Conflict.{create_409_iff}
use be_aether_node.Http.{status}

abbrev eve_row : UserRow
eve_row = record {
  guid = some 3;
  email = "eve@x";
  password_hash = "h";
  first_name = "E";
  last_name = "V";
  role_guid = none;
  is_active = true;
  created_at = some 4;
  updated_at = some 4;
  deleted_at = none;
}

abbrev with_eve : World
with_eve = record empty_world { users = eve_row ∷ [] }

abbrev eve_again : CreateBody
eve_again = record { email = "eve@x"; password = "p"; first_name = "E"; last_name = "V" }

abbrev new_name : UpdateBody
new_name = record { email = none; password = none; first_name = some "Eva"; last_name = none }

create_409_iff_example :
    (status (handle_create (some eve_again) small_env with_eve).0 ≡ 409)
    ↔ (exists (live_email "eve@x") (eve_row ∷ []) ≡ true)
create_409_iff_example = create_409_iff eve_again small_env with_eve refl
