-- ===== src/Server/Answers.antt =====
-- Which routes of cmd/server/main.go answer 404.
use be_aether_node.Base.{
  true≢false, ℕ, String, Bool, true, false, Option, none, some, ◌≡◌, ◌≢◌, arith, inl, inr,
}
use be_aether_node.Store.{M, Env, World, Err, email_already_exists, serial_number_exists}
use be_aether_node.Store.Keeps.{Result-cases}
use be_aether_node.Http.{Reply, status, answer}
use be_aether_node.Http.Answers.{ok≢not_found}
use be_aether_node.User.Handler as Users
use be_aether_node.Device.Handler as Devices
use be_aether_node.Location.Handler as Locations
use be_aether_node.InstallationPoint.Handler as Points
use be_aether_node.ApiKey.Handler as Keys
use be_aether_node.Threshold.Handler as Thresholds
use be_aether_node.Alarm.Handler.{
  ContextUser, handle_active, handle_history, handle_stats, params_of, pointer_of,
}
use be_aether_node.User.Replies.{user_handlers_never_404}
use be_aether_node.ApiKey.Replies.{handlers_never_404}
use be_aether_node.Device.Replies as DeviceReplies
use be_aether_node.Location.Replies as LocationReplies
use be_aether_node.InstallationPoint.Replies as PointReplies
use be_aether_node.User.Service.{create_user}
use be_aether_node.User.Service as UserService
use be_aether_node.Device.Service.{create_device}
use be_aether_node.Device.Service as DeviceService
use be_aether_node.Location.Service.{create_location}
use be_aether_node.Location.Service as LocationService
use be_aether_node.InstallationPoint.Service.{create_installation_point, list_installation_points}
use be_aether_node.ApiKey.Service.{create_api_key, list_api_keys}
use be_aether_node.Threshold.Service.{create_threshold, list_thresholds_by_device}
use be_aether_node.Alarm.Service.{list_active_alarms, list_alarm_history, get_alarm_stats}
use be_aether_node.Server.{
  Services, Route, Outcome, answered, serve, coded, coded_or_panic, devices, api_keys, get_me,
  post_user, get_user, list_users, patch_user, delete_user, post_device, get_device, list_devices,
  patch_device, delete_device, post_location, get_location, list_locations, patch_location,
  delete_location, post_point, get_point, get_relations, list_points, patch_point, delete_point,
  post_apikey, get_apikey, list_apikeys, patch_apikey, delete_apikey, post_threshold, get_threshold,
  device_thresholds, patch_threshold, delete_threshold, active_alarms, alarm_history, alarm_stats,
  acknowledge_alarm, resolve_alarm,
}

-- The routes of one threshold, and those that change an alarm.
abbrev pub may_miss : Route → Bool
may_miss (get_threshold _) = true
may_miss (patch_threshold _ _) = true
may_miss (delete_threshold _) = true
may_miss (acknowledge_alarm _) = true
may_miss (resolve_alarm _) = true
may_miss _ = false

abbrev missed : Outcome
missed = answered 404

coded-missed : {A : Type 0} (r : Reply A × World) → status r.0 ≢ 404 → (coded r).0 ≢ missed
coded-missed (r, w) n h = n (cc h)

-- A handler that tests for no missing record.
answer-found :
    {A B : Type 0} (m : M A) (on_ok : A → Reply B) (on_err : Err → Reply B) (env : Env) (w : World)
    → ((a : A) → status (on_ok a) ≢ 404)
    → ((e : Err) → status (on_err e) ≢ 404)
    → status (answer m on_ok on_err env w).0 ≢ 404
answer-found m on_ok on_err env w good bad h = elim (Result-cases (m env w).0) [
  | inl (a, e) ↦ good a (rw e at h)
  | inr (x, e) ↦ bad x (rw e at h)
]

created≢not_found : ◌≢◌ {A = ℕ} 201 404
created≢not_found h = omega (arith, h)

internal≢not_found : ◌≢◌ {A = ℕ} 500 404
internal≢not_found h = omega (arith, h)

bad≢not_found : ◌≢◌ {A = ℕ} 400 404
bad≢not_found h = omega (arith, h)

email-found : (A : Type 0) (e : Err) → status (Users.conflict_or_internal {A = A} e) ≢ 404
email-found A email_already_exists h = omega (arith, h)
email-found A _ h = omega (arith, h)

serial-found : (A : Type 0) (e : Err) → status (Devices.conflict_or_internal {A = A} e) ≢ 404
serial-found A serial_number_exists h = omega (arith, h)
serial-found A _ h = omega (arith, h)

get_me-found :
    (u : Option String) (env : Env) (w : World)
    → (coded_or_panic w (Users.handle_get_me u env w)).0 ≢ missed
unfolding Users.handle_get_me Users.handle_get
get_me-found none env w = λ h. cc h
get_me-found (some guid) env w =
    coded-missed (Users.handle_get guid env w) (user_handlers_never_404 guid none env w).0

-- Whichever token has been accepted: only the routes that read or change one threshold, acknowledge
-- an alarm or resolve one are ever answered 404; those of users, devices, locations, installation
-- points and API keys never are, whether the record is there or not.
pub serve-missed :
    (s : Services) (u : ContextUser) (r : Route) (env : Env) (w : World)
    → may_miss r ≡ false
    → (serve s u r env w).0 ≢ answered 404
unfolding serve Users.handle_create Users.handle_list Devices.handle_create Devices.handle_list
    Locations.handle_create Locations.handle_list Points.handle_create Points.handle_list
    Keys.handle_create Keys.handle_list Thresholds.handle_create Thresholds.handle_list
    handle_active handle_history handle_stats
serve-missed s u get_me env w _ = get_me-found _ env w
serve-missed s u (post_user none) env w _ =
    coded-missed (Users.handle_create none env w) bad≢not_found
serve-missed s u (post_user (some b)) env w _ = coded-missed (Users.handle_create (some b) env w) (
    answer-found (create_user (Users.create_req b)) _ _ env w (λ _. created≢not_found)
      (email-found _))
serve-missed s u (get_user guid) env w _ =
    coded-missed (Users.handle_get guid env w) ((user_handlers_never_404 guid none env w).0)
serve-missed s u (list_users none) env w _ =
    coded-missed (Users.handle_list none env w) bad≢not_found
serve-missed s u (list_users (some b)) env w _ = coded-missed (Users.handle_list (some b) env w) (
    answer-found (UserService.list_users b) _ _ env w (λ _. ok≢not_found) (λ _. internal≢not_found))
serve-missed s u (patch_user guid body) env w _ =
    coded-missed (Users.handle_update guid body env w) ((user_handlers_never_404 guid body env w).1)
serve-missed s u (delete_user guid) env w _ =
    coded-missed (Users.handle_delete guid env w) ((user_handlers_never_404 guid none env w).2)
serve-missed s u (post_device none) env w _ =
    coded-missed (Devices.handle_create devices none env w) bad≢not_found
serve-missed s u (post_device (some b)) env w _ =
    coded-missed (Devices.handle_create devices (some b) env w)
      (answer-found (create_device devices b) _ _ env w (λ _. created≢not_found) (serial-found _))
serve-missed s u (get_device guid) env w _ =
    coded-missed (Devices.handle_get guid env w) (DeviceReplies.handle_get-status guid env w)
serve-missed s u (list_devices none) env w _ =
    coded-missed (Devices.handle_list none env w) bad≢not_found
serve-missed s u (list_devices (some b)) env w _ =
    coded-missed (Devices.handle_list (some b) env w) (
      answer-found (DeviceService.list_devices b) _ _ env w (λ _. ok≢not_found)
        (λ _. internal≢not_found))
serve-missed s u (patch_device guid body) env w _ =
    coded-missed (Devices.handle_update devices guid body env w)
      (DeviceReplies.handle_update-status devices guid body env w)
serve-missed s u (delete_device guid) env w _ =
    coded-missed (Devices.handle_delete devices guid env w)
      (DeviceReplies.handle_delete-status devices guid env w)
serve-missed s u (post_location none) env w _ =
    coded-missed (Locations.handle_create none env w) bad≢not_found
serve-missed s u (post_location (some b)) env w _ =
    coded-missed (Locations.handle_create (some b) env w) (
      answer-found (create_location b) _ _ env w (λ _. created≢not_found) (λ _. internal≢not_found))
serve-missed s u (get_location guid) env w _ =
    coded-missed (Locations.handle_get guid env w) (LocationReplies.handle_get-status guid env w)
serve-missed s u (list_locations none) env w _ =
    coded-missed (Locations.handle_list none env w) bad≢not_found
serve-missed s u (list_locations (some b)) env w _ =
    coded-missed (Locations.handle_list (some b) env w) (
      answer-found (LocationService.list_locations b) _ _ env w (λ _. ok≢not_found)
        (λ _. internal≢not_found))
serve-missed s u (patch_location guid body) env w _ =
    coded-missed (Locations.handle_update guid body env w)
      (LocationReplies.handle_update-status guid body env w)
serve-missed s u (delete_location guid) env w _ =
    coded-missed (Locations.handle_delete guid env w)
      (LocationReplies.handle_delete-status guid env w)
serve-missed s u (post_point none) env w _ =
    coded-missed (Points.handle_create none env w) bad≢not_found
serve-missed s u (post_point (some b)) env w _ =
    coded-missed (Points.handle_create (some b) env w) (
      answer-found (create_installation_point b) _ _ env w (λ _. created≢not_found)
        (λ _. internal≢not_found))
serve-missed s u (get_point guid) env w _ =
    coded-missed (Points.handle_get guid env w) (PointReplies.handle_get-status guid env w)
serve-missed s u (get_relations guid) env w _ =
    coded-missed (Points.handle_get_with_relations guid env w)
      (PointReplies.handle_get_with_relations-status guid env w)
serve-missed s u (list_points none) env w _ =
    coded-missed (Points.handle_list none env w) bad≢not_found
serve-missed s u (list_points (some b)) env w _ = coded-missed (Points.handle_list (some b) env w) (
    answer-found (list_installation_points b) _ _ env w (λ _. ok≢not_found)
      (λ _. internal≢not_found))
serve-missed s u (patch_point guid body) env w _ =
    coded-missed (Points.handle_update guid body env w)
      (PointReplies.handle_update-status guid body env w)
serve-missed s u (delete_point guid) env w _ =
    coded-missed (Points.handle_delete guid env w) (PointReplies.handle_delete-status guid env w)
serve-missed s u (post_apikey none) env w _ =
    coded-missed (Keys.handle_create api_keys none env w) bad≢not_found
serve-missed s u (post_apikey (some b)) env w _ =
    coded-missed (Keys.handle_create api_keys (some b) env w) (
      answer-found (create_api_key api_keys b) _ _ env w (λ _. created≢not_found)
        (λ _. internal≢not_found))
serve-missed s u (get_apikey guid) env w _ =
    coded-missed (Keys.handle_get guid env w) ((handlers_never_404 guid none env w).0)
serve-missed s u (list_apikeys none) env w _ =
    coded-missed (Keys.handle_list none env w) bad≢not_found
serve-missed s u (list_apikeys (some b)) env w _ =
    coded-missed (Keys.handle_list (some b) env w)
      (answer-found (list_api_keys b) _ _ env w (λ _. ok≢not_found) (λ _. internal≢not_found))
serve-missed s u (patch_apikey guid body) env w _ =
    coded-missed (Keys.handle_update guid body env w) ((handlers_never_404 guid body env w).1)
serve-missed s u (delete_apikey guid) env w _ =
    coded-missed (Keys.handle_delete guid env w) ((handlers_never_404 guid none env w).2)
serve-missed s u (post_threshold none) env w _ =
    coded-missed (Thresholds.handle_create s.thresholds none env w) bad≢not_found
serve-missed s u (post_threshold (some b)) env w _ =
    coded-missed (Thresholds.handle_create s.thresholds (some b) env w) (
      answer-found (create_threshold s.thresholds b) _ _ env w (λ _. created≢not_found)
        (λ _. internal≢not_found))
serve-missed s u (device_thresholds guid) env w _ =
    coded-missed (Thresholds.handle_list guid env w) (
      answer-found (list_thresholds_by_device guid) _ _ env w (λ _. ok≢not_found)
        (λ _. internal≢not_found))
serve-missed s u (active_alarms guid) env w _ =
    coded-missed (handle_active guid env w) (
      answer-found (list_active_alarms guid) _ _ env w (λ _. ok≢not_found)
        (λ _. internal≢not_found))
serve-missed s u (alarm_history q) env w _ = coded-missed (handle_history s.atoi_or_zero q env w) (
    answer-found (list_alarm_history (params_of s.atoi_or_zero q env)) _ _ env w (λ _. ok≢not_found)
      (λ _. internal≢not_found))
serve-missed s u (alarm_stats guid) env w _ = coded-missed (handle_stats guid env w) (
    answer-found (get_alarm_stats (pointer_of guid)) _ _ env w (λ _. ok≢not_found)
      (λ _. internal≢not_found))
serve-missed s u (get_threshold guid) env w h = absurd (true≢false h)
serve-missed s u (patch_threshold guid body) env w h = absurd (true≢false h)
serve-missed s u (delete_threshold guid) env w h = absurd (true≢false h)
serve-missed s u (acknowledge_alarm guid) env w h = absurd (true≢false h)
serve-missed s u (resolve_alarm guid) env w h = absurd (true≢false h)
