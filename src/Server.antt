-- ===== src/Server.antt =====
-- The routes of cmd/server/main.go to the handlers that are modelled: behind the JWT middleware
-- or not, with the status code that each request is answered with.
use be_aether_node.Base.{ℕ, String, true, false, Option, none, some}
use be_aether_node.Base.Int.{ℤ, pos}
use be_aether_node.Store.{Env, World, tick}
use be_aether_node.Store.Sql.{ListParams}
use be_aether_node.Http.{Reply, status}
use be_aether_node.Middleware.{Error, Method, Written, jwt_auth_error_handler_with_context}
use be_aether_node.Auth.Service.{AuthService, LoginRequest, RegisterRequest}
use be_aether_node.Auth.Handler as Auths
use be_aether_node.User.Handler as Users
use be_aether_node.Device.Service.{DeviceService, CreateDeviceRequest, UpdateDeviceRequest}
use be_aether_node.Device.Handler as Devices
use be_aether_node.Location.Service.{CreateLocationRequest, UpdateLocationRequest}
use be_aether_node.Location.Handler as Locations
use be_aether_node.InstallationPoint.{PointListParams}
use be_aether_node.InstallationPoint.Service.{
  CreateInstallationPointRequest, UpdateInstallationPointRequest,
}
use be_aether_node.InstallationPoint.Handler as Points
use be_aether_node.ApiKey.Service.{
  CreateApiKeyRequest, UpdateApiKeyRequest, ApiKeyService, new_service,
}
use be_aether_node.ApiKey.Handler as Keys
use be_aether_node.Threshold.Service.{
  ThresholdService, CreateThresholdRequest, UpdateThresholdRequest,
}
use be_aether_node.Threshold.Handler as Thresholds
use be_aether_node.Alarm.Handler.{
  HistoryQueryParams, ContextUser, subject, handle_active, handle_history, handle_stats,
  handle_acknowledge, handle_resolve,
}
use be_aether_node.Health.{Ping, InfluxProbe}
use be_aether_node.Health as Health
use be_aether_node.Telemetry.{Time}
use be_aether_node.Telemetry.Query.{Answer}
use be_aether_node.Telemetry.Line.{Numbers, WriteBody, handle_write}
pub mod Answers
pub mod Intact
pub mod Access
mod Scenarios

-- What main sets up: the authentication service, whether NATS is connected, and strconv.Atoi; then
-- InfluxDB's answers to lines, the texts of numbers in them, and what the two probes of the health
-- checks find, each at a use of the environment. A float64 is its bits.
pub record Services : Type 0 where
  pub auth : AuthService
  pub thresholds : ThresholdService
  pub atoi_or_zero : String → ℤ
  pub numbers : Numbers ℕ
  pub unix_nano : Time → ℤ
  pub influx : ℕ → String → Answer
  pub ping : ℕ → Ping
  pub probe : ℕ → InfluxProbe

-- The device service calls InvalidateDeviceCache.
abbrev pub devices : DeviceService
devices = record { on_update = true }

unfoldable pub api_keys : ApiKeyService
api_keys = new_service "aeth_live_pk_"

-- The routes of the group "/auth", of the health checks and of the ingestion of telemetry, with their
-- bodies, `none` where one does not bind.
pub data PublicRoute : Type 0 where
  post_login : Option LoginRequest → PublicRoute
  post_register : Option RegisterRequest → PublicRoute
  post_forgot_password : Option String → PublicRoute
  post_token_refresh : Option String → PublicRoute
  post_logout : PublicRoute
  get_health : PublicRoute
  get_liveness : PublicRoute
  get_readiness : PublicRoute
  post_telemetry : Option (WriteBody ℕ) → PublicRoute

-- The routes of the group behind the JWT middleware.
pub data Route : Type 0 where
  get_me : Route
  post_user : Option Users.CreateBody → Route
  get_user : String → Route
  list_users : Option ListParams → Route
  patch_user : String → Option Users.UpdateBody → Route
  delete_user : String → Route
  post_device : Option CreateDeviceRequest → Route
  get_device : String → Route
  list_devices : Option ListParams → Route
  patch_device : String → Option UpdateDeviceRequest → Route
  delete_device : String → Route
  post_location : Option CreateLocationRequest → Route
  get_location : String → Route
  list_locations : Option ListParams → Route
  patch_location : String → Option UpdateLocationRequest → Route
  delete_location : String → Route
  post_point : Option CreateInstallationPointRequest → Route
  get_point : String → Route
  get_relations : String → Route
  list_points : Option PointListParams → Route
  patch_point : String → Option UpdateInstallationPointRequest → Route
  delete_point : String → Route
  post_apikey : Option CreateApiKeyRequest → Route
  get_apikey : String → Route
  list_apikeys : Option ListParams → Route
  patch_apikey : String → Option UpdateApiKeyRequest → Route
  delete_apikey : String → Route
  post_threshold : Option CreateThresholdRequest → Route
  get_threshold : String → Route
  device_thresholds : String → Route
  patch_threshold : String → Option UpdateThresholdRequest → Route
  delete_threshold : String → Route
  active_alarms : String → Route
  alarm_history : HistoryQueryParams → Route
  alarm_stats : String → Route
  acknowledge_alarm : String → Route
  resolve_alarm : String → Route

-- What the JWT middleware makes of the request's token: an error, or the user of the context.
pub data Token : Type 0 where
  refused : Option Error → Token
  accepted : ContextUser → Token

-- The last is a request to one of the routes /telemetry/* and /alarm/stream of the protected group,
-- whose token the middleware refuses.
pub data Request : Type 0 where
  unprotected : PublicRoute → Request
  protected : Token → Method → Route → Request
  refused_stream : Option Error → Method → Request

-- A status code, what the middleware's error handler writes, or a panic.
pub data Outcome : Type 0 where
  answered : ℕ → Outcome
  unauthorized : Written → Outcome
  panicked : Outcome

abbrev pub coded : {A : Type 0} → Reply A × World → Outcome × World
coded (r, w) = (answered (status r), w)

abbrev pub coded_or_panic : {A : Type 0} → World → Option (Reply A × World) → Outcome × World
coded_or_panic w none = (panicked, w)
coded_or_panic w (some r) = coded r

-- The subject of a token's claims, `none` where the type assertions of GetMe panic.
abbrev pub subject_of : ContextUser → Option String
subject_of (subject s) = some s
subject_of _ = none

-- No middleware of the group sets the user of the context that Logout reads. The reading that
-- POST /telemetry hands to InfluxDB and to the streams is no part of the world.
unfoldable pub serve_public : Services → PublicRoute → Env → World → Outcome × World
serve_public s (post_login body) env w = coded (Auths.handle_login s.auth body env w)
serve_public s (post_register body) env w = coded (Auths.handle_register s.auth body env w)
serve_public s (post_forgot_password body) env w = coded (Auths.handle_forgot_password body env w)
serve_public s (post_token_refresh body) env w = coded (Auths.handle_refresh s.auth body env w)
serve_public s post_logout env w = coded (Auths.handle_logout none env w)
serve_public s get_health env w =
    (answered (Health.get_health (s.ping w.steps) (s.probe w.steps)).0, tick w)
serve_public s get_liveness env w = (answered Health.liveness.0, w)
serve_public s get_readiness env w =
    (answered (Health.readiness (s.ping w.steps) (s.probe w.steps)).0, tick w)
serve_public s (post_telemetry body) env w =
    let now : Time = record { instant = env.clock w.steps; zone = pos 0 } in
    let (reply, published) = handle_write s.numbers s.unix_nano (s.influx w.steps) now body in
    (answered (status reply), tick w)

unfoldable pub serve : Services → ContextUser → Route → Env → World → Outcome × World
serve s u get_me env w = coded_or_panic w (Users.handle_get_me (subject_of u) env w)
serve s u (post_user body) env w = coded (Users.handle_create body env w)
serve s u (get_user guid) env w = coded (Users.handle_get guid env w)
serve s u (list_users params) env w = coded (Users.handle_list params env w)
serve s u (patch_user guid body) env w = coded (Users.handle_update guid body env w)
serve s u (delete_user guid) env w = coded (Users.handle_delete guid env w)
serve s u (post_device body) env w = coded (Devices.handle_create devices body env w)
serve s u (get_device guid) env w = coded (Devices.handle_get guid env w)
serve s u (list_devices params) env w = coded (Devices.handle_list params env w)
serve s u (patch_device guid body) env w = coded (Devices.handle_update devices guid body env w)
serve s u (delete_device guid) env w = coded (Devices.handle_delete devices guid env w)
serve s u (post_location body) env w = coded (Locations.handle_create body env w)
serve s u (get_location guid) env w = coded (Locations.handle_get guid env w)
serve s u (list_locations params) env w = coded (Locations.handle_list params env w)
serve s u (patch_location guid body) env w = coded (Locations.handle_update guid body env w)
serve s u (delete_location guid) env w = coded (Locations.handle_delete guid env w)
serve s u (post_point body) env w = coded (Points.handle_create body env w)
serve s u (get_point guid) env w = coded (Points.handle_get guid env w)
serve s u (get_relations guid) env w = coded (Points.handle_get_with_relations guid env w)
serve s u (list_points params) env w = coded (Points.handle_list params env w)
serve s u (patch_point guid body) env w = coded (Points.handle_update guid body env w)
serve s u (delete_point guid) env w = coded (Points.handle_delete guid env w)
serve s u (post_apikey body) env w = coded (Keys.handle_create api_keys body env w)
serve s u (get_apikey guid) env w = coded (Keys.handle_get guid env w)
serve s u (list_apikeys params) env w = coded (Keys.handle_list params env w)
serve s u (patch_apikey guid body) env w = coded (Keys.handle_update guid body env w)
serve s u (delete_apikey guid) env w = coded (Keys.handle_delete guid env w)
serve s u (post_threshold body) env w = coded (Thresholds.handle_create s.thresholds body env w)
serve s u (get_threshold guid) env w = coded (Thresholds.handle_get guid env w)
serve s u (device_thresholds guid) env w = coded (Thresholds.handle_list guid env w)
serve s u (patch_threshold guid body) env w =
    coded (Thresholds.handle_update s.thresholds guid body env w)
serve s u (delete_threshold guid) env w = coded (Thresholds.handle_delete s.thresholds guid env w)
serve s u (active_alarms guid) env w = coded (handle_active guid env w)
serve s u (alarm_history q) env w = coded (handle_history s.atoi_or_zero q env w)
serve s u (alarm_stats guid) env w = coded (handle_stats guid env w)
serve s u (acknowledge_alarm guid) env w = coded_or_panic w (handle_acknowledge u guid env w)
serve s u (resolve_alarm guid) env w = coded (handle_resolve guid env w)

-- ErrorHandlerWithContext of the JWT middleware.
abbrev refuse : Method → Option Error → World → Outcome × World
refuse method e w = (unauthorized (jwt_auth_error_handler_with_context false method e), w)

unfoldable pub serve_request : Services → Request → Env → World → Outcome × World
serve_request s (unprotected r) env w = serve_public s r env w
serve_request s (protected (refused e) method r) env w = refuse method e w
serve_request s (protected (accepted u) method r) env w = serve s u r env w
serve_request s (refused_stream e method) env w = refuse method e w
