-- ===== src/Health.antt =====
-- internal/handler/health_handler.go. What the two probes find is a parameter, and so is the text of
-- a latency.
use be_aether_node.Base.{
  ℕ, String, Bool, true, false, not, ◌&&◌, Option, none, some, ◌≡◌, refl, str_eq, leb,
  if◌then◌else◌,
}
use Prim.Native.String.{◌++◌ as text_append}

pub record ComponentStatus : Type 0 where
  pub status : String
  pub latency : String
  pub error : String

pub record HealthResponse : Type 0 where
  pub status : String
  pub postgres : ComponentStatus
  pub influxdb : ComponentStatus

-- The error of a ping, or `none`, and how long it took.
pub record Ping : Type 0 where
  pub error : Option String
  pub latency : String

-- No URL; an error of NewRequest or Do; or a status with its text.
pub data InfluxProbe : Type 0 where
  no_url : InfluxProbe
  failed : String → String → InfluxProbe
  responded : ℕ → String → String → InfluxProbe

unfoldable pub check_postgres : Ping → ComponentStatus
check_postgres p = elim p.error [
  | some e ↦ record { status = "down"; latency = p.latency; error = e }
  | none ↦ record { status = "up"; latency = p.latency; error = "" }
]

unfoldable pub check_influx_db : InfluxProbe → ComponentStatus
check_influx_db no_url = record { status = "disabled"; latency = ""; error = "" }
check_influx_db (failed e latency) = record { status = "down"; latency = latency; error = e }
check_influx_db (responded code status latency) =
    if leb 400 code
    then record { status = "down"; latency = latency; error = text_append "HTTP " status }
    else record { status = "up"; latency = latency; error = "" }

abbrev postgres_status : ComponentStatus → String
postgres_status postgres = if str_eq postgres.status "up" then "healthy" else "degraded"

abbrev degrades : String → ComponentStatus → Bool
degrades status influxdb =
    not (str_eq influxdb.status "up") && (not (str_eq influxdb.error "") && str_eq status "healthy")

abbrev status_of : ComponentStatus → ComponentStatus → String
status_of postgres influxdb =
    let status = postgres_status postgres in if degrades status influxdb then "degraded" else status

unfoldable pub check : Ping → InfluxProbe → HealthResponse
check p probe =
    let postgres = check_postgres p in
    let influxdb = check_influx_db probe in
    record { status = status_of postgres influxdb; postgres = postgres; influxdb = influxdb }

abbrev code_of : String → ℕ
code_of status = if str_eq status "down" then 503 else 200

-- The status code and the body of GET /health.
unfoldable pub get_health : Ping → InfluxProbe → ℕ × HealthResponse
get_health p probe = (code_of (check p probe).status, check p probe)

-- GET /health/live
unfoldable pub liveness : ℕ × String
liveness = (200, "alive")

-- GET /health/ready
unfoldable pub readiness : Ping → InfluxProbe → ℕ × HealthResponse
readiness p probe = (code_of (check p probe).status, check p probe)

code_of-if :
    (b : Bool) (s t : String)
    → code_of s ≡ 200
    → code_of t ≡ 200
    → code_of (if b then s else t) ≡ 200
code_of-if true s t hs ht = hs
code_of-if false s t hs ht = ht

code_of-status_of : (p i : ComponentStatus) → code_of (status_of p i) ≡ 200
code_of-status_of p i =
    code_of-if (degrades (postgres_status p) i) "degraded" (postgres_status p) refl
      (code_of-if (str_eq p.status "up") "healthy" "degraded" refl refl)

-- Check never gives the status "down", so GET /health and GET /health/ready answer 200 whatever the
-- probes find, also if PostgreSQL is down.
pub health-always_200 :
    (p : Ping) (probe : InfluxProbe)
    → ((get_health p probe).0 ≡ 200) × ((readiness p probe).0 ≡ 200)
unfolding get_health readiness check
health-always_200 p probe =
    let answer = code_of-status_of (check_postgres p) (check_influx_db probe) in (answer, answer)
