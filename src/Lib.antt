-- ===== src/Lib.antt =====
-- be-aether-node: models and proofs of the air quality backend, a Go service on echo, PostgreSQL
-- (sqlc and pgx) and InfluxDB.
--
-- The program's parts. HTTP handlers (internal/handler) bind a request, call a service
-- (internal/service), and answer with a body of pkg/response. A service checks and composes, and
-- calls repositories (internal/repository), which run the generated statements of internal/db and
-- turn rows into domain values (internal/db/convert.go). In front of the handlers stands the rate
-- limiter (internal/ratelimit); around InfluxDB queries stands the circuit breaker
-- (internal/circuitbreaker).
--
-- Which file models which part:
-- - Base: numbers, lists, int64 (Base/Int) and hex (Base/Hex) for all others.
-- - Breaker: internal/circuitbreaker/circuitbreaker.go. A breaker is a record; Allow, Release,
--   RecordSuccess, RecordFailure and Execute are functions of the same name in snake case; the
--   channel is its number of slots, and a receive that blocks is a value. Breaker/Group is
--   CircuitBreakerGroup. Breaker/Invariant has the steps that goroutines interleave.
-- - RateLimit: internal/ratelimit/ratelimit.go, the token bucket store with 64-bit wrap;
--   RateLimit/Decimal is itoa, RateLimit/Handler the middleware of NewRateLimiter over any store,
--   RateLimit/Global that of Global, with the sweeps of its own store.
-- - Store: what internal/repository and internal/service run on. A world holds the tables as lists
--   of rows (internal/db/models.go, in Store/Rows), lists what the services have announced, and
--   counts the uses of the environment; an operation takes the environment and the world to a result
--   and a world (Store/Effects). Store/Sql has the list functions that the statements of
--   queries/*.sql mean;
--   in_transaction is internal/repository/base.go as Register uses it. Store/Keeps, Raises,
--   Announces, Bind, Laws and Paging carry the proofs.
-- - Http: pkg/response/response.go.
-- - ApiKey: internal/domain/apikey, internal/db/apikeys.sql.go, internal/repository/apikey;
--   ApiKey/Service: internal/service/apikey; ApiKey/Handler: internal/handler/apikey_handler.go.
-- - User: internal/domain/user, internal/db/users.sql.go, internal/repository/user; User/Service:
--   internal/service/user; User/Handler: internal/handler/user_handler.go.
-- - Auth: internal/domain/auth, internal/db/refresh_tokens.sql.go, internal/repository/auth;
--   Auth/Service: internal/service/auth; Auth/Handler: internal/handler/auth_handler.go.
-- - Device, Location, InstallationPoint, Threshold, Alarm: the same layers for these records, each
--   with its domain, statements and repository in the file of that name, and with Service and
--   Handler below it. The callback of the device service and the NATS message of the threshold
--   service are events of the world. Alarm/History is ListAlarmHistory with its joins.
-- - Server: the routes of cmd/server/main.go to these handlers, behind the JWT middleware or not; a
--   request says what the middleware makes of its token.
-- - Middleware: the JWT error handlers of pkg/middleware/middleware.go.
-- - Health: internal/handler/health_handler.go; what its two probes find is a parameter.
-- - Telemetry: parseFluxCSV of internal/repository/telemetry/telemetry_repository_impl.go, from the
--   records of the CSV text; Telemetry/History: parseTelemetryHistory, whose map is an association
--   list that is read in any order; Telemetry/Sorting: its sort by exchange. Telemetry/Handler:
--   the history endpoint of internal/handler/telemetry_handler.go with the service and the limit of
--   its query, whose text is not modelled. Telemetry/Streams: the channels of
--   internal/service/telemetry, as the steps that goroutines interleave; Telemetry/Channels, Steps and
--   Interleaving are their proofs. Telemetry/Dashboard: the payload of all devices, the entry of one
--   and the name cache, whose InfluxDB answers are a parameter; Telemetry/Payload has the proof.
--   Telemetry/Latest: parseHealthResult and parseTelemetryLatest; Telemetry/Sightings and Online are
--   the proofs. Telemetry/Query: queryFluxGeneric and the queries of the latest values, with their
--   texts, through the breaker or past it; Telemetry/Bypass compares the two. Telemetry/Line:
--   the write of a reading, from the handler to the line that InfluxDB gets; Telemetry/Splitting and
--   Fields read it back. Telemetry/Runs has runs of these.
-- A file named Scenarios has runs on concrete inputs; one named Rows below a part has the records, the
-- statements and the conversion of rows of the module above it, which has the repository.
--
-- Conventions. A time is its nanoseconds since the zero time, of which a column of the database
-- keeps whole microseconds (to_micros of Store), a UUID its bits as a number, a float64 that is
-- only copied its bits, a pgtype value that is not valid is `none`. A method is the function of
-- its name in snake case; a method of a repository that would share a name with one of the
-- service says what it works on. Errors are values that Go compares by identity, so that two
-- packages' errors of one text are two values.
--
-- Bounds and fuel. The rate limiter wraps at 64 bits, LIMIT and OFFSET are cut to 32 bits as in the
-- source; counters of the breaker stay below its thresholds and need no wrap. The loop of itoa runs
-- on the number as fuel, and each round divides it by ten. No other loop needs fuel.
--
-- What stands outside and is a parameter (the record Env of Store): PostgreSQL's faults, ILIKE,
-- its own clock, UUIDs, order of texts, of groups and of rows that ORDER BY leaves open, and
-- whether a failed Commit has committed, the server's clock, crypto/rand, uuid, SHA-256,
-- time.Parse, bcrypt and jwt. What the proofs use of them is a named hypothesis, such as
-- FillsBuffer, SumsTo32, ParsesBack and Answers. For telemetry it is the record Formats (strconv,
-- fmt and the layouts of time) and the function that answers a query.
--
-- Not modelled: isolation between concurrent transactions, VARCHAR limits (a statement may fail at
-- any time), contexts and their cancellation, JSON, logging and metrics; the loop of the alarm stream,
-- configuration, the text of the history query and parseQueryResult.
pub mod Base
pub mod Breaker
pub mod RateLimit
pub mod Store
pub mod Http
pub mod Middleware
pub mod Telemetry
pub mod ApiKey
pub mod User
pub mod Auth
pub mod Device
pub mod Location
pub mod InstallationPoint
pub mod Threshold
pub mod Alarm
pub mod Server
pub mod Health
