-- ===== src/Lib.antt =====
-- The Go services of NexusRelay: how they read their configuration and secrets, when they report
-- ready, and what they let into logs and metrics.
--
-- A process (apps) reads settings from its environment (internal/config), sets up logs, metrics and
-- traces (internal/observability), opens clients of PostgreSQL and Redis, and serves operational HTTP
-- while internal/dependency probes the clients and sets the readiness that internal/httpserver and
-- internal/observability show. Two commands beside them generate secrets for development and validate
-- a deployment.
--
-- Parts and files:
--   Common        results, maps, texts, and the proof chains for `do` blocks: `Ensures` for what
--                 holds of a value that is returned, `Succeeds` where one is certain to be returned
--   Config        internal/config. Library names what the program calls of Go's time, net, net/url,
--                 net/mail, encoding/base64 and os packages: parameters, with no properties but the
--                 hypotheses that a theorem names. Number is strconv, Setting the readers of one
--                 setting, Inventory the table of all settings, Preflight the checks of their names,
--                 Policy the numeric policies, EnvironmentFile envfile.go, Secret and KeyFile
--                 secret.go with its scan of JSON tokens in Json, DevSecrets devsecrets.go, Endpoint
--                 the URLs and networks, Service, Connection, Session and Tls the settings of one
--                 concern each, Deployment and Processes what puts them together. Disk is a disk
--                 with the calls of the os package that DevSecrets.Generate makes
--                 (GenerateDevSecrets), each of which may fail; Command is internal/config/cmd
--   Dependency    internal/dependency: Probes is runProbes and Readiness is Run of readiness.go,
--                 Clients is dependency.go
--   Runtime       internal/runtime/runtime.go: RunInitialized, RunWithoutReadiness
--   Observability internal/observability: Setup is observability.go and the logger of logging.go,
--                 Middleware and Http are http.go, Logging is the redacting handler of logging.go
--   Apps          apps: Service is the main.go of gateway, control-plane and worker, with what
--                 it closes in Closes and what a request finds in Visible; HealthProbe and
--                 Bootstrap are the other two
--   HttpServer    internal/httpserver: the health handlers and server.go, Router their routes
--   BuildInfo     internal/buildinfo
--   Tests         runs on concrete inputs
--
-- Types: a Go string is a text of Unicode characters, a map an association list, an error a value of
-- `Error` with the arguments of its message. An `int` or `Duration` that passed a test against bounds
-- that are not negative is a natural number; strconv keeps its limit of 2^63, the conversions of the
-- password policy their 32 and 8 bits, and the doubled retry delay its 64 bits. No definition runs on
-- fuel unless its comment says how much is enough.
--
-- Concurrency: Run of internal/dependency is a function of events, one for each thing that its
-- `select` statements and channel reads wait for; its goroutines write to their own elements of an
-- array, in any order. RunInitialized is a relation that interleaves its two goroutines. The two stores
-- of setReady are separate steps for a request; the deferred calls of a return of Run are one step.
--
-- Libraries: pgx, go-redis, chi, OpenTelemetry, slog, flag, net/http, crypto/rand and the encoders are
-- parameters, each a record of what the code asks of it. The effects of opening and closing clients and the
-- exporter of traces are a list, the latest last. Of net/http the writer below statusWriter is written
-- out: informational statuses, the first final status, and a flush.
--
-- Not modelled: the generated client, the registration of signals (Run of internal/runtime), the
-- process-wide defaults for loggers and tracers, the names, help texts and buckets of the metrics, the
-- listener and the connections of the HTTP server, the inside of its router, and what another process
-- does to a disk meanwhile.
pub mod Apps
pub mod BuildInfo
pub mod Common
pub mod Config
pub mod Dependency
pub mod HttpServer
pub mod Observability
pub mod Runtime
pub mod Tests
