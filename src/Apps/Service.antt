-- ===== src/Apps/Service.antt =====
-- `run` of apps/gateway/main.go, apps/control-plane/main.go and apps/worker/main.go: what a service
-- opens, serves with and closes.
pub mod Closes
pub mod Laws
pub mod Visible
use Prim.Native.String.{◌++◌ as ◌<>◌}
use nexus_relay.BuildInfo.{Build, write_version}
use nexus_relay.Common.{
  ℕ, String, Bool, true, false, Option, none, some, List, [], ◌∷◌, ◌++◌, Error, Result, ok, err,
  if◌then◌else◌,
}
use nexus_relay.Config.Connection.{Database, Redis}
use nexus_relay.Config.Library.{Library, Host}
use nexus_relay.Config.Policy.Readiness.{DependencyReadiness}
use nexus_relay.Config.Processes.{
  ServiceCommon, Gateway, ControlPlane, Worker, parse_gateway, parse_control_plane, parse_worker,
}
use nexus_relay.Config.Setting.{Values, environment}
use nexus_relay.Dependency.Clients.{
  Drivers, Clients, Effect, opened, closed, exporter, open_clients, close, probes,
}
use nexus_relay.Dependency.Probes.{Probe}
use nexus_relay.Dependency.Readiness.{ReadinessPolicy, Outcome, served, startup_timed_out}
use nexus_relay.HttpServer
use nexus_relay.HttpServer.{Health, new_health}
use nexus_relay.HttpServer.Router.{Mux, Endpoint, Url, handler}
use nexus_relay.Observability
use nexus_relay.Observability.{Metrics}
use nexus_relay.Observability.Logging.{Slog}
use nexus_relay.Observability.Setup.{
  Tracing, Telemetry, new_telemetry, shutdown, metrics_handler, opens_exporter,
}

pub data Kind : Type 0 where
  gateway control_plane worker : Kind

abbrev pub name_of : Kind → String
name_of gateway = "gateway"
name_of control_plane = "control-plane"
name_of worker = "worker"

-- what `run` reads of the settings
pub record Settings : Type 0 where
  pub common : ServiceCommon
  pub database : Database
  pub redis : Redis
  pub readiness : DependencyReadiness

abbrev pub of_gateway : Result Gateway → Result Settings
of_gateway (err e) = err e
of_gateway (ok g) =
    ok (record {
      common = g.common;
      database = g.database;
      redis = g.redis;
      readiness = g.readiness;
    })

abbrev pub of_control_plane : Result ControlPlane → Result Settings
of_control_plane (err e) = err e
of_control_plane (ok c) =
    ok (record {
      common = c.common;
      database = c.database;
      redis = c.redis;
      readiness = c.readiness;
    })

abbrev pub of_worker : Result Worker → Result Settings
of_worker (err e) = err e
of_worker (ok w) =
    ok (record {
      common = w.common;
      database = w.database;
      redis = w.redis;
      readiness = w.readiness;
    })

-- LoadGateway, LoadControlPlane and LoadWorker, of the entries of os.Environ
unfoldable pub load : Kind → Library → Host → List String → Result Settings
load gateway go host entries = of_gateway (parse_gateway go host (environment entries))
load control_plane go host entries =
    of_control_plane (parse_control_plane go host (environment entries))
load worker go host entries = of_worker (parse_worker go host (environment entries))

unfoldable pub policy_of : Settings → ReadinessPolicy
policy_of s = record {
  startup_timeout = s.readiness.startup_timeout;
  probe_timeout = s.readiness.probe_timeout;
  probe_interval = s.readiness.probe_interval;
  retry_minimum = s.readiness.retry_minimum;
  retry_maximum = s.readiness.retry_maximum;
}

-- what `setReady` writes to: the health handlers and the metrics
pub record Shown : Type 0 where
  pub health : Health
  pub metrics : Option Metrics

abbrev pub new_shown : Telemetry → Shown
new_shown t = record { health = new_health; metrics = t.metrics }

-- `setReady` makes two stores, one after the other, that a request can see separately
pub data Store : Type 0 where
  health_store gauge_store : Store

unfoldable pub store : Store → Bool → Shown → Shown
store health_store ready s = record s { health = HttpServer.set_ready ready s.health }
store gauge_store ready s = record s { metrics = Observability.set_ready ready s.metrics }

-- its stores, in their order
unfoldable pub stores : List Store
stores = health_store ∷ gauge_store ∷ []

abbrev pub stored : List Store → Bool → Shown → Shown
stored [] ready s = s
stored (at ∷ later) ready s = stored later ready (store at ready s)

unfoldable pub set_ready : Bool → Shown → Shown
set_ready ready s = stored stores ready s

-- the server's handler, less the middleware: health.Handler(telemetry.MetricsHandler())
unfoldable pub handled : Mux → Telemetry → String → Url → Option Endpoint
handled mux t = handler mux (metrics_handler t)

-- Steps that open and close, with what was opened and closed so far; a deferred call comes at the end,
-- also after an error.
abbrev pub Traced : Type 0 → Type 0
Traced A = Result A × List Effect

abbrev pub deferred : {A : Type 0} → List Effect → Traced A → Traced A
deferred effects (r, before) = (r, before ++ effects)

infixl 5 ◌>>=◌
abbrev pub ◌>>=◌ : {A B : Type 0} → Traced A → (A → Traced B) → Traced B
(ok a, before) >>= f = let (r, later) = f a in (r, before ++ later)
(err e, before) >>= f = (err e, before)

module _ (slog : Slog) (otel : Tracing) (d : Drivers) (go : Library)
    -- what dependency.Run comes back with, with the server of these settings and telemetry
    (dependency_run : ReadinessPolicy → List Probe → Result Outcome) where
  unfoldable pub with_clients : Settings → Traced Outcome
  unfolding policy_of
  with_clients s = do
    clients ← open_clients d go s.database s.redis (policy_of s).probe_timeout
    deferred (close d (some clients)) (dependency_run (policy_of s) probes, [])

  -- observability.New, and the exporter that it starts
  abbrev pub opening : Kind → Settings → Traced Telemetry
  opening kind s =
      let version = s.common.shared.version in
      let settings = s.common.observability in
      (
        new_telemetry slog otel (name_of kind) version settings,
        if opens_exporter slog otel (name_of kind) version settings
            then opened exporter ∷ []
            else [],
      )

  -- Shutdown, which has nothing to close without a provider
  abbrev pub shutting_down : Telemetry → List Effect
  shutting_down t = if t.exports then closed exporter ∷ [] else []

  unfoldable pub run : Kind → Result Settings → Traced Outcome
  run kind loaded = do
    s ← (loaded, [])
    t ← opening kind s
    deferred (shutting_down t) (with_clients s)

-- an error of `run`
unfoldable pub is_failure : Result Outcome → Bool
is_failure (err e) = true
is_failure (ok (served none)) = false
is_failure (ok (served (some e))) = true
is_failure (ok (startup_timed_out names)) = true

-- main: what is printed, and the exit status
pub record Exit : Type 0 where
  pub printed : Option String
  pub status : ℕ

abbrev after_version : Option String → Result Outcome → Exit
after_version (some line) result = record { printed = some line; status = 0 }
after_version none result = record { printed = none; status = if is_failure result then 1 else 0 }

-- `result` is what `run` returns if it is called
unfoldable pub main : Build → Kind → List String → Result Outcome → Exit
unfolding is_failure
main build kind arguments result =
    after_version (write_version build arguments ("nexusrelay-" <> name_of kind)) result
