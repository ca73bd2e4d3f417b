-- ===== src/Apps/Service/Closes.antt =====
-- What a service of apps leaves open.
use nexus_relay.Common.{
  ◌≡◌, refl, Bool, true, false, some, List, [], ◌∷◌, ◌++◌, ◌&&◌, if◌then◌else◌, is_some, Result, ok,
  err, Option-cases, Error, inl, inr, ◌∙◌,
}
use nexus_relay.Apps.Service.{
  Kind, Settings, policy_of, Traced, deferred, shutting_down, with_clients, run, name_of, ◌>>=◌,
}
use nexus_relay.Config.Library.{Library}
use nexus_relay.Dependency.Clients.{
  Drivers, Effect, opened, closed, Resource, exporter, open_clients,
}
use nexus_relay.Dependency.Clients.Laws.{pop, after, left_open, open_clients-after, close-after}
use nexus_relay.Dependency.Probes.{Probe}
use nexus_relay.Dependency.Readiness.{ReadinessPolicy, Outcome}
use nexus_relay.Observability.Logging.{Slog}
use nexus_relay.Observability.Setup.{Tracing, Telemetry, opens_exporter}
use nexus_relay.Observability.Setup.Opening.{Opening, opens, refuses, new_telemetry-Opening}

some_same {ℓ} : {A : Type ℓ} {a b : A} → some a ≡ some b → a ≡ b
some_same e = cc

after-append :
    (first second : List Effect) (stack middle : List Resource)
    → after first stack ≡ some middle
    → after (first ++ second) stack ≡ after second middle
after-append [] second stack middle h = rw (some_same h)
after-append (opened r ∷ first) second stack middle h =
    after-append first second (r ∷ stack) middle h
after-append (closed r ∷ first) second stack middle h = elim (Option-cases (pop r stack)) [
  | inl missing ↦ let refused = rw (missing, after) at h in cc
  | inr (rest, e) ↦ rw (e, after) (after-append first second rest middle (rw (e, after) at h))
]

-- What is open after a step and its continuation.
bind-after :
    {A B : Type 0} (m : Traced A) (f : A → Traced B) (stack final : List Resource)
    (middle : Result A → List Resource)
    → after m.1 stack ≡ some (middle m.0)
    → ((a : A) → m.0 ≡ ok a → after (f a).1 (middle (ok a)) ≡ some final)
    → ((e : Error) → middle (err e) ≡ final)
    → after (m >>= f).1 stack ≡ some final
bind-after (ok a, before) f stack final middle h k l =
    after-append before (f a).1 stack (middle (ok a)) h ∙ k a refl
bind-after (err e, before) f stack final middle h k l = rw (h, l e)

-- what a service leaves open: an exporter that was started before the trace resource failed
abbrev pub left_behind : Slog → Tracing → Kind → Result Settings → List Resource
left_behind slog otel kind (err e) = []
left_behind slog otel kind (ok s) =
    if opens_exporter slog otel (name_of kind) s.common.shared.version s.common.observability
      && is_some otel.resource_error
    then exporter ∷ []
    else []

abbrev open_exporter : Bool → List Resource
open_exporter starts = if starts then exporter ∷ [] else []

started-after :
    (starts : Bool)
    → after (if starts then opened exporter ∷ [] else []) [] ≡ some (open_exporter starts)
started-after true = refl
started-after false = refl

shut-after :
    (starts : Bool)
    → after (if starts then closed exporter ∷ [] else []) (open_exporter starts) ≡ some []
shut-after true = refl
shut-after false = refl

module _ (slog : Slog) (otel : Tracing) (d : Drivers) (go : Library)
    (dependency_run : ReadinessPolicy → List Probe → Result Outcome) where
  with_clients-after :
      (s : Settings) (stack : List Resource)
      → after (with_clients slog otel d go dependency_run s).1 stack ≡ some stack
  unfolding with_clients policy_of
  with_clients-after s stack =
      bind-after (open_clients d go s.database s.redis s.readiness.probe_timeout) _ stack stack
        (λ r. left_open r stack)
        (open_clients-after d go s.database s.redis s.readiness.probe_timeout stack)
        (λ c e. close-after d go s.database s.redis s.readiness.probe_timeout stack e) (λ e. refl)

  telemetry-after :
      (starts resource_fails : Bool) (s : Settings) (r : Result Telemetry)
      → Opening starts resource_fails r
      → after
          ((r, if starts then opened exporter ∷ [] else []) >>= λ t.
            deferred
              (shutting_down slog otel d go dependency_run t)
              (with_clients slog otel d go dependency_run s)).1
          []
        ≡ some (open_exporter (starts && resource_fails))
  telemetry-after starts fails s (ok t) (opens e none_left) =
      let stack = open_exporter starts in
      after-append (if starts then opened exporter ∷ [] else [])
        ((with_clients slog otel d go dependency_run s).1
          ++ shutting_down slog otel d go dependency_run t)
        [] stack (started-after starts)
      ∙ after-append (with_clients slog otel d go dependency_run s).1
          (shutting_down slog otel d go dependency_run t) stack stack (with_clients-after s stack)
      ∙ rw (e, none_left) (shut-after starts)
  telemetry-after starts fails s (err x) (refuses e) = rw e (started-after starts)

  -- A service closes all that it opened, the latest first, on whichever path it ends, when its settings,
  -- its telemetry or its clients are refused and after the dependency run, but for one: if the trace
  -- resource fails, the exporter that was started before it stays open.
  pub run-after :
      (kind : Kind) (loaded : Result Settings)
      → after (run slog otel d go dependency_run kind loaded).1 []
        ≡ some (left_behind slog otel kind loaded)
  unfolding run
  run-after kind (err e) = refl
  run-after kind (ok s) = telemetry-after _ _ s _ (
      new_telemetry-Opening slog otel (name_of kind) s.common.shared.version s.common.observability)
