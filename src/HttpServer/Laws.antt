-- ===== src/HttpServer/Laws.antt =====
-- What the readiness endpoint of internal/httpserver answers while internal/dependency runs.
use nexus_relay.Common.{◌^◌, ◌<◌, ◌≡◌, refl, Bool, true, false, List, [], ◌∷◌, is_empty, arith}
use nexus_relay.Dependency.Probes.{Probe}
use nexus_relay.Dependency.Readiness.{ReadinessPolicy, Event, State, Run}
use nexus_relay.Dependency.Readiness.Invariant.{is_ready, last_failed}
use nexus_relay.Dependency.Readiness.Laws.{is_serving, Run-is_ready}
use nexus_relay.HttpServer.{Health, new_health, set_ready, readiness, write_health}

-- The health after these calls of SetReady, the latest first.
abbrev pub health_after : List Bool → Health
health_after [] = new_health
health_after (ready ∷ earlier) = set_ready ready (health_after earlier)

status_ready :
    (calls : List Bool) → (readiness (health_after calls)).status ≡ 200 → is_ready calls ≡ true
unfolding readiness set_ready write_health
status_ready [] h = ground arith
status_ready (true ∷ calls) h = refl
status_ready (false ∷ calls) h = ground arith

-- While Run sets the readiness of the health handlers, the readiness endpoint answers 200 only if Run
-- is in its serving loop, has not told the server to stop, and no probe failed in the last round.
pub readiness-Run :
    {p : ReadinessPolicy} {probes : List Probe} {events : List Event} {s : State}
    → p.retry_maximum < 2 ^ 62
    → Run p probes events s
    → (readiness (health_after s.calls)).status ≡ 200
    → (is_serving s.phase ≡ true)
      × (s.serve_cancelled ≡ false)
      × (is_empty (last_failed probes events) ≡ true)
readiness-Run {s} small run h = Run-is_ready small run (status_ready s.calls h)
