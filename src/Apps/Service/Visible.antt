-- ===== src/Apps/Service/Visible.antt =====
-- What a service of apps shows of its readiness.
use nexus_relay.Common.{
  ℕ, ◌≡◌, refl, String, Bool, true, false, Option, none, some, List, [], ◌∷◌, is_empty, is_some,
  sym, ◌↔◌, if◌then◌else◌, ok, arith, ◌∙◌,
}
use nexus_relay.Apps.Service.{
  Kind, Settings, load, policy_of, Shown, new_shown, set_ready, Store, store, stores, stored, run,
}
use nexus_relay.Config.Library.{Library, Host}
use nexus_relay.Dependency.Clients.{probes}
use nexus_relay.Dependency.Readiness.{Event, State, Run}
use nexus_relay.Dependency.Readiness.Invariant.{is_ready, last_failed}
use nexus_relay.Dependency.Readiness.Laws.{is_serving, Run-is_ready}
use nexus_relay.HttpServer
use nexus_relay.HttpServer.{Health, readiness, write_health}
use nexus_relay.Observability
use nexus_relay.Observability.{Metrics}
use nexus_relay.Observability.Setup.{Telemetry}
use nexus_relay.Apps.Service.Laws.{starts_sound, load-IsReadinessPolicy}

-- What is shown after these calls of `setReady`, the latest first.
abbrev pub shown_after : Telemetry → List Bool → Shown
shown_after t [] = new_shown t
shown_after t (ready ∷ calls) = set_ready ready (shown_after t calls)

-- Where the latest call of `setReady` stands: its first store is made, or both are.
pub data Progress : Type 0 where
  halfway complete : Progress

abbrev first_store : List Store → List Store
first_store [] = []
first_store (at ∷ later) = at ∷ []

abbrev pub made : Progress → List Store
made halfway = first_store stores
made complete = stores

-- what a request finds during the latest call
abbrev pub shown_within : Telemetry → List Bool → Progress → Shown
shown_within t [] progress = new_shown t
shown_within t (ready ∷ calls) progress = stored (made progress) ready (shown_after t calls)

-- the gauge, of a registry that is there
abbrev pub gauge : Option Metrics → ℕ
gauge none = 0
gauge (some m) = m.service_ready

within_ready :
    (t : Telemetry) (calls : List Bool) (progress : Progress)
    → (shown_within t calls progress).health.ready ≡ is_ready calls
unfolding store stores HttpServer.set_ready
within_ready t [] progress = refl
within_ready t (ready ∷ calls) halfway = refl
within_ready t (ready ∷ calls) complete = refl

is_some-shown_after :
    (t : Telemetry) (calls : List Bool) → is_some (shown_after t calls).metrics ≡ is_some t.metrics
unfolding set_ready store stores Observability.set_ready
is_some-shown_after t [] = refl
is_some-shown_after t (ready ∷ calls) = ground (arith, is_some-shown_after t calls)

gauge_ready :
    (t : Telemetry) (calls : List Bool)
    → is_some t.metrics ≡ true
    → gauge t.metrics ≡ 0
    → gauge (shown_after t calls).metrics ≡ (if is_ready calls then 1 else 0)
unfolding set_ready store stores Observability.set_ready
gauge_ready t [] there zero = zero
gauge_ready t (ready ∷ calls) there zero = ground (arith, is_some-shown_after t calls)

answers_ready : (h : Health) → (readiness h).status ≡ 200 → h.ready ≡ true
unfolding readiness write_health
answers_ready h answered = ground arith

gauge_iff :
    (t : Telemetry) (calls : List Bool)
    → is_some t.metrics ≡ true
    → gauge t.metrics ≡ 0
    → (gauge (shown_after t calls).metrics ≡ 1)
      ↔ ((readiness (shown_within t calls complete).health).status ≡ 200)
unfolding readiness write_health
gauge_iff t calls there zero =
    ground (arith, gauge_ready t calls there zero, within_ready t calls complete)

-- A service whose settings were loaded and whose metrics are new and on runs dependency.Run, which calls
-- setReady. From the first store of the latest call on, also between its two stores, the readiness
-- endpoint answers 200 only if Run is in its serving loop, has not told the server to stop, and neither
-- PostgreSQL nor Redis failed in the last round; once both stores are made, the gauge service_ready is 1
-- exactly if the readiness endpoint answers 200.
pub shown_within-Run :
    (kind : Kind) (go : Library) (host : Host) (entries : List String) (t : Telemetry)
    {s : Settings} {events : List Event} {state : State}
    → load kind go host entries ≡ ok s
    → is_some t.metrics ≡ true
    → gauge t.metrics ≡ 0
    → Run (policy_of s) probes events state
    → ((progress : Progress)
        → (readiness (shown_within t state.calls progress).health).status ≡ 200
        → (is_serving state.phase ≡ true)
          × (state.serve_cancelled ≡ false)
          × (is_empty (last_failed probes events) ≡ true))
      × ((gauge (shown_after t state.calls).metrics ≡ 1)
          ↔ ((readiness (shown_within t state.calls complete).health).status ≡ 200))
shown_within-Run kind go host entries t {s} {state} loaded there new run = (
  λ progress answered.
      Run-is_ready (starts_sound s (load-IsReadinessPolicy kind go host entries loaded)).1 run (
        sym (within_ready t state.calls progress)
        ∙ answers_ready (shown_within t state.calls progress).health answered),
  gauge_iff t state.calls there new,
)
