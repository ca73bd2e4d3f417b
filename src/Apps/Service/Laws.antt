-- ===== src/Apps/Service/Laws.antt =====
-- That a service of apps whose settings were loaded gets to run.
use mathlib.Core.Path.{subst}
use nexus_relay.Common.{
  ◌^◌, ◌<◌, ◌≡◌, refl, String, List, Result, ok, err, arith, Error, ◌⊎◌, ap, fail_if, inl, inr,
}
use nexus_relay.Apps.Service.{
  Kind, gateway, control_plane, worker, Settings, of_gateway, of_control_plane, of_worker, load,
  policy_of,
}
use nexus_relay.Config.Library.{Library, Host}
use nexus_relay.Config.Policy.Readiness.Bounds.{IsReadinessPolicy}
use nexus_relay.Config.Processes.{parse_gateway, parse_control_plane, parse_worker}
use nexus_relay.Config.Processes.Laws.{parse_control_plane-IsControlPlane}
use nexus_relay.Config.Processes.Services.{parse_gateway-IsGateway, parse_worker-IsWorker}
use nexus_relay.Config.Setting.{environment}
use nexus_relay.Dependency.Clients.{probes}
use nexus_relay.Dependency.Readiness.{start, initial, validate}

pub Result-cases {ℓ} :
    {A : Type ℓ} (r : Result A) → ((a : A) × (r ≡ ok a)) ⊎ ((e : Error) × (r ≡ err e))
Result-cases (ok a) = inl (a, refl)
Result-cases (err e) = inr (e, refl)

ok_same {ℓ} : {A : Type ℓ} {a b : A} → ok a ≡ ok b → a ≡ b
ok_same e = cc

pub load-IsReadinessPolicy :
    (kind : Kind) (go : Library) (host : Host) (entries : List String) {s : Settings}
    → load kind go host entries ≡ ok s
    → IsReadinessPolicy s.readiness
unfolding load
load-IsReadinessPolicy gateway go host entries h =
    elim (Result-cases (parse_gateway go host (environment entries))) [
      | inl (g, e) ↦
          let same = rw (e, of_gateway) at h in
          subst (λ r. IsReadinessPolicy r) (ap (λ (s : Settings). s.readiness) (ok_same same))
            (parse_gateway-IsGateway go host _ e).readiness
      | inr (x, e) ↦ let refused = rw (e, of_gateway) at h in cc
    ]
load-IsReadinessPolicy control_plane go host entries h =
    elim (Result-cases (parse_control_plane go host (environment entries))) [
      | inl (g, e) ↦
          let same = rw (e, of_control_plane) at h in
          subst (λ r. IsReadinessPolicy r) (ap (λ (s : Settings). s.readiness) (ok_same same))
            (parse_control_plane-IsControlPlane go host _ e).readiness
      | inr (x, e) ↦ let refused = rw (e, of_control_plane) at h in cc
    ]
load-IsReadinessPolicy worker go host entries h =
    elim (Result-cases (parse_worker go host (environment entries))) [
      | inl (g, e) ↦
          let same = rw (e, of_worker) at h in
          subst (λ r. IsReadinessPolicy r) (ap (λ (s : Settings). s.readiness) (ok_same same))
            (parse_worker-IsWorker go host _ e).readiness
      | inr (x, e) ↦ let refused = rw (e, of_worker) at h in cc
    ]

pub starts_sound :
    (s : Settings)
    → IsReadinessPolicy s.readiness
    → (start (policy_of s) probes ≡ ok (initial (policy_of s)))
      × ((policy_of s).retry_maximum < 2 ^ 62)
unfolding start policy_of probes validate fail_if
starts_sound s h = ground (arith, h)

-- A service whose settings were loaded gets to probe its dependencies: dependency.Run refuses neither
-- its policy nor its probes.
pub load-start :
    (kind : Kind) (go : Library) (host : Host) (entries : List String) {s : Settings}
    → load kind go host entries ≡ ok s
    → start (policy_of s) probes ≡ ok (initial (policy_of s))
load-start kind go host entries {s} h =
    (starts_sound s (load-IsReadinessPolicy kind go host entries h)).0
