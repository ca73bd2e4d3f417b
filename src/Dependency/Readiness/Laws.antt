-- ===== src/Dependency/Readiness/Laws.antt =====
-- What Run of internal/dependency/readiness.go promises to the callers of setReady and to the server.
use nexus_relay.Common.{
  ℕ, ◌*◌, ◌^◌, ◌<◌, ◌≡◌, min, String, Bool, true, false, List, is_empty, ok, arith, fail_if,
}
use nexus_relay.Config.Library.{Library}
use nexus_relay.Config.Setting.{Values}
use nexus_relay.Config.Policy.Readiness.{DependencyReadiness, parse_dependency_readiness}
use nexus_relay.Config.Policy.Readiness.Bounds.{parse_dependency_readiness-IsReadinessPolicy}
use nexus_relay.Dependency.Probes.{Probe}
use nexus_relay.Dependency.Readiness.{
  ReadinessPolicy, validate, Phase, starting, waiting, abandoning, ready_loop, probing, clearing,
  stopping, returned, Outcome, served, startup_timed_out, Event, State, Run,
}
use nexus_relay.Dependency.Readiness.Invariant.{
  is_ready, last_failed, retries, PhaseIsSound, Run-IsSound,
}

abbrev pub is_serving : Phase → Bool
is_serving ready_loop = true
is_serving probing = true
is_serving _ = false

ready_phase :
    (p : ReadinessPolicy) (probes : List Probe) (events : List Event) (s : State) (phase : Phase)
    → PhaseIsSound p probes events s phase
    → is_ready s.calls ≡ true
    → (is_serving phase ≡ true)
      × (s.serve_cancelled ≡ false)
      × (is_empty (last_failed probes events) ≡ true)
ready_phase p probes events s (starting delay) h r = ground arith
ready_phase p probes events s (waiting delay failed) h r = ground arith
ready_phase p probes events s (abandoning c failed) h r = ground arith
ready_phase p probes events s ready_loop h r = ground arith
ready_phase p probes events s probing h r = ground arith
ready_phase p probes events s clearing h r = ground arith
ready_phase p probes events s stopping h r = ground arith
ready_phase p probes events s (returned (served _)) h r = ground arith
ready_phase p probes events s (returned (startup_timed_out _)) h r = ground arith

returned_phase :
    (p : ReadinessPolicy) (probes : List Probe) (events : List Event) (s : State)
    (outcome : Outcome)
    → PhaseIsSound p probes events s (returned outcome)
    → (is_ready s.calls ≡ false)
      × (s.serve_cancelled ≡ true)
      × ((names : List String)
          → outcome ≡ startup_timed_out names
          → (names ≡ last_failed probes events) × (is_empty names ≡ false))
returned_phase p probes events s (served r) h = (h.0, h.1, λ names e. cc)
returned_phase p probes events s (startup_timed_out given) h =
    (h.0, h.1, λ names e. ground (arith, h.2, e))

module _ {p : ReadinessPolicy} {probes : List Probe} {events : List Event} {s : State} where
  -- With retry delays of less than 2^62 ns, the process is ready only while it serves, before the
  -- server is told to stop, and if no probe failed in the last finished round.
  pub Run-is_ready :
      p.retry_maximum < 2 ^ 62
      → Run p probes events s
      → is_ready s.calls ≡ true
      → (is_serving s.phase ≡ true)
        × (s.serve_cancelled ≡ false)
        × (is_empty (last_failed probes events) ≡ true)
  Run-is_ready small run h = ready_phase p probes events s s.phase (Run-IsSound small run) h

  -- The delay of each retry is the minimum doubled as many times as there were retries, up to the
  -- maximum (of less than 2^62 ns), and nothing else (no jitter); the wait is for probes that failed.
  pub Run-waiting :
      {delay : ℕ} {failed : List String}
      → p.retry_maximum < 2 ^ 62
      → Run p probes events s
      → s.phase ≡ waiting delay failed
      → (delay ≡ min (p.retry_minimum * 2 ^ retries events) p.retry_maximum)
        × (failed ≡ last_failed probes events)
        × (is_empty failed ≡ false)
  Run-waiting small run e =
      let sound = rw e at (Run-IsSound small run) in (sound.2, sound.3, sound.4)

  -- With retry delays of less than 2^62 ns, Run comes back not ready, with the server told to stop; its
  -- own error names the probes that failed last, and there are some.
  pub Run-returned :
      {outcome : Outcome}
      → p.retry_maximum < 2 ^ 62
      → Run p probes events s
      → s.phase ≡ returned outcome
      → (is_ready s.calls ≡ false)
        × (s.serve_cancelled ≡ true)
        × ((names : List String)
            → outcome ≡ startup_timed_out names
            → (names ≡ last_failed probes events) × (is_empty names ≡ false))
  Run-returned {outcome} small run e =
      returned_phase p probes events s outcome (rw e at (Run-IsSound small run))

-- A policy that the configuration accepts is one that Run accepts, and its delays do not overflow.
pub parse_dependency_readiness-validate :
    (go : Library) (v : Values) {p : DependencyReadiness}
    → parse_dependency_readiness go v ≡ ok p
    → (validate (record {
      startup_timeout = p.startup_timeout;
      probe_timeout = p.probe_timeout;
      probe_interval = p.probe_interval;
      retry_minimum = p.retry_minimum;
      retry_maximum = p.retry_maximum;
    })
        ≡ ok tt)
      × (p.retry_maximum < 2 ^ 62)
unfolding validate fail_if
parse_dependency_readiness-validate go v h =
    ground (arith, parse_dependency_readiness-IsReadinessPolicy go v h)
