-- ===== src/Tests/Readiness.antt =====
-- Runs of internal/dependency/readiness.go.
use nexus_relay.Common.{
  some, ◌*◌, ◌^◌, ◌≡◌, refl, min, String, true, false, none, List, [], ◌∷◌, nat_eq, is_empty,
  fail_if, arith,
}
use nexus_relay.Dependency.Probes.{Probe, run_probes, complete, failed_names, make_flags, set_at}
use nexus_relay.Dependency.Probes.Order.{failing, run_probes-failing}
use nexus_relay.Dependency.Readiness.{
  ReadinessPolicy, validate, start, step, State, initial, Run, started, stepped, waiting,
  ready_loop, returned, startup_timed_out, Event, probed, serve_returned, startup_done,
}
use nexus_relay.Dependency.Readiness.Invariant.{is_ready, last_failed, retries}
use nexus_relay.Dependency.Readiness.Laws.{is_serving, Run-is_ready, Run-waiting, Run-returned}
use nexus_relay.Dependency.Readiness.Stops.{Stops, Run-Stops}
use nexus_relay.BuildInfo.{default_build, write_version, get_version, get_revision}

abbrev policy : ReadinessPolicy
policy = record {
  startup_timeout = 60_000_000_000;
  probe_timeout = 3_000_000_000;
  probe_interval = 5_000_000_000;
  retry_minimum = 100_000_000;
  retry_maximum = 2_000_000_000;
}

abbrev probes : List Probe
probes =
    record { name = "postgresql"; has_ping = true; is_observed = true }
    ∷ record { name = "redis"; has_ping = true; is_observed = true }
    ∷ []

-- redis fails, and its goroutine is the first to finish
abbrev redis_down : Event
redis_down = probed (1 ∷ 0 ∷ []) (λ i. nat_eq i 1)

abbrev all_up : Event
all_up = probed (0 ∷ 1 ∷ []) (λ _. false)

run_probes-failing_example :
    run_probes (1 ∷ 0 ∷ []) (λ i. nat_eq i 1) probes ≡ failing (λ i. nat_eq i 1) 0 probes
run_probes-failing_example = run_probes-failing (1 ∷ 0 ∷ []) (λ i. nat_eq i 1) probes refl

abbrev waits : State
waits = record {
  phase = waiting 100_000_000 ("redis" ∷ []);
  calls = false ∷ [];
  serve_cancelled = false;
}

abbrev serves : State
serves = record { phase = ready_loop; calls = true ∷ false ∷ []; serve_cancelled = false }

started-Run : Run policy probes [] (initial policy)
unfolding start validate fail_if
started-Run = started refl

waiting-Run : Run policy probes (redis_down ∷ []) waits
unfolding step run_probes complete failed_names make_flags set_at
waiting-Run = stepped started-Run refl

serving-Run : Run policy probes (all_up ∷ []) serves
unfolding step run_probes complete failed_names make_flags set_at
serving-Run = stepped started-Run refl

abbrev gives_up : State
gives_up = record {
  phase = returned (startup_timed_out ("redis" ∷ []));
  calls = false ∷ false ∷ [];
  serve_cancelled = true;
}

timed_out-Run :
    Run policy probes (serve_returned none ∷ startup_done false ∷ redis_down ∷ []) gives_up
unfolding step
timed_out-Run = stepped (stepped waiting-Run refl) refl

Run-is_ready_example :
    (is_serving serves.phase ≡ true)
    × (serves.serve_cancelled ≡ false)
    × (is_empty (last_failed probes (all_up ∷ [])) ≡ true)
Run-is_ready_example = Run-is_ready (omega arith) serving-Run refl

Run-waiting_example :
    (100_000_000 ≡ min (policy.retry_minimum * 2 ^ retries (redis_down ∷ [])) policy.retry_maximum)
    × ("redis" ∷ [] ≡ last_failed probes (redis_down ∷ []))
    × (is_empty {A = String} ("redis" ∷ []) ≡ false)
Run-waiting_example = Run-waiting (omega arith) waiting-Run refl

Run-returned_example :
    (is_ready gives_up.calls ≡ false)
    × (gives_up.serve_cancelled ≡ true)
    × ((names : List String)
        → startup_timed_out ("redis" ∷ []) ≡ startup_timed_out names
        → (names ≡ last_failed probes (serve_returned none ∷ startup_done false ∷ redis_down ∷ []))
          × (is_empty names ≡ false))
Run-returned_example = Run-returned (omega arith) timed_out-Run refl

Run-Stops_example : Stops policy probes serves
Run-Stops_example = Run-Stops (omega arith) serving-Run

version_printed :
    write_version default_build ("--version" ∷ []) "nexusrelay-gateway"
    ≡ some "nexusrelay-gateway dev (revision unknown)\n"
unfolding write_version get_version get_revision
version_printed = refl
