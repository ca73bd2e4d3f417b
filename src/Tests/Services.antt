-- ===== src/Tests/Services.antt =====
-- Runs of the gateway's and the worker's configuration of internal/config on a production deployment.
use nexus_relay.Apps.Service.{gateway, Settings, load, policy_of, run}
use nexus_relay.Apps.Service.Closes.{run-after, left_behind}
use nexus_relay.Apps.Service.Laws.{load-start}
use nexus_relay.Apps.Service.Visible.{
  Progress, complete as both, gauge, shown_after, shown_within, shown_within-Run,
}
use nexus_relay.Dependency.Clients.{probes}
use nexus_relay.Dependency.Clients.Laws.{after}
use nexus_relay.Dependency.Probes.{run_probes, complete, failed_names, make_flags, set_at}
use nexus_relay.Dependency.Readiness.{
  start, initial, step, State, Event, probed, ready_loop, Run, started, stepped, served,
}
use nexus_relay.Dependency.Readiness.Invariant.{last_failed}
use nexus_relay.Dependency.Readiness.Laws.{is_serving}
use nexus_relay.HttpServer.{readiness}
use nexus_relay.Observability.Setup.{Telemetry, info, json_lines, configure_metrics}
use nexus_relay.Tests.Running.{slog, tracing, drivers}
use nexus_relay.Config.Setting.{environment, add_entries}
use nexus_relay.Common.{
  String, [], ok, List, ◌∷◌, some, none, is_empty, false, ◌≡◌, ◌↔◌, refl, true, fail_if, or_fail,
  lookup, insert,
}
use nexus_relay.Common.Text.{cut, split, trim_space, is_control}
use nexus_relay.Config.Connection.{parse_database, parse_database_ssl_mode, parse_redis}
use nexus_relay.Config.Endpoint.{absolute_url, parse_cidrs, parse_named_cidrs, parse_public_api_url}
use nexus_relay.Config.Inventory.{inventory, is_known}
use nexus_relay.Config.Json.{scan, strict_json}
use nexus_relay.Config.Json.Accepts.{is_ok}
use nexus_relay.Config.KeyFile.{read_key_ring, read_provider_key_ring}
use nexus_relay.Config.Number.{itoa, atoi}
use nexus_relay.Config.Policy.Readiness.{parse_dependency_readiness}
use nexus_relay.Config.Preflight.{preflight, check_names, check_command_only, is_undocumented}
use nexus_relay.Config.Processes.{parse_gateway, parse_worker, parse_service_common}
use nexus_relay.Config.Secret.{
  read_simple_secret, read_uri_secret, read_secret_bytes, open_protected_file, bounded_text,
  strip_line_end, decode_key, is_key_id, add_keys, validate_ring,
}
use nexus_relay.Config.Service.{
  parse_shared, parse_http, parse_logging, parse_observability, parse_otlp_endpoint,
}
use nexus_relay.Config.Setting
use nexus_relay.Tests.Deployed.{found, deployed, machine, production}
use nexus_relay.Config.Processes.Services.{
  IsGateway, parse_gateway-IsGateway, IsWorker, parse_worker-IsWorker,
}
use nexus_relay.Config.Policy.Gateway.{parse_gateway_policy}
use nexus_relay.Config.Policy.Worker.{parse_worker_policy}
use nexus_relay.Config.Endpoint.{parse_gateway_endpoints}

gateway_accepted : is_ok (parse_gateway deployed machine production) ≡ true
unfolding parse_gateway parse_gateway_policy parse_gateway_endpoints parse_service_common preflight
    check_names check_command_only is_undocumented is_known inventory parse_shared
    parse_public_api_url absolute_url parse_cidrs parse_named_cidrs parse_http parse_observability
    parse_logging parse_otlp_endpoint parse_database parse_redis read_uri_secret
    parse_dependency_readiness read_provider_key_ring read_key_ring strict_json scan validate_ring
    add_keys decode_key is_key_id parse_database_ssl_mode read_simple_secret read_secret_bytes
    open_protected_file bounded_text strip_line_end split lookup insert trim_space is_control
    fail_if or_fail Setting.value Setting.required_path Setting.one_of Setting.is_production_grade
    Setting.validate_environment Setting.clean_nonempty Setting.duration Setting.integer
    Setting.int64_value Setting.boolean Setting.in_range itoa atoi
gateway_accepted = refl

parse_gateway-IsGateway_example :
    IsGateway deployed machine production
      (found (parse_gateway deployed machine production) gateway_accepted).0
parse_gateway-IsGateway_example =
    parse_gateway-IsGateway deployed machine production
      (found (parse_gateway deployed machine production) gateway_accepted).1

worker_accepted : is_ok (parse_worker deployed machine production) ≡ true
unfolding parse_worker parse_worker_policy parse_service_common preflight check_names
    check_command_only is_undocumented is_known inventory parse_shared parse_public_api_url
    absolute_url parse_cidrs parse_named_cidrs parse_http parse_observability parse_logging
    parse_otlp_endpoint parse_database parse_redis read_uri_secret parse_dependency_readiness
    read_provider_key_ring read_key_ring strict_json scan validate_ring add_keys decode_key
    is_key_id parse_database_ssl_mode read_simple_secret read_secret_bytes open_protected_file
    bounded_text strip_line_end split lookup insert trim_space is_control fail_if or_fail
    Setting.value Setting.required_path Setting.one_of Setting.is_production_grade
    Setting.validate_environment Setting.clean_nonempty Setting.duration Setting.integer
    Setting.int64_value Setting.boolean Setting.in_range itoa atoi
worker_accepted = refl

parse_worker-IsWorker_example :
    IsWorker deployed machine production
      (found (parse_worker deployed machine production) worker_accepted).0
parse_worker-IsWorker_example =
    parse_worker-IsWorker deployed machine production
      (found (parse_worker deployed machine production) worker_accepted).1

abbrev entries : List String
entries =
    "NEXUSRELAY_ENV=production" ∷ "PUBLIC_API_BASE_URL=https://relay.example/v1"
    ∷ "DATABASE_SSLMODE=require" ∷ []

gateway_loaded : is_ok (load gateway deployed machine entries) ≡ true
unfolding load environment add_entries cut parse_gateway parse_gateway_policy
    parse_gateway_endpoints parse_service_common preflight check_names check_command_only
    is_undocumented is_known inventory parse_shared parse_public_api_url absolute_url parse_cidrs
    parse_named_cidrs parse_http parse_observability parse_logging parse_otlp_endpoint
    parse_database parse_redis read_uri_secret parse_dependency_readiness read_provider_key_ring
    read_key_ring strict_json scan validate_ring add_keys decode_key is_key_id
    parse_database_ssl_mode read_simple_secret read_secret_bytes open_protected_file bounded_text
    strip_line_end split lookup insert trim_space is_control fail_if or_fail Setting.value
    Setting.required_path Setting.one_of Setting.is_production_grade Setting.validate_environment
    Setting.clean_nonempty Setting.duration Setting.integer Setting.int64_value Setting.boolean
    Setting.in_range itoa atoi
gateway_loaded = refl

abbrev settings : Settings
settings = (found (load gateway deployed machine entries) gateway_loaded).0

load-start_example : start (policy_of settings) probes ≡ ok (initial (policy_of settings))
load-start_example =
    load-start gateway deployed machine entries
      (found (load gateway deployed machine entries) gateway_loaded).1

-- both dependencies answer
abbrev all_up : Event
all_up = probed (0 ∷ 1 ∷ []) (λ _. false)

abbrev serves : State
serves = record { phase = ready_loop; calls = true ∷ false ∷ []; serve_cancelled = false }

serves-Run : Run (policy_of settings) probes (all_up ∷ []) serves
unfolding step run_probes complete failed_names make_flags set_at probes
serves-Run = stepped (started load-start_example) refl

abbrev opened_telemetry : Telemetry
opened_telemetry = record {
  logger = record { minimum = info; format = json_lines; attributes = []; groups = [] };
  metrics = some configure_metrics;
  exports = false;
}

shown_within-Run_example :
    ((progress : Progress)
      → (readiness (shown_within opened_telemetry serves.calls progress).health).status ≡ 200
      → (is_serving serves.phase ≡ true)
        × (serves.serve_cancelled ≡ false)
        × (is_empty (last_failed probes (all_up ∷ [])) ≡ true))
    × ((gauge (shown_after opened_telemetry serves.calls).metrics ≡ 1)
        ↔ ((readiness (shown_within opened_telemetry serves.calls both).health).status ≡ 200))
shown_within-Run_example =
    shown_within-Run gateway deployed machine entries opened_telemetry
      (found (load gateway deployed machine entries) gateway_loaded).1 refl refl serves-Run

run-after_example :
    after
      (run slog tracing
        (drivers 0)
        deployed
        (λ _ _. ok (served none))
        gateway
        (load gateway deployed machine entries)).1
      []
    ≡ some (left_behind slog tracing gateway (load gateway deployed machine entries))
run-after_example =
    run-after slog tracing (drivers 0) deployed (λ _ _. ok (served none)) gateway
      (load gateway deployed machine entries)
