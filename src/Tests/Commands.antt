-- ===== src/Tests/Commands.antt =====
-- A run of validate-deployment, internal/config/cmd, on a production deployment.
use nexus_relay.Config.Setting
use nexus_relay.Common.{lookup, insert, fail_if, or_fail, ◌≡◌, refl, String, true, ok, [], ◌∷◌}
use nexus_relay.Common.Text.{cut, trim_suffix, split, trim_space, is_control}
use nexus_relay.Config.Command.{
  validate_deployment, deployment_values, insert_all, ValidateFlags, valid_line,
}
use nexus_relay.Config.Command.Laws.{AreValidated, validate_deployment-AreValidated}
use nexus_relay.Config.Connection.{
  parse_redis_deployment, is_redis_password, parse_database_ssl_mode, parse_database, parse_redis,
}
use nexus_relay.Config.Deployment.{
  parse_deployment, parse_cloudflare, parse_tailscale, parse_database_inventory, check_users,
  check_passwords,
}
use nexus_relay.Config.DevSecrets.{
  resolve_deployment_secret_root, resolve_files, validate_dev_secrets, check_files,
  check_database_passwords, check_redis,
}
use nexus_relay.Config.Endpoint.{
  parse_endpoints, parse_origins, add_origins, origin_url, absolute_url, parse_cidrs,
  parse_named_cidrs, scan_origins, validate_admin_origins, parse_control_plane_endpoints,
  parse_public_api_url, parse_gateway_endpoints,
}
use nexus_relay.Config.EnvironmentFile.{
  read_environment_file, parse_environment_file, scan_lines, read_lines, read_line, read_entry,
  is_environment_name,
}
use nexus_relay.Config.Inventory.{is_known, inventory}
use nexus_relay.Config.Json.{strict_json, scan}
use nexus_relay.Config.KeyFile.{read_provider_key_ring, read_key_ring}
use nexus_relay.Config.Number.{itoa, atoi}
use nexus_relay.Config.Policy.Gateway.{parse_gateway_policy}
use nexus_relay.Config.Policy.Password.{parse_password_policy}
use nexus_relay.Config.Policy.Readiness.{parse_dependency_readiness}
use nexus_relay.Config.Policy.Worker.{parse_worker_policy}
use nexus_relay.Config.Preflight.{
  values_for_process, consumes, preflight, check_names, is_undocumented, check_command_only,
}
use nexus_relay.Config.Processes.{
  validate_complete, parse_control_plane, parse_service_common, parse_gateway, parse_worker,
}
use nexus_relay.Config.Secret.{
  read_uri_secret, read_simple_secret, read_secret_bytes, open_protected_file, bounded_text,
  strip_line_end, read_base64_key, validate_ring, add_keys, decode_key, is_key_id,
}
use nexus_relay.Config.Service.{
  parse_shared, parse_http, parse_observability, parse_logging, parse_otlp_endpoint,
}
use nexus_relay.Config.Session.{
  parse_agent, is_variable_name, is_provider_id, parse_session_policy, is_cookie_name,
}
use nexus_relay.Config.Setting.{Values}
use nexus_relay.Config.Tls.{parse_tls}
use nexus_relay.Config.Processes.Whole.{AreSound, validate_complete-AreSound}
use nexus_relay.Tests.Deployed.{production, deployed, machine}

-- the file at this path holds its own path
abbrev environment_file : String
environment_file =
    "# production\nNEXUSRELAY_ENV=production\nPUBLIC_API_BASE_URL=https://relay.example/v1\nPUBLIC_API_HOST=relay.example\nADMIN_BASE_URL=https://admin.example\nADMIN_HOST=admin.example\nADMIN_ORIGINS=https://admin.example\nDATABASE_SSLMODE=require\nSESSION_COOKIE_NAME=__Host-session\nENABLE_CLOUDFLARE_TUNNEL=true\n"

abbrev flags : ValidateFlags
flags = record {
  environment_file = environment_file;
  secret_root = "secrets";
  cloudflare_secret_root = "";
  core_only = true;
  positional = 0;
}

deployment_valid : (validate_deployment deployed machine (λ _. ok flags) []).0 ≡ ok tt
unfolding validate_deployment deployment_values insert_all read_environment_file
    parse_environment_file scan_lines read_lines read_line read_entry is_environment_name cut
    trim_suffix validate_complete values_for_process consumes parse_deployment preflight check_names
    is_undocumented is_known inventory parse_shared parse_endpoints parse_origins add_origins
    origin_url absolute_url parse_cidrs parse_named_cidrs scan_origins validate_admin_origins
    parse_http parse_tls parse_redis_deployment is_redis_password read_uri_secret parse_cloudflare
    parse_tailscale parse_database_inventory check_users check_passwords parse_database_ssl_mode
    read_simple_secret read_secret_bytes open_protected_file bounded_text strip_line_end split
    lookup insert trim_space is_control fail_if or_fail Setting.value Setting.required_path
    Setting.one_of Setting.is_production_grade Setting.validate_environment Setting.clean_nonempty
    Setting.duration Setting.integer Setting.boolean Setting.in_range itoa atoi parse_control_plane
    parse_service_common check_command_only parse_control_plane_endpoints parse_public_api_url
    parse_observability parse_logging parse_otlp_endpoint parse_database parse_redis
    parse_dependency_readiness read_provider_key_ring parse_agent is_variable_name is_provider_id
    parse_session_policy is_cookie_name parse_password_policy read_base64_key read_key_ring
    strict_json scan validate_ring add_keys decode_key is_key_id resolve_deployment_secret_root
    resolve_files validate_dev_secrets check_files check_database_passwords check_redis
    parse_gateway parse_gateway_policy parse_gateway_endpoints Setting.int64_value parse_worker
    parse_worker_policy
deployment_valid = refl

validate_deployment-AreValidated_example :
    ((validate_deployment deployed machine (λ _. ok flags) []).1 ≡ valid_line ∷ [])
    × ((all : Values) × AreValidated deployed machine flags all
        × (validate_complete deployed machine all ≡ ok tt))
validate_deployment-AreValidated_example =
    validate_deployment-AreValidated deployed machine (λ _. ok flags) [] refl deployment_valid

production_complete : validate_complete deployed machine production ≡ ok tt
unfolding validate_complete values_for_process consumes parse_deployment preflight check_names
    is_undocumented is_known inventory parse_shared parse_endpoints parse_origins add_origins
    origin_url absolute_url parse_cidrs parse_named_cidrs scan_origins validate_admin_origins
    parse_http parse_tls parse_redis_deployment is_redis_password read_uri_secret parse_cloudflare
    parse_tailscale parse_database_inventory check_users check_passwords parse_database_ssl_mode
    read_simple_secret read_secret_bytes open_protected_file bounded_text strip_line_end split
    lookup insert trim_space is_control fail_if or_fail Setting.value Setting.required_path
    Setting.one_of Setting.is_production_grade Setting.validate_environment Setting.clean_nonempty
    Setting.duration Setting.integer Setting.boolean Setting.in_range itoa atoi parse_control_plane
    parse_service_common check_command_only parse_control_plane_endpoints parse_public_api_url
    parse_observability parse_logging parse_otlp_endpoint parse_database parse_redis
    parse_dependency_readiness read_provider_key_ring parse_agent is_variable_name is_provider_id
    parse_session_policy is_cookie_name parse_password_policy read_base64_key read_key_ring
    strict_json scan validate_ring add_keys decode_key is_key_id parse_gateway parse_gateway_policy
    parse_gateway_endpoints Setting.int64_value parse_worker parse_worker_policy
production_complete = refl

validate_complete-AreSound_example : AreSound deployed machine production
validate_complete-AreSound_example =
    validate_complete-AreSound deployed machine production production_complete
