-- ===== src/Tests/Rings.antt =====
-- Runs of internal/config on a production deployment: key rings, sessions, and whole processes.
use nexus_relay.Common.{
  ◌+◌, ◌*◌, ◌≡◌, ◌↔◌, refl, String, true, false, [], length, ok, fail_if, or_fail, lookup, insert,
}
use nexus_relay.Common.Text.{split, trim_space, is_control}
use nexus_relay.Config.Connection.{
  parse_database, parse_database_ssl_mode, parse_redis, parse_redis_deployment, is_redis_password,
}
use nexus_relay.Config.Deployment.{
  parse_deployment, check_users, check_passwords, parse_database_inventory, parse_cloudflare,
  parse_tailscale,
}
use nexus_relay.Config.Tls.{parse_tls}
use nexus_relay.Config.Deployment.Laws.{
  IsDeployment, IsDatabaseInventory, parse_deployment-IsDeployment,
  parse_database_inventory-IsDatabaseInventory,
}
use nexus_relay.Config.DevSecrets.{
  validate_dev_secrets, check_files, check_database_passwords, check_redis, resolve_files,
  resolve_deployment_secret_root,
}
use nexus_relay.Config.Endpoint.{
  absolute_url, origin_url, add_origins, parse_origins, parse_cidrs, parse_named_cidrs,
  scan_origins, validate_admin_origins, parse_public_api_url, parse_endpoints,
  parse_control_plane_endpoints,
}
use nexus_relay.Config.Inventory.{inventory, is_known}
use nexus_relay.Config.Json.{scan, value, strict_json}
use nexus_relay.Config.Json.Accepts.{is_ok}
use nexus_relay.Config.Json.Sound.{scan_tokens_iff}
use nexus_relay.Config.Json.Tree.{Json, scalar_value, object_value, closed, member, emit, conforms}
use nexus_relay.Config.KeyFile.{read_key_ring, read_provider_key_ring, key_ring_schema}
use nexus_relay.Config.Number.{itoa, atoi}
use nexus_relay.Config.Policy.Password.{parse_password_policy}
use nexus_relay.Config.Policy.Readiness.{parse_dependency_readiness}
use nexus_relay.Config.Preflight.{preflight, check_names, check_command_only, is_undocumented}
use nexus_relay.Config.Processes.{parse_control_plane, parse_service_common}
use nexus_relay.Config.Processes.Laws.{IsControlPlane, parse_control_plane-IsControlPlane}
use nexus_relay.Config.Secret.{
  read_simple_secret, read_uri_secret, read_base64_key, read_secret_bytes, open_protected_file,
  bounded_text, strip_line_end, decode_key, is_key_id, add_keys, validate_ring,
}
use nexus_relay.Config.Service.{
  parse_shared, parse_http, parse_logging, parse_observability, parse_otlp_endpoint,
}
use nexus_relay.Config.Session.{
  parse_session_policy, is_cookie_name, parse_agent, is_variable_name, is_provider_id,
}
use nexus_relay.Config.Setting
use nexus_relay.Tests.Deployed.{ring_tokens, found, deployed, machine, production}

-- {"version": 1, "version": 1}
abbrev repeated : Json
repeated = object_value (member "version" scalar_value (member "version" scalar_value closed))

scan_tokens_iff_example :
    (scan (2 * length ring_tokens + 1) (value key_ring_schema) ring_tokens ≡ ok [])
    ↔ ((j : Json) × (ring_tokens ≡ emit j []) × (conforms key_ring_schema j ≡ true))
scan_tokens_iff_example = scan_tokens_iff ring_tokens key_ring_schema

repeated_refused : conforms key_ring_schema repeated ≡ false
unfolding conforms
repeated_refused = refl

abbrev path : String
path = "/run/secrets/csrf_secret_ring"

ring_accepted : is_ok (read_key_ring deployed machine "CSRF_SECRET_RING_FILE" path) ≡ true
unfolding read_key_ring read_secret_bytes open_protected_file bounded_text strip_line_end
    strict_json scan validate_ring add_keys decode_key is_key_id lookup insert trim_space fail_if
    or_fail
ring_accepted = refl

abbrev master : String
master = "/run/secrets/provider_master_keyring"

provider_accepted : is_ok (read_provider_key_ring deployed machine master) ≡ true
unfolding read_provider_key_ring read_secret_bytes open_protected_file bounded_text strip_line_end
    strict_json scan validate_ring add_keys decode_key is_key_id lookup insert trim_space fail_if
    or_fail
provider_accepted = refl

session_accepted : is_ok (parse_session_policy deployed machine production) ≡ true
unfolding parse_session_policy is_cookie_name parse_password_policy read_base64_key read_key_ring
    read_simple_secret read_secret_bytes open_protected_file bounded_text strip_line_end strict_json
    scan validate_ring add_keys decode_key is_key_id lookup insert trim_space is_control fail_if
    or_fail Setting.value Setting.required_path Setting.duration Setting.integer Setting.in_range
    itoa atoi
session_accepted = refl

passwords_accepted :
    is_ok (parse_database_inventory deployed machine production "production") ≡ true
unfolding parse_database_inventory check_users check_passwords parse_database_ssl_mode
    read_simple_secret read_secret_bytes open_protected_file bounded_text strip_line_end lookup
    insert trim_space is_control fail_if or_fail Setting.value Setting.one_of
    Setting.is_production_grade
passwords_accepted = refl

passwords_distinct :
    IsDatabaseInventory machine production "production"
      (found
        (parse_database_inventory deployed machine production "production")
        passwords_accepted).0
passwords_distinct =
    parse_database_inventory-IsDatabaseInventory deployed machine production "production"
      (found (parse_database_inventory deployed machine production "production")
        passwords_accepted).1

deployment_accepted : is_ok (parse_deployment deployed machine production) ≡ true
unfolding parse_deployment preflight check_names is_undocumented is_known inventory parse_shared
    parse_endpoints parse_origins add_origins origin_url absolute_url parse_cidrs parse_named_cidrs
    scan_origins validate_admin_origins parse_http parse_tls parse_redis_deployment
    is_redis_password read_uri_secret parse_cloudflare parse_tailscale parse_database_inventory
    check_users check_passwords parse_database_ssl_mode read_simple_secret read_secret_bytes
    open_protected_file bounded_text strip_line_end split lookup insert trim_space is_control
    fail_if or_fail Setting.value Setting.required_path Setting.one_of Setting.is_production_grade
    Setting.validate_environment Setting.clean_nonempty Setting.duration Setting.integer
    Setting.boolean Setting.in_range itoa atoi
deployment_accepted = refl

parse_deployment-IsDeployment_example :
    IsDeployment deployed machine production
      (found (parse_deployment deployed machine production) deployment_accepted).0
parse_deployment-IsDeployment_example =
    parse_deployment-IsDeployment deployed machine production
      (found (parse_deployment deployed machine production) deployment_accepted).1

plane_accepted : is_ok (parse_control_plane deployed machine production) ≡ true
unfolding parse_control_plane parse_service_common preflight check_names check_command_only
    is_undocumented is_known inventory parse_shared parse_control_plane_endpoints
    parse_public_api_url parse_origins add_origins origin_url absolute_url parse_cidrs
    parse_named_cidrs scan_origins validate_admin_origins parse_http parse_observability
    parse_logging parse_otlp_endpoint parse_database parse_redis read_uri_secret
    parse_dependency_readiness read_provider_key_ring parse_agent is_variable_name is_provider_id
    parse_session_policy is_cookie_name parse_password_policy read_base64_key read_key_ring
    strict_json scan validate_ring add_keys decode_key is_key_id parse_database_ssl_mode
    read_simple_secret read_secret_bytes open_protected_file bounded_text strip_line_end split
    lookup insert trim_space is_control fail_if or_fail Setting.value Setting.required_path
    Setting.one_of Setting.is_production_grade Setting.validate_environment Setting.clean_nonempty
    Setting.duration Setting.integer Setting.boolean Setting.in_range itoa atoi
plane_accepted = refl

parse_control_plane-IsControlPlane_example :
    IsControlPlane deployed machine production
      (found (parse_control_plane deployed machine production) plane_accepted).0
parse_control_plane-IsControlPlane_example =
    parse_control_plane-IsControlPlane deployed machine production
      (found (parse_control_plane deployed machine production) plane_accepted).1

root_accepted : is_ok (resolve_deployment_secret_root deployed machine production "secrets") ≡ true
unfolding resolve_deployment_secret_root resolve_files validate_dev_secrets check_files
    check_database_passwords check_redis is_redis_password read_uri_secret read_provider_key_ring
    read_key_ring read_base64_key strict_json scan validate_ring add_keys decode_key is_key_id
    read_simple_secret read_secret_bytes open_protected_file bounded_text strip_line_end lookup
    insert trim_space is_control fail_if or_fail Setting.value
root_accepted = refl
