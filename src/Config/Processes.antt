-- ===== src/Config/Processes.antt =====
-- internal/config/config.go: the configuration of each process, and ValidateComplete of envfile.go.
-- The ingress options of a service are always off, and the worker has no endpoints: both are left out.
pub mod Laws
pub mod Owner
pub mod Services
pub mod Whole
use Prim.Native.Char.{code}
use Prim.Native.String
use nexus_relay.Common.{
  ℕ, ◌*◌, String, Bool, true, false, not, ◌&&◌, ◌||◌, List, [], ◌∷◌, leb, nat_eq, ◌==◌,
  if◌then◌else◌, plain, Result, ok, ◌>>=◌, ◌>>◌, fail_if, or_fail,
}
use nexus_relay.Common.Text.{is_lower, is_digit, has_prefix, size}
use nexus_relay.Config.Connection.{
  Database, Redis, gateway_database_settings, control_plane_database_settings,
  worker_database_settings, parse_database, parse_redis,
}
use nexus_relay.Config.Deployment.{parse_deployment}
use nexus_relay.Config.Endpoint.{Endpoints, parse_gateway_endpoints, parse_control_plane_endpoints}
use nexus_relay.Config.Inventory.{gateway, control_plane, worker, bootstrap, deployment}
use nexus_relay.Config.KeyFile.{ProviderKeyRing, read_key_ring, read_provider_key_ring}
use nexus_relay.Config.Library.{Library, Host}
use nexus_relay.Config.Policy.Gateway.{GatewayPolicy, parse_gateway_policy}
use nexus_relay.Config.Policy.Password.{PasswordPolicy, parse_password_policy}
use nexus_relay.Config.Policy.Readiness.{DependencyReadiness, parse_dependency_readiness}
use nexus_relay.Config.Policy.Worker.{WorkerPolicy, parse_worker_policy}
use nexus_relay.Config.Preflight.{preflight, values_for_process}
use nexus_relay.Config.Secret.{KeyRing, read_simple_secret}
use nexus_relay.Config.Service.{
  SharedDeployment, HttpSettings, Observability, parse_shared, parse_http, parse_logging,
  parse_observability,
}
use nexus_relay.Config.Session.{SessionPolicy, AgentExport, parse_session_policy, parse_agent}
use nexus_relay.Config.Setting.{Values, required_text, required_path, is_production_grade}

pub record ServiceCommon : Type 0 where
  pub shared : SharedDeployment
  pub http : HttpSettings
  pub observability : Observability

pub record Gateway : Type 0 where
  pub common : ServiceCommon
  pub endpoints : Endpoints
  pub database : Database
  pub redis : Redis
  pub readiness : DependencyReadiness
  pub policy : GatewayPolicy
  pub provider_keys : ProviderKeyRing
  pub api_key_peppers : KeyRing

pub record ControlPlane : Type 0 where
  pub common : ServiceCommon
  pub endpoints : Endpoints
  pub database : Database
  pub redis : Redis
  pub readiness : DependencyReadiness
  pub sessions : SessionPolicy
  pub provider_keys : ProviderKeyRing
  pub api_key_peppers : KeyRing
  pub agent_export : AgentExport

pub record Worker : Type 0 where
  pub common : ServiceCommon
  pub database : Database
  pub redis : Redis
  pub readiness : DependencyReadiness
  pub policy : WorkerPolicy
  pub provider_keys : ProviderKeyRing

pub record Bootstrap : Type 0 where
  pub shared : SharedDeployment
  pub database : Database
  pub observability : Observability
  pub password_policy : PasswordPolicy
  pub owner_email : String
  pub owner_name : String
  pub organization_name : String
  pub organization_slug : String
  pub password : String

unfoldable pub parse_service_common : Library → Values → Result ServiceCommon
parse_service_common go v = do
  shared ← parse_shared v
  http ← parse_http go v
  observability ← parse_observability go v
  ok (record { shared = shared; http = http; observability = observability })

abbrev master_path : Values → String
master_path v = required_path v "MASTER_KEYRING_FILE" "/run/secrets/provider_master_keyring"

abbrev pepper_path : Values → String
pepper_path v = required_path v "API_KEY_PEPPER_RING_FILE" "/run/secrets/api_key_pepper_ring"

unfoldable pub parse_gateway : Library → Host → Values → Result Gateway
parse_gateway go host v = do
  preflight v gateway
  common ← parse_service_common go v
  endpoints ← parse_gateway_endpoints go v common.shared.environment
  database ← parse_database go host v gateway_database_settings
  redis ← parse_redis go host v "REDIS_MAX_CONNECTIONS_GATEWAY" 50
  readiness ← parse_dependency_readiness go v
  provider ← read_provider_key_ring go host (master_path v)
  peppers ← read_key_ring go host "API_KEY_PEPPER_RING_FILE" (pepper_path v)
  policy ← parse_gateway_policy go v
  ok (record {
    common = common;
    endpoints = endpoints;
    database = database;
    redis = redis;
    readiness = readiness;
    policy = policy;
    provider_keys = provider;
    api_key_peppers = peppers;
  })

unfoldable pub parse_control_plane : Library → Host → Values → Result ControlPlane
parse_control_plane go host v = do
  preflight v control_plane
  common ← parse_service_common go v
  endpoints ← parse_control_plane_endpoints go v common.shared.environment
  database ← parse_database go host v control_plane_database_settings
  redis ← parse_redis go host v "REDIS_MAX_CONNECTIONS_CONTROL_PLANE" 20
  readiness ← parse_dependency_readiness go v
  provider ← read_provider_key_ring go host (master_path v)
  peppers ← read_key_ring go host "API_KEY_PEPPER_RING_FILE" (pepper_path v)
  sessions ← parse_session_policy go host v
  fail_if
      (is_production_grade common.shared.environment
        && not (has_prefix sessions.cookie_name "__Host-"))
      (plain "SESSION_COOKIE_NAME must use the __Host- prefix in production")
  agent ← parse_agent v
  ok (record {
    common = common;
    endpoints = endpoints;
    database = database;
    redis = redis;
    readiness = readiness;
    sessions = sessions;
    provider_keys = provider;
    api_key_peppers = peppers;
    agent_export = agent;
  })

unfoldable pub parse_worker : Library → Host → Values → Result Worker
parse_worker go host v = do
  preflight v worker
  common ← parse_service_common go v
  database ← parse_database go host v worker_database_settings
  redis ← parse_redis go host v "REDIS_MAX_CONNECTIONS_WORKER" 20
  readiness ← parse_dependency_readiness go v
  provider ← read_provider_key_ring go host (master_path v)
  policy ← parse_worker_policy go v
  ok (record {
    common = common;
    database = database;
    redis = redis;
    readiness = readiness;
    policy = policy;
    provider_keys = provider;
  })

-- after the first character: hyphens, and a last character that is none
abbrev pub is_slug_end : String → Bool
is_slug_end String.[] = true
is_slug_end (String.◌∷◌ c String.[]) = is_lower (code c) || is_digit (code c)
is_slug_end (String.◌∷◌ c (String.◌∷◌ d s)) =
    (is_lower (code c) || is_digit (code c) || nat_eq (code c) b'-') && is_slug_end (String.◌∷◌ d s)

-- ^[a-z0-9](?:[a-z0-9-]{0,61}[a-z0-9])?$
unfoldable pub is_slug : String → Bool
is_slug String.[] = false
is_slug (String.◌∷◌ c s) =
    (is_lower (code c) || is_digit (code c)) && is_slug_end s && leb (size s) 62

unfoldable pub parse_bootstrap : Library → Host → Values → Result Bootstrap
parse_bootstrap go host v = do
  preflight v bootstrap
  shared ← parse_shared v
  observability ← parse_logging v
  database ← parse_database go host v control_plane_database_settings
  password_policy ← parse_password_policy v
  email ← required_text v "BOOTSTRAP_OWNER_EMAIL"
  address ←
      or_fail (go.parse_address email)
        (plain "BOOTSTRAP_OWNER_EMAIL must be one valid email address")
  fail_if (not (address == email)) (plain "BOOTSTRAP_OWNER_EMAIL must be one valid email address")
  name ← required_text v "BOOTSTRAP_OWNER_NAME"
  organization ← required_text v "BOOTSTRAP_ORGANIZATION_NAME"
  slug ← required_text v "BOOTSTRAP_ORGANIZATION_SLUG"
  fail_if (not (is_slug slug)) (plain "BOOTSTRAP_ORGANIZATION_SLUG has invalid format")
  password ←
      read_simple_secret host "BOOTSTRAP_PASSWORD_FILE"
        (required_path v "BOOTSTRAP_PASSWORD_FILE" "/run/secrets/bootstrap_password") (4 * 1024)
  ok (record {
    shared = shared;
    database = database;
    observability = observability;
    password_policy = password_policy;
    owner_email = email;
    owner_name = name;
    organization_name = organization;
    organization_slug = slug;
    password = password;
  })

unfoldable pub validate_complete : Library → Host → Values → Result (Unit {0})
validate_complete go host v = do
  whole ← parse_deployment go host (values_for_process v deployment)
  first ← parse_gateway go host (values_for_process v gateway)
  second ← parse_control_plane go host (values_for_process v control_plane)
  third ← parse_worker go host (values_for_process v worker)
  ok tt
