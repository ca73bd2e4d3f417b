-- ===== src/Config/Deployment.antt =====
-- internal/config/config.go: what only a whole deployment has: the database passwords, the
-- tunnel and the private admin network. The Go loops over maps take their entries in any order; the
-- order here is that of the source.
pub mod Laws
use Prim.Native.Char.{code}
use nexus_relay.Common.{
  ℕ, ◌*◌, String, Bool, true, false, not, ◌&&◌, ◌||◌, Option, none, some, List, [], ◌∷◌, is_some,
  ◌==◌, if◌then◌else◌, Map, lookup, insert, Error, plain, setting, must_equal, clash, Result, ok,
  err, ◌>>=◌, ◌>>◌, fail_if, or_fail,
}
use nexus_relay.Config.Connection.{parse_database_ssl_mode, parse_redis_deployment}
use nexus_relay.Config.Endpoint.{Endpoints, parse_endpoints}
use nexus_relay.Config.Inventory.{deployment}
use nexus_relay.Config.KeyFile.{read_cloudflare_credentials}
use nexus_relay.Config.Library.{Library, Url, Host, FileInfo, regular}
use nexus_relay.Config.Preflight.{preflight}
use nexus_relay.Config.Secret.{is_kind, read_simple_secret, validate_protected_file}
use nexus_relay.Config.Service.{SharedDeployment, HttpSettings, parse_shared, parse_http}
use nexus_relay.Config.Tls.{Tls, scheme_of, parse_tls}
use nexus_relay.Config.Setting.{
  Values, value, required_path, clean_nonempty, one_of, integer, boolean, is_production_grade,
}

pub record Cloudflare : Type 0 where
  pub enabled : Bool
  pub tunnel_id : String
  pub credentials_file : String

-- less the users, which are constants
pub record DatabaseInventory : Type 0 where
  pub name : String
  pub password_files : Map String
  pub ssl_mode : String

pub record Deployment : Type 0 where
  pub shared : SharedDeployment
  pub endpoints : Endpoints
  pub http : HttpSettings
  pub https_port : ℕ
  pub tls : Tls
  pub database : DatabaseInventory
  pub redis_password : String
  pub cloudflare : Cloudflare
  pub tailscale_enabled : Bool

abbrev pub fixed_users : Map String
fixed_users =
    ("POSTGRES_USER", "nexusrelay_cluster_admin")
    ∷ ("DATABASE_MIGRATION_USER", "nexusrelay_migration")
    ∷ ("DATABASE_GATEWAY_USER", "nexusrelay_gateway")
    ∷ ("DATABASE_CONTROL_PLANE_USER", "nexusrelay_control_plane")
    ∷ ("DATABASE_WORKER_USER", "nexusrelay_worker")
    ∷ []

unfoldable pub check_users : Values → Map String → Result (Unit {0})
check_users v [] = ok tt
check_users v ((name, expected) ∷ users) = do
  fail_if (not (value v name expected == expected)) (must_equal name expected)
  check_users v users

abbrev default_paths : Map String
default_paths =
    ("POSTGRES_PASSWORD_FILE", "/run/secrets/postgres_cluster_admin_password")
    ∷ ("DATABASE_MIGRATION_PASSWORD_FILE", "/run/secrets/postgres_migration_password")
    ∷ ("DATABASE_GATEWAY_PASSWORD_FILE", "/run/secrets/postgres_gateway_password")
    ∷ ("DATABASE_CONTROL_PLANE_PASSWORD_FILE", "/run/secrets/postgres_control_plane_password")
    ∷ ("DATABASE_WORKER_PASSWORD_FILE", "/run/secrets/postgres_worker_password")
    ∷ []

abbrev given_paths : Values → Map String → Map String
given_paths v [] = []
given_paths v ((name, fallback) ∷ paths) = (name, value v name fallback) ∷ given_paths v paths

abbrev pub password_paths : Values → Map String
password_paths v = given_paths v default_paths

abbrev name_in : Option String → String
name_in none = ""
name_in (some name) = name

-- The loop over the password files: `seen` and `seen_values` name the setting of each cleaned path
-- and of each password so far.
unfoldable pub check_passwords :
    Library → Host → Map String → Map String → Map String → Result (Map String)
check_passwords go host [] seen seen_values = ok seen_values
check_passwords go host ((name, path) ∷ paths) seen seen_values = do
  fail_if (path == "") (setting name "must name a secret file")
  fail_if (is_some (lookup (go.clean_path path) seen))
      (clash (name_in (lookup (go.clean_path path) seen)) name "must name distinct files")
  secret ← read_simple_secret host name path (4 * 1024)
  fail_if (is_some (lookup secret seen_values))
      (clash (name_in (lookup secret seen_values)) name "must contain distinct passwords")
  check_passwords go host paths (insert (go.clean_path path) name seen)
      (insert secret name seen_values)

unfoldable pub parse_database_inventory :
    Library → Host → Values → String → Result DatabaseInventory
parse_database_inventory go host v environment = do
  let name = value v "POSTGRES_DB" "nexusrelay"
  fail_if (not (name == value v "DATABASE_NAME" "nexusrelay"))
      (plain "POSTGRES_DB must equal DATABASE_NAME")
  check_users v fixed_users
  passwords ← check_passwords go host (password_paths v) [] []
  mode ← parse_database_ssl_mode v environment
  ok (record { name = name; password_files = password_paths v; ssl_mode = mode })

unfoldable pub validate_public_tunnel_hosts : Library → Endpoints → Result (Unit {0})
validate_public_tunnel_hosts go e =
    if not (go.equal_fold e.public_api_host e.admin_host)
    then ok tt
    else if e.admin_exposure == "private"
    then err (plain "ENABLE_CLOUDFLARE_TUNNEL cannot publish the private ADMIN_HOST")
    else err (plain "ENABLE_CLOUDFLARE_TUNNEL requires PUBLIC_API_HOST and ADMIN_HOST to differ")

-- the checks of a tunnel that is enabled
unfoldable pub check_tunnel : Library → Host → Endpoints → Tls → Cloudflare → Result (Unit {0})
check_tunnel go host endpoints tls config = do
  fail_if (not (scheme_of endpoints.public_api_base_url == "https"))
      (plain "ENABLE_CLOUDFLARE_TUNNEL requires PUBLIC_API_BASE_URL to use https")
  fail_if (not (tls.mode == "acme") || not (tls.acme_dns_provider == "cloudflare"))
      (plain "ENABLE_CLOUDFLARE_TUNNEL requires TLS_MODE=acme and ACME_DNS_PROVIDER=cloudflare")
  validate_public_tunnel_hosts go endpoints
  clean_nonempty "CLOUDFLARE_TUNNEL_ID" config.tunnel_id
  credentials ← read_cloudflare_credentials go host config.credentials_file
  fail_if (not (credentials.tunnel_id == config.tunnel_id))
      (plain "CLOUDFLARE_TUNNEL_CREDENTIALS_FILE must match CLOUDFLARE_TUNNEL_ID")

unfoldable pub parse_cloudflare : Library → Host → Values → Endpoints → Tls → Result Cloudflare
parse_cloudflare go host v endpoints tls = do
  enabled ← boolean v "ENABLE_CLOUDFLARE_TUNNEL" false
  let config : Cloudflare = record {
    enabled = enabled;
    tunnel_id = value v "CLOUDFLARE_TUNNEL_ID" "";
    credentials_file =
        value v "CLOUDFLARE_TUNNEL_CREDENTIALS_FILE"
          "/run/secrets/cloudflare_tunnel_credentials.json";
  }
  if enabled then check_tunnel go host endpoints tls config else ok tt
  ok config

-- whether the private admin network is enabled, which is not supported
unfoldable pub parse_tailscale : Values → Result Bool
parse_tailscale v = do
  enabled ← boolean v "ENABLE_TAILSCALE_PRIVATE_ADMIN" false
  fail_if enabled
      (plain "ENABLE_TAILSCALE_PRIVATE_ADMIN=true is unsupported while ADR 0002 is Proposed")
  ok false

unfoldable pub parse_deployment : Library → Host → Values → Result Deployment
parse_deployment go host v = do
  preflight v deployment
  shared ← parse_shared v
  endpoints ← parse_endpoints go v shared.environment
  http ← parse_http go v
  https_port ← integer v "HTTPS_PORT" 8443 1 65535
  tls ← parse_tls go host v shared.environment endpoints
  database ← parse_database_inventory go host v shared.environment
  redis_password ← parse_redis_deployment go host v
  cloudflare ← parse_cloudflare go host v endpoints tls
  tailscale ← parse_tailscale v
  ok (record {
    shared = shared;
    endpoints = endpoints;
    http = http;
    https_port = https_port;
    tls = tls;
    database = database;
    redis_password = redis_password;
    cloudflare = cloudflare;
    tailscale_enabled = tailscale;
  })
