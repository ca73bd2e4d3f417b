-- ===== src/Config/Connection.antt =====
-- internal/config/config.go: the connections to PostgreSQL and Redis.
pub mod Laws
use nexus_relay.Common.{
  ℕ, ◌*◌, String, Bool, true, false, not, ◌&&◌, ◌||◌, Option, none, some, List, [], ◌∷◌, is_some,
  ltb, leb, ◌==◌, if◌then◌else◌, Map, lookup, insert, Error, plain, setting, must_equal, clash,
  Result, ok, err, ◌>>=◌, ◌>>◌, fail_if, or_fail, nat_eq,
}
use nexus_relay.Common.Text.{is_alnum, all_codes, size}
use nexus_relay.Config.Library.{Library, Url, UserInfo, Host}
use nexus_relay.Config.Secret.{read_simple_secret, read_uri_secret}
use nexus_relay.Config.Setting.{
  Values, millisecond, second, minute, value, required_path, clean_nonempty, one_of, duration,
  integer, is_production_grade,
}

pub record DatabaseProcessSettings : Type 0 where
  pub user_setting : String
  pub password_setting : String
  pub min_setting : String
  pub max_setting : String
  pub user : String
  pub default_max : ℕ

pub record Database : Type 0 where
  pub host : String
  pub port : ℕ
  pub name : String
  pub user : String
  pub password : String
  pub ssl_mode : String
  pub min_connections : ℕ
  pub max_connections : ℕ
  pub statement_timeout : ℕ
  pub transaction_timeout : ℕ

pub record Redis : Type 0 where
  pub url : String
  pub max_connections : ℕ

abbrev pub gateway_database_settings : DatabaseProcessSettings
gateway_database_settings = record {
  user_setting = "DATABASE_GATEWAY_USER";
  password_setting = "DATABASE_GATEWAY_PASSWORD_FILE";
  min_setting = "DATABASE_MIN_CONNECTIONS_GATEWAY";
  max_setting = "DATABASE_MAX_CONNECTIONS_GATEWAY";
  user = "nexusrelay_gateway";
  default_max = 30;
}

abbrev pub control_plane_database_settings : DatabaseProcessSettings
control_plane_database_settings = record {
  user_setting = "DATABASE_CONTROL_PLANE_USER";
  password_setting = "DATABASE_CONTROL_PLANE_PASSWORD_FILE";
  min_setting = "DATABASE_MIN_CONNECTIONS_CONTROL_PLANE";
  max_setting = "DATABASE_MAX_CONNECTIONS_CONTROL_PLANE";
  user = "nexusrelay_control_plane";
  default_max = 20;
}

abbrev pub worker_database_settings : DatabaseProcessSettings
worker_database_settings = record {
  user_setting = "DATABASE_WORKER_USER";
  password_setting = "DATABASE_WORKER_PASSWORD_FILE";
  min_setting = "DATABASE_MIN_CONNECTIONS_WORKER";
  max_setting = "DATABASE_MAX_CONNECTIONS_WORKER";
  user = "nexusrelay_worker";
  default_max = 10;
}

unfoldable pub parse_database_ssl_mode : Values → String → Result String
parse_database_ssl_mode v environment = do
  let mode = value v "DATABASE_SSLMODE" "disable"
  fail_if (not (one_of mode ("disable" ∷ "require" ∷ "verify-ca" ∷ "verify-full" ∷ [])))
      (plain "DATABASE_SSLMODE must be disable, require, verify-ca, or verify-full")
  fail_if (is_production_grade environment && mode == "disable")
      (plain "production DATABASE_SSLMODE must be require, verify-ca, or verify-full")
  ok mode

-- the Go map gives "" for any other setting
abbrev pub default_password_path : String → String
default_password_path name =
    if name == "DATABASE_GATEWAY_PASSWORD_FILE"
    then "/run/secrets/postgres_gateway_password"
    else if name == "DATABASE_CONTROL_PLANE_PASSWORD_FILE"
    then "/run/secrets/postgres_control_plane_password"
    else if name == "DATABASE_WORKER_PASSWORD_FILE"
    then "/run/secrets/postgres_worker_password"
    else ""

unfoldable pub parse_database : Library → Host → Values → DatabaseProcessSettings → Result Database
parse_database go host v s = do
  let name = value v "DATABASE_NAME" "nexusrelay"
  clean_nonempty "DATABASE_NAME" name
  let server = value v "DATABASE_HOST" "postgres"
  clean_nonempty "DATABASE_HOST" server
  port ← integer v "DATABASE_PORT" 5432 1 65535
  mode ← parse_database_ssl_mode v (value v "NEXUSRELAY_ENV" "development")
  statement ← duration go v "DATABASE_STATEMENT_TIMEOUT" (30 * second) millisecond (30 * minute)
  transaction ← duration go v "DATABASE_TRANSACTION_TIMEOUT" (30 * second) millisecond (30 * minute)
  fail_if (not (value v s.user_setting s.user == s.user)) (must_equal s.user_setting s.user)
  minimum ← integer v s.min_setting 2 0 10000
  maximum ← integer v s.max_setting s.default_max 1 10000
  fail_if (ltb maximum minimum) (clash s.min_setting s.max_setting "must not exceed")
  password ←
      read_simple_secret host s.password_setting
        (required_path v s.password_setting (default_password_path s.password_setting)) (4 * 1024)
  ok (record {
    host = server;
    port = port;
    name = name;
    user = s.user;
    password = password;
    ssl_mode = mode;
    min_connections = minimum;
    max_connections = maximum;
    statement_timeout = statement;
    transaction_timeout = transaction;
  })

abbrev pub redis_schemes : List String
redis_schemes = "redis" ∷ "rediss" ∷ []

unfoldable pub parse_redis : Library → Host → Values → String → ℕ → Result Redis
parse_redis go host v max_setting default_max = do
  secret ←
      read_uri_secret go host "REDIS_URL_FILE"
        (required_path v "REDIS_URL_FILE" "/run/secrets/redis_url") (4 * 1024) redis_schemes
  let (text, parsed) = secret
  fail_if (parsed.host == "") (plain "REDIS_URL_FILE must contain an absolute Redis URI")
  maximum ← integer v max_setting default_max 1 10000
  ok (record { url = text; max_connections = maximum })

abbrev pub is_base64url_code : ℕ → Bool
is_base64url_code c = is_alnum c || nat_eq c b'_' || nat_eq c b'-'

-- ^[A-Za-z0-9_-]{32,}$
unfoldable pub is_redis_password : String → Bool
is_redis_password s = all_codes is_base64url_code s && leb 32 (size s)

unfoldable pub parse_redis_deployment : Library → Host → Values → Result String
parse_redis_deployment go host v = do
  password ←
      read_simple_secret host "REDIS_PASSWORD_FILE"
        (required_path v "REDIS_PASSWORD_FILE" "/run/secrets/redis_password") (4 * 1024)
  fail_if (not (is_redis_password password))
      (plain "REDIS_PASSWORD_FILE must contain at least 32 base64url characters")
  secret ←
      read_uri_secret go host "REDIS_URL_FILE"
        (required_path v "REDIS_URL_FILE" "/run/secrets/redis_url") (4 * 1024) redis_schemes
  let (text, url) = secret
  user ← or_fail url.user (plain "REDIS_URL_FILE must contain Redis authentication credentials")
  fail_if (not (user.username == "") && not (user.username == "default"))
      (plain "REDIS_URL_FILE username must be empty or default")
  given ←
      or_fail user.password (plain "REDIS_PASSWORD_FILE must match the password in REDIS_URL_FILE")
  fail_if (not (given == password))
      (plain "REDIS_PASSWORD_FILE must match the password in REDIS_URL_FILE")
  ok password
