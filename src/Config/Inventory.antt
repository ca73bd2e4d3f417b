-- ===== src/Config/Inventory.antt =====
-- internal/config/config.go: the processes and the inventory of documented settings.
use nexus_relay.Common.{Bool, true, false, List, [], ◌∷◌, String, Map, lookup, is_some}

pub data Process : Type 0 where
  gateway control_plane worker bootstrap deployment : Process

pub record SettingClass : Type 0 where
  pub secret : Bool
  pub consumers : List Process

abbrev public : List Process → SettingClass
public processes = record { secret = false; consumers = processes }

abbrev secret : List Process → SettingClass
secret processes = record { secret = true; consumers = processes }

unfoldable pub inventory : Map SettingClass
inventory =
    ("NEXUSRELAY_ENV", public (gateway ∷ control_plane ∷ worker ∷ bootstrap ∷ deployment ∷ []))
    ∷ (
      "NEXUSRELAY_VERSION",
      public (gateway ∷ control_plane ∷ worker ∷ bootstrap ∷ deployment ∷ []),
    )
    ∷ ("PUBLIC_API_BASE_URL", public (gateway ∷ control_plane ∷ deployment ∷ []))
    ∷ ("ADMIN_BASE_URL", public (control_plane ∷ deployment ∷ []))
    ∷ ("PUBLIC_API_HOST", public (deployment ∷ []))
    ∷ ("ADMIN_HOST", public (deployment ∷ []))
    ∷ ("ADMIN_EXPOSURE_MODE", public (deployment ∷ []))
    ∷ ("ADMIN_ORIGINS", public (control_plane ∷ deployment ∷ []))
    ∷ ("TRUSTED_PROXY_CIDRS", public (gateway ∷ control_plane ∷ deployment ∷ []))
    ∷ ("HTTP_BIND_ADDRESS", public (gateway ∷ control_plane ∷ worker ∷ deployment ∷ []))
    ∷ ("HTTP_PORT", public (gateway ∷ control_plane ∷ worker ∷ deployment ∷ []))
    ∷ ("HTTPS_PORT", public (deployment ∷ []))
    ∷ ("TLS_MODE", public (deployment ∷ []))
    ∷ ("TLS_CERT_FILE", public (deployment ∷ []))
    ∷ ("TLS_KEY_FILE", secret (deployment ∷ []))
    ∷ ("ACME_EMAIL", public (deployment ∷ []))
    ∷ ("ACME_DNS_PROVIDER", public (deployment ∷ []))
    ∷ ("ACME_DNS_API_TOKEN_FILE", secret (deployment ∷ []))
    ∷ ("POSTGRES_DB", public (deployment ∷ []))
    ∷ ("POSTGRES_USER", public (deployment ∷ []))
    ∷ ("POSTGRES_PASSWORD_FILE", secret (deployment ∷ []))
    ∷ ("DATABASE_HOST", public (gateway ∷ control_plane ∷ worker ∷ bootstrap ∷ []))
    ∷ ("DATABASE_PORT", public (gateway ∷ control_plane ∷ worker ∷ bootstrap ∷ []))
    ∷ ("DATABASE_NAME", public (gateway ∷ control_plane ∷ worker ∷ bootstrap ∷ deployment ∷ []))
    ∷ ("DATABASE_MIGRATION_USER", public (deployment ∷ []))
    ∷ ("DATABASE_MIGRATION_PASSWORD_FILE", secret (deployment ∷ []))
    ∷ ("DATABASE_GATEWAY_USER", public (gateway ∷ deployment ∷ []))
    ∷ ("DATABASE_GATEWAY_PASSWORD_FILE", secret (gateway ∷ deployment ∷ []))
    ∷ ("DATABASE_CONTROL_PLANE_USER", public (control_plane ∷ bootstrap ∷ deployment ∷ []))
    ∷ ("DATABASE_CONTROL_PLANE_PASSWORD_FILE", secret (control_plane ∷ bootstrap ∷ deployment ∷ []))
    ∷ ("DATABASE_WORKER_USER", public (worker ∷ deployment ∷ []))
    ∷ ("DATABASE_WORKER_PASSWORD_FILE", secret (worker ∷ deployment ∷ []))
    ∷ ("DATABASE_SSLMODE", public (gateway ∷ control_plane ∷ worker ∷ bootstrap ∷ deployment ∷ []))
    ∷ ("DATABASE_MIN_CONNECTIONS_GATEWAY", public (gateway ∷ []))
    ∷ ("DATABASE_MAX_CONNECTIONS_GATEWAY", public (gateway ∷ []))
    ∷ ("DATABASE_MIN_CONNECTIONS_CONTROL_PLANE", public (control_plane ∷ bootstrap ∷ []))
    ∷ ("DATABASE_MAX_CONNECTIONS_CONTROL_PLANE", public (control_plane ∷ bootstrap ∷ []))
    ∷ ("DATABASE_MIN_CONNECTIONS_WORKER", public (worker ∷ []))
    ∷ ("DATABASE_MAX_CONNECTIONS_WORKER", public (worker ∷ []))
    ∷ ("DATABASE_STATEMENT_TIMEOUT", public (gateway ∷ control_plane ∷ worker ∷ bootstrap ∷ []))
    ∷ ("DATABASE_TRANSACTION_TIMEOUT", public (gateway ∷ control_plane ∷ worker ∷ bootstrap ∷ []))
    ∷ ("REDIS_URL_FILE", secret (gateway ∷ control_plane ∷ worker ∷ deployment ∷ []))
    ∷ ("REDIS_PASSWORD_FILE", secret (deployment ∷ []))
    ∷ ("REDIS_MAX_CONNECTIONS_GATEWAY", public (gateway ∷ []))
    ∷ ("REDIS_MAX_CONNECTIONS_CONTROL_PLANE", public (control_plane ∷ []))
    ∷ ("REDIS_MAX_CONNECTIONS_WORKER", public (worker ∷ []))
    ∷ ("DEPENDENCY_STARTUP_TIMEOUT", public (gateway ∷ control_plane ∷ worker ∷ []))
    ∷ ("DEPENDENCY_PROBE_TIMEOUT", public (gateway ∷ control_plane ∷ worker ∷ []))
    ∷ ("DEPENDENCY_PROBE_INTERVAL", public (gateway ∷ control_plane ∷ worker ∷ []))
    ∷ ("DEPENDENCY_RETRY_MIN_DELAY", public (gateway ∷ control_plane ∷ worker ∷ []))
    ∷ ("DEPENDENCY_RETRY_MAX_DELAY", public (gateway ∷ control_plane ∷ worker ∷ []))
    ∷ ("MASTER_KEYRING_FILE", secret (gateway ∷ control_plane ∷ worker ∷ []))
    ∷ ("API_KEY_PEPPER_RING_FILE", secret (gateway ∷ control_plane ∷ []))
    ∷ ("SESSION_SECRET_FILE", secret (control_plane ∷ []))
    ∷ ("CSRF_SECRET_RING_FILE", secret (control_plane ∷ []))
    ∷ ("SESSION_COOKIE_NAME", public (control_plane ∷ []))
    ∷ ("SESSION_IDLE_TTL", public (control_plane ∷ []))
    ∷ ("SESSION_ABSOLUTE_TTL", public (control_plane ∷ []))
    ∷ ("SESSION_LAST_SEEN_WRITE_INTERVAL", public (control_plane ∷ []))
    ∷ ("PASSWORD_ARGON2_MEMORY_KIB", public (control_plane ∷ bootstrap ∷ []))
    ∷ ("PASSWORD_ARGON2_ITERATIONS", public (control_plane ∷ bootstrap ∷ []))
    ∷ ("PASSWORD_ARGON2_PARALLELISM", public (control_plane ∷ bootstrap ∷ []))
    ∷ ("REQUEST_BODY_MAX_BYTES", public (gateway ∷ []))
    ∷ ("UPSTREAM_CONNECT_TIMEOUT", public (gateway ∷ []))
    ∷ ("UPSTREAM_FIRST_BYTE_TIMEOUT", public (gateway ∷ []))
    ∷ ("UPSTREAM_IDLE_TIMEOUT", public (gateway ∷ []))
    ∷ ("UPSTREAM_TOTAL_TIMEOUT", public (gateway ∷ worker ∷ []))
    ∷ ("SHUTDOWN_GRACE_PERIOD", public (gateway ∷ control_plane ∷ worker ∷ deployment ∷ []))
    ∷ ("MAX_UPSTREAM_ATTEMPTS", public (gateway ∷ []))
    ∷ ("LOG_LEVEL", public (gateway ∷ control_plane ∷ worker ∷ bootstrap ∷ []))
    ∷ ("LOG_FORMAT", public (gateway ∷ control_plane ∷ worker ∷ bootstrap ∷ []))
    ∷ ("METRICS_ENABLED", public (gateway ∷ control_plane ∷ worker ∷ []))
    ∷ ("OTEL_ENABLED", public (gateway ∷ control_plane ∷ worker ∷ []))
    ∷ ("OTEL_EXPORTER_OTLP_ENDPOINT", public (gateway ∷ control_plane ∷ worker ∷ []))
    ∷ ("REQUEST_RETENTION_DAYS", public (worker ∷ []))
    ∷ ("AUDIT_RETENTION_DAYS", public (worker ∷ []))
    ∷ ("HEALTH_OBSERVATION_RETENTION_DAYS", public (worker ∷ []))
    ∷ ("PROCESSED_OUTBOX_RETENTION_DAYS", public (worker ∷ []))
    ∷ ("ANALYTICS_TARGET_LAG", public (worker ∷ []))
    ∷ ("STALE_REQUEST_RECONCILIATION_INTERVAL", public (worker ∷ []))
    ∷ ("WORKER_CONCURRENCY", public (worker ∷ []))
    ∷ ("OUTBOX_LEASE_DURATION", public (worker ∷ []))
    ∷ ("OUTBOX_RETRY_BASE_DELAY", public (worker ∷ []))
    ∷ ("OUTBOX_RETRY_MAX_DELAY", public (worker ∷ []))
    ∷ ("HEALTH_PROBE_INTERVAL", public (worker ∷ []))
    ∷ ("HEALTH_FAST_WINDOW", public (worker ∷ []))
    ∷ ("HEALTH_STABILIZING_WINDOW", public (worker ∷ []))
    ∷ ("HEALTH_MIN_SAMPLES", public (worker ∷ []))
    ∷ ("HEALTH_POLICY_VERSION", public (worker ∷ []))
    ∷ ("RETENTION_BATCH_SIZE", public (worker ∷ []))
    ∷ ("HEALTH_UNAVAILABLE_ENTRY_THRESHOLD_BPS", public (worker ∷ []))
    ∷ ("HEALTH_UNAVAILABLE_EXIT_THRESHOLD_BPS", public (worker ∷ []))
    ∷ ("HEALTH_CONSECUTIVE_FAILURES", public (worker ∷ []))
    ∷ ("HEALTH_CONSECUTIVE_SUCCESSES", public (worker ∷ []))
    ∷ ("AGENT_API_KEY_ENV", public (control_plane ∷ []))
    ∷ ("OPENCODE_PROVIDER_ID", public (control_plane ∷ []))
    ∷ ("OPENCODE_PROVIDER_NAME", public (control_plane ∷ []))
    ∷ ("ENABLE_CLOUDFLARE_TUNNEL", public (deployment ∷ []))
    ∷ ("CLOUDFLARE_TUNNEL_ID", public (deployment ∷ []))
    ∷ ("CLOUDFLARE_TUNNEL_CREDENTIALS_FILE", secret (deployment ∷ []))
    ∷ ("ENABLE_TAILSCALE_PRIVATE_ADMIN", public (deployment ∷ []))
    ∷ ("TAILSCALE_AUTH_KEY_FILE", secret ([]))
    ∷ ("TAILSCALE_STATE_DIR", public ([]))
    ∷ ("TAILSCALE_HOSTNAME", public ([]))
    ∷ ("PRIVATE_INGRESS_SUBNET", public ([]))
    ∷ ("PRIVATE_TRAEFIK_IP", public ([]))
    ∷ ("PRIVATE_DNS_IP", public ([]))
    ∷ ("TAILSCALE_ADVERTISE_ROUTES", public ([]))
    ∷ ("BOOTSTRAP_OWNER_EMAIL", public (bootstrap ∷ []))
    ∷ ("BOOTSTRAP_OWNER_NAME", public (bootstrap ∷ []))
    ∷ ("BOOTSTRAP_ORGANIZATION_NAME", public (bootstrap ∷ []))
    ∷ ("BOOTSTRAP_ORGANIZATION_SLUG", public (bootstrap ∷ []))
    ∷ ("BOOTSTRAP_PASSWORD_FILE", secret (bootstrap ∷ []))
    ∷ []

unfoldable pub is_known : String → Bool
unfolding lookup
is_known name = is_some (lookup name inventory)

abbrev pub unmistakable_owned_prefixes : List String
unmistakable_owned_prefixes = "NEXUSRELAY_" ∷ "BOOTSTRAP_" ∷ []

abbrev pub obsolete_settings : List String
obsolete_settings =
    "CSRF_SECRET_FILE" ∷ "DATABASE_USER" ∷ "DATABASE_PASSWORD_FILE"
    ∷ "SHARED_DATABASE_PASSWORD_FILE" ∷ []
