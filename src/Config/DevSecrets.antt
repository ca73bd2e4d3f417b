-- ===== src/Config/DevSecrets.antt =====
-- internal/config/devsecrets.go: the directory of development secrets and of the tunnel's, and the
-- settings that point into it. The files of a Go map are taken in the order of the source.
pub mod Laws
pub mod Generate
use Prim.Native.String.{◌++◌, len}
use nexus_relay.Common.{
  ℕ, ◌*◌, String, Bool, true, false, not, ◌&&◌, ◌||◌, Option, none, some, List, [], ◌∷◌, nat_eq,
  ltb, is_some, ◌==◌, if◌then◌else◌, Map, lookup, insert, plain, must_equal, Result, ok, ◌>>=◌,
  ◌>>◌, fail_if, or_fail,
}
use nexus_relay.Config.Connection.{is_redis_password}
use nexus_relay.Config.KeyFile.{read_key_ring, read_provider_key_ring}
use nexus_relay.Config.Library.{Library, Url, UserInfo, Host, FileInfo, regular, directory}
use nexus_relay.Config.Secret.{
  is_kind, read_simple_secret, read_uri_secret, read_base64_key, validate_protected_file,
}
use nexus_relay.Config.Setting.{Values, value}

abbrev pub dev_secret_files : List String
dev_secret_files =
    "api_key_pepper_ring" ∷ "csrf_secret_ring" ∷ "postgres_cluster_admin_password"
    ∷ "postgres_control_plane_password" ∷ "postgres_gateway_password"
    ∷ "postgres_migration_password" ∷ "postgres_worker_password" ∷ "provider_master_keyring"
    ∷ "redis_password" ∷ "redis_url" ∷ "session_secret" ∷ []

abbrev pub database_secret_files : Map String
database_secret_files =
    ("POSTGRES_PASSWORD_FILE", "postgres_cluster_admin_password")
    ∷ ("DATABASE_MIGRATION_PASSWORD_FILE", "postgres_migration_password")
    ∷ ("DATABASE_GATEWAY_PASSWORD_FILE", "postgres_gateway_password")
    ∷ ("DATABASE_CONTROL_PLANE_PASSWORD_FILE", "postgres_control_plane_password")
    ∷ ("DATABASE_WORKER_PASSWORD_FILE", "postgres_worker_password")
    ∷ []

abbrev pub deployment_secret_files : Map String
deployment_secret_files =
    ("POSTGRES_PASSWORD_FILE", "postgres_cluster_admin_password")
    ∷ ("DATABASE_MIGRATION_PASSWORD_FILE", "postgres_migration_password")
    ∷ ("DATABASE_GATEWAY_PASSWORD_FILE", "postgres_gateway_password")
    ∷ ("DATABASE_CONTROL_PLANE_PASSWORD_FILE", "postgres_control_plane_password")
    ∷ ("DATABASE_WORKER_PASSWORD_FILE", "postgres_worker_password")
    ∷ ("REDIS_PASSWORD_FILE", "redis_password")
    ∷ ("REDIS_URL_FILE", "redis_url")
    ∷ ("MASTER_KEYRING_FILE", "provider_master_keyring")
    ∷ ("API_KEY_PEPPER_RING_FILE", "api_key_pepper_ring")
    ∷ ("SESSION_SECRET_FILE", "session_secret")
    ∷ ("CSRF_SECRET_RING_FILE", "csrf_secret_ring")
    ∷ []

-- two sorted lists of names, joined by NUL, which no name holds
abbrev same_names : List String → List String → Bool
same_names [] [] = true
same_names (name ∷ names) (other ∷ others) = name == other && same_names names others
same_names _ _ = false

abbrev pub is_directory : Option FileInfo → Bool
is_directory none = false
is_directory (some info) = is_kind info.kind directory

abbrev has_mode : ℕ → Option FileInfo → Bool
has_mode mode none = false
has_mode mode (some info) = nat_eq info.perm mode

abbrev is_regular : Option FileInfo → Bool
is_regular none = false
is_regular (some info) = is_kind info.kind regular

-- the files' kinds and modes, 0600
unfoldable pub check_files : Library → Host → String → List String → Result (Unit {0})
check_files go host root [] = ok tt
check_files go host root (name ∷ names) = do
  fail_if (not (is_regular (host.lstat (go.join_path root name))))
      (plain "development secret inventory contains an invalid file")
  fail_if (not host.is_windows && not (has_mode 0x180 (host.lstat (go.join_path root name))))
      (plain "development secret files must have mode 0600")
  check_files go host root names

unfoldable pub check_database_passwords :
    Library → Host → String → Map String → Map String → Result (Unit {0})
check_database_passwords go host root [] seen = ok tt
check_database_passwords go host root ((name, filename) ∷ files) seen = do
  secret ← read_simple_secret host name (go.join_path root filename) (4 * 1024)
  fail_if (is_some (lookup secret seen)) (plain "development database passwords must be distinct")
  check_database_passwords go host root files (insert secret name seen)

abbrev user_password : Option UserInfo → Option String
user_password none = none
user_password (some user) = user.password

abbrev is_text : Option String → String → Bool
is_text none expected = false
is_text (some given) expected = given == expected

unfoldable pub check_redis : Library → Host → String → Result (Unit {0})
check_redis go host root = do
  password ←
      read_simple_secret host "REDIS_PASSWORD_FILE" (go.join_path root "redis_password") (4 * 1024)
  fail_if (not (is_redis_password password))
      (plain "REDIS_PASSWORD_FILE must contain at least 32 base64url characters")
  secret ←
      read_uri_secret go host "REDIS_URL_FILE" (go.join_path root "redis_url") (4 * 1024)
        ("redis" ∷ [])
  let (text, url) = secret
  fail_if
      (not (is_text (user_password url.user) password)
        || not (url.host == "redis:6379")
        || not (url.path == "/0"))
      (plain "REDIS_URL_FILE does not match the generated development Redis contract")

-- the directory's mode is 0700
unfoldable pub validate_dev_secrets : Library → Host → String → Result (Unit {0})
validate_dev_secrets go host root = do
  fail_if (not (is_directory (host.lstat root)))
      (plain "development secret root must be a directory, not a symbolic link")
  fail_if (not host.is_windows && not (has_mode 0x1c0 (host.lstat root)))
      (plain "development secret root must have mode 0700")
  entries ← or_fail (host.read_dir root) (plain "read development secret inventory: unavailable")
  fail_if (not (same_names entries dev_secret_files))
      (plain "development secret inventory must contain exactly 11 allowlisted files")
  check_files go host root dev_secret_files
  check_database_passwords go host root database_secret_files []
  check_redis go host root
  provider ← read_provider_key_ring go host (go.join_path root "provider_master_keyring")
  pepper ←
      read_key_ring go host "API_KEY_PEPPER_RING_FILE" (go.join_path root "api_key_pepper_ring")
  session ←
      read_base64_key go host "SESSION_SECRET_FILE" (go.join_path root "session_secret") (4 * 1024)
  csrf ← read_key_ring go host "CSRF_SECRET_RING_FILE" (go.join_path root "csrf_secret_ring")
  ok tt

abbrev pub logical_path : String → String
logical_path filename = "/run/secrets/" ++ filename

unfoldable pub resolve_files : Library → String → Map String → Values → Result Values
resolve_files go root [] resolved = ok resolved
resolve_files go root ((name, filename) ∷ files) resolved = do
  fail_if (not (value resolved name (logical_path filename) == logical_path filename))
      (must_equal name (logical_path filename))
  resolve_files go root files (insert name (go.join_path root filename) resolved)

unfoldable pub resolve_deployment_secret_root : Library → Host → Values → String → Result Values
resolve_deployment_secret_root go host values root = do
  validate_dev_secrets go host root
  resolve_files go root deployment_secret_files values

abbrev pub cloudflare_secret_files : Map String
cloudflare_secret_files =
    ("ACME_DNS_API_TOKEN_FILE", "acme_dns_api_token")
    ∷ ("CLOUDFLARE_TUNNEL_CREDENTIALS_FILE", "cloudflare_tunnel_credentials.json")
    ∷ []

-- here an empty value counts as one that is not given
unfoldable pub resolve_protected_files :
    Library → Host → String → Map String → Values → Result Values
resolve_protected_files go host root [] resolved = ok resolved
resolve_protected_files go host root ((name, filename) ∷ files) resolved = do
  fail_if
      (not (value resolved name "" == "") && not (value resolved name "" == logical_path filename))
      (must_equal name (logical_path filename))
  validate_protected_file host name (go.join_path root filename)
  resolve_protected_files go host root files (insert name (go.join_path root filename) resolved)

unfoldable pub resolve_cloudflare_secret_root : Library → Host → Values → String → Result Values
resolve_cloudflare_secret_root go host values root = do
  fail_if (root == "") (plain "Cloudflare secret root is required")
  fail_if (not (is_directory (host.lstat root)))
      (plain "Cloudflare secret root must be a directory")
  fail_if (not host.is_windows && not (has_mode 0x1c0 (host.lstat root)))
      (plain "Cloudflare secret root must have mode 0700")
  entries ←
      or_fail (host.read_dir root)
        (plain "Cloudflare secret inventory differs from the exact allowlist")
  fail_if
      (not (same_names entries ("acme_dns_api_token" ∷ "cloudflare_tunnel_credentials.json" ∷ [])))
      (plain "Cloudflare secret inventory differs from the exact allowlist")
  resolve_protected_files go host root cloudflare_secret_files values
