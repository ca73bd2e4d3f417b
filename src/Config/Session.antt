-- ===== src/Config/Session.antt =====
-- internal/config/config.go: the sessions of the control plane and the agent's export.
pub mod Laws
use Prim.Native.Char.{code}
use Prim.Native.String
use nexus_relay.Common.{
  ℕ, ◌*◌, String, Bool, true, false, not, ◌&&◌, ◌||◌, ◌==◌, ltb, nat_eq, plain, Result, ok, ◌>>=◌,
  ◌>>◌, fail_if,
}
use nexus_relay.Common.Text.{is_alnum, is_lower, is_upper, is_digit, all_codes, any_code}
use nexus_relay.Config.KeyFile.{read_key_ring}
use nexus_relay.Config.Library.{Library, Host}
use nexus_relay.Config.Policy.Password.{PasswordPolicy, parse_password_policy}
use nexus_relay.Config.Secret.{KeyRing, read_base64_key}
use nexus_relay.Config.Setting.{
  Values, second, minute, hour, value, required_path, clean_nonempty, duration,
}

pub record SessionPolicy : Type 0 where
  pub cookie_name : String
  pub idle_ttl : ℕ
  pub absolute_ttl : ℕ
  pub last_seen_write_interval : ℕ
  pub secret : String
  pub csrf_keys : KeyRing
  pub argon2_memory_kib : ℕ
  pub argon2_iterations : ℕ
  pub argon2_parallelism : ℕ

pub record AgentExport : Type 0 where
  pub api_key_environment : String
  pub open_code_provider_id : String
  pub open_code_provider_name : String

abbrev pub is_cookie_code : ℕ → Bool
is_cookie_code c = is_alnum c || any_code (nat_eq c) "!#$%&'*+.^_`|~-"

-- ^[!#$%&'*+.^_`|~0-9A-Za-z-]+$
unfoldable pub is_cookie_name : String → Bool
is_cookie_name s = not (s == "") && all_codes is_cookie_code s

unfoldable pub parse_session_policy : Library → Host → Values → Result SessionPolicy
parse_session_policy go host v = do
  idle ← duration go v "SESSION_IDLE_TTL" (12 * hour) minute (30 * 24 * hour)
  absolute ← duration go v "SESSION_ABSOLUTE_TTL" (168 * hour) minute (365 * 24 * hour)
  interval ← duration go v "SESSION_LAST_SEEN_WRITE_INTERVAL" (5 * minute) second idle
  fail_if (ltb absolute idle) (plain "SESSION_IDLE_TTL must not exceed SESSION_ABSOLUTE_TTL")
  let cookie = value v "SESSION_COOKIE_NAME" "nexusrelay_session"
  fail_if (not (is_cookie_name cookie)) (plain "SESSION_COOKIE_NAME is not a valid cookie name")
  password ← parse_password_policy v
  secret ←
      read_base64_key go host "SESSION_SECRET_FILE"
        (required_path v "SESSION_SECRET_FILE" "/run/secrets/session_secret") (4 * 1024)
  csrf ←
      read_key_ring go host "CSRF_SECRET_RING_FILE"
        (required_path v "CSRF_SECRET_RING_FILE" "/run/secrets/csrf_secret_ring")
  ok (record {
    cookie_name = cookie;
    idle_ttl = idle;
    absolute_ttl = absolute;
    last_seen_write_interval = interval;
    secret = secret;
    csrf_keys = csrf;
    argon2_memory_kib = password.argon2_memory_kib;
    argon2_iterations = password.argon2_iterations;
    argon2_parallelism = password.argon2_parallelism;
  })

-- ^[A-Za-z_][A-Za-z0-9_]*$
unfoldable pub is_variable_name : String → Bool
is_variable_name String.[] = false
is_variable_name (String.◌∷◌ c s) =
    (is_lower (code c) || is_upper (code c) || nat_eq (code c) b'_')
    && all_codes (λ d. is_alnum d || nat_eq d b'_') s

-- ^[a-z0-9][a-z0-9_-]*$
unfoldable pub is_provider_id : String → Bool
is_provider_id String.[] = false
is_provider_id (String.◌∷◌ c s) =
    (is_lower (code c) || is_digit (code c))
    && all_codes (λ d. is_lower d || is_digit d || nat_eq d b'_' || nat_eq d b'-') s

unfoldable pub parse_agent : Values → Result AgentExport
parse_agent v = do
  let variable = value v "AGENT_API_KEY_ENV" "NEXUSRELAY_API_KEY"
  fail_if (not (is_variable_name variable))
      (plain "AGENT_API_KEY_ENV must be an environment variable name")
  let id = value v "OPENCODE_PROVIDER_ID" "nexusrelay"
  fail_if (not (is_provider_id id)) (plain "OPENCODE_PROVIDER_ID has invalid format")
  let name = value v "OPENCODE_PROVIDER_NAME" "NexusRelay"
  clean_nonempty "OPENCODE_PROVIDER_NAME" name
  ok (record {
    api_key_environment = variable;
    open_code_provider_id = id;
    open_code_provider_name = name;
  })
