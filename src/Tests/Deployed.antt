-- ===== src/Tests/Deployed.antt =====
-- A production deployment for the tests: its settings, its files and the parsers' results on them.
use nexus_relay.Common.{
  ◌≡◌, refl, String, true, false, Option, none, some, List, [], ◌∷◌, ◌==◌, ◌||◌, if◌then◌else◌,
  Result, ok, err,
}
use nexus_relay.Config.DevSecrets.{dev_secret_files}
use nexus_relay.Config.Json.Accepts.{is_ok}
use nexus_relay.Config.Library.{
  Url, UserInfo, Library, pos, FileInfo, regular, directory, Host, utf8, Token, open_object,
  close_object, open_array, close_array, text, scalar, RingWire,
}
use nexus_relay.Config.Number.{itoa, atoi}
use nexus_relay.Config.Setting.{Values}
use nexus_relay.Tests.Example.{zeros, zeros_text}

-- what a result holds that is one
pub found {ℓ} : {A : Type ℓ} (r : Result A) → is_ok r ≡ true → (a : A) × (r ≡ ok a)
found (ok a) h = (a, refl)
found (err e) h = cc

abbrev site : String → String → String → Option UserInfo → Url
site scheme host path user = record {
  scheme = scheme;
  opaque = "";
  user = user;
  host = host;
  path = path;
  raw_path = "";
  force_query = false;
  raw_query = "";
  fragment = "";
}

abbrev pub redis_password : String
redis_password = "abcdefghijklmnopqrstuvwxyz012345"

abbrev redis_user : UserInfo
redis_user = record { username = "default"; password = some redis_password }

abbrev parse_site : String → Option Url
parse_site raw =
    if raw == "https://relay.example/v1"
    then some (site "https" "relay.example" "/v1" none)
    else if raw == "https://admin.example"
    then some (site "https" "admin.example" "" none)
    else if raw == "redis url"
    then some (site "redis" "redis:6379" "/0" (some redis_user))
    else none

abbrev keys_tokens : List Token
keys_tokens =
    text "keys"
    ∷ open_array
    ∷ open_object
    ∷ text "key_id"
    ∷ text "k1"
    ∷ text "key"
    ∷ text zeros_text
    ∷ close_object
    ∷ close_array
    ∷ close_object
    ∷ []

abbrev pub ring_tokens : List Token
ring_tokens = open_object ∷ text "version" ∷ scalar ∷ text "active_key_id" ∷ text "k1" ∷ keys_tokens

abbrev pub provider_tokens : List Token
provider_tokens =
    open_object
    ∷ text "version"
    ∷ scalar
    ∷ text "expected_epoch"
    ∷ scalar
    ∷ text "active_key_id"
    ∷ text "k1"
    ∷ keys_tokens

abbrev wire : RingWire
wire = record {
  version = pos 1;
  expected_epoch = pos 4;
  active_key_id = "k1";
  keys = ("k1", zeros_text) ∷ [];
}

abbrev pub deployed : Library
deployed = record {
  parse_duration = λ s. atoi s;
  duration_string = λ d. itoa d;
  parse_url = parse_site;
  url_string = λ url. url.host;
  hostname = λ url. url.host;
  is_ip = λ s. s == "0.0.0.0";
  parse_cidr = λ s. some s;
  join_host_port = λ host port. host;
  parse_address = λ s. some s;
  equal_fold = λ a b. a == b;
  clean_path = λ s. s;
  join_path = λ root name. name;
  decode_base64 = λ s. if s == zeros_text then some zeros else none;
  encode_base64 = λ _. zeros_text;
  json_tokens = λ s. if s == "provider ring" then provider_tokens else ring_tokens;
  decode_key_ring = λ _. some (wire, true);
  decode_provider_key_ring = λ _. some (wire, true);
  decode_cloudflare = λ _. none;
}

abbrev info : FileInfo
info = record { kind = regular; perm = 0x180; identity = 7 }

abbrev root_info : FileInfo
root_info = record { kind = directory; perm = 0x1c0; identity = 8 }

-- a password file holds its own path
abbrev contents : String → String
contents path =
    if path == "/run/secrets/session_secret" || path == "session_secret"
    then zeros_text
    else if path == "/run/secrets/csrf_secret_ring"
        || path == "csrf_secret_ring"
        || path == "api_key_pepper_ring"
        || path == "/run/secrets/api_key_pepper_ring"
    then "key ring"
    else if path == "/run/secrets/provider_master_keyring" || path == "provider_master_keyring"
    then "provider ring"
    else if path == "/run/secrets/redis_url" || path == "redis_url"
    then "redis url"
    else if path == "/run/secrets/redis_password" || path == "redis_password"
    then redis_password
    else path

abbrev pub machine : Host
machine = record {
  lstat = λ path. some (if path == "secrets" then root_info else info);
  stat = λ _. some info;
  open_file = λ path.
      some
        (record { info = some info; contents = some (utf8 (contents path)); close_error = none });
  read_dir = λ _. some dev_secret_files;
  is_windows = false;
}

abbrev pub production : Values
production =
    ("NEXUSRELAY_ENV", "production")
    ∷ ("PUBLIC_API_BASE_URL", "https://relay.example/v1")
    ∷ ("PUBLIC_API_HOST", "relay.example")
    ∷ ("ADMIN_BASE_URL", "https://admin.example")
    ∷ ("ADMIN_HOST", "admin.example")
    ∷ ("ADMIN_ORIGINS", "https://admin.example")
    ∷ ("DATABASE_SSLMODE", "require")
    ∷ ("SESSION_COOKIE_NAME", "__Host-session")
    ∷ []
