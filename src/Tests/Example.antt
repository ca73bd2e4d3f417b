-- ===== src/Tests/Example.antt =====
-- A library and a host for the tests: durations are printed as so many characters, base64 texts and
-- URLs are given by tables.
use nexus_relay.Common.{ℕ, zero, suc, String, false, none, some, [], ◌∷◌, ◌==◌, if◌then◌else◌}
use nexus_relay.Common.Text.{size}
use nexus_relay.Config.Library.{Bytes, pos, Url, Library, regular, FileInfo, utf8, Host}

unfoldable pub strokes : ℕ → String
strokes zero = ""
strokes (suc n) = String.◌∷◌ "|" (strokes n)

abbrev plain_url : String → String → String → Url
plain_url scheme host path = record {
  scheme = scheme;
  opaque = "";
  user = none;
  host = host;
  path = path;
  raw_path = "";
  force_query = false;
  raw_query = "";
  fragment = "";
}

-- 32 bytes
abbrev pub zeros : Bytes
zeros =
    0 ∷ 0 ∷ 0 ∷ 0 ∷ 0 ∷ 0 ∷ 0 ∷ 0 ∷ 0 ∷ 0 ∷ 0 ∷ 0 ∷ 0 ∷ 0 ∷ 0 ∷ 0 ∷ 0 ∷ 0 ∷ 0 ∷ 0 ∷ 0 ∷ 0 ∷ 0 ∷ 0
    ∷ 0 ∷ 0 ∷ 0 ∷ 0 ∷ 0 ∷ 0 ∷ 0 ∷ 0 ∷ []

abbrev pub zeros_text : String
zeros_text = "AAAAAAAAAAAAAAAAAAAAAAAAAAAAAAAAAAAAAAAAAAA="

abbrev pub example : Library
example = record {
  parse_duration = λ s. some (pos (size s));
  duration_string = strokes;
  parse_url = λ s.
      if s == "https://relay.example/v1"
      then some (plain_url "https" "relay.example" "/v1")
      else if s == "https://admin.example"
      then some (plain_url "https" "admin.example" "")
      else none;
  url_string = λ url. if url.host == "admin.example" then "https://admin.example" else "other";
  hostname = λ url. url.host;
  is_ip = λ s. s == "0.0.0.0";
  parse_cidr = λ s. some s;
  join_host_port = λ host port. host;
  parse_address = λ s. some s;
  equal_fold = λ a b. a == b;
  clean_path = λ s. s;
  join_path = λ directory name. directory;
  decode_base64 = λ s. if s == zeros_text then some zeros else none;
  encode_base64 = λ _. zeros_text;
  json_tokens = λ _. [];
  decode_key_ring = λ _. none;
  decode_provider_key_ring = λ _. none;
  decode_cloudflare = λ _. none;
}

-- a private regular file with a secret, at any path
abbrev secret_info : FileInfo
secret_info = record { kind = regular; perm = 0x180; identity = 7 }

abbrev pub secret_host : Host
secret_host = record {
  lstat = λ _. some secret_info;
  stat = λ _. some secret_info;
  open_file = λ _.
      some (record {
        info = some secret_info;
        contents = some (utf8 "hunter2\n");
        close_error = none;
      });
  read_dir = λ _. none;
  is_windows = false;
}
