-- ===== src/Config/Tls.antt =====
-- internal/config/config.go: the certificates of a deployment.
use nexus_relay.Common.{
  ◌*◌, String, Bool, false, not, ◌&&◌, ◌||◌, Option, none, some, [], ◌∷◌, ◌==◌, if◌then◌else◌,
  plain, setting, Result, ok, ◌>>=◌, ◌>>◌, fail_if, or_fail,
}
use nexus_relay.Config.Endpoint.{Endpoints}
use nexus_relay.Config.Library.{Library, Url, Host, FileInfo, regular}
use nexus_relay.Config.Secret.{is_kind, read_simple_secret, validate_protected_file}
use nexus_relay.Config.Setting.{
  Values, value, required_path, clean_nonempty, one_of, is_production_grade,
}

pub record Tls : Type 0 where
  pub mode : String
  pub certificate_file : String
  pub key_file : String
  pub acme_email : String
  pub acme_dns_provider : String
  pub acme_dns_api_token : String

abbrev is_regular : Option FileInfo → Bool
is_regular none = false
is_regular (some info) = is_kind info.kind regular

unfoldable pub readable_regular : Library → Host → String → String → Result (Unit {0})
readable_regular go host name path = do
  fail_if (path == "") (setting name "is required")
  fail_if (not (is_regular (host.stat path))) (setting name "must name a readable regular file")
  file ←
      or_fail (host.open_file (go.clean_path path))
        (setting name "must name a readable regular file")
  ok tt

-- the scheme of a URL that is not nil, as both of a deployment are
abbrev pub scheme_of : Option Url → String
scheme_of none = ""
scheme_of (some url) = url.scheme

-- the token of the ACME mode; the other modes have none
unfoldable pub parse_acme : Library → Host → Values → Result String
parse_acme go host v = do
  address ←
      or_fail (go.parse_address (value v "ACME_EMAIL" ""))
        (plain "ACME_EMAIL must be a valid email address in acme mode")
  clean_nonempty "ACME_DNS_PROVIDER" (value v "ACME_DNS_PROVIDER" "")
  read_simple_secret host "ACME_DNS_API_TOKEN_FILE"
      (required_path v "ACME_DNS_API_TOKEN_FILE" "/run/secrets/acme_dns_api_token") (8 * 1024)

unfoldable pub check_tls_files : Library → Host → Values → Result (Unit {0})
check_tls_files go host v = do
  readable_regular go host "TLS_CERT_FILE" (value v "TLS_CERT_FILE" "")
  validate_protected_file host "TLS_KEY_FILE" (value v "TLS_KEY_FILE" "")

unfoldable pub parse_tls : Library → Host → Values → String → Endpoints → Result Tls
parse_tls go host v environment endpoints = do
  let mode = value v "TLS_MODE" "disabled"
  fail_if (not (one_of mode ("disabled" ∷ "files" ∷ "acme" ∷ [])))
      (plain "TLS_MODE must be disabled, files, or acme")
  if mode == "files" then check_tls_files go host v else ok tt
  token ← if mode == "acme" then parse_acme go host v else ok ""
  fail_if
      (is_production_grade environment
        && (not (scheme_of endpoints.public_api_base_url == "https")
            || not (scheme_of endpoints.admin_base_url == "https")))
      (plain "production endpoints require https")
  ok (record {
    mode = mode;
    certificate_file = value v "TLS_CERT_FILE" "";
    key_file = value v "TLS_KEY_FILE" "";
    acme_email = value v "ACME_EMAIL" "";
    acme_dns_provider = value v "ACME_DNS_PROVIDER" "";
    acme_dns_api_token = token;
  })
