-- ===== src/Config/Endpoint.antt =====
-- internal/config/config.go: the URLs, origins and networks of a deployment.
pub mod Origins
pub mod Production
use nexus_relay.Common.{
  String, Bool, true, false, not, ◌&&◌, ◌||◌, Option, none, some, List, [], ◌∷◌, is_some, contains,
  ◌==◌, Error, plain, setting, Result, ok, ◌>>=◌, ◌>>◌, fail_if, or_fail, if◌then◌else◌,
}
use nexus_relay.Common.Text.{split, trim_space}
use nexus_relay.Config.Library.{Library, Url}
use nexus_relay.Config.Setting.{Values, value, one_of, is_production_grade}

-- a nil pointer to a URL is `none`
pub record Endpoints : Type 0 where
  pub public_api_base_url : Option Url
  pub admin_base_url : Option Url
  pub public_api_host : String
  pub admin_host : String
  pub admin_exposure : String
  pub admin_origins : List Url
  pub trusted_proxies : List String

unfoldable pub absolute_url : Library → String → String → Result Url
absolute_url go name raw = do
  u ← or_fail (go.parse_url raw) (setting name "must be an absolute HTTP(S) URL")
  fail_if (u.scheme == "" || u.host == "" || not (one_of u.scheme ("http" ∷ "https" ∷ [])))
      (setting name "must be an absolute HTTP(S) URL")
  ok u

-- userinfo, a path but "/", a query or a fragment
abbrev pub is_more_than_origin : Url → Bool
is_more_than_origin u =
    is_some u.user
    || (not (u.path == "") && not (u.path == "/"))
    || not (u.raw_query == "")
    || not (u.fragment == "")

unfoldable pub origin_url : Library → String → String → Result Url
origin_url go name raw = do
  u ← absolute_url go name raw
  fail_if (is_more_than_origin u)
      (setting name "must be an origin without path, query, fragment, or userinfo")
  ok (record u { path = "" })

-- the loop of parseOrigins; `seen` has the texts of the origins before
unfoldable pub add_origins : Library → List String → List String → Result (List Url)
add_origins go [] seen = ok []
add_origins go (part ∷ parts) seen = do
  fail_if (not (trim_space part == part) || part == "")
      (plain "ADMIN_ORIGINS must be comma-separated origins without whitespace")
  origin ← origin_url go "ADMIN_ORIGINS" part
  fail_if (contains (go.url_string origin) seen) (plain "ADMIN_ORIGINS contains a duplicate origin")
  later ← add_origins go parts (go.url_string origin ∷ seen)
  ok (origin ∷ later)

unfoldable pub parse_origins : Library → String → Result (List Url)
parse_origins go raw = do
  fail_if (raw == "") (plain "ADMIN_ORIGINS must contain at least one explicit origin")
  add_origins go (split b',' raw) []

unfoldable pub add_cidrs : Library → String → List String → Result (List String)
add_cidrs go name [] = ok []
add_cidrs go name (part ∷ parts) = do
  fail_if (not (trim_space part == part) || part == "")
      (setting name "must be comma-separated CIDRs without whitespace")
  network ← or_fail (go.parse_cidr part) (setting name "contains an invalid CIDR")
  later ← add_cidrs go name parts
  ok (network ∷ later)

unfoldable pub parse_named_cidrs : Library → String → String → Result (List String)
parse_named_cidrs go name raw = if raw == "" then ok [] else add_cidrs go name (split b',' raw)

unfoldable pub parse_cidrs : Library → String → Result (List String)
parse_cidrs go raw = parse_named_cidrs go "TRUSTED_PROXY_CIDRS" raw

-- the loop of validateAdminOrigins: whether the admin URL was among the origins so far
unfoldable pub scan_origins : Library → Url → Bool → List Url → Bool → Result Bool
scan_origins go admin production [] allowed = ok allowed
scan_origins go admin production (origin ∷ origins) allowed = do
  fail_if (production && not (origin.scheme == "https"))
      (plain "production ADMIN_ORIGINS entries must use https")
  scan_origins go admin production origins (allowed || go.url_string origin == go.url_string admin)

unfoldable pub validate_admin_origins : Library → Url → List Url → String → Result (Unit {0})
validate_admin_origins go admin origins environment = do
  allowed ← scan_origins go admin (is_production_grade environment) origins false
  fail_if (not allowed) (plain "ADMIN_ORIGINS must include ADMIN_BASE_URL")

abbrev pub is_not_api_base : Url → Bool
is_not_api_base public =
    not (public.path == "/v1")
    || not (public.raw_query == "")
    || not (public.fragment == "")
    || is_some public.user

unfoldable pub parse_public_api_url : Library → Values → String → Result Url
parse_public_api_url go v environment = do
  public ←
      absolute_url go "PUBLIC_API_BASE_URL"
        (value v "PUBLIC_API_BASE_URL" "http://localhost:8080/v1")
  fail_if (is_not_api_base public)
      (plain "PUBLIC_API_BASE_URL must be an absolute HTTP(S) URL ending exactly in /v1")
  fail_if (is_production_grade environment && not (public.scheme == "https"))
      (plain "production PUBLIC_API_BASE_URL must use https")
  ok public

unfoldable pub parse_gateway_endpoints : Library → Values → String → Result Endpoints
parse_gateway_endpoints go v environment = do
  public ← parse_public_api_url go v environment
  proxies ← parse_cidrs go (value v "TRUSTED_PROXY_CIDRS" "")
  ok (record {
    public_api_base_url = some public;
    admin_base_url = none;
    public_api_host = "";
    admin_host = "";
    admin_exposure = "";
    admin_origins = [];
    trusted_proxies = proxies;
  })

unfoldable pub parse_control_plane_endpoints : Library → Values → String → Result Endpoints
parse_control_plane_endpoints go v environment = do
  public ← parse_public_api_url go v environment
  admin ← origin_url go "ADMIN_BASE_URL" (value v "ADMIN_BASE_URL" "http://localhost:8080")
  fail_if (is_production_grade environment && not (admin.scheme == "https"))
      (plain "production ADMIN_BASE_URL must use https")
  origins ← parse_origins go (value v "ADMIN_ORIGINS" "http://localhost:8080")
  validate_admin_origins go admin origins environment
  proxies ← parse_cidrs go (value v "TRUSTED_PROXY_CIDRS" "")
  ok (record {
    public_api_base_url = some public;
    admin_base_url = some admin;
    public_api_host = "";
    admin_host = "";
    admin_exposure = "";
    admin_origins = origins;
    trusted_proxies = proxies;
  })

unfoldable pub parse_endpoints : Library → Values → String → Result Endpoints
parse_endpoints go v environment = do
  public ←
      absolute_url go "PUBLIC_API_BASE_URL"
        (value v "PUBLIC_API_BASE_URL" "http://localhost:8080/v1")
  fail_if (is_not_api_base public)
      (plain "PUBLIC_API_BASE_URL must be an absolute HTTP(S) URL ending exactly in /v1")
  admin ← origin_url go "ADMIN_BASE_URL" (value v "ADMIN_BASE_URL" "http://localhost:8080")
  let public_host = value v "PUBLIC_API_HOST" "localhost"
  let admin_host = value v "ADMIN_HOST" "localhost"
  fail_if (not (go.equal_fold (go.hostname public) public_host))
      (plain "PUBLIC_API_HOST must match PUBLIC_API_BASE_URL hostname")
  fail_if (not (go.equal_fold (go.hostname admin) admin_host))
      (plain "ADMIN_HOST must match ADMIN_BASE_URL hostname")
  let exposure = value v "ADMIN_EXPOSURE_MODE" "local"
  fail_if (not (one_of exposure ("local" ∷ "private" ∷ "public" ∷ [])))
      (plain "ADMIN_EXPOSURE_MODE must be local, private, or public")
  fail_if
      (is_production_grade environment
        && (not (public.scheme == "https") || not (admin.scheme == "https")))
      (plain "production PUBLIC_API_BASE_URL and ADMIN_BASE_URL must use https")
  origins ← parse_origins go (value v "ADMIN_ORIGINS" "http://localhost:8080")
  validate_admin_origins go admin origins environment
  proxies ← parse_cidrs go (value v "TRUSTED_PROXY_CIDRS" "")
  ok (record {
    public_api_base_url = some public;
    admin_base_url = some admin;
    public_api_host = public_host;
    admin_host = admin_host;
    admin_exposure = exposure;
    admin_origins = origins;
    trusted_proxies = proxies;
  })
