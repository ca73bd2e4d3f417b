-- ===== src/Config/Endpoint/Production.antt =====
-- What the endpoints of internal/config/config.go are that were accepted, in production and elsewhere.
use nexus_relay.Common.{
  ◌∙◌, ◌≡◌, refl, String, Bool, true, false, not, ◌&&◌, ◌||◌, some, List, [], ◌∷◌, any, ◌==◌, ok,
  eq_iff, arith, All,
}
use nexus_relay.Common.Ensures.{
  Ensures, holds, Ensures-ok, Ensures-trivial, Ensures-map, ◌≫◌, fail_if-Ensures,
}
use nexus_relay.Config.Library.{Library, Url}
use nexus_relay.Config.Setting.{Values, is_production_grade}
use nexus_relay.Config.Endpoint.{
  Endpoints, parse_cidrs, scan_origins, validate_admin_origins, is_not_api_base,
  parse_public_api_url, parse_control_plane_endpoints, parse_endpoints,
}
use nexus_relay.Config.Endpoint.Origins.{
  IsHttpUrl, IsOrigin, absolute_url-Ensures, origin_url-Ensures, parse_origins-Ensures,
}

abbrev pub IsHttps : Url → Type 0
IsHttps u = u.scheme ≡ "https"

-- The origins that a production deployment accepts use https, and one prints as the admin URL.
pub record AreAdminOrigins (go : Library) (environment : String) (admin : Url) (origins : List Url)
    : Type 0 where
  pub secure : environment ≡ "production" → All IsHttps origins
  pub included : any (λ origin. go.url_string origin == go.url_string admin) origins ≡ true

guarded_https :
    (production : Bool) (scheme : String)
    → (production && not (scheme == "https")) ≡ false
    → production ≡ true
    → scheme ≡ "https"
guarded_https production scheme h p = ground (arith, eq_iff scheme "https")

or_moves : (a b c : Bool) → ((a || b) || c) ≡ (a || (b || c))
or_moves a b c = ground arith

scan_origins-Ensures :
    (go : Library) (admin : Url) (production : Bool) (origins : List Url) (allowed : Bool)
    → Ensures
        (λ found.
          (production ≡ true → All IsHttps origins)
          × (found
              ≡ (allowed || any (λ origin. go.url_string origin == go.url_string admin) origins)))
        (scan_origins go admin production origins allowed)
unfolding scan_origins
scan_origins-Ensures go admin production [] allowed = holds (λ _. tt, ground arith)
scan_origins-Ensures go admin production (origin ∷ origins) allowed =
    fail_if-Ensures _ _ ≫ λ _ secure.
    Ensures-map
      (λ found h. (
        λ p. (guarded_https production origin.scheme secure p, h.0 p),
        h.1 ∙ or_moves allowed (go.url_string origin == go.url_string admin) _,
      ))
      (scan_origins-Ensures go admin production origins _)

is_production :
    (environment : String) → environment ≡ "production" → is_production_grade environment ≡ true
unfolding is_production_grade
is_production environment e = ground (arith, eq_iff environment "production")

validate_admin_origins-Ensures :
    (go : Library) (admin : Url) (origins : List Url) (environment : String)
    → Ensures
        (λ _. AreAdminOrigins go environment admin origins)
        (validate_admin_origins go admin origins environment)
unfolding validate_admin_origins
validate_admin_origins-Ensures go admin origins environment =
    scan_origins-Ensures go admin (is_production_grade environment) origins false ≫ λ found h.
    Ensures-map
      (λ _ included. record {
        secure = λ p. h.0 (is_production environment p);
        included = ground (arith, h.1, included);
      })
      (fail_if-Ensures _ _)

-- The endpoints that a deployment may have.
pub record AreEndpoints (go : Library) (environment : String) (e : Endpoints) : Type 0 where
  pub public : Url
  pub admin : Url
  pub public_given : e.public_api_base_url ≡ some public
  pub admin_given : e.admin_base_url ≡ some admin
  pub public_http : IsHttpUrl public
  pub public_path : public.path ≡ "/v1"
  pub admin_origin : IsOrigin admin
  pub origins : All IsOrigin e.admin_origins
  pub admin_among : AreAdminOrigins go environment admin e.admin_origins
  pub secure : environment ≡ "production" → IsHttps public × IsHttps admin

api_path : (public : Url) → is_not_api_base public ≡ false → public.path ≡ "/v1"
api_path public h = ground (arith, eq_iff public.path "/v1")

both_https :
    (environment a b : String)
    → (is_production_grade environment && (not (a == "https") || not (b == "https"))) ≡ false
    → environment ≡ "production"
    → (a ≡ "https") × (b ≡ "https")
both_https environment a b h p =
    ground (arith, is_production environment p, eq_iff a "https", eq_iff b "https")

one_https :
    (environment a : String)
    → (is_production_grade environment && not (a == "https")) ≡ false
    → environment ≡ "production"
    → a ≡ "https"
one_https environment a h p = ground (arith, is_production environment p, eq_iff a "https")

pub parse_endpoints-Ensures :
    (go : Library) (v : Values) (environment : String)
    → Ensures (AreEndpoints go environment) (parse_endpoints go v environment)
unfolding parse_endpoints
parse_endpoints-Ensures go v environment = absolute_url-Ensures go _ _ ≫ λ public http.
    fail_if-Ensures _ _ ≫ λ _ base. origin_url-Ensures go _ _ ≫ λ admin origin.
    fail_if-Ensures _ _ ≫ λ _ _. fail_if-Ensures _ _ ≫ λ _ _. fail_if-Ensures _ _ ≫ λ _ _.
    fail_if-Ensures _ _ ≫ λ _ https. parse_origins-Ensures go _ ≫ λ origins o.
    validate_admin_origins-Ensures go admin origins environment ≫ λ _ among.
    Ensures-trivial (parse_cidrs go _) ≫ λ proxies _. holds (record {
      public = public;
      admin = admin;
      public_given = refl;
      admin_given = refl;
      public_http = http.0;
      public_path = api_path public base;
      admin_origin = origin;
      origins = o.0;
      admin_among = among;
      secure = both_https environment public.scheme admin.scheme https;
    })

-- The endpoints of a deployment that are accepted have a public HTTP(S) URL whose path is /v1 and an
-- admin origin, the admin origins are origins and one of them prints as the admin URL, and in
-- production all of these use https.
pub parse_endpoints-AreEndpoints :
    (go : Library) (v : Values) (environment : String) {e : Endpoints}
    → parse_endpoints go v environment ≡ ok e
    → AreEndpoints go environment e
parse_endpoints-AreEndpoints go v environment h =
    Ensures-ok (rw h at (parse_endpoints-Ensures go v environment))

pub parse_public_api_url-Ensures :
    (go : Library) (v : Values) (environment : String)
    → Ensures
        (λ u. IsHttpUrl u × (u.path ≡ "/v1") × (environment ≡ "production" → IsHttps u))
        (parse_public_api_url go v environment)
unfolding parse_public_api_url
parse_public_api_url-Ensures go v environment = absolute_url-Ensures go _ _ ≫ λ public http.
    fail_if-Ensures _ _ ≫ λ _ base. fail_if-Ensures _ _ ≫ λ _ https.
    holds (http.0, api_path public base, one_https environment public.scheme https)

pub parse_control_plane_endpoints-Ensures :
    (go : Library) (v : Values) (environment : String)
    → Ensures (AreEndpoints go environment) (parse_control_plane_endpoints go v environment)
unfolding parse_control_plane_endpoints
parse_control_plane_endpoints-Ensures go v environment =
    parse_public_api_url-Ensures go v environment ≫ λ public h.
    origin_url-Ensures go _ _ ≫ λ admin origin. fail_if-Ensures _ _ ≫ λ _ https.
    parse_origins-Ensures go _ ≫ λ origins o.
    validate_admin_origins-Ensures go admin origins environment ≫ λ _ among.
    Ensures-trivial (parse_cidrs go _) ≫ λ proxies _. holds (record {
      public = public;
      admin = admin;
      public_given = refl;
      admin_given = refl;
      public_http = h.0;
      public_path = h.1;
      admin_origin = origin;
      origins = o.0;
      admin_among = among;
      secure = λ p. (h.2 p, one_https environment admin.scheme https p);
    })

-- The control plane accepts endpoints under the same conditions as the whole deployment.
pub parse_control_plane_endpoints-AreEndpoints :
    (go : Library) (v : Values) (environment : String) {e : Endpoints}
    → parse_control_plane_endpoints go v environment ≡ ok e
    → AreEndpoints go environment e
parse_control_plane_endpoints-AreEndpoints go v environment h =
    Ensures-ok (rw h at (parse_control_plane_endpoints-Ensures go v environment))
