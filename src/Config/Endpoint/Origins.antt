-- ===== src/Config/Endpoint/Origins.antt =====
-- What the origins of internal/config/config.go are that were accepted.
use nexus_relay.Common.{
  ◌≡◌, ◌≢◌, ◌⊎◌, refl, String, false, not, ◌||◌, some, List, [], ◌∷◌, map, is_some, contains, ◌==◌,
  ok, eq_iff, arith, All,
}
use nexus_relay.Common.Ensures.{Ensures, holds, Ensures-ok, ◌≫◌, fail_if-Ensures, or_fail-Ensures}
use nexus_relay.Common.Text.{split}
use nexus_relay.Config.Library.{Library, Url}
use nexus_relay.Config.Setting.{one_of}
use nexus_relay.Config.Endpoint.{
  absolute_url, is_more_than_origin, origin_url, add_origins, parse_origins,
}

pub record IsHttpUrl (u : Url) : Type 0 where
  pub scheme : (u.scheme ≡ "http") ⊎ (u.scheme ≡ "https")
  pub host : u.host ≢ ""

-- A URL that is a scheme and a host.
pub record IsOrigin (u : Url) : Type 0 where
  pub http : IsHttpUrl u
  pub user : is_some u.user ≡ false
  pub path : u.path ≡ ""
  pub raw_query : u.raw_query ≡ ""
  pub fragment : u.fragment ≡ ""

url_checks :
    (scheme host : String)
    → (scheme == "" || host == "" || not (one_of scheme ("http" ∷ "https" ∷ []))) ≡ false
    → ((scheme ≡ "http") ⊎ (scheme ≡ "https")) × (host ≢ "")
unfolding one_of
url_checks scheme host h =
    ground (arith, eq_iff host "", eq_iff scheme "http", eq_iff scheme "https")

pub absolute_url-Ensures :
    (go : Library) (name raw : String)
    → Ensures (λ u. IsHttpUrl u × (go.parse_url raw ≡ some u)) (absolute_url go name raw)
unfolding absolute_url
absolute_url-Ensures go name raw = or_fail-Ensures _ _ ≫ λ u parsed. fail_if-Ensures _ _ ≫ λ _ h.
    holds (
      record { scheme = (url_checks u.scheme u.host h).0; host = (url_checks u.scheme u.host h).1 },
      parsed,
    )

origin_checks :
    (u : Url)
    → is_more_than_origin u ≡ false
    → (is_some u.user ≡ false) × (u.raw_query ≡ "") × (u.fragment ≡ "")
origin_checks u h = ground (arith, eq_iff u.raw_query "", eq_iff u.fragment "")

pub origin_url-Ensures :
    (go : Library) (name raw : String) → Ensures IsOrigin (origin_url go name raw)
unfolding origin_url
origin_url-Ensures go name raw = absolute_url-Ensures go name raw ≫ λ u h.
    fail_if-Ensures _ _ ≫ λ _ plain_origin. holds {a = record u { path = "" }} (record {
      http = record { scheme = h.0.scheme; host = h.0.host };
      user = (origin_checks u plain_origin).0;
      path = refl;
      raw_query = (origin_checks u plain_origin).1;
      fragment = (origin_checks u plain_origin).2;
    })

-- No text stands twice in the list, and none of `seen` stands in it.
abbrev pub AreNew : List String → List String → Type 0
AreNew seen [] = Unit
AreNew seen (name ∷ names) = (contains name seen ≡ false) × AreNew (name ∷ seen) names

add_origins-Ensures :
    (go : Library) (parts seen : List String)
    → Ensures
        (λ origins. All IsOrigin origins × AreNew seen (map go.url_string origins))
        (add_origins go parts seen)
unfolding add_origins
add_origins-Ensures go [] seen = holds (tt, tt)
add_origins-Ensures go (part ∷ parts) seen = fail_if-Ensures _ _ ≫ λ _ _.
    origin_url-Ensures go "ADMIN_ORIGINS" part ≫ λ origin o. fail_if-Ensures _ _ ≫ λ _ fresh.
    add_origins-Ensures go parts (go.url_string origin ∷ seen) ≫ λ later h.
    holds {a = origin ∷ later} ((o, h.0), (fresh, h.1))

pub parse_origins-Ensures :
    (go : Library) (raw : String)
    → Ensures
        (λ origins. All IsOrigin origins × AreNew [] (map go.url_string origins))
        (parse_origins go raw)
unfolding parse_origins
parse_origins-Ensures go raw =
    fail_if-Ensures _ _ ≫ λ _ _. add_origins-Ensures go (split b',' raw) []

-- Each of the admin origins that are accepted is a scheme, http or https, and a host, without
-- userinfo, path, query text and fragment, and no two of them print as the same text.
pub parse_origins-IsOrigin :
    (go : Library) (raw : String) {origins : List Url}
    → parse_origins go raw ≡ ok origins
    → All IsOrigin origins × AreNew [] (map go.url_string origins)
parse_origins-IsOrigin go raw h = Ensures-ok (rw h at (parse_origins-Ensures go raw))
