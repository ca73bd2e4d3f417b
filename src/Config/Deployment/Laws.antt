-- ===== src/Config/Deployment/Laws.antt =====
-- What a deployment of internal/config/config.go is that was accepted.
use nexus_relay.Common.{
  ◌*◌, ◌≡◌, ◌≢◌, refl, String, Bool, true, false, not, ◌||◌, some, [], ◌∷◌, is_some, ◌==◌,
  if◌then◌else◌, Map, lookup, insert, lookup-insert, ok, eq_iff, arith, All, Bool-cases, inl, inr,
}
use nexus_relay.Common.Ensures.{
  Ensures, holds, fails, Ensures-ok, Ensures-map, Ensures-trivial, ◌≫◌, fail_if-Ensures,
}
use nexus_relay.Config.Connection.{parse_redis_deployment}
use nexus_relay.Config.Connection.Laws.{ssl_mode-Ensures}
use nexus_relay.Config.Endpoint.{Endpoints}
use nexus_relay.Config.Endpoint.Production.{AreEndpoints, parse_endpoints-Ensures}
use nexus_relay.Config.Inventory.{deployment}
use nexus_relay.Config.KeyFile.{read_cloudflare_credentials}
use nexus_relay.Config.Library.{Library, Host}
use nexus_relay.Config.Preflight.{preflight}
use nexus_relay.Config.Secret.Protected.{IsSecretOf, read_simple_secret-Ensures}
use nexus_relay.Config.Service.{parse_shared, parse_http}
use nexus_relay.Config.Setting.{Values, clean_nonempty, integer, boolean}
use nexus_relay.Config.Deployment.{
  Cloudflare, DatabaseInventory, Deployment, check_users, fixed_users, check_passwords,
  password_paths, parse_database_inventory, validate_public_tunnel_hosts, check_tunnel,
  parse_cloudflare, parse_tailscale, parse_deployment,
}
use nexus_relay.Config.Tls.{Tls, scheme_of, parse_tls}

-- The setting's file holds a password that belongs to no other setting.
abbrev pub HasPassword : Host → Map String → String × String → Type 0
HasPassword host passwords (name, path) =
    (secret : String) × IsSecretOf host path (4 * 1024) secret
    × (lookup secret passwords ≡ some name)

abbrev Extends : Map String → Map String → Type 0
Extends older newer =
    (key name : String) → lookup key older ≡ some name → lookup key newer ≡ some name

insert-Extends :
    (key name : String) (m : Map String)
    → is_some (lookup key m) ≡ false
    → Extends m (insert key name m)
insert-Extends key name m fresh k n h =
    ground (arith, fresh, h, lookup-insert key k name m, eq_iff key k)

inserted : (key name : String) (m : Map String) → lookup key (insert key name m) ≡ some name
inserted key name m = ground (arith, lookup-insert key key name m, eq_iff key key)

check_passwords-Ensures :
    (go : Library) (host : Host) (paths seen seen_values : Map String)
    → Ensures
        (λ m. All (HasPassword host m) paths × Extends seen_values m)
        (check_passwords go host paths seen seen_values)
unfolding check_passwords
check_passwords-Ensures go host [] seen seen_values = holds (tt, λ _ _ h. h)
check_passwords-Ensures go host ((name, path) ∷ paths) seen seen_values =
    fail_if-Ensures _ _ ≫ λ _ _. fail_if-Ensures _ _ ≫ λ _ _.
    read_simple_secret-Ensures host name path _ ≫ λ secret s. fail_if-Ensures _ _ ≫ λ _ fresh.
    Ensures-map
      (λ m h. (
        ((secret, s.0, h.1 secret name (inserted secret name seen_values)), h.0),
        λ key n e. h.1 key n (insert-Extends secret name seen_values fresh key n e),
      ))
      (check_passwords-Ensures go host paths (insert (go.clean_path path) name seen)
        (insert secret name seen_values))

pub record IsDatabaseInventory (host : Host) (v : Values) (environment : String)
    (d : DatabaseInventory) : Type 0 where
  pub paths : d.password_files ≡ password_paths v
  pub passwords : Map String
  pub distinct : All (HasPassword host passwords) (password_paths v)
  pub encrypted : environment ≡ "production" → d.ssl_mode ≢ "disable"

parse_database_inventory-Ensures :
    (go : Library) (host : Host) (v : Values) (environment : String)
    → Ensures
        (IsDatabaseInventory host v environment)
        (parse_database_inventory go host v environment)
unfolding parse_database_inventory
parse_database_inventory-Ensures go host v environment = fail_if-Ensures _ _ ≫ λ _ _.
    Ensures-trivial (check_users v fixed_users) ≫ λ _ _.
    check_passwords-Ensures go host (password_paths v) [] [] ≫ λ passwords h.
    ssl_mode-Ensures v environment ≫ λ mode ssl.
    holds (record { paths = refl; passwords = passwords; distinct = h.0; encrypted = ssl })

-- In a database inventory that is accepted, each password file of the five users is protected and
-- holds a password that belongs to one setting only, and in production the mode encrypts.
pub parse_database_inventory-IsDatabaseInventory :
    (go : Library) (host : Host) (v : Values) (environment : String) {d : DatabaseInventory}
    → parse_database_inventory go host v environment ≡ ok d
    → IsDatabaseInventory host v environment d
parse_database_inventory-IsDatabaseInventory go host v environment h =
    Ensures-ok (rw h at (parse_database_inventory-Ensures go host v environment))

-- what an enabled tunnel needs
pub record IsTunnel (go : Library) (e : Endpoints) (tls : Tls) : Type 0 where
  pub secure : scheme_of e.public_api_base_url ≡ "https"
  pub acme : tls.mode ≡ "acme"
  pub provider : tls.acme_dns_provider ≡ "cloudflare"
  pub apart : go.equal_fold e.public_api_host e.admin_host ≡ false

is_text : (a b : String) → not (a == b) ≡ false → a ≡ b
is_text a b h = ground (arith, eq_iff a b)

two_texts : (a b c d : String) → (not (a == b) || not (c == d)) ≡ false → (a ≡ b) × (c ≡ d)
two_texts a b c d h = ground (arith, eq_iff a b, eq_iff c d)

hosts-Ensures :
    (go : Library) (e : Endpoints)
    → Ensures
        (λ _. go.equal_fold e.public_api_host e.admin_host ≡ false)
        (validate_public_tunnel_hosts go e)
unfolding validate_public_tunnel_hosts
hosts-Ensures go e = elim (Bool-cases (go.equal_fold e.public_api_host e.admin_host)) [
  | inl same ↦ rw same (elim (Bool-cases (e.admin_exposure == "private")) [
    | inl private ↦ rw private fails
    | inr open_host ↦ rw open_host fails
  ])
  | inr apart ↦ rw apart (holds refl)
]

check_tunnel-Ensures :
    (go : Library) (host : Host) (e : Endpoints) (tls : Tls) (config : Cloudflare)
    → Ensures (λ _. IsTunnel go e tls) (check_tunnel go host e tls config)
unfolding check_tunnel
check_tunnel-Ensures go host e tls config = fail_if-Ensures _ _ ≫ λ _ secure.
    fail_if-Ensures _ _ ≫ λ _ modes. hosts-Ensures go e ≫ λ _ apart.
    Ensures-trivial (clean_nonempty _ _) ≫ λ _ _.
    Ensures-trivial (read_cloudflare_credentials go host _) ≫ λ credentials _.
    Ensures-map
      (λ _ _. record {
        secure = is_text _ _ secure;
        acme = (two_texts tls.mode "acme" tls.acme_dns_provider "cloudflare" modes).0;
        provider = (two_texts tls.mode "acme" tls.acme_dns_provider "cloudflare" modes).1;
        apart = apart;
      })
      (fail_if-Ensures _ _)

if_enabled :
    (go : Library) (host : Host) (e : Endpoints) (tls : Tls) (config : Cloudflare) (enabled : Bool)
    → Ensures
        (λ _. enabled ≡ true → IsTunnel go e tls)
        (if enabled then check_tunnel go host e tls config else ok tt)
if_enabled go host e tls config true =
    Ensures-map (λ _ t _. t) (check_tunnel-Ensures go host e tls config)
if_enabled go host e tls config false = holds (λ h. cc)

parse_cloudflare-Ensures :
    (go : Library) (host : Host) (v : Values) (e : Endpoints) (tls : Tls)
    → Ensures (λ c. c.enabled ≡ true → IsTunnel go e tls) (parse_cloudflare go host v e tls)
unfolding parse_cloudflare
parse_cloudflare-Ensures go host v e tls = Ensures-trivial (boolean v _ _) ≫ λ enabled _.
    if_enabled go host e tls _ enabled ≫ λ _ tunnel. holds tunnel

parse_tailscale-Ensures : (v : Values) → Ensures (λ enabled. enabled ≡ false) (parse_tailscale v)
unfolding parse_tailscale
parse_tailscale-Ensures v =
    Ensures-trivial (boolean v _ _) ≫ λ enabled _. fail_if-Ensures _ _ ≫ λ _ _. holds refl

pub record IsDeployment (go : Library) (host : Host) (v : Values) (d : Deployment) : Type 0 where
  pub endpoints : AreEndpoints go d.shared.environment d.endpoints
  pub database : IsDatabaseInventory host v d.shared.environment d.database
  pub tunnel : d.cloudflare.enabled ≡ true → IsTunnel go d.endpoints d.tls
  pub no_tailscale : d.tailscale_enabled ≡ false

parse_deployment-Ensures :
    (go : Library) (host : Host) (v : Values)
    → Ensures (IsDeployment go host v) (parse_deployment go host v)
unfolding parse_deployment
parse_deployment-Ensures go host v = Ensures-trivial (preflight v deployment) ≫ λ _ _.
    Ensures-trivial (parse_shared v) ≫ λ shared _.
    parse_endpoints-Ensures go v shared.environment ≫ λ endpoints e.
    Ensures-trivial (parse_http go v) ≫ λ http _.
    Ensures-trivial (integer v _ _ _ _) ≫ λ https_port _.
    Ensures-trivial (parse_tls go host v shared.environment endpoints) ≫ λ tls _.
    parse_database_inventory-Ensures go host v shared.environment ≫ λ database d.
    Ensures-trivial (parse_redis_deployment go host v) ≫ λ redis _.
    parse_cloudflare-Ensures go host v endpoints tls ≫ λ cloudflare c.
    parse_tailscale-Ensures v ≫ λ tailscale t.
    holds (record { endpoints = e; database = d; tunnel = c; no_tailscale = t })

-- A deployment that is accepted has sound endpoints and database passwords; a tunnel is enabled only
-- for an https URL, with certificates by ACME through the tunnel's provider and different public and
-- admin hosts; and the private admin network is never enabled.
pub parse_deployment-IsDeployment :
    (go : Library) (host : Host) (v : Values) {d : Deployment}
    → parse_deployment go host v ≡ ok d
    → IsDeployment go host v d
parse_deployment-IsDeployment go host v h =
    Ensures-ok (rw h at (parse_deployment-Ensures go host v))
