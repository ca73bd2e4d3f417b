-- ===== src/Config/Processes/Laws.antt =====
-- What the configuration of a process of internal/config/config.go is that was accepted.
use nexus_relay.Common.{◌≤◌, ℕ, ◌≡◌, String, true, false, not, ◌&&◌, ok, eq_iff, arith}
use nexus_relay.Common.Ensures.{Ensures, holds, Ensures-ok, Ensures-trivial, ◌≫◌, fail_if-Ensures}
use nexus_relay.Common.Text.{has_prefix}
use nexus_relay.Config.Connection.{control_plane_database_settings, parse_redis}
use nexus_relay.Config.Connection.Laws.{IsDatabase, parse_database-Ensures}
use nexus_relay.Config.Endpoint.Production.{AreEndpoints, parse_control_plane_endpoints-Ensures}
use nexus_relay.Config.Inventory.{control_plane}
use nexus_relay.Config.KeyFile.{ProviderKeyRing, provider_schema, key_ring_schema}
use nexus_relay.Config.KeyFile.Laws.{
  IsRingFile, read_key_ring-Ensures, read_provider_key_ring-Ensures,
}
use nexus_relay.Config.Secret.{KeyRing}
use nexus_relay.Config.Library.{Library, Host, pos}
use nexus_relay.Config.Policy.Readiness.Bounds.{IsReadinessPolicy, readiness-Ensures}
use nexus_relay.Config.Preflight.{preflight}
use nexus_relay.Config.Session.{parse_agent}
use nexus_relay.Config.Session.Laws.{IsSessionPolicy, parse_session_policy-Ensures}
use nexus_relay.Config.Setting.{Values, is_production_grade, required_path}
use nexus_relay.Config.Processes.{ControlPlane, parse_service_common, parse_control_plane}

-- The provider's key ring of a service.
abbrev pub HasProviderRing : Library → Host → Values → ProviderKeyRing → Type 0
HasProviderRing go host v r =
    IsRingFile go host provider_schema
      (required_path v "MASTER_KEYRING_FILE" "/run/secrets/provider_master_keyring") r.ring
    × ((n : ℕ) × (r.expected_epoch ≡ pos n) × (1 ≤ n))

-- The peppers of API keys of a service.
abbrev pub HasPepperRing : Library → Host → Values → KeyRing → Type 0
HasPepperRing go host v r =
    IsRingFile go host key_ring_schema
      (required_path v "API_KEY_PEPPER_RING_FILE" "/run/secrets/api_key_pepper_ring") r

-- A control plane in its environment.
pub record IsControlPlane (go : Library) (host : Host) (v : Values) (c : ControlPlane)
    : Type 0 where
  pub endpoints : AreEndpoints go c.common.shared.environment c.endpoints
  pub database : IsDatabase host v control_plane_database_settings c.database
  pub readiness : IsReadinessPolicy c.readiness
  pub sessions : IsSessionPolicy go host v c.sessions
  pub provider : HasProviderRing go host v c.provider_keys
  pub peppers : HasPepperRing go host v c.api_key_peppers
  pub host_cookie :
      c.common.shared.environment ≡ "production"
      → has_prefix c.sessions.cookie_name "__Host-" ≡ true

cookie_checked :
    (environment cookie : String)
    → (is_production_grade environment && not (has_prefix cookie "__Host-")) ≡ false
    → environment ≡ "production"
    → has_prefix cookie "__Host-" ≡ true
unfolding is_production_grade
cookie_checked environment cookie h p = ground (arith, eq_iff environment "production")

parse_control_plane-Ensures :
    (go : Library) (host : Host) (v : Values)
    → Ensures (IsControlPlane go host v) (parse_control_plane go host v)
unfolding parse_control_plane
parse_control_plane-Ensures go host v = Ensures-trivial (preflight v control_plane) ≫ λ _ _.
    Ensures-trivial (parse_service_common go v) ≫ λ common _.
    parse_control_plane_endpoints-Ensures go v common.shared.environment ≫ λ endpoints h0.
    parse_database-Ensures go host v control_plane_database_settings ≫ λ database h1.
    Ensures-trivial (parse_redis go host v _ _) ≫ λ redis _.
    readiness-Ensures go v ≫ λ readiness h2.
    read_provider_key_ring-Ensures go host _ ≫ λ provider h4.
    read_key_ring-Ensures go host _ _ ≫ λ peppers h5.
    parse_session_policy-Ensures go host v ≫ λ sessions h3. fail_if-Ensures _ _ ≫ λ _ cookie.
    Ensures-trivial (parse_agent v) ≫ λ agent _. holds (record {
      endpoints = h0;
      database = h1;
      readiness = h2;
      sessions = h3;
      provider = h4;
      peppers = h5;
      host_cookie = cookie_checked common.shared.environment sessions.cookie_name cookie;
    })

-- A control plane that is accepted has sound endpoints, database settings, readiness, sessions and
-- key rings, and in production a session cookie whose name begins with __Host-.
pub parse_control_plane-IsControlPlane :
    (go : Library) (host : Host) (v : Values) {c : ControlPlane}
    → parse_control_plane go host v ≡ ok c
    → IsControlPlane go host v c
parse_control_plane-IsControlPlane go host v h =
    Ensures-ok (rw h at (parse_control_plane-Ensures go host v))
