-- ===== src/Config/Session/Laws.antt =====
-- What the session policy of internal/config/config.go is that was accepted.
use nexus_relay.Common.{ℕ, ◌*◌, ◌≤◌, ◌≡◌, String, true, some, length, ok, arith, ltb→le}
use nexus_relay.Common.Ensures.{Ensures, holds, Ensures-ok, Ensures-trivial, ◌≫◌, fail_if-Ensures}
use nexus_relay.Config.KeyFile.{key_ring_schema}
use nexus_relay.Config.KeyFile.Laws.{IsRingFile, read_key_ring-Ensures}
use nexus_relay.Config.Library.{Library, Host, Bytes}
use nexus_relay.Config.Policy.Password.{parse_password_policy}
use nexus_relay.Config.Secret.{read_base64_key}
use nexus_relay.Config.Secret.Protected.{IsSecretOf, read_simple_secret-Ensures}
use nexus_relay.Config.Secret.Ring.{decode_key-Ensures}
use nexus_relay.Config.Setting.{Values, second, minute, hour, required_path}
use nexus_relay.Config.Setting.Laws.{IsBetween, duration-IsBetween}
use nexus_relay.Config.Session.{SessionPolicy, is_cookie_name, parse_session_policy}

-- A secret from a protected file that is the canonical base64 text of 32 bytes.
pub record IsBase64Key (go : Library) (host : Host) (path : String) (maximum : ℕ) (secret : String)
    : Type 0 where
  pub key : Bytes
  pub decoded : go.decode_base64 secret ≡ some key
  pub sized : length key ≡ 32
  pub file : IsSecretOf host path maximum secret

pub base64_key-Ensures :
    (go : Library) (host : Host) (name path : String) (maximum : ℕ)
    → Ensures (IsBase64Key go host path maximum) (read_base64_key go host name path maximum)
unfolding read_base64_key
base64_key-Ensures go host name path maximum =
    read_simple_secret-Ensures host name path maximum ≫ λ secret s.
    decode_key-Ensures go name secret ≫ λ key k.
    holds (record { key = key; decoded = k.decoded; sized = k.sized; file = s.0 })

pub record IsSessionPolicy (go : Library) (host : Host) (v : Values) (p : SessionPolicy)
    : Type 0 where
  pub cookie : is_cookie_name p.cookie_name ≡ true
  pub idle : IsBetween minute (30 * 24 * hour) p.idle_ttl
  pub absolute : IsBetween minute (365 * 24 * hour) p.absolute_ttl
  pub ordered : p.idle_ttl ≤ p.absolute_ttl
  pub interval : IsBetween second p.idle_ttl p.last_seen_write_interval
  pub secret :
      IsBase64Key go host
        (required_path v "SESSION_SECRET_FILE" "/run/secrets/session_secret")
        (4 * 1024)
        p.secret
  pub csrf :
      IsRingFile go host key_ring_schema
        (required_path v "CSRF_SECRET_RING_FILE" "/run/secrets/csrf_secret_ring")
        p.csrf_keys

pub parse_session_policy-Ensures :
    (go : Library) (host : Host) (v : Values)
    → Ensures (IsSessionPolicy go host v) (parse_session_policy go host v)
unfolding parse_session_policy
parse_session_policy-Ensures go host v = duration-IsBetween go v _ _ _ _ ≫ λ idle h0.
    duration-IsBetween go v _ _ _ _ ≫ λ absolute h1.
    duration-IsBetween go v _ _ _ _ ≫ λ interval h2. fail_if-Ensures _ _ ≫ λ _ h3.
    fail_if-Ensures _ _ ≫ λ _ h4. Ensures-trivial (parse_password_policy v) ≫ λ password _.
    base64_key-Ensures go host _ _ _ ≫ λ secret h5. read_key_ring-Ensures go host _ _ ≫ λ csrf h6.
    holds (record {
      cookie = ground arith;
      idle = h0;
      absolute = h1;
      ordered = ltb→le absolute idle h3;
      interval = h2;
      secret = h5;
      csrf = h6;
    })

-- A session policy that is accepted has a valid cookie name, an idle time within the absolute one and
-- a write interval within the idle one, a 32-byte key in canonical base64 from a protected file, and
-- a sound ring of CSRF keys.
pub parse_session_policy-IsSessionPolicy :
    (go : Library) (host : Host) (v : Values) {p : SessionPolicy}
    → parse_session_policy go host v ≡ ok p
    → IsSessionPolicy go host v p
parse_session_policy-IsSessionPolicy go host v h =
    Ensures-ok (rw h at (parse_session_policy-Ensures go host v))
