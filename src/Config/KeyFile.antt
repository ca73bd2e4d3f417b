-- ===== src/Config/KeyFile.antt =====
-- internal/config/secret.go: the JSON files: key rings and the credentials of a tunnel.
pub mod Laws
use nexus_relay.Common.{
  ℕ, String, Bool, true, false, not, ◌||◌, List, [], ◌∷◌, ◌==◌, leb, reading, Result, ok, ◌>>=◌,
  ◌>>◌, fail_if,
}
use nexus_relay.Config.Json.{Schema, Fields, leaf, object, array, end, field, strict_json}
use nexus_relay.Config.Library.{Library, Host, ℤ, pos, negsuc, CloudflareCredentials}
use nexus_relay.Config.Secret.{KeyRing, read_secret_bytes, validate_ring, key_ring_maximum_bytes}

pub record ProviderKeyRing : Type 0 where
  pub ring : KeyRing
  pub expected_epoch : ℤ

abbrev pub keys_schema : Schema
keys_schema = array (object (field "key_id" leaf (field "key" leaf end)))

abbrev pub key_ring_schema : Schema
key_ring_schema =
    object (field "version" leaf (field "active_key_id" leaf (field "keys" keys_schema end)))

abbrev pub provider_schema : Schema
provider_schema = object (
    field "version" leaf
      (field "expected_epoch" leaf (field "active_key_id" leaf (field "keys" keys_schema end))))

abbrev pub cloudflare_schema : Schema
cloudflare_schema =
    object (field "AccountTag" leaf (field "TunnelSecret" leaf (field "TunnelID" leaf end)))

unfoldable pub read_key_ring : Library → Host → String → String → Result KeyRing
read_key_ring go host name path = do
  contents ← read_secret_bytes host name path key_ring_maximum_bytes
  wire ← strict_json go name go.decode_key_ring key_ring_schema contents
  validate_ring go name wire.version wire.active_key_id wire.keys

-- `n < 1`
abbrev pub is_below_one : ℤ → Bool
is_below_one (pos n) = leb n 0
is_below_one (negsuc n) = true

unfoldable pub read_provider_key_ring : Library → Host → String → Result ProviderKeyRing
read_provider_key_ring go host path = do
  contents ← read_secret_bytes host "MASTER_KEYRING_FILE" path key_ring_maximum_bytes
  wire ← strict_json go "MASTER_KEYRING_FILE" go.decode_provider_key_ring provider_schema contents
  fail_if (is_below_one wire.expected_epoch)
      (reading "MASTER_KEYRING_FILE" "expected_epoch must be a positive signed 64-bit integer")
  ring ← validate_ring go "MASTER_KEYRING_FILE" wire.version wire.active_key_id wire.keys
  ok (record { ring = ring; expected_epoch = wire.expected_epoch })

unfoldable pub read_cloudflare_credentials : Library → Host → String → Result CloudflareCredentials
read_cloudflare_credentials go host path = do
  let name : String = "CLOUDFLARE_TUNNEL_CREDENTIALS_FILE"
  contents ← read_secret_bytes host name path key_ring_maximum_bytes
  credentials ← strict_json go name go.decode_cloudflare cloudflare_schema contents
  fail_if
      (credentials.account_tag == ""
        || credentials.tunnel_secret == ""
        || credentials.tunnel_id == "")
      (reading name "AccountTag, TunnelSecret, and TunnelID are required")
  ok credentials
