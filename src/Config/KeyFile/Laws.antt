-- ===== src/Config/KeyFile/Laws.antt =====
-- What the key rings of internal/config/secret.go are that were read from files.
use nexus_relay.Common.{
  ℕ, ◌*◌, ◌+◌, ◌≤◌, ◌≡◌, refl, String, Bool, true, false, List, [], ◌∷◌, Option, some, not, length,
  Result, ok, err, arith,
}
use nexus_relay.Common.Ensures.{
  Ensures, holds, fails, Ensures-ok, Ensures-map, ◌≫◌, fail_if-Ensures, or_fail-Ensures,
}
use nexus_relay.Config.Json.{Schema, value, scan, invalid_json, strict_json, no_tokens}
use nexus_relay.Config.Library.{Library, Host, Token, ℤ, pos, negsuc}
use nexus_relay.Config.Secret.{KeyRing, key_ring_maximum_bytes}
use nexus_relay.Config.Secret.Protected.{IsSecretOf, read_secret_bytes-Ensures}
use nexus_relay.Config.Secret.Ring.{IsKeyRing, validate_ring-Ensures}
use nexus_relay.Config.KeyFile.{
  ProviderKeyRing, read_provider_key_ring, read_key_ring, provider_schema, key_ring_schema,
  is_below_one,
}

-- The tokens of the text are those that the scan takes up to the end.
abbrev pub IsScanned : Library → Schema → String → Type 0
IsScanned go schema contents =
    scan (2 * length (go.json_tokens contents) + 1) (value schema) (go.json_tokens contents) ≡ ok []

invalid_json-Ensures {ℓ} :
    {A : Type ℓ} (name : String) (m : Result A) → Ensures (λ a. m ≡ ok a) (invalid_json name m)
invalid_json-Ensures name (ok a) = holds refl
invalid_json-Ensures name (err e) = fails

all_taken :
    (m : Result (List Token)) (rest : List Token) → m ≡ ok rest → no_tokens rest ≡ true → m ≡ ok []
all_taken m [] e h = e
all_taken m (t ∷ rest) e h = cc

whole_text {ℓ} :
    {A : Type ℓ} (decode : String → Option (A × Bool)) (contents : String) (decoded : A × Bool)
    → decode contents ≡ some decoded
    → not decoded.1 ≡ false
    → decode contents ≡ some (decoded.0, true)
whole_text decode contents (a, true) found h = found
whole_text decode contents (a, false) found h = cc

pub strict_json-Ensures {ℓ} :
    {A : Type ℓ} (go : Library) (name : String) (decode : String → Option (A × Bool))
    (schema : Schema) (contents : String)
    → Ensures
        (λ a. IsScanned go schema contents × (decode contents ≡ some (a, true)))
        (strict_json go name decode schema contents)
unfolding strict_json
strict_json-Ensures go name decode schema contents = invalid_json-Ensures name _ ≫ λ rest scanned.
    fail_if-Ensures _ _ ≫ λ _ ended. or_fail-Ensures _ _ ≫ λ decoded found.
    fail_if-Ensures _ _ ≫ λ _ alone.
    holds (all_taken _ rest scanned (ground arith), whole_text decode contents decoded found alone)

-- A ring from a file.
pub record IsRingFile (go : Library) (host : Host) (schema : Schema) (path : String)
    (ring : KeyRing) : Type 0 where
  pub contents : String
  pub secret : IsSecretOf host path key_ring_maximum_bytes contents
  pub scanned : IsScanned go schema contents
  pub keys : IsKeyRing go ring

pub read_key_ring-Ensures :
    (go : Library) (host : Host) (name path : String)
    → Ensures (IsRingFile go host key_ring_schema path) (read_key_ring go host name path)
unfolding read_key_ring
read_key_ring-Ensures go host name path =
    read_secret_bytes-Ensures host name path _ ≫ λ contents secret.
    strict_json-Ensures go name go.decode_key_ring key_ring_schema contents ≫ λ wire scanned.
    Ensures-map
      (λ ring keys. record {
        contents = contents;
        secret = secret;
        scanned = scanned.0;
        keys = keys;
      })
      (validate_ring-Ensures go name wire.version wire.active_key_id wire.keys)

-- A key ring that is read comes from a protected file whose JSON has only the ring's fields, none of
-- them twice, and nothing behind them, and its keys are sound.
pub read_key_ring-IsRingFile :
    (go : Library) (host : Host) (name path : String) {ring : KeyRing}
    → read_key_ring go host name path ≡ ok ring
    → IsRingFile go host key_ring_schema path ring
read_key_ring-IsRingFile go host name path h =
    Ensures-ok (rw h at (read_key_ring-Ensures go host name path))

positive_epoch : (epoch : ℤ) → is_below_one epoch ≡ false → (n : ℕ) × (epoch ≡ pos n) × (1 ≤ n)
positive_epoch (pos n) h = (n, refl, ground arith)
positive_epoch (negsuc n) h = cc

pub read_provider_key_ring-Ensures :
    (go : Library) (host : Host) (path : String)
    → Ensures
        (λ r.
          IsRingFile go host provider_schema path r.ring
          × ((n : ℕ) × (r.expected_epoch ≡ pos n) × (1 ≤ n)))
        (read_provider_key_ring go host path)
unfolding read_provider_key_ring
read_provider_key_ring-Ensures go host path =
    read_secret_bytes-Ensures host _ path _ ≫ λ contents secret.
    strict_json-Ensures go _ go.decode_provider_key_ring provider_schema contents ≫ λ wire scanned.
    fail_if-Ensures _ _ ≫ λ _ epoch.
    validate_ring-Ensures go _ wire.version wire.active_key_id wire.keys ≫ λ ring keys.
    holds {a = record { ring = ring; expected_epoch = wire.expected_epoch }} (
      record { contents = contents; secret = secret; scanned = scanned.0; keys = keys },
      positive_epoch wire.expected_epoch epoch,
    )

-- The provider's key ring that is read is sound in the same way, and expects a positive epoch.
pub read_provider_key_ring-IsRingFile :
    (go : Library) (host : Host) (path : String) {r : ProviderKeyRing}
    → read_provider_key_ring go host path ≡ ok r
    → IsRingFile go host provider_schema path r.ring
      × ((n : ℕ) × (r.expected_epoch ≡ pos n) × (1 ≤ n))
read_provider_key_ring-IsRingFile go host path h =
    Ensures-ok (rw h at (read_provider_key_ring-Ensures go host path))
