-- ===== src/Config/Secret/Public.antt =====
-- The errors of internal/config/secret.go have the setting's name and a fixed text, and of the file no
-- more than what the scan of its JSON says of a field or of the syntax.
use Prim.Native.String.{len}
use nexus_relay.Common.{
  insert, Map, ℕ, ◌≡◌, refl, String, Bool, true, Option, List, [], ◌∷◌, contains, ltb, Error, plain,
  setting, reading, reading_because, exceeds, Result, ok, err, Bool-cases, inl, inr,
}
use nexus_relay.Common.Rejects.{Rejects, passes, rejects, ◌≫◌, fail_if-Rejects, or_fail-Rejects}
use nexus_relay.Config.Json.{Schema, invalid_json, strict_json}
use nexus_relay.Config.KeyFile.{
  key_ring_schema, provider_schema, read_key_ring, read_provider_key_ring,
}
use nexus_relay.Config.Library.{Library, Host, ℤ, Contents, utf8, not_utf8, Bytes}
use nexus_relay.Config.Secret.{
  key_ring_maximum_bytes, open_protected_file, bounded_text, read_secret_bytes, read_simple_secret,
  read_uri_secret, decode_key, read_base64_key, add_keys, validate_ring,
}

abbrev pub fixed_texts : List String
fixed_texts =
    "must name a secret file" ∷ "secret file is unavailable"
    ∷ "secret file must not be a symbolic link" ∷ "secret file must be a regular file"
    ∷ "secret file must not be group/world accessible" ∷ "secret file changed while opening"
    ∷ "secret file must contain valid UTF-8" ∷ "secret setting name is required"
    ∷ "has an invalid maximum size" ∷ "secret file could not be read"
    ∷ "secret file must not be empty" ∷ "secret file contains unintended surrounding whitespace"
    ∷ "secret contains a control character" ∷ "secret must contain one absolute URI"
    ∷ "URI scheme is not allowed" ∷ "key must be canonical padded base64 for exactly 32 bytes"
    ∷ "key_id is invalid" ∷ "duplicate key_id" ∷ "version must be 1" ∷ "active_key_id is invalid"
    ∷ "keys must not be empty" ∷ "active_key_id must name one key" ∷ "invalid JSON"
    ∷ "trailing JSON value" ∷ "expected_epoch must be a positive signed 64-bit integer"
    ∷ "AccountTag, TunnelSecret, and TunnelID are required" ∷ []

-- An error with a fixed text and no other argument than the name of the setting and the limit of size;
-- for invalid JSON also the error of the scan.
abbrev pub IsPublic : String → ℕ → Error → Type 0
IsPublic name maximum (plain t) = contains t fixed_texts ≡ true
IsPublic name maximum (setting n t) = (n ≡ name) × (contains t fixed_texts ≡ true)
IsPublic name maximum (reading n t) = (n ≡ name) × (contains t fixed_texts ≡ true)
IsPublic name maximum (exceeds n limit) = (n ≡ name) × (limit ≡ maximum)
IsPublic name maximum (reading_because n t _) = (n ≡ name) × (t ≡ "invalid JSON")
IsPublic name maximum _ = ⊥

module _ (name : String) (maximum : ℕ) where
  open_protected_file-Rejects :
      (host : Host) (path : String)
      → Rejects (IsPublic name maximum) (open_protected_file host name path)
  unfolding open_protected_file
  open_protected_file-Rejects host path = fail_if-Rejects _ _ (refl, refl) ≫ λ _.
      or_fail-Rejects _ _ (refl, refl) ≫ λ link. fail_if-Rejects _ _ (refl, refl) ≫ λ _.
      fail_if-Rejects _ _ (refl, refl) ≫ λ _. fail_if-Rejects _ _ (refl, refl) ≫ λ _.
      or_fail-Rejects _ _ (refl, refl) ≫ λ file. fail_if-Rejects _ _ (refl, refl) ≫ λ _. passes

  bounded_text-Rejects :
      (contents : Contents) → Rejects (IsPublic name maximum) (bounded_text name maximum contents)
  unfolding bounded_text
  bounded_text-Rejects (utf8 s) = elim (Bool-cases (ltb maximum (len s))) [
    | inl large ↦ rw large (rejects (refl, refl))
    | inr small ↦ rw small passes
  ]
  bounded_text-Rejects (not_utf8 n) = elim (Bool-cases (ltb maximum n)) [
    | inl large ↦ rw large (rejects (refl, refl))
    | inr small ↦ rw small (rejects (refl, refl))
  ]

  read_secret_bytes-Rejects :
      (host : Host) (path : String)
      → Rejects (IsPublic name maximum) (read_secret_bytes host name path maximum)
  unfolding read_secret_bytes
  read_secret_bytes-Rejects host path = fail_if-Rejects _ _ refl ≫ λ _.
      fail_if-Rejects _ _ (refl, refl) ≫ λ _. open_protected_file-Rejects host path ≫ λ file.
      or_fail-Rejects _ _ (refl, refl) ≫ λ raw. bounded_text-Rejects raw ≫ λ whole.
      fail_if-Rejects _ _ (refl, refl) ≫ λ _. fail_if-Rejects _ _ (refl, refl) ≫ λ _. passes

  read_simple_secret-Rejects :
      (host : Host) (path : String)
      → Rejects (IsPublic name maximum) (read_simple_secret host name path maximum)
  unfolding read_simple_secret
  read_simple_secret-Rejects host path =
      read_secret_bytes-Rejects host path ≫ λ secret. fail_if-Rejects _ _ (refl, refl) ≫ λ _. passes

  read_uri_secret-Rejects :
      (go : Library) (host : Host) (path : String) (schemes : List String)
      → Rejects (IsPublic name maximum) (read_uri_secret go host name path maximum schemes)
  unfolding read_uri_secret
  read_uri_secret-Rejects go host path schemes = read_simple_secret-Rejects host path ≫ λ secret.
      or_fail-Rejects _ _ (refl, refl) ≫ λ url.
      fail_if-Rejects _ _ (refl, refl) ≫ λ _. fail_if-Rejects _ _ (refl, refl) ≫ λ _. passes

  decode_key-Rejects :
      (go : Library) (text : String) → Rejects (IsPublic name maximum) (decode_key go name text)
  unfolding decode_key
  decode_key-Rejects go text =
      or_fail-Rejects _ _ (refl, refl) ≫ λ decoded. fail_if-Rejects _ _ (refl, refl) ≫ λ _. passes

  read_base64_key-Rejects :
      (go : Library) (host : Host) (path : String)
      → Rejects (IsPublic name maximum) (read_base64_key go host name path maximum)
  unfolding read_base64_key
  read_base64_key-Rejects go host path = read_simple_secret-Rejects host path ≫ λ secret.
      decode_key-Rejects go secret ≫ λ decoded. passes

  add_keys-Rejects :
      (go : Library) (entries : List (String × String)) (keys : Map Bytes)
      → Rejects (IsPublic name maximum) (add_keys go name entries keys)
  unfolding add_keys
  add_keys-Rejects go [] keys = passes
  add_keys-Rejects go ((key_id, text) ∷ entries) keys = fail_if-Rejects _ _ (refl, refl) ≫ λ _.
      fail_if-Rejects _ _ (refl, refl) ≫ λ _.
      decode_key-Rejects go text ≫ λ key. add_keys-Rejects go entries (insert key_id key keys)

  validate_ring-Rejects :
      (go : Library) (version : ℤ) (active : String) (entries : List (String × String))
      → Rejects (IsPublic name maximum) (validate_ring go name version active entries)
  unfolding validate_ring
  validate_ring-Rejects go version active entries = fail_if-Rejects _ _ (refl, refl) ≫ λ _.
      fail_if-Rejects _ _ (refl, refl) ≫ λ _. fail_if-Rejects _ _ (refl, refl) ≫ λ _.
      add_keys-Rejects go entries [] ≫ λ keys. fail_if-Rejects _ _ (refl, refl) ≫ λ _. passes

  invalid_json-Rejects :
      {A : Type 0} (m : Result A) → Rejects (IsPublic name maximum) (invalid_json name m)
  invalid_json-Rejects (ok a) = passes
  invalid_json-Rejects (err e) = rejects (refl, refl)

  strict_json-Rejects :
      {A : Type 0} (go : Library) (decode : String → Option (A × Bool)) (schema : Schema)
      (contents : String)
      → Rejects (IsPublic name maximum) (strict_json go name decode schema contents)
  unfolding strict_json
  strict_json-Rejects go decode schema contents = invalid_json-Rejects _ ≫ λ rest.
      fail_if-Rejects _ _ (refl, refl) ≫ λ _.
      or_fail-Rejects _ _ (refl, refl) ≫ λ decoded. fail_if-Rejects _ _ (refl, refl) ≫ λ _. passes

module _ (go : Library) (host : Host) where
  read_key_ring-Rejects :
      (name path : String)
      → Rejects (IsPublic name key_ring_maximum_bytes) (read_key_ring go host name path)
  unfolding read_key_ring
  read_key_ring-Rejects name path =
      read_secret_bytes-Rejects name key_ring_maximum_bytes host path ≫ λ contents.
      strict_json-Rejects name key_ring_maximum_bytes go go.decode_key_ring key_ring_schema contents
      ≫ λ wire.
          validate_ring-Rejects name key_ring_maximum_bytes go wire.version wire.active_key_id
            wire.keys

  read_provider_key_ring-Rejects :
      (path : String)
      → Rejects
          (IsPublic "MASTER_KEYRING_FILE" key_ring_maximum_bytes)
          (read_provider_key_ring go host path)
  unfolding read_provider_key_ring
  read_provider_key_ring-Rejects path =
      let name : String = "MASTER_KEYRING_FILE" in
      read_secret_bytes-Rejects name key_ring_maximum_bytes host path ≫ λ contents.
      strict_json-Rejects name key_ring_maximum_bytes go go.decode_provider_key_ring provider_schema
        contents
      ≫ λ wire. fail_if-Rejects _ _ (refl, refl) ≫ λ _.
          validate_ring-Rejects name key_ring_maximum_bytes go wire.version wire.active_key_id
            wire.keys
          ≫ λ ring. passes

-- Whatever stands in a secret's file, an error of ReadSimpleSecret, ReadURISecret,
-- ReadBase64Key, ReadKeyRing or ReadProviderKeyRing has one of 26 fixed texts, the setting's name and, for a file that is too large, the
-- limit; only invalid JSON adds what the scan says of it.
pub read_errors-IsPublic :
    (go : Library) (host : Host) (name path : String) (maximum : ℕ) (schemes : List String)
    → Rejects (IsPublic name maximum) (read_simple_secret host name path maximum)
      × Rejects (IsPublic name maximum) (read_uri_secret go host name path maximum schemes)
      × Rejects (IsPublic name maximum) (read_base64_key go host name path maximum)
      × Rejects (IsPublic name key_ring_maximum_bytes) (read_key_ring go host name path)
      × Rejects
          (IsPublic "MASTER_KEYRING_FILE" key_ring_maximum_bytes)
          (read_provider_key_ring go host path)
read_errors-IsPublic go host name path maximum schemes = (
  read_simple_secret-Rejects name maximum host path,
  read_uri_secret-Rejects name maximum go host path schemes,
  read_base64_key-Rejects name maximum go host path,
  read_key_ring-Rejects go host name path,
  read_provider_key_ring-Rejects go host path,
)
