-- ===== src/Tests/Secrets.antt =====
-- Runs of internal/config/secret.go.
use nexus_relay.Common.{
  err, exceeds, ◌≡◌, refl, false, [], ◌∷◌, ok, fail_if, or_fail, lookup, insert,
}
use nexus_relay.Common.Text.{trim_space, is_control, any_code}
use nexus_relay.Config.Library.{pos}
use nexus_relay.Common.Rejects.{Rejects}
use nexus_relay.Config.KeyFile.{read_key_ring, read_provider_key_ring}
use nexus_relay.Config.Secret.Public.{IsPublic, read_errors-IsPublic}
use nexus_relay.Config.Secret.{
  read_uri_secret, read_base64_key, key_ring_maximum_bytes, read_simple_secret, read_secret_bytes,
  open_protected_file, bounded_text, strip_line_end, KeyRing, is_key_id, decode_key, add_keys,
  validate_ring,
}
use nexus_relay.Config.Secret.Protected.{IsSecretOf, read_simple_secret-IsSecretOf}
use nexus_relay.Config.Secret.Ring.{AreDecoded, IsKeyRing, validate_ring-IsKeyRing}
use nexus_relay.Tests.Example.{example, secret_host, zeros, zeros_text}

secret_read :
    read_simple_secret secret_host "REDIS_PASSWORD_FILE" "/run/secrets/redis_password" 4096
    ≡ ok "hunter2"
unfolding read_simple_secret read_secret_bytes open_protected_file bounded_text strip_line_end
    fail_if or_fail trim_space is_control
secret_read = refl

secret_protected :
    IsSecretOf secret_host "/run/secrets/redis_password" 4096 "hunter2"
    × (any_code is_control "hunter2" ≡ false)
secret_protected =
    read_simple_secret-IsSecretOf secret_host "REDIS_PASSWORD_FILE" "/run/secrets/redis_password"
      4096 secret_read

abbrev ring : KeyRing
ring = record { active_key_id = "2024-01"; keys = ("2024-01", zeros) ∷ [] }

ring_read :
    validate_ring example "API_KEY_PEPPER_RING_FILE"
      (pos 1)
      "2024-01"
      (("2024-01", zeros_text) ∷ [])
    ≡ ok ring
unfolding validate_ring add_keys decode_key is_key_id fail_if or_fail lookup insert
ring_read = refl

ring_sound : IsKeyRing example ring × AreDecoded example (("2024-01", zeros_text) ∷ []) ring.keys
ring_sound =
    validate_ring-IsKeyRing example "API_KEY_PEPPER_RING_FILE" (pos 1) "2024-01"
      (("2024-01", zeros_text) ∷ []) ring_read

read_errors-IsPublic_example :
    Rejects (IsPublic "A" 4) (read_simple_secret secret_host "A" "/a" 4)
    × Rejects (IsPublic "A" 4) (read_uri_secret example secret_host "A" "/a" 4 ("redis" ∷ []))
    × Rejects (IsPublic "A" 4) (read_base64_key example secret_host "A" "/a" 4)
    × Rejects (IsPublic "A" key_ring_maximum_bytes) (read_key_ring example secret_host "A" "/a")
    × Rejects
        (IsPublic "MASTER_KEYRING_FILE" key_ring_maximum_bytes)
        (read_provider_key_ring example secret_host "/a")
read_errors-IsPublic_example = read_errors-IsPublic example secret_host "A" "/a" 4 ("redis" ∷ [])

-- hunter2 has more than four bytes, and is not in the error
too_large : read_simple_secret secret_host "A" "/a" 4 ≡ err (exceeds "A" 4)
unfolding read_simple_secret read_secret_bytes open_protected_file bounded_text fail_if or_fail
too_large = refl
