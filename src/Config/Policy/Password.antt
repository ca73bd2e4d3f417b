-- ===== src/Config/Policy/Password.antt =====
-- internal/config/config.go: parsePasswordPolicy.
pub mod Bounds
pub mod Defaults
use nexus_relay.Common.{
  ℕ, ◌+◌, ◌*◌, ◌/◌, ◌%◌, ◌^◌, ◌≤◌, ◌<◌, ◌≡◌, refl, List, [], ◌∷◌, String, ◌||◌, arith, ltb, leb,
  ltb→le, leb→lt, plain, Result, ok, fail_if, IsAbsent,
}
use nexus_relay.Common.{◌>>=◌, ◌>>◌}
use nexus_relay.Config.Library.{Library, ReadsDurations}
use nexus_relay.Config.Setting.{
  Values, millisecond, second, minute, hour, duration, integer, int64_value,
}

pub record PasswordPolicy : Type 0 where
  pub argon2_memory_kib : ℕ
  pub argon2_iterations : ℕ
  pub argon2_parallelism : ℕ

unfoldable pub parse_password_policy : Values → Result PasswordPolicy
parse_password_policy v = do
  memory ← integer v "PASSWORD_ARGON2_MEMORY_KIB" 65536 8 (4 * 1024 * 1024)
  iterations ← integer v "PASSWORD_ARGON2_ITERATIONS" 3 1 100
  parallelism ← integer v "PASSWORD_ARGON2_PARALLELISM" 2 1 255
  fail_if (ltb memory (8 * parallelism))
      (plain "PASSWORD_ARGON2_MEMORY_KIB must be at least 8 times PASSWORD_ARGON2_PARALLELISM")
  ok (record {
    argon2_memory_kib = memory % 2 ^ 32;
    argon2_iterations = iterations % 2 ^ 32;
    argon2_parallelism = parallelism % 2 ^ 8;
  })
