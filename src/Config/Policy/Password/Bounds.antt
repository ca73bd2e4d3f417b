-- ===== src/Config/Policy/Password/Bounds.antt =====
-- What parsePasswordPolicy of internal/config/config.go accepts.
use nexus_relay.Common.{◌*◌, ◌≤◌, ◌≡◌, arith, ltb→le, ok}
use nexus_relay.Common.Ensures.{Ensures, holds, Ensures-ok, ◌≫◌, fail_if-Ensures}
use nexus_relay.Config.Setting.{Values}
use nexus_relay.Config.Setting.Laws.{IsBetween, integer-IsBetween}
use nexus_relay.Config.Policy.Password.{PasswordPolicy, parse_password_policy}

pub record IsPasswordPolicy (p : PasswordPolicy) : Type 0 where
  pub argon2_memory_kib : IsBetween 8 (4 * 1024 * 1024) p.argon2_memory_kib
  pub argon2_iterations : IsBetween 1 100 p.argon2_iterations
  pub argon2_parallelism : IsBetween 1 255 p.argon2_parallelism
  pub memory_per_lane : (8 * p.argon2_parallelism) ≤ p.argon2_memory_kib

pub password-Ensures : (v : Values) → Ensures IsPasswordPolicy (parse_password_policy v)
unfolding parse_password_policy
password-Ensures v = integer-IsBetween v _ _ _ _ ≫ λ memory h0.
    integer-IsBetween v _ _ _ _ ≫ λ iterations h1. integer-IsBetween v _ _ _ _ ≫ λ parallelism h2.
    fail_if-Ensures _ _ ≫ λ _ g0. holds (omega (arith, ltb→le memory (8 * parallelism) g0))

-- An accepted password policy lies within its bounds, each lane has at least 8 KiB of memory, and the
-- conversions to 32 and 8 bits keep it there.
pub parse_password_policy-IsPasswordPolicy :
    (v : Values) {p : PasswordPolicy} → parse_password_policy v ≡ ok p → IsPasswordPolicy p
parse_password_policy-IsPasswordPolicy v h = Ensures-ok (rw h at (password-Ensures v))
