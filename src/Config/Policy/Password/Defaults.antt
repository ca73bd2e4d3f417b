-- ===== src/Config/Policy/Password/Defaults.antt =====
-- The defaults of parsePasswordPolicy in internal/config/config.go.
use nexus_relay.Common.{◌≡◌, refl, List, [], ◌∷◌, String, arith, ok, IsAbsent}
use nexus_relay.Common.Succeeds.{Succeeds, succeeds, Succeeds-ok, ◌≫◌, fail_if-Succeeds}
use nexus_relay.Config.Setting.{Values}
use nexus_relay.Config.Setting.Laws.{absent_integer}
use nexus_relay.Config.Policy.Password.{PasswordPolicy, parse_password_policy}

abbrev pub password_settings : List String
password_settings =
    "PASSWORD_ARGON2_MEMORY_KIB" ∷ "PASSWORD_ARGON2_ITERATIONS" ∷ "PASSWORD_ARGON2_PARALLELISM" ∷ []

abbrev pub default_password : PasswordPolicy
default_password = record {
  argon2_memory_kib = 65536;
  argon2_iterations = 3;
  argon2_parallelism = 2;
}

password_default-Succeeds :
    (v : Values)
    → IsAbsent v password_settings
    → Succeeds (λ p. p ≡ default_password) (parse_password_policy v)
unfolding parse_password_policy
password_default-Succeeds v a =
    absent_integer a "PASSWORD_ARGON2_MEMORY_KIB" refl (omega arith) ≫ λ memory e0.
    absent_integer a "PASSWORD_ARGON2_ITERATIONS" refl (omega arith) ≫ λ iterations e1.
    absent_integer a "PASSWORD_ARGON2_PARALLELISM" refl (omega arith) ≫ λ parallelism e2.
    fail_if-Succeeds _ _ (ground arith) ≫ λ _ _. succeeds (ground arith)

-- Where none of the password settings is given, the defaults are accepted.
pub parse_password_policy_default :
    (v : Values) → IsAbsent v password_settings → parse_password_policy v ≡ ok default_password
parse_password_policy_default v a =
    let (p, e, same) = Succeeds-ok (password_default-Succeeds v a) in rw e (rw same)
