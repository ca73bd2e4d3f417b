-- ===== src/Config/Command.antt =====
-- internal/config/cmd: the commands that validate a deployment and generate development secrets. The
-- flags are read by Go's flag package; `positional` is what NArg says is left.
pub mod Laws
use Prim.Native.String.{◌++◌}
use nexus_relay.Common.{
  ℕ, String, Bool, true, false, not, Option, none, some, List, [], ◌∷◌, ◌==◌, if◌then◌else◌, nat_eq,
  Map, insert, Error, plain, setting, Result, ok, err, ◌>>=◌, ◌>>◌,
}
use nexus_relay.Config.DevSecrets.{resolve_deployment_secret_root, resolve_cloudflare_secret_root}
use nexus_relay.Config.DevSecrets.Generate.{generate_dev_secrets}
use nexus_relay.Config.Disk.{Disk, Os}
use nexus_relay.Config.EnvironmentFile.{read_environment_file}
use nexus_relay.Config.Library.{Library, Host}
use nexus_relay.Config.Processes.{validate_complete}
use nexus_relay.Config.Setting.{Values}

-- a line for the output, and a text in front of an error for the other one
pub data Line : Type 0 where
  printed : String → Line
  complained : String → Error → Line

-- validate-deployment/main.go
pub record ValidateFlags : Type 0 where
  pub environment_file : String
  pub secret_root : String
  pub cloudflare_secret_root : String
  pub core_only : Bool
  pub positional : ℕ

abbrev pub core_settings : Map String
core_settings =
    ("ENABLE_CLOUDFLARE_TUNNEL", "false")
    ∷ ("TLS_MODE", "disabled")
    ∷ ("ACME_EMAIL", "")
    ∷ ("ACME_DNS_PROVIDER", "")
    ∷ []

unfoldable pub insert_all : Map String → Values → Values
insert_all [] v = v
insert_all ((name, text) ∷ settings) v = insert_all settings (insert name text v)

abbrev pub core_values : Bool → Values → Values
core_values core_only v = if core_only then insert_all core_settings v else v

abbrev pub with_secret_root : Library → Host → String → Values → Result Values
with_secret_root go host root v =
    if root == "" then ok v else resolve_deployment_secret_root go host v root

abbrev pub with_cloudflare_root : Library → Host → String → Values → Result Values
with_cloudflare_root go host root v =
    if root == "" then ok v else resolve_cloudflare_secret_root go host v root

-- the values that are validated in the end
unfoldable pub deployment_values : Library → Host → ValidateFlags → Result Values
deployment_values go host flags = do
  v ← read_environment_file host flags.environment_file
  rooted ← with_secret_root go host flags.secret_root (core_values flags.core_only v)
  with_cloudflare_root go host flags.cloudflare_secret_root rooted

abbrev pub valid_line : Line
valid_line = printed "deployment configuration valid\n"

abbrev pub report : Result (Unit {0}) → Result (Unit {0}) × List Line
report (err e) = (err e, complained "deployment configuration invalid: " e ∷ [])
report (ok u) = (ok u, valid_line ∷ [])

abbrev pub positionals : ℕ → Result (Unit {0}) → Result (Unit {0})
positionals n later = if nat_eq n 0 then later else err (plain "unexpected positional arguments")

abbrev pub with_flags : Library → Host → Result ValidateFlags → Result (Unit {0}) × List Line
with_flags go host (err e) = (err e, [])
with_flags go host (ok flags) =
    report
      (positionals flags.positional (deployment_values go host flags >>= validate_complete go host))

unfoldable pub validate_deployment :
    Library
    → Host
    → (List String → Result ValidateFlags)
    → List String
    → Result (Unit {0}) × List Line
validate_deployment go host parse arguments = with_flags go host (parse arguments)

-- generate-dev-secrets/main.go
pub record GenerateFlags : Type 0 where
  pub output_directory : String
  pub positional : ℕ

-- errors of writing to the two outputs
pub record Writers : Type 0 where
  pub stdout_error : Option String
  pub stderr_error : Option String

abbrev complain : Writers → Error → Result (Unit {0})
complain w e = elim w.stderr_error [
  | none ↦ err e
  | some x ↦ err (setting "write development secret generation error:" x)
]

abbrev announce : Writers → Result (Unit {0})
announce w = elim w.stdout_error [
  | none ↦ ok tt
  | some x ↦ err (setting "write development secret generation result:" x)
]

abbrev pub generated :
    Writers → String → Result (Unit {0}) × Disk → Result (Unit {0}) × List Line × Disk
generated w directory (err e, d) =
    (complain w e, complained "development secret generation failed: " e ∷ [], d)
generated w directory (ok u, d) =
    (announce w, printed ("development secret inventory ready at " ++ directory ++ "\n") ∷ [], d)

abbrev pub with_generate_flags :
    Os → Library → Writers → Result GenerateFlags → Disk → Result (Unit {0}) × List Line × Disk
with_generate_flags os go w (err e) d = (err e, [], d)
with_generate_flags os go w (ok flags) d = generated w flags.output_directory (
    if nat_eq flags.positional 0
    then generate_dev_secrets os go flags.output_directory d
    else (err (plain "unexpected positional arguments"), d))

unfoldable pub generate :
    Os
    → Library
    → Writers
    → (List String → Result GenerateFlags)
    → List String
    → Disk
    → Result (Unit {0}) × List Line × Disk
generate os go w parse arguments d = with_generate_flags os go w (parse arguments) d
