-- ===== src/Apps/Bootstrap.antt =====
-- apps/bootstrap/main.go: the command that is to create the first owner.
use mathlib.Core.Path.{subst}
use nexus_relay.BuildInfo.{Build, write_version}
use nexus_relay.Common.{
  ◌≡◌, sym, ◌↔◌, refl, String, Bool, true, ◌||◌, Option, none, some, List, [], ◌∷◌, ◌==◌, Error,
  plain, setting, ℕ, if◌then◌else◌, arith, any,
}

abbrev pub usage : List String
usage =
    "Usage: nexusrelay-bootstrap <command>\n" ∷ "\n" ∷ "Commands:\n"
    ∷ "  owner     Reserved initial-owner bootstrap command (not implemented)\n"
    ∷ "  help      Show this help\n" ∷ "  version   Show the binary version\n" ∷ []

-- what is written to the output, and the error
abbrev Ending : Type 0
Ending = List String × Option Error

abbrev pub not_implemented : Error
not_implemented = plain "owner bootstrap is reserved for Phase 4 and is not implemented"

-- the last argument of the error stands in quotes there
abbrev without_command : List String → Ending
without_command [] = (usage, some (plain "a bootstrap command is required"))
without_command (argument ∷ _) = (usage, some (setting "unknown bootstrap command" argument))

abbrev one_argument : String → Ending
one_argument argument =
    if argument == "-h" || argument == "--help" || argument == "help"
    then (usage, none)
    else if argument == "owner"
    then ([], some not_implemented)
    else without_command (argument ∷ [])

abbrev command : List String → Ending
command (argument ∷ []) = one_argument argument
command arguments = without_command arguments

abbrev after_version : Option String → List String → Ending
after_version (some line) arguments = (line ∷ [], none)
after_version none arguments = command arguments

unfoldable pub run : Build → List String → Ending
run build arguments = after_version (write_version build arguments "nexusrelay-bootstrap") arguments

-- main: the exit status; the error is logged
abbrev pub status : Ending → ℕ
status (lines, none) = 0
status (lines, some e) = 1

-- an argument that asks for the version or for help
abbrev pub is_asked : String → Bool
is_asked argument =
    any (λ known. argument == known)
      ("-v" ∷ "--version" ∷ "version" ∷ "-h" ∷ "--help" ∷ "help" ∷ [])

same_head {ℓ} : {A : Type ℓ} {a b : A} → (a ∷ []) ≡ (b ∷ []) → a ≡ b
same_head e = cc

asked :
    (build : Build) (argument : String)
    → is_asked argument ≡ true
    → status (run build (argument ∷ [])) ≡ 0
unfolding run write_version
asked build argument h = ground arith

-- The bootstrap command ends with status 0 exactly for one argument that asks for the version or for
-- help: whatever else it is given, the reserved command included, it fails.
pub status-run_iff :
    (build : Build) (arguments : List String)
    → (status (run build arguments) ≡ 0)
      ↔ ((argument : String) × (arguments ≡ argument ∷ []) × (is_asked argument ≡ true))
unfolding run write_version
status-run_iff build [] = (λ h. ground arith, λ (argument, e, k). cc)
status-run_iff build (a ∷ b ∷ rest) = (λ h. ground arith, λ (argument, e, k). cc)
status-run_iff build (a ∷ []) = (
  λ h. (a, refl, ground arith),
  λ (argument, e, k). asked build a (subst (λ x. is_asked x ≡ true) (sym (same_head e)) k),
)
