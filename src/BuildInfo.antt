-- ===== src/BuildInfo.antt =====
-- internal/buildinfo/buildinfo.go: the version that a build sets, and the argument that prints it.
use Prim.Native.String.{◌++◌}
use nexus_relay.Common.{String, Option, none, some, List, [], ◌∷◌, ◌==◌, ◌||◌, if◌then◌else◌}

-- Version and Revision, which the build may set
pub record Build : Type 0 where
  pub version : String
  pub revision : String

abbrev pub default_build : Build
default_build = record { version = "dev"; revision = "unknown" }

unfoldable pub get_version : Build → String
get_version b = if b.version == "" then default_build.version else b.version

unfoldable pub get_revision : Build → String
get_revision b = if b.revision == "" then default_build.revision else b.revision

-- the line that is written, if the arguments ask for it
unfoldable pub write_version : Build → List String → String → Option String
unfolding get_version get_revision
write_version b (argument ∷ []) name =
    if argument == "-v" || argument == "--version" || argument == "version"
    then some (name ++ " " ++ get_version b ++ " (revision " ++ get_revision b ++ ")\n")
    else none
write_version b _ name = none
