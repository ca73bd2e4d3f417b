-- ===== src/Config/Command/Laws.antt =====
-- What the commands of internal/config/cmd accept, and what they leave on the disk.
use mathlib.Core.Path.{subst}
use nexus_relay.Common.{
  ◌≡◌, refl, ◌∙◌, sym, ap, String, Bool, true, false, Option, none, some, List, [], ◌∷◌, ◌==◌,
  if◌then◌else◌, nat_eq, Map, lookup, insert, lookup-insert, HasDistinctKeys, Result, ok, err,
  >>=-eq-ok, eq_iff, arith, Bool-cases, Option-cases, ℕ, inl, inr,
}
use nexus_relay.Common.Ensures.{Ensures, holds, Ensures-ok, Ensures-map, Ensures-eq, ◌≫◌}
use nexus_relay.Config.Command.{
  ValidateFlags, core_settings, insert_all, core_values, with_secret_root, with_cloudflare_root,
  deployment_values, valid_line, validate_deployment, report, positionals, with_flags, Writers,
  GenerateFlags, generated, with_generate_flags, generate,
}
use nexus_relay.Config.DevSecrets.{deployment_secret_files, cloudflare_secret_files}
use nexus_relay.Config.DevSecrets.Laws.{
  resolved_value, resolve_deployment_secret_root-Ensures, resolve_cloudflare_secret_root-Ensures,
}
use nexus_relay.Config.DevSecrets.Generate.{generate_dev_secrets}
use nexus_relay.Config.DevSecrets.Generate.Laws.{IsReady, generate_dev_secrets-IsReady}
use nexus_relay.Config.Disk.{Disk, Os}
use nexus_relay.Config.EnvironmentFile.{read_environment_file}
use nexus_relay.Config.Library.{Library, Host}
use nexus_relay.Config.Processes.{validate_complete}
use nexus_relay.Config.Setting.{Values}

abbrev pub first {ℓ} : {A : Type ℓ} → Option A → Option A → Option A
first none b = b
first (some a) b = some a

lookup-insert_all :
    (fixed : Map String) (v : Values) (name : String)
    → HasDistinctKeys fixed
    → lookup name (insert_all fixed v) ≡ first (lookup name fixed) (lookup name v)
unfolding insert_all lookup
lookup-insert_all [] v name d = refl
lookup-insert_all ((key, text) ∷ fixed) v name (fresh, d) =
    lookup-insert_all fixed (insert key text v) name d
    ∙ ground (arith, fresh, eq_iff key name, lookup-insert key name text v)

core_distinct : HasDistinctKeys core_settings
unfolding lookup
core_distinct = (refl, (refl, (refl, (refl, tt))))

abbrev core_value : Bool → String → Option String
core_value core_only name = if core_only then lookup name core_settings else none

lookup-core_values :
    (core_only : Bool) (v : Values) (name : String)
    → lookup name (core_values core_only v) ≡ first (core_value core_only name) (lookup name v)
lookup-core_values true v name = lookup-insert_all core_settings v name core_distinct
lookup-core_values false v name = refl

-- the path of a setting's file, if a root is given
abbrev rooted_value : Library → String → Map String → String → Option String
rooted_value go root files name = if root == "" then none else elim (lookup name files) [
  | some filename ↦ some (go.join_path root filename)
  | none ↦ none
]

resolved-rooted :
    (go : Library) (root : String) (files : Map String) (v : Values) (name : String)
    → (root == "") ≡ false
    → resolved_value go root files v name ≡ first (rooted_value go root files name) (lookup name v)
resolved-rooted go root files v name given = elim (Option-cases (lookup name files)) [
  | inl missing ↦ ground (arith, given, missing)
  | inr (filename, e) ↦ ground (arith, given, e)
]

not_rooted :
    (go : Library) (root : String) (files : Map String)
    → (root == "") ≡ true
    → (name : String) → rooted_value go root files name ≡ none
not_rooted go root files empty name = rw empty

-- The settings of `v`, with paths in their place.
abbrev Overrides : (String → Option String) → Values → Values → Type 0
Overrides paths v r = (name : String) → lookup name r ≡ first (paths name) (lookup name v)

if_given-Ensures :
    (empty : Bool) (m : Result Values) (paths : String → Option String) (v : Values)
    → (empty ≡ true → (name : String) → paths name ≡ none)
    → (empty ≡ false → Ensures (Overrides paths v) m)
    → Ensures (Overrides paths v) (if empty then ok v else m)
if_given-Ensures true m paths v none_given h = holds (λ name. rw (none_given refl name))
if_given-Ensures false m paths v none_given h = h refl

module _ (go : Library) (host : Host) (root : String) (v : Values) where
  with_secret_root-Ensures :
      Ensures
        (Overrides (rooted_value go root deployment_secret_files) v)
        (with_secret_root go host root v)
  with_secret_root-Ensures =
      if_given-Ensures (root == "") _ _ v (not_rooted go root deployment_secret_files) λ given.
        Ensures-map
          (λ r h name. h name ∙ resolved-rooted go root deployment_secret_files v name given)
          (resolve_deployment_secret_root-Ensures go host v root)

  with_cloudflare_root-Ensures :
      Ensures
        (Overrides (rooted_value go root cloudflare_secret_files) v)
        (with_cloudflare_root go host root v)
  with_cloudflare_root-Ensures =
      if_given-Ensures (root == "") _ _ v (not_rooted go root cloudflare_secret_files) λ given.
        Ensures-map
          (λ r h name. h name ∙ resolved-rooted go root cloudflare_secret_files v name given)
          (resolve_cloudflare_secret_root-Ensures go host v root)

-- The value that a setting of an environment file is validated with: its file under the tunnel's root
-- or the secrets' root, what a validation of the core fixes, or what the environment file gives.
abbrev pub validated_value : Library → ValidateFlags → Values → String → Option String
validated_value go flags given name =
    first (rooted_value go flags.cloudflare_secret_root cloudflare_secret_files name) (
      first (rooted_value go flags.secret_root deployment_secret_files name)
        (first (core_value flags.core_only name) (lookup name given)))

-- Settings that were validated in the place of those of the environment file.
pub record AreValidated (go : Library) (host : Host) (flags : ValidateFlags) (all : Values)
    : Type 0 where
  pub given : Values
  pub read : read_environment_file host flags.environment_file ≡ ok given
  pub values : (name : String) → lookup name all ≡ validated_value go flags given name

deployment_values-Ensures :
    (go : Library) (host : Host) (flags : ValidateFlags)
    → Ensures (AreValidated go host flags) (deployment_values go host flags)
unfolding deployment_values
deployment_values-Ensures go host flags =
    Ensures-eq (read_environment_file host flags.environment_file) ≫ λ given read.
    with_secret_root-Ensures go host flags.secret_root (core_values flags.core_only given)
    ≫ λ rooted h.
        Ensures-map
          (λ all k. record {
            given = given;
            read = read;
            values = λ name.
                k name
                ∙ ap
                    (first
                      (rooted_value go flags.cloudflare_secret_root cloudflare_secret_files name))
                    (h name
                      ∙ ap (first (rooted_value go flags.secret_root deployment_secret_files name))
                          (lookup-core_values flags.core_only given name));
          })
          (with_cloudflare_root-Ensures go host flags.cloudflare_secret_root rooted)

report_valid :
    (r : Result (Unit {0})) → (report r).0 ≡ ok tt → (r ≡ ok tt) × ((report r).1 ≡ valid_line ∷ [])
report_valid (ok tt) h = (refl, refl)
report_valid (err e) h = cc

positional_free : (n : ℕ) (r : Result (Unit {0})) → positionals n r ≡ ok tt → r ≡ ok tt
positional_free n r h = ground arith

-- What validate-deployment calls valid: it says so in its one line, and ValidateComplete accepts the
-- settings of the environment file, with those of the core fixed if only the core is validated and the
-- secret settings pointed to their files under the given roots.
pub validate_deployment-AreValidated :
    (go : Library) (host : Host) (parse : List String → Result ValidateFlags)
    (arguments : List String) {flags : ValidateFlags}
    → parse arguments ≡ ok flags
    → (validate_deployment go host parse arguments).0 ≡ ok tt
    → ((validate_deployment go host parse arguments).1 ≡ valid_line ∷ [])
      × ((all : Values) × AreValidated go host flags all × (validate_complete go host all ≡ ok tt))
unfolding validate_deployment
validate_deployment-AreValidated go host parse arguments {flags} parsed h =
    let (valid, line) = report_valid _ (rw (parsed, with_flags) at h) in
    let (all, accepted, e) =
      >>=-eq-ok (deployment_values go host flags) _ (positional_free _ _ valid) in
    (
      rw (parsed, with_flags) line,
      (all, Ensures-ok (rw e at (deployment_values-Ensures go host flags)), accepted),
    )

generated-IsReady :
    (os : Os) (go : Library) (w : Writers) (directory : String) (start : Disk)
    (r : Result (Unit {0}) × Disk)
    → r ≡ generate_dev_secrets os go directory start
    → (generated w directory r).0 ≡ ok tt
    → IsReady os go directory start (generated w directory r).2
generated-IsReady os go w directory start (ok tt, d) e h =
    subst (λ (x : Result (Unit {0}) × Disk). IsReady os go directory start x.1) (sym e)
      (generate_dev_secrets-IsReady os go directory start
        (ap (λ (x : Result (Unit {0}) × Disk). x.0) (sym e)))
generated-IsReady os go w directory start (err x, d) e h = ground arith

-- When generate-dev-secrets ends without an error, the folder that it was given is ready: it was there
-- and is valid, or it was published from a temporary folder that was validated.
pub generate-IsReady :
    (os : Os) (go : Library) (w : Writers) (parse : List String → Result GenerateFlags)
    (arguments : List String) (start : Disk) {flags : GenerateFlags}
    → parse arguments ≡ ok flags
    → (generate os go w parse arguments start).0 ≡ ok tt
    → IsReady os go flags.output_directory start (generate os go w parse arguments start).2
unfolding generate
generate-IsReady os go w parse arguments start {flags} parsed h =
    elim (Bool-cases (nat_eq flags.positional 0)) [
      | inl alone ↦
          rw (parsed, with_generate_flags, alone)
            (generated-IsReady os go w flags.output_directory start _ refl
              (rw (parsed, with_generate_flags, alone) at h))
      | inr more ↦ let refused = rw (parsed, with_generate_flags, more) at h in ground arith
    ]
