-- ===== src/Config/DevSecrets/Laws.antt =====
-- Where the settings point that internal/config/devsecrets.go resolves.
use nexus_relay.Common.{
  ◌∙◌, ◌≡◌, refl, String, Option, none, some, [], ◌∷◌, Map, lookup, insert, lookup-insert,
  HasDistinctKeys, ok, eq_iff, arith,
}
use nexus_relay.Common.Ensures.{
  Ensures, holds, Ensures-ok, Ensures-map, Ensures-trivial, ◌≫◌, or_fail-Ensures, fail_if-Ensures,
}
use nexus_relay.Config.Library.{Library, Host}
use nexus_relay.Config.Secret.{validate_protected_file}
use nexus_relay.Config.Setting.{Values}
use nexus_relay.Config.DevSecrets.{
  deployment_secret_files, validate_dev_secrets, resolve_files, resolve_deployment_secret_root,
  resolve_protected_files, resolve_cloudflare_secret_root, cloudflare_secret_files,
}

-- A setting with a file points to the file under the root; another one keeps its value.
abbrev pub resolved_value : Library → String → Map String → Values → String → Option String
resolved_value go root files v name = elim (lookup name files) [
  | some filename ↦ some (go.join_path root filename)
  | none ↦ lookup name v
]

resolved_further :
    (go : Library) (root key filename : String) (files : Map String) (v : Values) (name : String)
    → lookup key files ≡ none
    → resolved_value go root files (insert key (go.join_path root filename) v) name
      ≡ resolved_value go root ((key, filename) ∷ files) v name
unfolding lookup
resolved_further go root key filename files v name fresh =
    ground (arith, fresh, eq_iff key name, lookup-insert key name (go.join_path root filename) v)

unresolved :
    (go : Library) (root : String) (v : Values) (name : String)
    → lookup name v ≡ resolved_value go root [] v name
unfolding lookup
unresolved go root v name = refl

resolve_files-Ensures :
    (go : Library) (root : String) (files : Map String) (v : Values)
    → HasDistinctKeys files
    → Ensures
        (λ r. (name : String) → lookup name r ≡ resolved_value go root files v name)
        (resolve_files go root files v)
unfolding resolve_files
resolve_files-Ensures go root [] v d = holds (unresolved go root v)
resolve_files-Ensures go root ((key, filename) ∷ files) v (fresh, d) = fail_if-Ensures _ _ ≫ λ _ _.
    Ensures-map (λ r h name. h name ∙ resolved_further go root key filename files v name fresh)
      (resolve_files-Ensures go root files (insert key (go.join_path root filename) v) d)

deployment_files_distinct : HasDistinctKeys deployment_secret_files
unfolding lookup
deployment_files_distinct =
    (refl, (refl, (refl, (refl, (refl, (refl, (refl, (refl, (refl, (refl, (refl, tt)))))))))))

pub resolve_deployment_secret_root-Ensures :
    (go : Library) (host : Host) (v : Values) (root : String)
    → Ensures
        (λ r.
          (name : String) → lookup name r ≡ resolved_value go root deployment_secret_files v name)
        (resolve_deployment_secret_root go host v root)
unfolding resolve_deployment_secret_root
resolve_deployment_secret_root-Ensures go host v root =
    Ensures-trivial (validate_dev_secrets go host root) ≫ λ _ _.
    resolve_files-Ensures go root deployment_secret_files v deployment_files_distinct

-- When a secret root is accepted, each of the eleven secret settings of a deployment points to its
-- file in the root, and every other setting keeps its value.
pub resolve_deployment_secret_root_value :
    (go : Library) (host : Host) (v : Values) (root : String) {r : Values} (name : String)
    → resolve_deployment_secret_root go host v root ≡ ok r
    → lookup name r ≡ resolved_value go root deployment_secret_files v name
resolve_deployment_secret_root_value go host v root name h =
    Ensures-ok (rw h at (resolve_deployment_secret_root-Ensures go host v root)) name

resolve_protected_files-Ensures :
    (go : Library) (host : Host) (root : String) (files : Map String) (v : Values)
    → HasDistinctKeys files
    → Ensures
        (λ r. (name : String) → lookup name r ≡ resolved_value go root files v name)
        (resolve_protected_files go host root files v)
unfolding resolve_protected_files
resolve_protected_files-Ensures go host root [] v d = holds (unresolved go root v)
resolve_protected_files-Ensures go host root ((key, filename) ∷ files) v (fresh, d) =
    fail_if-Ensures _ _ ≫ λ _ _. Ensures-trivial (validate_protected_file host key _) ≫ λ _ _.
    Ensures-map (λ r h name. h name ∙ resolved_further go root key filename files v name fresh)
      (resolve_protected_files-Ensures go host root files
        (insert key (go.join_path root filename) v) d)

cloudflare_files_distinct : HasDistinctKeys cloudflare_secret_files
unfolding lookup
cloudflare_files_distinct = (refl, (refl, tt))

pub resolve_cloudflare_secret_root-Ensures :
    (go : Library) (host : Host) (v : Values) (root : String)
    → Ensures
        (λ r.
          (name : String) → lookup name r ≡ resolved_value go root cloudflare_secret_files v name)
        (resolve_cloudflare_secret_root go host v root)
unfolding resolve_cloudflare_secret_root
resolve_cloudflare_secret_root-Ensures go host v root = fail_if-Ensures _ _ ≫ λ _ _.
    fail_if-Ensures _ _ ≫ λ _ _. fail_if-Ensures _ _ ≫ λ _ _. or_fail-Ensures _ _ ≫ λ entries _.
    fail_if-Ensures _ _ ≫ λ _ _.
    resolve_protected_files-Ensures go host root cloudflare_secret_files v cloudflare_files_distinct
