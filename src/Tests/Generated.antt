-- ===== src/Tests/Generated.antt =====
-- A run of GenerateDevSecrets of internal/config/devsecrets.go on a disk with one folder.
use Prim.Native.String.{◌++◌}
use nexus_relay.Common.{
  ◌≡◌, refl, String, true, false, Option, none, some, List, [], ◌∷◌, ◌==◌, if◌then◌else◌, Map,
  nat_eq, Bool, Result, lookup, insert, is_some, ok, fail_if, or_fail,
}
use nexus_relay.Common.Text.{trim_space, is_control}
use nexus_relay.Config.Connection.{is_redis_password}
use nexus_relay.Config.DevSecrets.{
  dev_secret_files, validate_dev_secrets, check_files, check_database_passwords, check_redis,
}
use nexus_relay.Config.DevSecrets.Generate.{
  generate_dev_secrets, create, build, publish, move_files, fill, validated, write_passwords,
  write_rings, write_new_secret, write_json_secret, random_base64, random_base64url,
}
use nexus_relay.Config.DevSecrets.Generate.Laws.{
  IsReady, generate_dev_secrets_keeps, generate_dev_secrets_others, generate_dev_secrets-IsReady,
}
use nexus_relay.Config.Disk.{
  File, Folder, Disk, Os, rename, mkdir, chmod, create_file, write_file, close_file, rename_file,
  remove_folder, remove_tree, erase, Call,
}
use nexus_relay.Config.Json.{scan, strict_json}
use nexus_relay.Config.KeyFile.{read_key_ring, read_provider_key_ring}
use nexus_relay.Config.Library.{Bytes, Library, FileInfo, regular, directory, Host, utf8}
use nexus_relay.Config.Secret.{
  read_simple_secret, read_uri_secret, read_base64_key, read_secret_bytes, open_protected_file,
  bounded_text, strip_line_end, decode_key, is_key_id, add_keys, validate_ring,
}
use nexus_relay.Tests.Deployed.{deployed, redis_password}
use nexus_relay.Tests.Example.{strokes}

abbrev joined : String → String → String
joined root name = root ++ "/" ++ name

abbrev writing : Library
writing = record deployed { join_path = joined; url_string = λ _. "redis url" }

abbrev first {ℓ} : {A : Type ℓ} → Option A → Option A → Option A
first none b = b
first (some a) b = some a

-- the file that a path names
abbrev in_files : String → String → Map File → Option File
in_files path root [] = none
in_files path root ((name, file) ∷ files) =
    let rest = in_files path root files in if joined root name == path then some file else rest

abbrev file_at : String → Disk → Option File
file_at path [] = none
file_at path ((root, folder) ∷ disk) = first (in_files path root folder.files) (file_at path disk)

abbrev file_info : File → FileInfo
file_info file = record { kind = regular; perm = file.perm; identity = 7 }

abbrev folder_info : Folder → FileInfo
folder_info folder = record { kind = directory; perm = folder.perm; identity = 8 }

abbrev some_of {ℓ κ} : {A : Type ℓ} {B : Type κ} → (A → B) → Option A → Option B
some_of f none = none
some_of f (some a) = some (f a)

-- the names in a folder, in order; no other names occur here
abbrev names_in : Map File → List String → List String
unfolding lookup
names_in files [] = []
names_in files (name ∷ names) =
    let rest = names_in files names in if is_some (lookup name files) then name ∷ rest else rest

abbrev host_of : Disk → Host
unfolding lookup
host_of disk = record {
  lstat = λ path.
      first (some_of folder_info (lookup path disk)) (some_of file_info (file_at path disk));
  stat = λ path.
      first (some_of folder_info (lookup path disk)) (some_of file_info (file_at path disk));
  open_file = λ path.
      some_of
        (λ file. record {
          info = some (file_info file);
          contents = some (utf8 file.contents);
          close_error = none;
        })
        (file_at path disk);
  read_dir = λ path. some_of (λ folder. names_in folder.files dev_secret_files) (lookup path disk);
  is_windows = false;
}

-- each file has its own random bytes
abbrev draw : String → Bytes
draw name =
    if name == "redis_password"
    then 0 ∷ []
    else if name == "postgres_migration_password"
    then 1 ∷ []
    else if name == "postgres_gateway_password"
    then 2 ∷ []
    else if name == "postgres_control_plane_password"
    then 3 ∷ []
    else if name == "postgres_worker_password"
    then 4 ∷ []
    else 5 ∷ []

abbrev shown : Bytes → String
shown [] = ""
shown (n ∷ _) = if nat_eq n 0 then redis_password else strokes n

abbrev system : (Call → Bool) → Os
unfolding lookup
system fails = record {
  view = host_of;
  is_missing = λ disk path. true;
  parent = λ _. "work";
  temporary = λ _ parent. parent ++ "/.nexusrelay-dev-secrets-1";
  masked = λ mode. mode;
  random = λ name. some (draw name);
  encode_base64url = shown;
  marshal_ring = λ _. some "key ring";
  marshal_provider_ring = λ _. some "provider ring";
  fails = fails;
}

abbrev work : Disk
work =
    (
      "work",
      record { perm = 0x1ed; files = ("notes", record { perm = 0x1a4; contents = "n" }) ∷ [] },
    )
    ∷ []

-- a rename that fails halfway
abbrev halfway : Call → Bool
halfway (rename name) = name == "redis_url"
halfway _ = false

abbrev generated : (Call → Bool) → Result (Unit {0}) × Disk
unfolding lookup
generated fails = generate_dev_secrets (system fails) writing "work/.local-secrets" work

generated_accepted : (generated (λ _. false)).0 ≡ ok tt
unfolding generate_dev_secrets create build publish move_files fill validated write_passwords
    write_rings write_new_secret write_json_secret random_base64 random_base64url mkdir chmod
    create_file write_file close_file rename_file remove_folder remove_tree erase
    validate_dev_secrets check_files check_database_passwords check_redis is_redis_password
    read_uri_secret read_provider_key_ring read_key_ring read_base64_key strict_json scan
    validate_ring add_keys decode_key is_key_id read_simple_secret read_secret_bytes
    open_protected_file bounded_text strip_line_end lookup insert trim_space is_control fail_if
    or_fail strokes
generated_accepted = refl

generate_dev_secrets-IsReady_example :
    IsReady (system (λ _. false)) writing "work/.local-secrets" work (generated (λ _. false)).1
unfolding generated
generate_dev_secrets-IsReady_example =
    generate_dev_secrets-IsReady (system (λ _. false)) writing "work/.local-secrets" work
      generated_accepted

work_present : is_some (lookup "work" work) ≡ true
unfolding lookup
work_present = refl

generate_dev_secrets_keeps_example :
    lookup "work" (generate_dev_secrets (system halfway) writing "work/.local-secrets" work).1
    ≡ lookup "work" work
generate_dev_secrets_keeps_example =
    generate_dev_secrets_keeps (system halfway) writing "work/.local-secrets" work "work"
      work_present

-- the temporary folder
generate_dev_secrets_others_example :
    lookup "work/.nexusrelay-dev-secrets-1"
      (generate_dev_secrets (system halfway) writing "work/.local-secrets" work).1
    ≡ lookup "work/.nexusrelay-dev-secrets-1" work
unfolding system
generate_dev_secrets_others_example =
    generate_dev_secrets_others (system halfway) writing "work/.local-secrets" work
      "work/.nexusrelay-dev-secrets-1" refl refl
