-- ===== src/Config/DevSecrets/Generate.antt =====
-- GenerateDevSecrets of internal/config/devsecrets.go. A temporary folder is filled and validated,
-- then published by moving its files; what is left of it after an error is removed.
pub mod Filling
pub mod Laws
pub mod Published
use nexus_relay.Common.{
  String, Bool, true, false, not, ◌&&◌, Option, none, some, List, [], ◌∷◌, ◌==◌, Map, lookup,
  is_some, Error, plain, wrapped, Result, ok, err, fail_if, or_fail,
}
use nexus_relay.Config.DevSecrets.{dev_secret_files, is_directory, validate_dev_secrets}
use nexus_relay.Config.Disk.{
  Disk, Os, Action, pure, ◌>>=◌, ◌>>◌, reads, make_temp, make_folder, mkdir, chmod, create_file,
  write_file, close_file, rename_file, remove_folder, remove_tree,
}
use nexus_relay.Config.Library.{Library, RingWire, UserInfo, Url, pos}

module _ (os : Os) (go : Library) where
  unfoldable pub write_new_secret : String → String → String → Action (Unit {0})
  write_new_secret directory name contents = do
    create_file os directory name 0x180 "create development secret file: unavailable"
    write_file os directory name 0x180 contents "write development secret file: unavailable"
    close_file os name "close development secret file: unavailable"

  unfoldable pub random_base64url : String → Result String
  random_base64url name = elim (os.random name) [
    | none ↦ err (plain "generate development secret: secure randomness unavailable")
    | some bytes ↦ ok (os.encode_base64url bytes)
  ]

  unfoldable pub random_base64 : String → Result String
  random_base64 name = elim (os.random name) [
    | none ↦ err (plain "generate development key: secure randomness unavailable")
    | some bytes ↦ ok (go.encode_base64 bytes)
  ]

  unfoldable pub write_json_secret : String → String → Option String → Action (Unit {0})
  write_json_secret directory name contents = do
    text ← reads (λ _. or_fail contents (plain "encode development key ring"))
    write_new_secret directory name text

  abbrev pub password_files : List String
  password_files =
      "postgres_cluster_admin_password" ∷ "postgres_migration_password"
      ∷ "postgres_gateway_password" ∷ "postgres_control_plane_password" ∷ "postgres_worker_password"
      ∷ "redis_password" ∷ []

  -- the last password, which is that of Redis, goes on
  unfoldable pub write_passwords : String → List String → String → Action String
  write_passwords temporary [] latest = pure latest
  write_passwords temporary (name ∷ names) latest = do
    value ← reads (λ _. random_base64url name)
    write_new_secret temporary name value
    write_passwords temporary names value

  -- {Scheme: "redis", Host: "redis:6379", Path: "/0", User: url.UserPassword("", password)}
  abbrev pub redis_url : String → Url
  redis_url password = record {
    scheme = "redis";
    opaque = "";
    user = some (record { username = ""; password = some password });
    host = "redis:6379";
    path = "/0";
    raw_path = "";
    force_query = false;
    raw_query = "";
    fragment = "";
  }

  abbrev pub ring_of : String → String → RingWire
  ring_of id key = record {
    version = pos 1;
    expected_epoch = pos 0;
    active_key_id = id;
    keys = (id, key) ∷ [];
  }

  unfoldable pub write_rings : String → List (String × String) → Action (Unit {0})
  write_rings temporary [] = pure tt
  write_rings temporary ((filename, id) ∷ rings) = do
    key ← reads (λ _. random_base64 filename)
    write_json_secret temporary filename (os.marshal_ring (ring_of id key))
    write_rings temporary rings

  abbrev pub rings : List (String × String)
  rings = ("api_key_pepper_ring", "api-pepper-dev-1") ∷ ("csrf_secret_ring", "csrf-dev-1") ∷ []

  unfoldable pub fill : String → Action (Unit {0})
  fill temporary = do
    chmod os temporary 0x1c0 "protect development secret directory: unavailable"
    redis_password ← write_passwords temporary password_files ""
    write_new_secret temporary "redis_url" (go.url_string (redis_url redis_password))
    provider_key ← reads (λ _. random_base64 "provider_master_keyring")
    write_json_secret temporary "provider_master_keyring" (
        os.marshal_provider_ring
          (record (ring_of "provider-dev-1" provider_key) { expected_epoch = pos 1 }))
    write_rings temporary rings
    session_key ← reads (λ _. random_base64 "session_secret")
    write_new_secret temporary "session_secret" session_key

  abbrev pub within : Result (Unit {0}) → Result (Unit {0})
  within (ok u) = ok u
  within (err e) = err (wrapped "validate generated development secret inventory" e)

  unfoldable pub validated : String → Disk → Result (Unit {0})
  validated temporary d = within (validate_dev_secrets go (os.view d) temporary)

  unfoldable pub move_files : String → String → List String → Action (Unit {0})
  move_files temporary directory [] = pure tt
  move_files temporary directory (name ∷ names) = do
    rename_file os temporary directory name
        "publish development secret inventory: destination is incomplete"
    move_files temporary directory names

  unfoldable pub publish : String → String → Action (Unit {0})
  publish temporary directory = do
    mkdir os make_folder directory 0x1c0
        "publish development secret inventory: destination already exists or is unavailable"
    move_files temporary directory dev_secret_files
    remove_folder os temporary
        "publish development secret inventory: temporary directory cleanup failed"

  -- the deferred function, with `keep` set before the return without an error
  abbrev pub with_cleanup : String → Result (Unit {0}) × Disk → Result (Unit {0}) × Disk
  with_cleanup temporary (ok u, d) = (ok u, d)
  with_cleanup temporary (err e, d) = (err e, remove_tree os temporary d)

  unfoldable pub build : String → String → Action (Unit {0})
  build temporary directory = do
    fill temporary
    reads (validated temporary)
    publish temporary directory

  abbrev pub existing : Result (Unit {0}) → Result (Unit {0})
  existing (ok u) = ok u
  existing (err _) = err (
      plain
        "existing development secret inventory is not complete and valid; refusing to overwrite")

  -- os.Stat says that it is a folder
  abbrev pub has_parent : String → Disk → Bool
  has_parent directory d = is_directory ((os.view d).stat (os.parent directory))

  unfoldable pub create : String → Action (Unit {0})
  create directory d =
      let temporary = os.temporary d (os.parent directory) in
      (do
        reads (λ d.
            fail_if (not (has_parent directory d)) (plain "output parent directory is unavailable"))
        mkdir os make_temp temporary 0x1c0 "create development secret inventory: unavailable"
        λ d'. with_cleanup temporary (build temporary directory d'))
        d

  abbrev pub after_lstat : Bool → String → Action (Unit {0})
  after_lstat true directory d = (existing (validate_dev_secrets go (os.view d) directory), d)
  after_lstat false directory d =
      (do
        reads (λ d.
            fail_if (not (os.is_missing d directory))
              (plain "inspect development secret directory: unavailable"))
        create directory)
        d

  unfoldable pub generate_dev_secrets : String → Action (Unit {0})
  generate_dev_secrets directory d =
      (do
        reads (λ _. fail_if (directory == "") (plain "output directory is required"))
        λ d'. after_lstat (is_some ((os.view d').lstat directory)) directory d')
        d
