-- ===== src/Config/Disk.antt =====
-- The file system that internal/config/devsecrets.go writes to, and its steps, each of which may
-- fail. A path that filepath.Join makes of a directory and a name is that pair here.
pub mod Ends
pub mod Laws
pub mod Move
use nexus_relay.Common.{
  ℕ, String, Bool, true, false, ◌||◌, Option, none, some, List, [], ◌∷◌, ◌==◌, if◌then◌else◌, Map,
  lookup, insert, is_some, is_empty, Error, plain, Result, ok, err,
}
use nexus_relay.Config.Library.{Bytes, RingWire, Host}

pub record File : Type 0 where
  pub perm : ℕ
  pub contents : String

pub record Folder : Type 0 where
  pub perm : ℕ
  pub files : Map File

-- folders by their paths
abbrev pub Disk : Type 0
Disk = Map Folder

-- The calls that change the disk. Each is made once in a run with its arguments.
pub data Call : Type 0 where
  make_temp change_mode make_folder remove remove_all : Call
  open_new write close rename : String → Call

-- What the program calls of os, crypto/rand, path/filepath and encoding besides `Library`.
pub record Os : Type 0 where
  -- what Lstat, Open and the like read of a disk; whether Lstat says that nothing is there
  pub view : Disk → Host
  pub is_missing : Disk → String → Bool
  -- filepath.Dir, and the name that os.MkdirTemp takes in a directory
  pub parent : String → String
  pub temporary : Disk → String → String
  -- the mode that is left of a mode under the umask
  pub masked : ℕ → ℕ
  -- rand.Read of 32 bytes for a file
  pub random : String → Option Bytes
  -- base64.RawURLEncoding.EncodeToString, json.Marshal of a ring without and with an epoch
  pub encode_base64url : Bytes → String
  pub marshal_ring : RingWire → Option String
  pub marshal_provider_ring : RingWire → Option String
  -- which calls fail though the disk allows them
  pub fails : Call → Bool

-- What was written stays written after an error.
abbrev pub Action : Type 0 → Type 0
Action A = Disk → Result A × Disk

abbrev pub pure : {A : Type 0} → A → Action A
pure a d = (ok a, d)

abbrev pub continue : {A B : Type 0} → (A → Action B) → Result A × Disk → Result B × Disk
continue f (ok a, d) = f a d
continue f (err e, d) = (err e, d)

infixl 5 ◌>>=◌ ◌>>◌
abbrev pub ◌>>=◌ : {A B : Type 0} → Action A → (A → Action B) → Action B
◌>>=◌ m f d = continue f (m d)

abbrev pub ◌>>◌ : {B : Type 0} → Action (Unit {0}) → Action B → Action B
m >> k = m >>= λ _. k

-- a step that only reads
abbrev pub reads : {A : Type 0} → (Disk → Result A) → Action A
reads f d = (f d, d)

unfoldable pub erase {ℓ} : {V : Type ℓ} → String → Map V → Map V
erase name [] = []
erase name ((key, v) ∷ m) = if key == name then erase name m else (key, v) ∷ erase name m

-- a step on a disk where it is possible
abbrev pub attempt : Bool → String → Option Disk → Disk → Result (Unit {0}) × Disk
attempt true text next d = (err (plain text), d)
attempt false text none d = (err (plain text), d)
attempt false text (some next) d = (ok tt, next)

-- a folder that was not there
abbrev pub with_folder : ℕ → String → Disk → Option Folder → Option Disk
with_folder perm path d none = some (insert path (record { perm = perm; files = [] }) d)
with_folder perm path d (some _) = none

abbrev pub with_mode : ℕ → String → Disk → Option Folder → Option Disk
with_mode perm path d none = none
with_mode perm path d (some folder) = some (insert path (record folder { perm = perm }) d)

abbrev pub put_file : String → File → String → Disk → Option Folder → Option Disk
put_file name file path d none = none
put_file name file path d (some folder) =
    some (insert path (record folder { files = insert name file folder.files }) d)

abbrev pub drop_file : String → String → Disk → Option Folder → Option Disk
drop_file name path d none = none
drop_file name path d (some folder) =
    some (insert path (record folder { files = erase name folder.files }) d)

abbrev pub without_folder : String → Disk → Option Folder → Option Disk
without_folder path d none = none
without_folder path d (some folder) = if is_empty folder.files then some (erase path d) else none

abbrev pub files_of : Option Folder → Map File
files_of none = []
files_of (some folder) = folder.files

-- the two folders differ where this is called
abbrev pub move_file : String → String → String → Disk → Option File → Option Disk
move_file from to name d none = none
move_file from to name d (some file) = elim (put_file name file to d (lookup to d)) [
  | none ↦ none
  | some d' ↦ drop_file name from d' (lookup from d')
]

module _ (os : Os) where
  -- os.Mkdir, also what os.MkdirTemp does with the name that it takes
  unfoldable pub mkdir : Call → String → ℕ → String → Action (Unit {0})
  mkdir call path perm text d =
      attempt (os.fails call) text (with_folder (os.masked perm) path d (lookup path d)) d

  unfoldable pub chmod : String → ℕ → String → Action (Unit {0})
  chmod path perm text d =
      attempt (os.fails change_mode) text (with_mode perm path d (lookup path d)) d

  -- os.OpenFile with O_CREATE and O_EXCL
  unfoldable pub create_file : String → String → ℕ → String → Action (Unit {0})
  create_file path name perm text d =
      attempt (os.fails (open_new name) || is_some (lookup name (files_of (lookup path d)))) text
        (put_file name (record { perm = os.masked perm; contents = "" }) path d (lookup path d)) d

  -- Write: the whole of the contents, or an error
  unfoldable pub write_file : String → String → ℕ → String → String → Action (Unit {0})
  write_file path name perm contents text d =
      attempt (os.fails (write name)) text
        (put_file name (record { perm = os.masked perm; contents = contents }) path d
          (lookup path d))
        d

  unfoldable pub close_file : String → String → Action (Unit {0})
  close_file name text d = attempt (os.fails (close name)) text (some d) d

  -- os.Rename of a file to the same name in another folder
  unfoldable pub rename_file : String → String → String → String → Action (Unit {0})
  rename_file from to name text d =
      attempt (os.fails (rename name)) text
        (move_file from to name d (lookup name (files_of (lookup from d)))) d

  -- os.Remove of a folder, which has to be empty
  unfoldable pub remove_folder : String → String → Action (Unit {0})
  remove_folder path text d =
      attempt (os.fails remove) text (without_folder path d (lookup path d)) d

  -- os.RemoveAll, whose error is not read. Where it fails nothing is removed, and a Write that fails
  -- leaves an empty file.
  unfoldable pub remove_tree : String → Disk → Disk
  remove_tree path d = if os.fails remove_all then d else erase path d
