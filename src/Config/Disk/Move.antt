-- ===== src/Config/Disk/Move.antt =====
-- The files of one folder are moved to another.
use mathlib.Core.Path.{subst}
use nexus_relay.Common.{
  ℕ, ◌≡◌, refl, ◌⊎◌, inl, inr, String, false, Option, none, some, [], ◌∷◌, ◌==◌, is_empty,
  if◌then◌else◌, Map, lookup, insert, lookup-insert, eq_iff, arith, Bool-cases, ◌∙◌,
}
use nexus_relay.Config.Disk.{
  File, Folder, Disk, Os, erase, drop_file, files_of, move_file, rename_file, remove_folder,
  without_folder,
}
use nexus_relay.Config.Disk.Ends.{Ends}
use nexus_relay.Config.Disk.Laws.{lookup-erase, attempt-Ends, same}

-- Each file of a folder is there or has been moved to the other folder, and nothing else is in this.
abbrev pub IsSplit : Map File → Map File → Map File → Type 0
IsSplit whole from to =
    (name : String)
    → ((lookup name from ≡ lookup name whole) × (lookup name to ≡ none))
      ⊎ ((lookup name from ≡ none) × (lookup name to ≡ lookup name whole))

IsSplit-move :
    (whole from to : Map File) (moved : String) (file : File)
    → lookup moved from ≡ some file
    → IsSplit whole from to
    → IsSplit whole (erase moved from) (insert moved file to)
IsSplit-move whole from to moved file found h name = elim (h name) [
  | inl (a, b) ↦ elim (Bool-cases (moved == name)) [
    | inl same ↦ inr (
      ground (arith, lookup-erase moved name from),
      ground (arith, lookup-insert moved name file to, eq_iff moved name),
    )
    | inr other ↦ inl (
      ground (arith, lookup-erase moved name from),
      ground (arith, lookup-insert moved name file to),
    )
  ]
  | inr (a, b) ↦ elim (Bool-cases (moved == name)) [
    | inl same ↦ ground (arith, eq_iff moved name)
    | inr other ↦ inr (
      ground (arith, lookup-erase moved name from),
      ground (arith, lookup-insert moved name file to),
    )
  ]
]

-- While files are moved from one folder to another, of the disk `whole`.
pub record IsMoving (from to : String) (perm : ℕ) (whole d : Disk) : Type 0 where
  pub others :
      (path : String)
      → (from == path) ≡ false
      → (to == path) ≡ false
      → lookup path d ≡ lookup path whole
  pub target : Folder
  pub found : lookup to d ≡ some target
  pub mode : target.perm ≡ perm
  pub split : IsSplit (files_of (lookup from whole)) (files_of (lookup from d)) target.files

-- The source is removed, and the other folder has all that it held.
pub record IsMoved (from to : String) (perm : ℕ) (whole n : Disk) : Type 0 where
  pub others :
      (path : String)
      → (from == path) ≡ false
      → (to == path) ≡ false
      → lookup path n ≡ lookup path whole
  pub gone : lookup from n ≡ none
  pub folder : Folder
  pub there : lookup to n ≡ some folder
  pub mode : folder.perm ≡ perm
  pub complete :
      (name : String) → lookup name folder.files ≡ lookup name (files_of (lookup from whole))

module _ (from to : String) (apart : (from == to) ≡ false) (a b : Folder) (d : Disk) where
  first_of_two : lookup from (insert from a (insert to b d)) ≡ some a
  first_of_two = ground (arith, lookup-insert from from a (insert to b d), eq_iff from from)

  second_of_two : lookup to (insert from a (insert to b d)) ≡ some b
  second_of_two =
      ground (arith, lookup-insert from to a (insert to b d), lookup-insert to to b d, eq_iff to to)

module _ (from to : String) (perm : ℕ) (whole : Disk) (apart : (from == to) ≡ false) where
  -- the disk after a move out of `folder`
  moved_file :
      (name : String) (file : File) (d : Disk) (h : IsMoving from to perm whole d) (folder : Folder)
      → lookup from d ≡ some folder
      → lookup name folder.files ≡ some file
      → IsMoving from to perm whole (
          insert from
            (record folder { files = erase name folder.files })
            (insert to (record h.target { files = insert name file h.target.files }) d))
  moved_file name file d h folder e held =
      let a : Folder = record folder { files = erase name folder.files } in
      let b : Folder = record h.target { files = insert name file h.target.files } in
      record {
        others = λ path p q. ground (
          arith,
          lookup-insert from path a (insert to b d),
          lookup-insert to path b d,
          h.others path p q,
        );
        target = b;
        found = second_of_two from to apart a b d;
        mode = h.mode;
        split = rw (first_of_two from to apart a b d) (
            IsSplit-move (files_of (lookup from whole)) folder.files h.target.files name file held (
              subst (λ o. IsSplit (files_of (lookup from whole)) (files_of o) h.target.files) e
                h.split));
      }

  unmoved :
      (name : String) (file : File) (d : Disk) (h : IsMoving from to perm whole d)
      → lookup from (insert to (record h.target { files = insert name file h.target.files }) d)
        ≡ lookup from d
  unmoved name file d h = ground (
    arith,
    lookup-insert to from (record h.target { files = insert name file h.target.files }) d,
    eq_iff to from,
    eq_iff from to,
  )

  drop_file-IsMoving :
      (name : String) (file : File) (d : Disk) (h : IsMoving from to perm whole d)
      (source : Option Folder)
      → lookup from d ≡ source
      → lookup name (files_of source) ≡ some file
      → (n : Disk)
      → let d' = insert to (record h.target { files = insert name file h.target.files }) d in
        drop_file name from d' source ≡ some n → IsMoving from to perm whole n
  unfolding lookup
  drop_file-IsMoving name file d h none e held n taken = cc
  drop_file-IsMoving name file d h (some folder) e held n taken =
      subst (IsMoving from to perm whole) (same taken) (moved_file name file d h folder e held)

  move_file-IsMoving :
      (name : String) (d : Disk) (h : IsMoving from to perm whole d) (held : Option File)
      → lookup name (files_of (lookup from d)) ≡ held
      → (n : Disk) → move_file from to name d held ≡ some n
      → IsMoving from to perm whole n
  move_file-IsMoving name d h none e n taken = cc
  move_file-IsMoving name d h (some file) e n taken =
      drop_file-IsMoving name file d h (lookup from d) refl e n
        (rw (unmoved name file d h) at (rw (h.found, move_file) at taken))

  pub rename_file-IsMoving :
      (os : Os) (name text : String) (d : Disk)
      → IsMoving from to perm whole d
      → Ends
          (λ _. IsMoving from to perm whole)
          (IsMoving from to perm whole)
          (rename_file os from to name text d)
  unfolding rename_file
  rename_file-IsMoving os name text d h =
      attempt-Ends _ text _ d h (move_file-IsMoving name d h _ refl)

  all_moved :
      (whole_files from_files to_files : Map File)
      → from_files ≡ []
      → IsSplit whole_files from_files to_files
      → (name : String) → lookup name to_files ≡ lookup name whole_files
  unfolding lookup
  all_moved whole_files from_files to_files empty split name = elim (split name) [
    | inl (a, b) ↦ b ∙ (rw empty at a)
    | inr (a, b) ↦ b
  ]

  emptied :
      (d : Disk) (h : IsMoving from to perm whole d) (folder : Folder)
      → lookup from d ≡ some folder
      → (files : Map File) → folder.files ≡ files
      → (n : Disk) → (if is_empty files then some (erase from d) else none) ≡ some n
      → IsMoved from to perm whole n
  emptied d h folder e [] empty n taken = subst (IsMoved from to perm whole) (same taken) (record {
    others = λ path p q. ground (arith, lookup-erase from path d, h.others path p q);
    gone = ground (arith, lookup-erase from from d, eq_iff from from);
    folder = h.target;
    there = ground (arith, lookup-erase from to d, h.found);
    mode = h.mode;
    complete =
        all_moved _ folder.files h.target.files empty (
          subst (λ o. IsSplit (files_of (lookup from whole)) (files_of o) h.target.files) e
            h.split);
  })
  emptied d h folder e (x ∷ files) empty n taken = cc

  removed :
      (d : Disk) (h : IsMoving from to perm whole d) (source : Option Folder)
      → lookup from d ≡ source
      → (n : Disk) → without_folder from d source ≡ some n
      → IsMoved from to perm whole n
  removed d h none e n taken = cc
  removed d h (some folder) e n taken = emptied d h folder e folder.files refl n taken

  pub remove_folder-Ends :
      (os : Os) (F : Disk → Type 0) (text : String) (d : Disk)
      → F d
      → IsMoving from to perm whole d
      → Ends (λ _. IsMoved from to perm whole) F (remove_folder os from text d)
  unfolding remove_folder
  remove_folder-Ends os F text d f h = attempt-Ends _ text _ d f (removed d h (lookup from d) refl)
