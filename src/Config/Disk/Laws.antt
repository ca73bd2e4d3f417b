-- ===== src/Config/Disk/Laws.antt =====
-- What the steps on the disk leave alone, and how moving files splits a folder.
use nexus_relay.Common.{
  ℕ, ◌≡◌, refl, String, Bool, true, false, Option, none, some, [], ◌∷◌, ◌==◌, if◌then◌else◌, Map,
  lookup, insert, is_some, lookup-insert, eq_iff, arith,
}
use mathlib.Core.Path.{subst}
use nexus_relay.Config.Disk.{
  File, Folder, Disk, Os, erase, attempt, with_folder, with_mode, put_file, mkdir, chmod,
  create_file, write_file, close_file, Call,
}
use nexus_relay.Config.Disk.Ends.{Ends, returns, raises}

pub lookup-erase {ℓ} :
    {V : Type ℓ} (gone name : String) (m : Map V)
    → lookup name (erase gone m) ≡ (if gone == name then none else lookup name m)
unfolding erase lookup
lookup-erase gone name [] = ground arith
lookup-erase gone name ((key, v) ∷ m) =
    ground (arith, eq_iff gone name, eq_iff key gone, eq_iff key name, lookup-erase gone name m)

pub same : {d n : Disk} → some d ≡ some n → d ≡ n
same e = cc

pub attempt-Ends :
    {P F : Disk → Type 0} (failing : Bool) (text : String) (next : Option Disk) (d : Disk)
    → F d
    → ((n : Disk) → next ≡ some n → P n)
    → Ends (λ _. P) F (attempt failing text next d)
attempt-Ends true text next d f p = raises f
attempt-Ends false text none d f p = raises f
attempt-Ends false text (some n) d f p = returns (p n refl)

-- A folder that is being filled: the others are as they were.
pub record IsFilling (path : String) (start d : Disk) : Type 0 where
  pub others : (other : String) → (path == other) ≡ false → lookup other d ≡ lookup other start
  pub present : is_some (lookup path d) ≡ true

module _ (path : String) (start : Disk) where
  insert-IsFilling :
      (folder : Folder) (d : Disk)
      → IsFilling path start d
      → IsFilling path start (insert path folder d)
  insert-IsFilling folder d h = record {
    others = λ other ne. rw (lookup-insert path other folder d, ne) (h.others other ne);
    present = ground (arith, lookup-insert path path folder d, eq_iff path path);
  }

  put_file-IsFilling :
      (name : String) (file : File) (d : Disk) (found : Option Folder)
      → IsFilling path start d
      → (n : Disk) → put_file name file path d found ≡ some n
      → IsFilling path start n
  put_file-IsFilling name file d none h n e = cc
  put_file-IsFilling name file d (some folder) h n e =
      subst (IsFilling path start) (same e) (insert-IsFilling _ d h)

  with_mode-IsFilling :
      (perm : ℕ) (d : Disk) (found : Option Folder)
      → IsFilling path start d
      → (n : Disk) → with_mode perm path d found ≡ some n
      → IsFilling path start n
  with_mode-IsFilling perm d none h n e = cc
  with_mode-IsFilling perm d (some folder) h n e =
      subst (IsFilling path start) (same e) (insert-IsFilling _ d h)

  module _ (os : Os) where
    pub chmod-IsFilling :
        (perm : ℕ) (text : String) (d : Disk)
        → IsFilling path start d
        → Ends (λ _. IsFilling path start) (IsFilling path start) (chmod os path perm text d)
    unfolding chmod
    chmod-IsFilling perm text d h =
        attempt-Ends _ text _ d h (with_mode-IsFilling perm d (lookup path d) h)

    pub create_file-IsFilling :
        (name : String) (perm : ℕ) (text : String) (d : Disk)
        → IsFilling path start d
        → Ends
            (λ _. IsFilling path start)
            (IsFilling path start)
            (create_file os path name perm text d)
    unfolding create_file
    create_file-IsFilling name perm text d h =
        attempt-Ends _ text _ d h (put_file-IsFilling name _ d (lookup path d) h)

    pub write_file-IsFilling :
        (name : String) (perm : ℕ) (contents text : String) (d : Disk)
        → IsFilling path start d
        → Ends
            (λ _. IsFilling path start)
            (IsFilling path start)
            (write_file os path name perm contents text d)
    unfolding write_file
    write_file-IsFilling name perm contents text d h =
        attempt-Ends _ text _ d h (put_file-IsFilling name _ d (lookup path d) h)

    pub close_file-IsFilling :
        (name text : String) (d : Disk)
        → IsFilling path start d
        → Ends (λ _. IsFilling path start) (IsFilling path start) (close_file os name text d)
    unfolding close_file
    close_file-IsFilling name text d h =
        attempt-Ends _ text _ d h (λ n e. subst (IsFilling path start) (same e) h)

    -- A folder that is made was not there, and is empty.
    pub mkdir-Ends :
        (F : Disk → Type 0) (call : Call) (perm : ℕ) (text : String)
        → F start
        → Ends
            (λ _ d.
              (lookup path start ≡ none)
              × (d ≡ insert path (record { perm = os.masked perm; files = [] }) start))
            F
            (mkdir os call path perm text start)
    unfolding mkdir
    mkdir-Ends F call perm text f = attempt-Ends _ text _ start f (made (lookup path start) refl)
      where
        made :
            (found : Option Folder)
            → lookup path start ≡ found
            → (n : Disk) → with_folder (os.masked perm) path start found ≡ some n
            → (lookup path start ≡ none)
              × (n ≡ insert path (record { perm = os.masked perm; files = [] }) start)
        made none e n h = (e, cc)
        made (some folder) e n h = cc
