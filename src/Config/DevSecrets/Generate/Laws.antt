-- ===== src/Config/DevSecrets/Generate/Laws.antt =====
-- What a run of GenerateDevSecrets of internal/config/devsecrets.go leaves on the disk.
use nexus_relay.Common.{
  ◌≡◌, refl, ◌⊎◌, inl, inr, String, Bool, true, false, not, none, ◌==◌, lookup, insert,
  lookup-insert, is_some, eq_iff, arith, Bool-cases, ok, err, Result, plain, fail_if,
}
use nexus_relay.Config.DevSecrets.{validate_dev_secrets}
use nexus_relay.Config.DevSecrets.Generate.{
  has_parent, build, with_cleanup, existing, create, after_lstat, generate_dev_secrets,
}
use nexus_relay.Config.DevSecrets.Generate.Published.{IsSafe, IsPublished, build-Ends}
use nexus_relay.Config.Disk.{Disk, Folder, Os, continue, mkdir, make_temp, remove_all, remove_tree}
use nexus_relay.Config.Disk.Ends.{
  Ends, returns, raises, ◌≫◌, reads-Ends, Ends-map, Ends-disk, Ends-value,
}
use nexus_relay.Config.Disk.Laws.{IsFilling, mkdir-Ends, lookup-erase}
use nexus_relay.Config.Library.{Library}

-- The folders that were there are as they were, and if what is temporary can be removed, there is no
-- new one but at `directory`.
pub record IsLeft (os : Os) (directory : String) (start d : Disk) : Type 0 where
  pub kept :
      (path : String) → is_some (lookup path start) ≡ true → lookup path d ≡ lookup path start
  pub tidy :
      os.fails remove_all ≡ false
      → (path : String) → (directory == path) ≡ false
      → lookup path d ≡ lookup path start

module _ (os : Os) (go : Library) (temporary directory : String) (start : Disk)
    (fresh : lookup temporary start ≡ none) where
  published-IsLeft :
      (d : Disk) → IsPublished os go temporary directory start d → IsLeft os directory start d
  published-IsLeft d p = record {
    kept = λ path old. ground (
      arith,
      p.moved.others path,
      p.filled.others path,
      p.fresh,
      p.filled.present,
      fresh,
      eq_iff temporary path,
      eq_iff directory path,
      eq_iff temporary directory,
    );
    tidy = λ _ path other. ground (
      arith,
      p.moved.others path,
      p.filled.others path,
      p.moved.gone,
      fresh,
      eq_iff temporary path,
    );
  }

  removed-IsLeft :
      (d : Disk)
      → IsSafe temporary directory start d
      → IsLeft os directory start (remove_tree os temporary d)
  unfolding remove_tree
  removed-IsLeft d safe = record {
    kept = λ path old. ground (
      arith,
      safe path (other_path path old) (inr old),
      other_path path old,
      lookup-erase temporary path d,
    );
    tidy = λ works path other. elim (Bool-cases (temporary == path)) [
      | inl same ↦ ground (arith, lookup-erase temporary path d, fresh, eq_iff temporary path)
      | inr ne ↦ ground (arith, lookup-erase temporary path d, safe path ne (inl other))
    ];
  }
    where
      other_path :
          (path : String) → is_some (lookup path start) ≡ true → (temporary == path) ≡ false
      other_path path old = ground (arith, fresh, eq_iff temporary path)

  with_cleanup-Ends :
      (r : Result (Unit {0}) × Disk)
      → Ends (λ _. IsPublished os go temporary directory start) (IsSafe temporary directory start) r
      → Ends
          (λ _ d. IsLeft os directory start d × IsPublished os go temporary directory start d)
          (IsLeft os directory start)
          (with_cleanup os go temporary r)
  with_cleanup-Ends (ok u, d) (returns p) = returns (published-IsLeft d p, p)
  with_cleanup-Ends (err e, d) (raises safe) = raises (removed-IsLeft d safe)

  first_IsFilling : (folder : Folder) → IsFilling temporary start (insert temporary folder start)
  first_IsFilling folder = record {
    others = λ other ne. ground (arith, lookup-insert temporary other folder start);
    present =
        ground (arith, lookup-insert temporary temporary folder start, eq_iff temporary temporary);
  }

module _ (os : Os) (go : Library) (directory : String) (start : Disk) where
  same-IsLeft : IsLeft os directory start start
  same-IsLeft = record { kept = λ _ _. refl; tidy = λ _ _ _. refl }

  built :
      (temporary : String)
      → Ends
          (λ _ d. IsLeft os directory start d × IsPublished os go temporary directory start d)
          (IsLeft os directory start)
          (continue
            (λ _ d. with_cleanup os go temporary (build os go temporary directory d))
            (mkdir os make_temp temporary 0x1c0 "create development secret inventory: unavailable"
              start))
  built temporary =
      mkdir-Ends temporary start os (IsLeft os directory start) make_temp _ _ same-IsLeft
      ≫ λ _ d (fresh, e). with_cleanup-Ends os go temporary directory start fresh _ (
          build-Ends os go temporary directory start d
            (rw e (first_IsFilling os go temporary directory start fresh _)))

  create-Ends :
      Ends
        (λ _ d.
          IsLeft os directory start d
          × IsPublished os go (os.temporary start (os.parent directory)) directory start d)
        (IsLeft os directory start)
        (create os go directory start)
  unfolding create
  create-Ends =
      reads-Ends
        (fail_if (not (has_parent os go directory start))
          (plain "output parent directory is unavailable"))
        start same-IsLeft
      ≫ λ _ d (_, e, _). rw e (built (os.temporary start (os.parent directory)))

  -- How a run ends well: the folder that was there is valid, or a valid one was published.
  abbrev pub IsReady : Disk → Type 0
  IsReady d =
      ((d ≡ start) × (validate_dev_secrets go (os.view start) directory ≡ ok tt))
      ⊎ IsPublished os go (os.temporary start (os.parent directory)) directory start d

  validated_only :
      (r : Result (Unit {0}))
      → validate_dev_secrets go (os.view start) directory ≡ r
      → Ends
          (λ _ d. IsLeft os directory start d × IsReady d)
          (IsLeft os directory start)
          (existing os go r, start)
  validated_only (ok tt) e = returns (same-IsLeft, inl (refl, e))
  validated_only (err x) e = raises same-IsLeft

  after_lstat-Ends :
      (present : Bool)
      → Ends
          (λ _ d. IsLeft os directory start d × IsReady d)
          (IsLeft os directory start)
          (after_lstat os go present directory start)
  after_lstat-Ends true = validated_only _ refl
  after_lstat-Ends false =
      reads-Ends
        (fail_if (not (os.is_missing start directory))
          (plain "inspect development secret directory: unavailable"))
        start same-IsLeft
      ≫ λ _ d (_, e, _).
          rw e (Ends-map (λ _ _ (left, p). (left, inr p)) (λ _ left. left) create-Ends)

  generate-Ends :
      Ends
        (λ _ d. IsLeft os directory start d × IsReady d)
        (IsLeft os directory start)
        (generate_dev_secrets os go directory start)
  unfolding generate_dev_secrets
  generate-Ends =
      reads-Ends (fail_if (directory == "") (plain "output directory is required")) start
        same-IsLeft
      ≫ λ _ d (_, e, _). rw e (after_lstat-Ends (is_some ((os.view start).lstat directory)))

-- GenerateDevSecrets changes no folder that was there, whatever fails and however it ends.
pub generate_dev_secrets_keeps :
    (os : Os) (go : Library) (directory : String) (start : Disk) (path : String)
    → is_some (lookup path start) ≡ true
    → lookup path (generate_dev_secrets os go directory start).1 ≡ lookup path start
generate_dev_secrets_keeps os go directory start =
    (Ends-disk _ (generate-Ends os go directory start)).kept

-- If what is temporary can be removed, a run of GenerateDevSecrets leaves all of the disk as it was
-- but the folder at the given path, also when it fails.
pub generate_dev_secrets_others :
    (os : Os) (go : Library) (directory : String) (start : Disk) (path : String)
    → os.fails remove_all ≡ false
    → (directory == path) ≡ false
    → lookup path (generate_dev_secrets os go directory start).1 ≡ lookup path start
generate_dev_secrets_others os go directory start path works =
    (Ends-disk _ (generate-Ends os go directory start)).tidy works path

-- When GenerateDevSecrets succeeds, either the disk is unchanged and the folder that was there is
-- valid, or there is a new folder of mode 0700 (under the umask) with exactly the files that were
-- validated in the temporary folder, which is gone.
pub generate_dev_secrets-IsReady :
    (os : Os) (go : Library) (directory : String) (start : Disk)
    → (generate_dev_secrets os go directory start).0 ≡ ok tt
    → IsReady os go directory start (generate_dev_secrets os go directory start).1
generate_dev_secrets-IsReady os go directory start h =
    (Ends-value _ (generate-Ends os go directory start) h).1
