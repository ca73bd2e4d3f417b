-- ===== src/Config/DevSecrets/Generate/Published.antt =====
-- What GenerateDevSecrets publishes, and what it leaves alone.
use nexus_relay.Common.{
  ◌≡◌, refl, ◌⊎◌, inl, inr, String, true, false, none, List, [], ◌∷◌, ◌==◌, lookup, insert,
  lookup-insert, is_some, eq_iff, arith, ok, err, Result,
}
use nexus_relay.Config.DevSecrets.{dev_secret_files, validate_dev_secrets}
use nexus_relay.Config.DevSecrets.Generate.{within, validated, move_files, publish, build}
use nexus_relay.Config.DevSecrets.Generate.Filling.{fill-IsFilling}
use nexus_relay.Config.Disk.{Disk, Folder, Os, make_folder, continue, remove_folder}
use nexus_relay.Config.Disk.Ends.{Ends, returns, ◌≫◌, reads-Ends, Ends-map}
use nexus_relay.Config.Disk.Laws.{IsFilling, mkdir-Ends}
use nexus_relay.Config.Disk.Move.{IsMoving, IsMoved, rename_file-IsMoving, remove_folder-Ends}
use nexus_relay.Config.Library.{Library}

-- Folders that were there are as they were, and there is no new one but at `directory`.
abbrev pub IsSafe : String → String → Disk → Disk → Type 0
IsSafe temporary directory start d =
    (path : String)
    → (temporary == path) ≡ false
    → ((directory == path) ≡ false) ⊎ (is_some (lookup path start) ≡ true)
    → lookup path d ≡ lookup path start

module _ (os : Os) (go : Library) (temporary directory : String) (start : Disk) where
  filling-IsSafe : (d : Disk) → IsFilling temporary start d → IsSafe temporary directory start d
  filling-IsSafe d h path ne _ = h.others path ne

  -- What is behind the folder that was published: the disk on which it was validated.
  pub record IsPublished (d : Disk) : Type 0 where
    pub whole : Disk
    pub filled : IsFilling temporary start whole
    pub fresh : lookup directory whole ≡ none
    pub accepted : validate_dev_secrets go (os.view whole) temporary ≡ ok tt
    pub moved : IsMoved temporary directory (os.masked 0x1c0) whole d

  module _ (whole : Disk) (filled : IsFilling temporary start whole)
      (fresh : lookup directory whole ≡ none) where
    apart : (temporary == directory) ≡ false
    apart = ground (arith, eq_iff temporary directory, filled.present)

    begin-IsMoving :
        IsMoving temporary directory
          (os.masked 0x1c0)
          whole
          (insert directory (record { perm = os.masked 0x1c0; files = [] }) whole)
    unfolding lookup
    begin-IsMoving =
        let made : Folder = record { perm = os.masked 0x1c0; files = [] } in
        record {
          others = λ path p q. ground (arith, lookup-insert directory path made whole);
          target = made;
          found =
              ground
                (arith, lookup-insert directory directory made whole, eq_iff directory directory);
          mode = refl;
          split = λ name. inl (
            ground (
              arith,
              apart,
              lookup-insert directory temporary made whole,
              eq_iff directory temporary,
              eq_iff temporary directory,
            ),
            refl,
          );
        }

    moving-IsSafe :
        (d : Disk)
        → IsMoving temporary directory (os.masked 0x1c0) whole d
        → IsSafe temporary directory start d
    moving-IsSafe d h path ne (inl other) =
        ground (arith, h.others path ne other, filled.others path ne)
    moving-IsSafe d h path ne (inr old) =
        ground (arith, h.others path ne, filled.others path ne, fresh, eq_iff directory path)

    move_files-IsMoving :
        (names : List String) (d : Disk)
        → IsMoving temporary directory (os.masked 0x1c0) whole d
        → Ends
            (λ _. IsMoving temporary directory (os.masked 0x1c0) whole)
            (IsMoving temporary directory (os.masked 0x1c0) whole)
            (move_files os go temporary directory names d)
    unfolding move_files
    move_files-IsMoving [] d h = returns h
    move_files-IsMoving (name ∷ names) d h =
        rename_file-IsMoving temporary directory (os.masked 0x1c0) whole apart os name _ d h
        ≫ λ _ d h. move_files-IsMoving names d h

    moving-IsPublished :
        (d : Disk)
        → validate_dev_secrets go (os.view whole) temporary ≡ ok tt
        → IsMoving temporary directory (os.masked 0x1c0) whole d
        → Ends
            (λ _. IsPublished)
            (IsSafe temporary directory start)
            (continue
              (λ _.
                remove_folder os temporary
                  "publish development secret inventory: temporary directory cleanup failed")
              (move_files os go temporary directory dev_secret_files d))
    moving-IsPublished d accepted h =
        Ends-map (λ _ d h. h) moving-IsSafe (move_files-IsMoving dev_secret_files d h) ≫ λ _ d h.
        Ends-map
          (λ _ n moved. record {
            whole = whole;
            filled = filled;
            fresh = fresh;
            accepted = accepted;
            moved = moved;
          })
          (λ n safe. safe)
          (remove_folder-Ends temporary directory (os.masked 0x1c0) whole apart os
            (IsSafe temporary directory start) _ d (moving-IsSafe d h) h)

  publish-Ends :
      (d : Disk)
      → IsFilling temporary start d
      → validate_dev_secrets go (os.view d) temporary ≡ ok tt
      → Ends
          (λ _. IsPublished)
          (IsSafe temporary directory start)
          (publish os go temporary directory d)
  unfolding publish
  publish-Ends d filled accepted =
      mkdir-Ends directory d os (IsSafe temporary directory start) make_folder _ _
        (filling-IsSafe d filled)
      ≫ λ _ made (fresh, e).
          moving-IsPublished d filled fresh made accepted (rw e (begin-IsMoving d filled fresh))

  within_ok : (r : Result (Unit {0})) → within os go r ≡ ok tt → r ≡ ok tt
  within_ok (ok tt) e = refl
  within_ok (err x) e = cc

  pub build-Ends :
      (d : Disk)
      → IsFilling temporary start d
      → Ends
          (λ _. IsPublished)
          (IsSafe temporary directory start)
          (build os go temporary directory d)
  unfolding build validated
  build-Ends d h =
      Ends-map (λ _ d h. h) filling-IsSafe (fill-IsFilling os go temporary start d h) ≫ λ _ d h.
      Ends-map (λ _ d k. k) filling-IsSafe (reads-Ends (validated os go temporary d) d h)
      ≫ λ _ d' (_, e, k). publish-Ends d' (rw e h) (rw e (within_ok _ k))
