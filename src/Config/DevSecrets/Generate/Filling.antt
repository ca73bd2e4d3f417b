-- ===== src/Config/DevSecrets/Generate/Filling.antt =====
-- While GenerateDevSecrets fills its temporary folder, it touches no other.
use nexus_relay.Common.{String, Option, List, [], ◌∷◌}
use nexus_relay.Config.DevSecrets.Generate.{
  write_new_secret, write_json_secret, write_passwords, write_rings, fill, random_base64,
}
use nexus_relay.Config.Disk.{Disk, Os}
use nexus_relay.Config.Disk.Ends.{Ends, returns, ◌≫◌, reads-Ends}
use nexus_relay.Config.Disk.Laws.{
  IsFilling, chmod-IsFilling, create_file-IsFilling, write_file-IsFilling, close_file-IsFilling,
}
use nexus_relay.Config.Library.{Library}

module _ (os : Os) (go : Library) (temporary : String) (start : Disk) where
  write_new_secret-IsFilling :
      (name contents : String) (d : Disk)
      → IsFilling temporary start d
      → Ends
          (λ _. IsFilling temporary start)
          (IsFilling temporary start)
          (write_new_secret os go temporary name contents d)
  unfolding write_new_secret
  write_new_secret-IsFilling name contents d h =
      create_file-IsFilling temporary start os name _ _ d h ≫ λ _ d h.
      write_file-IsFilling temporary start os name _ contents _ d h ≫ λ _ d h.
      close_file-IsFilling temporary start os name _ d h

  write_json_secret-IsFilling :
      (name : String) (contents : Option String) (d : Disk)
      → IsFilling temporary start d
      → Ends
          (λ _. IsFilling temporary start)
          (IsFilling temporary start)
          (write_json_secret os go temporary name contents d)
  unfolding write_json_secret
  write_json_secret-IsFilling name contents d h =
      reads-Ends _ d h ≫ λ text d (h, _, _). write_new_secret-IsFilling name text d h

  write_passwords-IsFilling :
      (names : List String) (latest : String) (d : Disk)
      → IsFilling temporary start d
      → Ends
          (λ _. IsFilling temporary start)
          (IsFilling temporary start)
          (write_passwords os go temporary names latest d)
  unfolding write_passwords
  write_passwords-IsFilling [] latest d h = returns h
  write_passwords-IsFilling (name ∷ names) latest d h = reads-Ends _ d h ≫ λ value d (h, _, _).
      write_new_secret-IsFilling name value d h ≫ λ _ d h. write_passwords-IsFilling names value d h

  write_rings-IsFilling :
      (rings : List (String × String)) (d : Disk)
      → IsFilling temporary start d
      → Ends
          (λ _. IsFilling temporary start)
          (IsFilling temporary start)
          (write_rings os go temporary rings d)
  unfolding write_rings
  write_rings-IsFilling [] d h = returns h
  write_rings-IsFilling ((filename, id) ∷ rings) d h =
      reads-Ends (random_base64 os go filename) d h ≫ λ key d (h, _, _).
      write_json_secret-IsFilling filename _ d h ≫ λ _ d h. write_rings-IsFilling rings d h

  pub fill-IsFilling :
      (d : Disk)
      → IsFilling temporary start d
      → Ends (λ _. IsFilling temporary start) (IsFilling temporary start) (fill os go temporary d)
  unfolding fill
  fill-IsFilling d h = chmod-IsFilling temporary start os _ _ d h ≫ λ _ d h.
      write_passwords-IsFilling _ _ d h ≫ λ password d h.
      write_new_secret-IsFilling _ _ d h ≫ λ _ d h.
      reads-Ends (random_base64 os go _) d h ≫ λ provider d (h, _, _).
      write_json_secret-IsFilling _ _ d h ≫ λ _ d h. write_rings-IsFilling _ d h ≫ λ _ d h.
      reads-Ends (random_base64 os go _) d h ≫ λ session d (h, _, _).
      write_new_secret-IsFilling _ session d h
