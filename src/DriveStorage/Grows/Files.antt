-- ===== src/DriveStorage/Grows/Files.antt =====
-- internal/storage/drive/drive.go: listing, reading, moving and asking take no hash out of the index.
use paper_claw.Base.{Text, Option, none, some, List, Bool-cases, inl, inr}
use paper_claw.Base.Dict.{lookup}
use paper_claw.Base.Methods.{relabel-state}
use paper_claw.Store.Grows.{Grows-refl, has_hash-Grows}
use paper_claw.DriveStorage.{
  Service, Drive, FileInfo, is_unchanged, on_remote, on_db, pure, fail, drive_client, listed,
  list_stable, list_inbox,
}
use paper_claw.DriveStorage.Files.{
  local_pdf, verified, refetched, read_cached, read_with, read_pdf, is_duplicate, move_cached,
  move_with, move_to_processed,
}
use paper_claw.DriveStorage.Grows.Calls.{
  ProviderGrows, Grow, Grow->>=, on_remote-Grow, pure-Grow, fail-Grow, drive_client-Grow,
}

module _ (G : Service) (d : Drive G) (provider : ProviderGrows G d) where
  listed-Grow : (files : List FileInfo) → Grow G d (listed G d files)
  unfolding listed
  listed-Grow files s = Grows-refl s.db

  list_stable-Grow : (c : G.Client) → Grow G d (list_stable G d c)
  unfolding list_stable
  list_stable-Grow c = Grow->>= G d _ (listed G d) (on_remote-Grow G d _) listed-Grow

  pub list_inbox-Grow : Grow G d (list_inbox G d)
  unfolding list_inbox
  list_inbox-Grow =
      Grow->>= G d (drive_client G d) (list_stable G d) (drive_client-Grow G d provider)
        list_stable-Grow

  verified-Grow :
      (name : Text) (c : G.Client) (cached fresh : FileInfo)
      → Grow G d (verified G d name c cached fresh)
  unfolding verified
  verified-Grow name c cached fresh s = elim (Bool-cases (is_unchanged cached fresh)) [
    | inl e ↦ rw e (
        Grow->>= G d (on_remote (G.download c cached.id)) (λ pdf. pure (local_pdf G d pdf))
          (on_remote-Grow G d (G.download c cached.id)) (λ pdf. pure-Grow G d (local_pdf G d pdf))
          s)
    | inr e ↦ rw e (unfold fail in Grows-refl s.db)
  ]

  refetched-Grow : (name : Text) (c : G.Client) (f : FileInfo) → Grow G d (refetched G d name c f)
  unfolding refetched
  refetched-Grow name c f s =
      rw (relabel-state _ (on_remote (G.get_file c f.id) s))
        (on_remote-Grow G d (G.get_file c f.id) s)

  read_cached-Grow :
      (name : Text) (c : G.Client) (found : Option FileInfo)
      → Grow G d (read_cached G d name c found)
  unfolding read_cached fail
  read_cached-Grow name c none s = Grows-refl s.db
  read_cached-Grow name c (some f) s =
      Grow->>= G d (refetched G d name c f) (verified G d name c f) (refetched-Grow name c f)
        (verified-Grow name c f) s

  pub read_pdf-Grow : (name : Text) → Grow G d (read_pdf G d name)
  unfolding read_pdf read_with
  read_pdf-Grow name =
      Grow->>= G d (drive_client G d) (read_with G d name) (drive_client-Grow G d provider)
        (λ c s. read_cached-Grow name c (lookup name s.scan_files) s)

  pub is_duplicate-Grow : (hash : Text) → Grow G d (is_duplicate G d hash)
  unfolding is_duplicate on_db
  is_duplicate-Grow hash s = has_hash-Grows hash s.db

  move_cached-Grow :
      (name : Text) (c : G.Client) (found : Option FileInfo)
      → Grow G d (move_cached G d name c found)
  unfolding move_cached
  move_cached-Grow name c none = fail-Grow G d _ _
  move_cached-Grow name c (some f) = on_remote-Grow G d _

  pub move_to_processed-Grow : (name : Text) → Grow G d (move_to_processed G d name)
  unfolding move_to_processed move_with
  move_to_processed-Grow name =
      Grow->>= G d (drive_client G d) (move_with G d name) (drive_client-Grow G d provider)
        (λ c s. move_cached-Grow name c (lookup name s.scan_files) s)
