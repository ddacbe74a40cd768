-- ===== src/DriveStorage/Grows/Written.antt =====
-- internal/storage/drive/drive.go: WriteEntry takes no hash out of the index.
use paper_claw.Base.{ℕ, Text}
use paper_claw.Base.Methods.{relabel-state}
use paper_claw.Document.Metadata.{Metadata}
use paper_claw.Document.Storage.{Entry}
use paper_claw.Store.Sql.{Rfc3339}
use paper_claw.Store.Documents.{put_document}
use paper_claw.Store.Grows.{Grows-refl, put_document-Grows}
use paper_claw.DriveStorage.{Service, Drive, on_remote, on_db, pure, drive_client}
use paper_claw.DriveStorage.Files.{
  folder_child_names, document_record, stored_record, recorded, upload_all, fill_entry, write_as,
  resolved, write_beside, write_with, write_entry,
}
use paper_claw.DriveStorage.Grows.Calls.{
  ProviderGrows, Grow, Grow->>=, on_remote-Grow, pure-Grow, folder_child_names-Grow,
  drive_client-Grow,
}

module _ (G : Service) (d : Drive G) (provider : ProviderGrows G d) (unicode : ℕ → ℕ)
    (rfc : Rfc3339) where
  stored_record-Grow :
      (m : Metadata) (dir_name : Text) → Grow G d (stored_record G d unicode rfc m dir_name)
  unfolding stored_record on_db
  stored_record-Grow m dir_name s =
      let row = document_record G d unicode rfc m dir_name s in
      rw (relabel-state _ (on_db {G = G} (put_document rfc row) s))
        (put_document-Grows rfc row s.db)

  recorded-Grow : (m : Metadata) (dir_name : Text) → Grow G d (recorded G d unicode rfc m dir_name)
  unfolding recorded
  recorded-Grow m dir_name =
      Grow->>= G d (stored_record G d unicode rfc m dir_name) (λ _. pure dir_name)
        (stored_record-Grow m dir_name) (λ _. pure-Grow G d dir_name)

  upload_all-Grow :
      (c : G.Client) (e : Entry) (folder : Text) → Grow G d (upload_all G d unicode rfc c e folder)
  unfolding upload_all
  upload_all-Grow c e folder = Grow->>= G d _ _ (on_remote-Grow G d _) (λ _.
      Grow->>= G d _ _ (on_remote-Grow G d _)
        (λ _. Grow->>= G d _ _ (λ s. Grows-refl s.db) (λ json. on_remote-Grow G d _)))

  write_as-Grow :
      (c : G.Client) (e : Entry) (dir_name : Text)
      → Grow G d (write_as G d unicode rfc c e dir_name)
  unfolding write_as fill_entry
  write_as-Grow c e dir_name =
      Grow->>= G d (on_remote (G.create_folder c d.library_folder_id dir_name))
        (fill_entry G d unicode rfc c e dir_name) (on_remote-Grow G d _)
        (λ folder.
          Grow->>= G d (upload_all G d unicode rfc c e folder)
            (λ _. recorded G d unicode rfc e.metadata dir_name) (upload_all-Grow c e folder)
            (λ _. recorded-Grow e.metadata dir_name))

  pub write_entry-Grow : (e : Entry) → Grow G d (write_entry G d unicode rfc e)
  unfolding write_entry write_with write_beside resolved
  write_entry-Grow e =
      Grow->>= G d (drive_client G d) (write_with G d unicode rfc e)
        (drive_client-Grow G d provider)
        (λ c.
          Grow->>= G d (folder_child_names G d c d.library_folder_id)
            (write_beside G d unicode rfc c e) (folder_child_names-Grow G d c d.library_folder_id)
            (λ children.
              Grow->>= G d (resolved G d unicode rfc e children) (write_as G d unicode rfc c e)
                (λ s. Grows-refl s.db) (write_as-Grow c e)))
