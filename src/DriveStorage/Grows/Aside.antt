-- ===== src/DriveStorage/Grows/Aside.antt =====
-- internal/storage/drive/drive.go: Quarantine takes no hash out of the index.
use paper_claw.Base.{
  Text, Result, ok, err, Option, none, some, List, [], ◌∷◌, Bool-cases, inl, inr, ◌≡◌, refl, ap,
  contains, text_eq, codes,
}
use paper_claw.Base.Dict.{lookup}
use paper_claw.Document.Storage.{ProcessingError, LocalPdf}
use paper_claw.Store.Grows.{Grows-tables}
use paper_claw.DriveStorage.{Service, Drive, State, FileInfo, on_remote, drive_client}
use paper_claw.DriveStorage.Files.{folder_child_names}
use paper_claw.DriveStorage.Quarantine.{
  quarantine_id, ensure_quarantine_folder, quarantine_name, upload_json, upload_error, upload_copy,
  fill_folder, quarantine,
}
use paper_claw.DriveStorage.Grows.Calls.{
  ProviderGrows, Grow, Grow->>=, on_remote-Grow, pure-Grow, fail-Grow, folder_child_names-Grow,
  drive_client-Grow,
}

module _ (G : Service) (d : Drive G) (provider : ProviderGrows G d) where
  quarantine_id-Grow : (fs : List FileInfo) → Grow G d (quarantine_id G d fs)
  unfolding quarantine_id
  quarantine_id-Grow [] s = fail-Grow G d _ _ s
  quarantine_id-Grow (f ∷ fs) s = elim (Bool-cases (text_eq f.name quarantine_name)) [
    | inl e ↦ rw e (pure-Grow G d f.id s)
    | inr e ↦ rw e (quarantine_id-Grow fs s)
  ]

  ensure_quarantine_folder-Grow : (c : G.Client) → Grow G d (ensure_quarantine_folder G d c)
  unfolding ensure_quarantine_folder
  ensure_quarantine_folder-Grow c =
      Grow->>= G d (folder_child_names G d c d.library_folder_id) _
        (folder_child_names-Grow G d c d.library_folder_id)
        (λ children s. elim (Bool-cases (contains children quarantine_name)) [
          | inl e ↦ rw e (
              Grow->>= G d (on_remote (G.list_folder c d.library_folder_id _)) (quarantine_id G d)
                (on_remote-Grow G d _) quarantine_id-Grow s)
          | inr e ↦
              rw e (on_remote-Grow G d (G.create_folder c d.library_folder_id quarantine_name) s)
        ])

  upload_json-db :
      (c : G.Client) (folder : Text) (json : Result Text) (s : State G)
      → (upload_json G d c folder json s).db ≡ s.db
  unfolding upload_json on_remote
  upload_json-db c folder (err e) s = refl
  upload_json-db c folder (ok json) s = refl

  upload_error-db :
      (c : G.Client) (folder : Text) (pe : ProcessingError) (s : State G)
      → (upload_error G d c folder pe s).db ≡ s.db
  unfolding upload_error
  upload_error-db c folder pe s = upload_json-db c folder _ s

  upload_copy-db :
      (c : G.Client) (folder : Text) (pe : ProcessingError)
      (r : Result (LocalPdf G.Remote) × State G)
      → (upload_copy G d c folder pe r).db ≡ r.1.db
  unfolding upload_copy on_remote
  upload_copy-db c folder pe (err e, s) = upload_error-db c folder pe s
  upload_copy-db c folder pe (ok pdf, s) =
      upload_error-db c folder pe
        (on_remote (G.upload_file c folder (codes "document.pdf") pdf.local_path) s).1

  fill_folder-db :
      (c : G.Client) (folder : Text) (pe : ProcessingError) (found : Option FileInfo) (s : State G)
      → (fill_folder G d c folder pe found s).db ≡ s.db
  unfolding fill_folder on_remote
  fill_folder-db c folder pe none s = upload_error-db c folder pe s
  fill_folder-db c folder pe (some f) s =
      upload_copy-db c folder pe (on_remote (G.download c f.id) s)

  pub quarantine-Grow : (name : Text) (pe : ProcessingError) → Grow G d (quarantine G d name pe)
  unfolding quarantine
  quarantine-Grow name pe = Grow->>= G d (drive_client G d) _ (drive_client-Grow G d provider) (λ c.
      Grow->>= G d (ensure_quarantine_folder G d c) _ (ensure_quarantine_folder-Grow c) (λ q_folder.
        Grow->>= G d (on_remote (G.create_folder c q_folder name)) _ (on_remote-Grow G d _)
          (λ folder s.
            Grows-tables s.db _
              (ap (λ db. db.tables) (fill_folder-db c folder pe (lookup name s.scan_files) s)))))
