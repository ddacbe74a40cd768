-- ===== src/DriveStorage/Quarantine.antt =====
-- internal/storage/drive/drive.go: `Quarantine`, and the storage that the pipeline is given.
use paper_claw.Base.{
  ℕ, Text, codes, Error, Result, ok, err, error_of, Method, Option, none, some, List, [], ◌∷◌, ◌++◌,
  contains, text_eq, if◌then◌else◌,
}
use paper_claw.Base.Dict.{lookup}
use paper_claw.Base.Methods.{◌>>=◌}
use paper_claw.Document.Storage.{
  Stage, ocr, classify, schema_validate, library_write, ProcessingError, LocalPdf, Storage,
}
use paper_claw.Store.Sql.{Rfc3339}
use paper_claw.DriveStorage.{
  FileInfo, Service, Drive, State, on_remote, pure, fail, drive_client, list_inbox,
}
use paper_claw.DriveStorage.Files.{
  folder_child_names, read_pdf, is_duplicate, move_to_processed, write_entry,
}

pub retry_hint : Stage → Text
retry_hint ocr = codes "Check that the PDF contains extractable text or try re-scanning."
retry_hint classify = codes "Check ANTHROPIC_API_KEY and network connectivity; re-run process."
retry_hint schema_validate = codes "LLM returned unexpected output; re-run process or file a bug."
retry_hint library_write = codes "Check Drive permissions and network connectivity; re-run process."

abbrev pub quarantine_name : Text
quarantine_name = codes "_quarantine"

module _ (G : Service) (d : Drive G) where
  unfoldable pub quarantine_id : List FileInfo → Method (State G) Text
  quarantine_id [] = fail (codes "drive: _quarantine folder listed but not found")
  quarantine_id (f ∷ fs) = if text_eq f.name quarantine_name then pure f.id else quarantine_id fs

  unfoldable pub ensure_quarantine_folder : G.Client → Method (State G) Text
  unfolding quarantine_id
  ensure_quarantine_folder c = folder_child_names G d c d.library_folder_id >>= λ children.
      if contains children quarantine_name
      then (on_remote
            (G.list_folder c d.library_folder_id (codes "application/vnd.google-apps.folder"))
          >>= quarantine_id)
      else on_remote (G.create_folder c d.library_folder_id quarantine_name)

  -- The upload of processing_error.json, whose failure is passed over.
  unfoldable pub upload_json : G.Client → Text → Result Text → State G → State G
  upload_json c folder (err e) s = s
  upload_json c folder (ok json) s =
      (on_remote (G.upload_bytes c folder (codes "processing_error.json") (json ++ 10 ∷ [])) s).1

  unfoldable pub upload_error : G.Client → Text → ProcessingError → State G → State G
  unfolding upload_json retry_hint
  upload_error c folder pe = upload_json c folder (
      G.marshal_error record {
        stage = pe.stage;
        error = pe.cause;
        retry_hint = retry_hint pe.stage;
        occurred_at = pe.occurred_at;
      })

  -- After the download; its cleanup is deferred to the end of the method.
  unfoldable pub upload_copy :
      G.Client → Text → ProcessingError → Result (LocalPdf G.Remote) × State G → State G
  unfolding upload_error
  upload_copy c folder pe (err e, s) = upload_error c folder pe s
  upload_copy c folder pe (ok pdf, s) =
      let uploaded =
        (on_remote (G.upload_file c folder (codes "document.pdf") pdf.local_path) s).1 in
      let s' = upload_error c folder pe uploaded in record s' { remote = pdf.cleanup s'.remote }

  unfoldable pub fill_folder :
      G.Client → Text → ProcessingError → Option FileInfo → State G → State G
  unfolding upload_copy
  fill_folder c folder pe none s = upload_error c folder pe s
  fill_folder c folder pe (some f) s = upload_copy c folder pe (on_remote (G.download c f.id) s)

  unfoldable pub quarantine : Text → ProcessingError → Method (State G) (Unit {0})
  unfolding fill_folder
  quarantine name pe = drive_client G d >>= λ c. ensure_quarantine_folder c >>= λ q_folder.
      on_remote (G.create_folder c q_folder name) >>= λ folder.
      λ s. (ok tt, fill_folder c folder pe (lookup name s.scan_files) s)

  abbrev pub failed : Result (Unit {0}) × State G → Option Error × State G
  failed (r, s) = (error_of r, s)

  -- The Drive backend as the pipeline's storage.
  abbrev pub drive_storage : (ℕ → ℕ) → Rfc3339 → Storage
  drive_storage unicode rfc = record {
    State = State G;
    list_inbox = list_inbox G d;
    read_pdf = read_pdf G d;
    is_duplicate = is_duplicate G d;
    write_entry = write_entry G d unicode rfc;
    move_to_processed = λ name _ s. failed (move_to_processed G d name s);
    quarantine = λ name pe s. failed (quarantine name pe s);
  }
