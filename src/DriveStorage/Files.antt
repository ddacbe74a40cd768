-- ===== src/DriveStorage/Files.antt =====
-- internal/storage/drive/drive.go: the methods of `Storage` on one file of the inbox.
use paper_claw.Base.{
  ℕ, Text, codes, Method, Bool, Option, none, some, List, ◌++◌, map, if◌then◌else◌, [], ◌∷◌,
}
use paper_claw.Base.Dict.{lookup}
use paper_claw.Base.Methods.{◌>>=◌, relabel}
use paper_claw.Document.Metadata.{Metadata}
use paper_claw.Document.Storage.{Entry, LocalPdf}
use paper_claw.Document.Slug.{format_dir_name}
use paper_claw.Store.Sql.{Rfc3339}
use paper_claw.Store.Documents.{DocumentRecord, has_hash, put_document}
use paper_claw.DriveStorage.{
  FileInfo, Service, Drive, State, is_unchanged, entry_name, on_remote, on_db, pure, fail,
  drive_client,
}

-- `fi, _ := s.scanFiles[name]`: the zero value where there is none.
unfoldable pub cached_id : Option FileInfo → Text
cached_id none = []
cached_id (some f) = f.id

module _ (G : Service) (d : Drive G) where
  -- The cleanup function removes the temporary file.
  unfoldable pub local_pdf : LocalPdf G.Remote → LocalPdf (State G)
  local_pdf pdf = record {
    local_path = pdf.local_path;
    content_hash = pdf.content_hash;
    cleanup = λ s. record s { remote = pdf.cleanup s.remote };
  }

  unfoldable pub verified :
      Text → G.Client → FileInfo → FileInfo → Method (State G) (LocalPdf (State G))
  unfolding local_pdf on_remote pure fail
  verified name c cached fresh =
      if is_unchanged cached fresh
      then (on_remote (G.download c cached.id) >>= λ pdf. pure (local_pdf pdf))
      else fail (
          codes "drive: "
          ++ (G.quote name ++ codes " changed between list and download — skipping"))

  unfoldable pub refetched : Text → G.Client → FileInfo → Method (State G) FileInfo
  refetched name c cached s =
      relabel (codes "drive: re-fetching " ++ (G.quote name ++ codes ": "))
        (on_remote (G.get_file c cached.id) s)

  unfoldable pub read_cached :
      Text → G.Client → Option FileInfo → Method (State G) (LocalPdf (State G))
  unfolding verified
  read_cached name c none =
      fail (codes "drive: " ++ (G.quote name ++ codes " not found in scan cache"))
  read_cached name c (some cached) = refetched name c cached >>= verified name c cached

  unfoldable pub read_with : Text → G.Client → Method (State G) (LocalPdf (State G))
  read_with name c s = read_cached name c (lookup name s.scan_files) s

  unfoldable pub read_pdf : Text → Method (State G) (LocalPdf (State G))
  unfolding read_with
  read_pdf name = drive_client G d >>= read_with name

  unfoldable pub is_duplicate : Text → Method (State G) Bool
  is_duplicate hash = on_db (has_hash hash)

  unfoldable pub move_cached : Text → G.Client → Option FileInfo → Method (State G) (Unit {0})
  move_cached name c none =
      fail (codes "drive: " ++ (G.quote name ++ codes " not in scan cache for MoveToProcessed"))
  move_cached name c (some f) =
      on_remote (G.move_file c f.id d.inbox_folder_id d.processed_folder_id)

  unfoldable pub move_with : Text → G.Client → Method (State G) (Unit {0})
  move_with name c s = move_cached name c (lookup name s.scan_files) s

  unfoldable pub move_to_processed : Text → Method (State G) (Unit {0})
  move_to_processed name = drive_client G d >>= move_with name

  -- `folderChildNames`, whose map is the list of its keys.
  unfoldable pub folder_child_names : G.Client → Text → Method (State G) (List Text)
  folder_child_names c folder =
      on_remote (G.list_folder c folder []) >>= λ items. pure (map (λ f. f.name) items)

  module _ (unicode : ℕ → ℕ) (rfc : Rfc3339) where
    abbrev pub entry_base : Metadata → Text
    entry_base m = format_dir_name unicode m.document_date m.vendor m.file_description

    -- The record that `WriteEntry` puts into the index.
    unfoldable pub document_record : Metadata → Text → State G → DocumentRecord
    document_record m dir_name s = record {
      content_hash = m.content_hash;
      entry_name = dir_name;
      drive_file_id = cached_id (lookup m.source_filename s.scan_files);
      source_filename = m.source_filename;
      processed_at = G.now s.remote;
    }

    -- The method's end: the row of the index, and the entry's name.
    unfoldable pub stored_record : Metadata → Text → Method (State G) (Unit {0})
    stored_record m dir_name s =
        relabel (codes "drive: recording document in store: ")
          (on_db (put_document rfc (document_record m dir_name s)) s)

    unfoldable pub recorded : Metadata → Text → Method (State G) Text
    recorded m dir_name = stored_record m dir_name >>= λ _. pure dir_name

    unfoldable pub upload_all : G.Client → Entry → Text → Method (State G) (Unit {0})
    upload_all c e folder =
        on_remote (G.upload_file c folder (codes "document.pdf") e.pdf_path) >>= λ _.
        on_remote (G.upload_bytes c folder (codes "transcript.md") e.transcript) >>= λ _.
        (λ s. (G.marshal_metadata e.metadata, s)) >>= λ json.
        on_remote (G.upload_bytes c folder (codes "metadata.json") (json ++ 10 ∷ []))

    unfoldable pub fill_entry : G.Client → Entry → Text → Text → Method (State G) Text
    fill_entry c e dir_name folder = upload_all c e folder >>= λ _. recorded e.metadata dir_name

    unfoldable pub write_as : G.Client → Entry → Text → Method (State G) Text
    write_as c e dir_name =
        on_remote (G.create_folder c d.library_folder_id dir_name) >>= fill_entry c e dir_name

    unfoldable pub resolved : Entry → List Text → Method (State G) Text
    resolved e children s = (entry_name children (entry_base e.metadata), s)

    unfoldable pub write_beside : G.Client → Entry → List Text → Method (State G) Text
    unfolding resolved
    write_beside c e children = resolved e children >>= write_as c e

    unfoldable pub write_with : Entry → G.Client → Method (State G) Text
    write_with e c = folder_child_names c d.library_folder_id >>= write_beside c e

    unfoldable pub write_entry : Entry → Method (State G) Text
    write_entry e = drive_client G d >>= write_with e
