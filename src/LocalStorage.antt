-- ===== src/LocalStorage.antt =====
-- internal/storage/local/local.go: the storage in directories of the local disk.
-- The operating system is a parameter. What can be read depends on the disk's state alone, which
-- the calls that write change; no other process touches the disk in between.
pub mod Path
pub mod Disk
pub mod Entries
pub mod Written
pub mod Moves
pub mod Runs
pub mod Duplicates
use paper_claw.Base.{
  ℕ, Text, codes, Error, Result, ok, err, Method, Bool, false, not, ◌&&◌, ◌||◌, Option, none, some,
  List, [], ◌∷◌, ◌++◌, take, text_eq, is_empty, if◌then◌else◌,
}
use paper_claw.Base.Methods.{◌>>=◌}
use paper_claw.Document.FileName.{ext, stem, is_pdf}
use paper_claw.Document.Metadata.{Metadata}
use paper_claw.Document.Slug.{format_dir_name}
use paper_claw.Document.Storage.{
  Stage, ocr, classify, schema_validate, library_write, Entry, ProcessingError, LocalPdf, Storage,
}
use paper_claw.Document.UniqueName.{unique_dir_name}
use paper_claw.DriveStorage.{ErrorRecord}
use paper_claw.LocalStorage.Path.{join_path}

-- `fs.DirEntry`
pub record DirEntry : Type 0 where
  pub name : Text
  pub is_dir : Bool

-- Packages `os`, `io`, `crypto/sha256` and `encoding/json`. `stat` says whether `os.Stat` succeeds;
-- `open_to_read` is the error of opening a file to read, `create` opens one to write and empties it, `copy`
-- is `io.Copy` between the two, and `close` closes the one that was written.
pub record Os : Type 1 where
  pub Disk : Type 0
  pub read_dir : Disk → Text → Result (List DirEntry)
  pub is_not_exist : Error → Bool
  pub stat : Disk → Text → Bool
  pub read_file : Disk → Text → Result Text
  pub open_to_read : Disk → Text → Option Error
  pub mkdir_all : Text → Method Disk (Unit {0})
  pub write_file : Text → Text → Method Disk (Unit {0})
  pub create : Text → Method Disk (Unit {0})
  pub copy : Text → Text → Method Disk (Unit {0})
  pub close : Text → Method Disk (Unit {0})
  pub rename : Text → Text → Method Disk (Unit {0})
  pub remove : Text → Method Disk (Unit {0})
  -- A line on the standard error.
  pub warn : Text → Disk → Disk
  pub hex_digest : Text → Text
  pub marshal_metadata : Metadata → Result Text
  pub unmarshal_metadata : Text → Result Metadata
  pub marshal_error : ErrorRecord → Result Text

-- `Storage` of the source.
pub record Local : Type 0 where
  pub inbox_dir : Text
  pub library_dir : Text
  pub processed_dir : Text

unfoldable pub retry_hint : Stage → Text
retry_hint ocr = codes "Check that the PDF contains extractable text or try re-scanning."
retry_hint classify = codes "Check ANTHROPIC_API_KEY and network connectivity; re-run process."
retry_hint schema_validate = codes "LLM returned unexpected output; re-run process or file a bug."
retry_hint library_write = codes "Check disk space and permissions; re-run process."

-- A directory that is skipped: what is no directory, and the quarantine.
unfoldable pub is_entry : DirEntry → Bool
is_entry e = e.is_dir && not (text_eq e.name (codes "_quarantine"))

unfoldable pub pdf_names : List DirEntry → List Text
pdf_names [] = []
pdf_names (e ∷ es) =
    let rest = pdf_names es in if not e.is_dir && is_pdf e.name then e.name ∷ rest else rest

module _ (O : Os) where
  unfoldable pub load_metadata : O.Disk → Text → Result Metadata
  load_metadata s path = elim (O.read_file s path) [
    | err e ↦ err e
    | ok data_ ↦ O.unmarshal_metadata data_
  ]

  -- The error of opening comes first, then that of reading.
  unfoldable pub hash_file : O.Disk → Text → Result Text
  hash_file s path = elim (O.open_to_read s path) [
    | some e ↦ err e
    | none ↦ elim (O.read_file s path) [ err e ↦ err e | ok bytes ↦ ok (O.hex_digest bytes) ]
  ]

  -- After `copy`, whose error closes the file and passes over the error of that.
  copied : Text → Result (Unit {0}) × O.Disk → Result (Unit {0}) × O.Disk
  copied dst (err e, s) = (err e, (O.close dst s).1)
  copied dst (ok u, s) = O.close dst s

  copy_opened : Text → Text → Option Error → Method O.Disk (Unit {0})
  unfolding copied
  copy_opened src dst (some e) s = (err e, s)
  copy_opened src dst none s = (O.create dst >>= λ _ s. copied dst (O.copy src dst s)) s

  unfoldable pub copy_file : Text → Text → Method O.Disk (Unit {0})
  unfolding copy_opened
  copy_file src dst s = copy_opened src dst (O.open_to_read s src) s

  -- The loop of `IsDuplicate`.
  unfoldable pub any_with_hash : Text → Text → O.Disk → List DirEntry → Bool
  unfolding load_metadata
  any_with_hash dir hash s [] = false
  any_with_hash dir hash s (e ∷ es) =
      let rest = any_with_hash dir hash s es in
      if is_entry e
      then (elim (load_metadata s (join_path (join_path dir e.name) (codes "metadata.json"))) [
        | err x ↦ rest
        | ok m ↦ text_eq m.content_hash hash || rest
      ])
      else rest

  module _ (d : Local) where
    listed : Result (List DirEntry) → Result (List Text)
    listed (err e) = err (codes "reading inbox: " ++ e)
    listed (ok entries) = ok (pdf_names entries)

    unfoldable pub list_inbox : Method O.Disk (List Text)
    unfolding listed
    list_inbox s = (listed (O.read_dir s d.inbox_dir), s)

    hashed : Text → Result Text → Result (LocalPdf O.Disk)
    hashed path (err e) = err e
    hashed path (ok hash) = ok record { local_path = path; content_hash = hash; cleanup = λ s. s }

    unfoldable pub read_pdf : Text → Method O.Disk (LocalPdf O.Disk)
    unfolding hashed
    read_pdf name s = let path = join_path d.inbox_dir name in (hashed path (hash_file s path), s)

    duplicate_in : Text → O.Disk → Result (List DirEntry) → Result Bool
    duplicate_in hash s (err e) = if O.is_not_exist e then ok false else err e
    duplicate_in hash s (ok entries) = ok (any_with_hash d.library_dir hash s entries)

    unfoldable pub is_duplicate : Text → Method O.Disk Bool
    unfolding duplicate_in
    is_duplicate hash s = (duplicate_in hash s (O.read_dir s d.library_dir), s)

    -- The sidecar that `json.MarshalIndent` makes of the metadata.
    write_metadata : Metadata → Text → Method O.Disk (Unit {0})
    write_metadata m path =
        (λ s. (O.marshal_metadata m, s)) >>= λ json. O.write_file path (json ++ (10 ∷ []))

    unfoldable pub fill_entry : Entry → Text → Method O.Disk (Unit {0})
    unfolding write_metadata
    fill_entry e dir = O.mkdir_all dir >>= λ _.
        copy_file e.pdf_path (join_path dir (codes "document.pdf")) >>= λ _.
        O.write_file (join_path dir (codes "transcript.md")) e.transcript >>= λ _.
        write_metadata e.metadata (join_path dir (codes "metadata.json"))

    unfoldable pub write_as : Entry → Option Text → Method O.Disk Text
    write_as e none s = (err (codes "no free name"), s)
    write_as e (some dir_name) s =
        (fill_entry e (join_path d.library_dir dir_name) >>= λ _ s'. (ok dir_name, s')) s

    -- `meta.FileDescription`, or the source's filename without its extension.
    unfoldable pub description : Metadata → Text
    description m =
        if is_empty m.file_description then stem m.source_filename else m.file_description

    -- What the closure that `UniqueDirName` is given answers.
    unfoldable pub taken : O.Disk → Text → Bool
    taken s candidate = O.stat s (join_path d.library_dir candidate)

    -- `rounds` bounds the loop of `UniqueDirName`.
    module _ (rounds : ℕ) (unicode : ℕ → ℕ) where
      abbrev pub entry_base : Metadata → Text
      entry_base m = format_dir_name unicode m.document_date m.vendor (description m)

      unfoldable pub write_entry : Entry → Method O.Disk Text
      write_entry e s = write_as e (unique_dir_name rounds (entry_base e.metadata) (taken s)) s

    -- `fmt.Sprintf("%s-%s%s", stem, contentHash[:8], ext)`; a shorter hash would panic.
    unfoldable pub second_name : Text → Text → Text
    second_name name hash = stem name ++ (b'-' ∷ (take 8 hash ++ ext name))

    unfoldable pub destination : Text → Text → O.Disk → Text
    destination name hash s =
        let dst = join_path d.processed_dir name in
        if O.stat s dst then join_path d.processed_dir (second_name name hash) else dst

    -- After the copy that replaces a rename that failed with `cause`.
    fallen_back : Text → Text → Error → Result (Unit {0}) × O.Disk → O.Disk
    fallen_back name src cause (ok u, s) = (O.remove src s).1
    fallen_back name src cause (err e, s) =
        O.warn (codes "warning: could not move " ++ (name ++ (codes " to processed: " ++ cause))) s

    renamed : Text → Text → Text → Result (Unit {0}) × O.Disk → O.Disk
    unfolding fallen_back
    renamed name src dst (ok u, s) = s
    renamed name src dst (err cause, s) = fallen_back name src cause (copy_file src dst s)

    moved : Text → Text → Result (Unit {0}) × O.Disk → O.Disk
    unfolding renamed
    moved name hash (err e, s) = O.warn (codes "warning: could not create processed dir: " ++ e) s
    moved name hash (ok u, s) =
        let src = join_path d.inbox_dir name in
        let dst = destination name hash s in renamed name src dst (O.rename src dst s)

    -- Its failures are warnings: the error is always nil.
    unfoldable pub move_to_processed : Text → Text → O.Disk → Option Error × O.Disk
    unfolding moved
    move_to_processed name hash s = (none, moved name hash (O.mkdir_all d.processed_dir s))

    error_written : Text → Result Text → O.Disk → O.Disk
    error_written path (err e) s = s
    error_written path (ok json) s = (O.write_file path (json ++ (10 ∷ [])) s).1

    put_aside : Text → Text → ProcessingError → Result (Unit {0}) × O.Disk → Option Error × O.Disk
    unfolding error_written
    put_aside name dir pe (err e, s) = (some e, s)
    put_aside name dir pe (ok u, s) =
        let copied_state =
          (copy_file (join_path d.inbox_dir name) (join_path dir (codes "document.pdf")) s).1 in
        let json = O.marshal_error record {
          stage = pe.stage;
          error = pe.cause;
          retry_hint = retry_hint pe.stage;
          occurred_at = pe.occurred_at;
        } in
        (none, error_written (join_path dir (codes "processing_error.json")) json copied_state)

    unfoldable pub quarantine_dir : Text → Text
    quarantine_dir name = join_path (join_path d.library_dir (codes "_quarantine")) name

    unfoldable pub quarantine : Text → ProcessingError → O.Disk → Option Error × O.Disk
    unfolding put_aside
    quarantine name pe s =
        let dir = quarantine_dir name in put_aside name dir pe (O.mkdir_all dir s)

    -- The local directories as the pipeline's storage.
    abbrev pub local_storage : ℕ → (ℕ → ℕ) → Storage
    local_storage rounds unicode = record {
      State = O.Disk;
      list_inbox = list_inbox;
      read_pdf = read_pdf;
      is_duplicate = is_duplicate;
      write_entry = write_entry rounds unicode;
      move_to_processed = move_to_processed;
      quarantine = quarantine;
    }
