-- ===== src/Document/Storage.antt =====
-- internal/document/storage.go: the storage interface of the pipeline, and what goes through it.
use paper_claw.Base.{ℕ, Text, Bool, Error, Method, Option, List}
use paper_claw.Document.Metadata.{Metadata}

-- The pipeline's stages, by the names that the code gives them.
pub data Stage : Type 0 where
  ocr classify schema_validate library_write : Stage

pub record Entry : Type 0 where
  pub pdf_path : Text
  pub transcript : Text
  pub metadata : Metadata

pub record ProcessingError : Type 0 where
  pub stage : Stage
  pub cause : Error
  pub occurred_at : ℕ

pub data Status : Type 0 where
  processed skipped quarantined : Status

-- `Result` of the source. A field that the code leaves empty or nil is `[]` or `none`.
pub record Outcome : Type 0 where
  pub status : Status
  pub hash : Text
  pub entry_name : Text
  pub stage : Option Stage
  pub cause : Option Error
  pub move_err : Option Error

-- What `ReadPDF` returns beside its error. `cleanup` may remove a temporary file.
pub record LocalPdf (State : Type 0) : Type 0 where
  pub local_path : Text
  pub content_hash : Text
  pub cleanup : State → State

-- A backend, with the state that its methods change. An action with no result but an error returns
-- the error, if any.
pub record Storage : Type 1 where
  pub State : Type 0
  pub list_inbox : Method State (List Text)
  pub read_pdf : Text → Method State (LocalPdf State)
  pub is_duplicate : Text → Method State Bool
  pub write_entry : Entry → Method State Text
  pub move_to_processed : Text → Text → State → Option Error × State
  pub quarantine : Text → ProcessingError → State → Option Error × State
