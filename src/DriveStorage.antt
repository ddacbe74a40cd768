-- ===== src/DriveStorage.antt =====
-- internal/storage/drive/drive.go: the storage on Google Drive. The Drive service behind the
-- package's client is a parameter, as are the JSON encoder and what the token provider does with
-- the store; the scan cache, the dedup index and the order of the calls are the source's.
pub mod Files
pub mod Quarantine
pub mod Cache
pub mod Verified
pub mod Index
pub mod Quiet
pub mod Dedup
pub mod Grows
use paper_claw.Base.{
  ℕ, suc, ◌+◌, Text, codes, Error, Result, ok, err, Method, Bool, not, ◌&&◌, Option, none, some,
  List, [], ◌∷◌, length, is_empty, ltb, ◌==◌, contains, if◌then◌else◌,
}
use paper_claw.Base.Dict.{Dict, insert}
use paper_claw.Base.Methods.{◌>>=◌}
use paper_claw.Document.Metadata.{Metadata}
use paper_claw.Document.Storage.{Stage, LocalPdf}
use paper_claw.Document.UniqueName.{unique_dir_name}
use paper_claw.Store.Sql.{Db}

pub record FileInfo : Type 0 where
  pub id : Text
  pub name : Text
  pub size : ℕ
  pub modified_time : ℕ
  pub md5_checksum : Text

-- The contents of processing_error.json.
pub record ErrorRecord : Type 0 where
  pub stage : Stage
  pub error : Error
  pub retry_hint : Text
  pub occurred_at : ℕ

-- `client`, over what is on Drive and on the local disk. `download` writes a temporary file.
pub record Service : Type 1 where
  pub Remote : Type 0
  pub Http : Type 0
  pub Client : Type 0
  pub now : Remote → ℕ
  pub new_client : Http → Result Client
  pub list_folder : Client → Text → Text → Method Remote (List FileInfo)
  pub get_file : Client → Text → Method Remote FileInfo
  pub download : Client → Text → Method Remote (LocalPdf Remote)
  pub create_folder : Client → Text → Text → Method Remote Text
  pub upload_file : Client → Text → Text → Text → Method Remote (Unit {0})
  pub upload_bytes : Client → Text → Text → Text → Method Remote (Unit {0})
  pub move_file : Client → Text → Text → Text → Method Remote (Unit {0})
  -- What `%q` makes of a text, and `json.MarshalIndent`.
  pub quote : Text → Text
  pub marshal_metadata : Metadata → Result Text
  pub marshal_error : ErrorRecord → Result Text

-- What `New` is given beside the store.
pub record Drive (G : Service) : Type 0 where
  pub inbox_folder_id : Text
  pub library_folder_id : Text
  pub processed_folder_id : Text
  pub stable_threshold : ℕ
  -- `tp.Get()`
  pub get_http : Method Db G.Http

pub record State (G : Service) : Type 0 where
  pub client : Option G.Client
  pub scan_files : Dict FileInfo
  pub db : Db
  pub remote : G.Remote

-- `!changed`: what `ReadPDF` tests of the file's fresh metadata.
abbrev pub is_unchanged : FileInfo → FileInfo → Bool
is_unchanged cached fresh =
    fresh.size == cached.size
    && fresh.modified_time == cached.modified_time
    && not (is_empty fresh.md5_checksum)

-- The loop of `ListInbox`: a file with no checksum, or modified after `now - threshold`, is passed
-- over.
abbrev pub is_stable : ℕ → ℕ → FileInfo → Bool
is_stable now threshold f =
    not (is_empty f.md5_checksum) && not (ltb now (f.modified_time + threshold))

unfoldable pub scan : ℕ → ℕ → List FileInfo → Dict FileInfo → List Text × Dict FileInfo
scan now threshold [] cache = ([], cache)
scan now threshold (f ∷ fs) cache =
    let stable = is_stable now threshold f in
    let rest = scan now threshold fs (if stable then insert f.name f cache else cache) in
    (if stable then f.name ∷ rest.0 else rest.0, rest.1)

-- `UniqueDirName` with the names in the folder; `Index.entry_name_lem` shows that the fuel lasts.
unfoldable pub entry_name : List Text → Text → Result Text
entry_name children base = elim (unique_dir_name (suc (length children)) base (contains children)) [
  | none ↦ err (codes "no free name")
  | some name ↦ ok name
]

module _ {G : Service} where
  unfoldable pub on_remote : {A : Type 0} → Method G.Remote A → Method (State G) A
  on_remote m s = ((m s.remote).0, record s { remote = (m s.remote).1 })

  unfoldable pub on_db : {A : Type 0} → Method Db A → Method (State G) A
  on_db m s = ((m s.db).0, record s { db = (m s.db).1 })

  unfoldable pub pure : {A : Type 0} → A → Method (State G) A
  pure a s = (ok a, s)

  unfoldable pub fail : {A : Type 0} → Error → Method (State G) A
  fail e s = (err e, s)

module _ (G : Service) (d : Drive G) where
  unfoldable pub keep_client : Result G.Client → Method (State G) G.Client
  keep_client (err e) s = (err e, s)
  keep_client (ok c) s = (ok c, record s { client = some c })

  -- `SetHTTPClient`
  unfoldable pub set_http_client : G.Http → Method (State G) (Unit {0})
  set_http_client http = keep_client (G.new_client http) >>= λ _. pure tt

  unfoldable pub client_or_new : Option G.Client → Method (State G) G.Client
  client_or_new (some c) s = (ok c, s)
  client_or_new none s = (on_db d.get_http >>= λ http. keep_client (G.new_client http)) s

  unfoldable pub drive_client : Method (State G) G.Client
  unfolding client_or_new
  drive_client s = client_or_new s.client s

  unfoldable pub listed : List FileInfo → Method (State G) (List Text)
  listed files s =
      let found = scan (G.now s.remote) d.stable_threshold files [] in
      (ok found.0, record s { scan_files = found.1 })

  unfoldable pub list_stable : G.Client → Method (State G) (List Text)
  list_stable c = on_remote (G.list_folder c d.inbox_folder_id (codes "application/pdf")) >>= listed

  unfoldable pub list_inbox : Method (State G) (List Text)
  list_inbox = drive_client >>= list_stable
