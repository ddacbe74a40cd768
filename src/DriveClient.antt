-- ===== src/DriveClient.antt =====
-- internal/storage/drive/client.go: the wrapper of the Drive API, which the Drive storage uses, and
-- the calls of the changes API in changes.go.
-- The generated API client, the operating system's temporary files and the hash are parameters. The
-- loop over the pages of a listing has no bound in Go; here it takes fuel, and DriveClient/Pages.antt
-- shows that as many rounds as there are pages are enough.
pub mod Pages
pub mod Temporary
pub mod Changes
use paper_claw.Base.{
  ℕ, zero, suc, Text, codes, Error, Result, ok, err, Method, Option, none, some, List, [], ◌∷◌,
  ◌++◌, map, is_empty, if◌then◌else◌,
}
use paper_claw.Base.Methods.{◌>>=◌, relabel}
use paper_claw.Document.Metadata.{Metadata}
use paper_claw.Document.Storage.{LocalPdf}
use paper_claw.Store.Sql.{Rfc3339}
use paper_claw.DriveStorage.{FileInfo, ErrorRecord, Service}

-- A file as the API returns it, and a page of them.
pub record DriveFile : Type 0 where
  pub id : Text
  pub name : Text
  pub size : ℕ
  pub modified_time : Text
  pub md5_checksum : Text

pub record Page : Type 0 where
  pub files : List DriveFile
  pub next_page_token : Text

-- What is sent to create a file; a folder has its own MIME type.
pub record NewFile : Type 0 where
  pub name : Text
  pub mime_type : Text
  pub parent : Text

-- What is sent to watch the changes; the expiration is in milliseconds.
pub record NewChannel : Type 0 where
  pub id : Text
  pub address : Text
  pub token : Text
  pub expiration : ℕ

pub record Granted : Type 0 where
  pub id : Text
  pub resource_id : Text
  pub expiration : ℕ

-- `copy_hashed` is the copy of a response into a temporary file and a hash, whose digest it returns;
-- `open_local` is the error of opening a local file.
pub record Api : Type 1 where
  pub Remote : Type 0
  pub Http : Type 0
  pub Svc : Type 0
  pub Body : Type 0
  pub now : Remote → ℕ
  pub new_service : Http → Result Svc
  pub list_page : Svc → Text → Text → Method Remote Page
  pub get_metadata : Svc → Text → Method Remote DriveFile
  pub get_media : Svc → Text → Method Remote Body
  pub create_file : Svc → NewFile → Option Text → Method Remote Text
  pub update_parents : Svc → Text → Text → Text → Method Remote (Unit {0})
  pub start_page_token : Svc → Method Remote Text
  pub watch : Svc → Text → NewChannel → Method Remote Granted
  pub stop : Svc → Text → Text → Method Remote (Unit {0})
  pub create_temp : Text → Method Remote Text
  pub copy_hashed : Text → Body → Method Remote Text
  pub write_temp : Text → Text → Method Remote (Unit {0})
  pub close_temp : Text → Method Remote (Unit {0})
  pub remove_temp : Text → Remote → Remote
  pub open_local : Text → Remote → Option Error
  pub quote : Text → Text

-- `mt, _ := time.Parse(time.RFC3339, …)`: the zero time for what is no time.
unfoldable pub parsed_time : Rfc3339 → Text → ℕ
parsed_time rfc t = elim (rfc.parse t) [ none ↦ 0 | some time ↦ time ]

unfoldable pub file_info : Rfc3339 → DriveFile → FileInfo
file_info rfc f = record {
  id = f.id;
  name = f.name;
  size = f.size;
  modified_time = parsed_time rfc f.modified_time;
  md5_checksum = f.md5_checksum;
}

-- `fmt.Sprintf("'%s' in parents and trashed = false", folderID)`, and the filter by MIME type.
unfoldable pub folder_query : Text → Text → Text
folder_query folder mime =
    let q = b'\'' ∷ (folder ++ codes "' in parents and trashed = false") in
    if is_empty mime then q else q ++ (codes " and mimeType = '" ++ (mime ++ (b'\'' ∷ [])))

module _ (A : Api) where
  unfoldable pub new_client : A.Http → Result A.Svc
  new_client http = elim (A.new_service http) [
    | err e ↦ err (codes "drive: creating service: " ++ e)
    | ok svc ↦ ok svc
  ]

  module _ (rfc : Rfc3339) where
    unfoldable pub infos : Page → List FileInfo
    infos page = map (file_info rfc) page.files

    with_earlier :
        List FileInfo → Result (List FileInfo) × A.Remote → Result (List FileInfo) × A.Remote
    with_earlier files (err e, s) = (err e, s)
    with_earlier files (ok more, s) = (ok (files ++ more), s)

    after_page :
        Text
        → (Text → Method A.Remote (List FileInfo))
        → Result Page × A.Remote
        → Result (List FileInfo) × A.Remote
    unfolding with_earlier
    after_page folder rest (err e, s) =
        (err (codes "drive: listing folder " ++ (folder ++ (codes ": " ++ e))), s)
    after_page folder rest (ok page, s) =
        if is_empty page.next_page_token
        then (ok (infos page), s)
        else with_earlier (infos page) (rest page.next_page_token s)

    unfoldable pub list_pages : ℕ → A.Svc → Text → Text → Text → Method A.Remote (List FileInfo)
    unfolding after_page
    list_pages zero c folder q token s = (err (codes "too many pages"), s)
    list_pages (suc fuel) c folder q token s =
        after_page folder (list_pages fuel c folder q) (A.list_page c q token s)

    unfoldable pub list_folder : ℕ → A.Svc → Text → Text → Method A.Remote (List FileInfo)
    list_folder fuel c folder mime = list_pages fuel c folder (folder_query folder mime) []

    -- The fresh metadata that `ReadPDF` fetches.
    unfoldable pub get_file : A.Svc → Text → Method A.Remote FileInfo
    get_file c id = A.get_metadata c id >>= λ f s. (ok (file_info rfc f), s)

  abbrev pub downloaded : Text → Text → LocalPdf A.Remote
  downloaded tmp hash = record {
    local_path = tmp;
    content_hash = hash;
    cleanup = A.remove_temp tmp;
  }

  -- After `tmp.Close`; its failure removes the file.
  closed : Text → Text → Result (Unit {0}) × A.Remote → Result (LocalPdf A.Remote) × A.Remote
  closed tmp hash (err e, s) = (err (codes "drive: closing temp file: " ++ e), A.remove_temp tmp s)
  closed tmp hash (ok u, s) = (ok (downloaded tmp hash), s)

  -- After the copy; its failure closes and removes the file.
  fetched : Text → Result Text × A.Remote → Result (LocalPdf A.Remote) × A.Remote
  unfolding closed
  fetched tmp (err e, s) =
      (err (codes "drive: writing temp file: " ++ e), A.remove_temp tmp (A.close_temp tmp s).1)
  fetched tmp (ok hash, s) = closed tmp hash (A.close_temp tmp s)

  in_temp : A.Body → Result Text × A.Remote → Result (LocalPdf A.Remote) × A.Remote
  unfolding fetched
  in_temp body (err e, s) = (err (codes "drive: temp file: " ++ e), s)
  in_temp body (ok tmp, s) = fetched tmp (A.copy_hashed tmp body s)

  got_body : Text → Result A.Body × A.Remote → Result (LocalPdf A.Remote) × A.Remote
  unfolding in_temp
  got_body id (err e, s) = (err (codes "drive: downloading " ++ (id ++ (codes ": " ++ e))), s)
  got_body id (ok body, s) = in_temp body (A.create_temp (codes "drive-pdf-*.pdf") s)

  unfoldable pub download : A.Svc → Text → Method A.Remote (LocalPdf A.Remote)
  unfolding got_body
  download c id s = got_body id (A.get_media c id s)

  unfoldable pub create_folder : A.Svc → Text → Text → Method A.Remote Text
  create_folder c parent name s =
      relabel
        (codes "drive: creating folder "
          ++ (A.quote name ++ (codes " in " ++ (parent ++ codes ": "))))
        (A.create_file c
          (record {
            name = name;
            mime_type = codes "application/vnd.google-apps.folder";
            parent = parent;
          })
          none s)

  sent : A.Svc → Text → Text → Text → Method A.Remote (Unit {0})
  sent c parent name src =
      (λ s.
        relabel
          (codes "drive: uploading " ++ (A.quote name ++ (codes " to " ++ (parent ++ codes ": "))))
          (A.create_file c (record { name = name; mime_type = []; parent = parent }) (some src) s))
      >>= λ _ s. (ok tt, s)

  upload_opened : A.Svc → Text → Text → Text → Option Error → Method A.Remote (Unit {0})
  unfolding sent
  upload_opened c parent name src (some e) s =
      (err (codes "drive: opening " ++ (src ++ (codes " for upload: " ++ e))), s)
  upload_opened c parent name src none s = sent c parent name src s

  unfoldable pub upload_file : A.Svc → Text → Text → Text → Method A.Remote (Unit {0})
  unfolding upload_opened
  upload_file c parent name src s = upload_opened c parent name src (A.open_local src s) s

  -- The temporary file is closed and removed at the end, whatever happened.
  discarded : Text → Result (Unit {0}) × A.Remote → Result (Unit {0}) × A.Remote
  discarded tmp (r, s) = (r, A.remove_temp tmp (A.close_temp tmp s).1)

  upload_temp : A.Svc → Text → Text → Text → Result Text × A.Remote → Result (Unit {0}) × A.Remote
  unfolding discarded
  upload_temp c parent name bytes (err e, s) = (err e, s)
  upload_temp c parent name bytes (ok tmp, s) =
      discarded tmp ((A.write_temp tmp bytes >>= λ _. upload_file c parent name tmp) s)

  unfoldable pub upload_bytes : A.Svc → Text → Text → Text → Method A.Remote (Unit {0})
  unfolding upload_temp
  upload_bytes c parent name bytes s =
      upload_temp c parent name bytes (A.create_temp (codes "drive-upload-*") s)

  unfoldable pub move_file : A.Svc → Text → Text → Text → Method A.Remote (Unit {0})
  move_file c id old_parent new_parent s =
      relabel (codes "drive: moving file " ++ (id ++ codes ": "))
        (A.update_parents c id new_parent old_parent s)

  -- The client as the storage's service; `fuel` bounds the pages of a listing.
  abbrev pub drive_service :
      ℕ → Rfc3339 → (Metadata → Result Text) → (ErrorRecord → Result Text) → Service
  drive_service fuel rfc marshal_metadata marshal_error = record {
    Remote = A.Remote;
    Http = A.Http;
    Client = A.Svc;
    now = A.now;
    new_client = new_client;
    list_folder = list_folder rfc fuel;
    get_file = get_file rfc;
    download = download;
    create_folder = create_folder;
    upload_file = upload_file;
    upload_bytes = upload_bytes;
    move_file = move_file;
    quote = A.quote;
    marshal_metadata = marshal_metadata;
    marshal_error = marshal_error;
  }
