-- ===== src/Tests/Drives.antt =====
-- The Drive storage, over an inbox with a stable file and one that is still being uploaded.
use paper_claw.Document.Storage.{Outcome, processed, Entry, LocalPdf}
use paper_claw.Document.Metadata.{validate_metadata}
use paper_claw.Document.Pipeline.{Env, World, described, process_one}
use paper_claw.DriveStorage.Files.{
  read_with, move_to_processed, move_with, move_cached, local_pdf, refetched, stored_record,
  verified, read_cached, read_pdf, is_duplicate, folder_child_names, cached_id, document_record,
  recorded, upload_all, fill_entry, write_as, resolved, write_beside, write_with, write_entry,
}
use paper_claw.DriveStorage.Quarantine.{drive_storage}
use paper_claw.DriveStorage.{
  keep_client, FileInfo, Service, Drive, State, scan, entry_name, on_remote, on_db, pure,
  drive_client, listed, list_stable, list_inbox,
}
use paper_claw.Document.Pipeline.Indexed.{KeepsHash}
use paper_claw.DriveStorage.Dedup.{process_one-indexed}
use paper_claw.Store.Documents.{indexed, has_hash, put_document, count_hash}
use paper_claw.Store.Sql.{query, exec, statement}
use paper_claw.Base.{
  true, false, ◌++◌, ◌≢◌, ℕ, codes, ok, none, some, List, [], ◌∷◌, contains, text_eq, ◌≡◌, refl,
}
use paper_claw.Base.Dict.{lookup}
use paper_claw.Base.Methods.{◌>>=◌, relabel}
use paper_claw.Document.Slug.{
  to_slug, truncate_slug, format_dir_name, is_alnum, transliterate, umlaut_map, slug_step,
  slug_loop, trim_right, lower_rune, to_lower, last_index,
}
use paper_claw.Document.UniqueName.{unique_dir_name}
use paper_claw.DriveStorage.Cache.{Scanned, list_inbox-Scanned}
use paper_claw.DriveStorage.Verified.{Verified, read_pdf-Verified}
use paper_claw.DriveStorage.Index.{Written, write_entry-Written, is_duplicate-write_entry}
use paper_claw.Tests.Data.{seconds, db, bill}

abbrev stable : FileInfo
stable = record {
  id = codes "f1";
  name = codes "scan.pdf";
  size = 10;
  modified_time = 100;
  md5_checksum = codes "m";
}

abbrev uploading : FileInfo
uploading = record {
  id = codes "f2";
  name = codes "new.pdf";
  size = 0;
  modified_time = 990;
  md5_checksum = [];
}

abbrev one_hash : LocalPdf (List FileInfo)
one_hash = record {
  local_path = codes "/tmp/1";
  content_hash = codes "bb";
  cleanup = λ files. files;
}

-- Every folder lists the same files.
abbrev pub service : Service
service = record {
  Remote = List FileInfo;
  Http = Unit;
  Client = Unit;
  quote = λ name. b'"' ∷ (name ++ b'"' ∷ []);
  now = λ files. 1000;
  new_client = λ http. ok tt;
  list_folder = λ _ _ _ files. (ok files, files);
  get_file = λ _ _ files. (ok stable, files);
  download = λ _ _ files. (ok one_hash, files);
  create_folder = λ _ _ name files. (ok name, files);
  upload_file = λ _ _ _ _ files. (ok tt, files);
  upload_bytes = λ _ _ _ _ files. (ok tt, files);
  move_file = λ _ _ _ _ files. (ok tt, files);
  marshal_metadata = λ m. ok m.id;
  marshal_error = λ e. ok e.error;
}

abbrev drive : Drive service
drive = record {
  inbox_folder_id = codes "i";
  library_folder_id = codes "l";
  processed_folder_id = codes "p";
  stable_threshold = 30;
  get_http = λ db. (ok tt, db);
}

abbrev pub state : State service
state = record { client = none; scan_files = []; db = db; remote = stable ∷ uploading ∷ [] }

abbrev pub scanned_state : State service
scanned_state = record state { client = some tt; scan_files = (codes "scan.pdf", stable) ∷ [] }

abbrev entry : Entry
entry = record { pdf_path = codes "/tmp/1"; transcript = codes "text"; metadata = bill }

abbrev pub ascii : ℕ → ℕ
ascii r = r

list_inbox-Scanned_example : Scanned service drive state (codes "scan.pdf" ∷ [])
unfolding list_inbox drive_client on_db on_remote listed list_stable scan ◌>>=◌ keep_client
list_inbox-Scanned_example = list_inbox-Scanned service drive state (codes "scan.pdf" ∷ []) refl

abbrev read_back : LocalPdf (State service)
read_back = record {
  local_path = codes "/tmp/1";
  content_hash = codes "bb";
  cleanup = λ s. record s { remote = s.remote };
}

read_pdf-Verified_example : Verified service drive (codes "scan.pdf") scanned_state read_back
unfolding read_pdf drive_client read_cached refetched relabel verified on_remote pure ◌>>=◌ lookup
    text_eq
read_pdf-Verified_example =
    read_pdf-Verified service drive (codes "scan.pdf") scanned_state read_back refl

-- The entry is written under its own name, which is free.
entry-written :
    (write_entry service drive ascii seconds entry scanned_state).0
    ≡ ok (codes "2024-05-01_acme_invoice")
unfolding write_entry drive_client ◌>>=◌ write_with folder_child_names on_remote pure write_beside
    entry_name unique_dir_name contains text_eq format_dir_name write_as fill_entry upload_all
    recorded stored_record relabel put_document exec lookup is_alnum last_index lower_rune slug_loop
    slug_step to_lower to_slug transliterate trim_right truncate_slug umlaut_map cached_id
    document_record resolved on_db count_hash statement
entry-written = refl

write_entry-Written_example :
    Written service drive ascii seconds entry scanned_state (codes "2024-05-01_acme_invoice")
write_entry-Written_example =
    write_entry-Written service drive ascii seconds entry scanned_state
      (codes "2024-05-01_acme_invoice") entry-written

is_duplicate-write_entry_example :
    (is_duplicate service drive
      (codes "bb")
      (write_entry service drive ascii seconds entry scanned_state).1).0
    ≢ ok false
is_duplicate-write_entry_example =
    is_duplicate-write_entry service drive ascii seconds entry scanned_state
      (codes "2024-05-01_acme_invoice") entry-written

-- The tools of a run, with a classifier that keeps the hash.
abbrev pub drive_tools : Env (State service)
drive_tools = record {
  extractor = λ _ path. ok path;
  classifier = λ _ _ _ hash _. ok (record bill { content_hash = hash });
  validator = λ _. ok [];
  now = λ _. 7;
  observed = false;
}

abbrev drive_world : World (State service)
drive_world = record { store = scanned_state; events = [] }

pub drive_tools-KeepsHash : KeepsHash drive_tools
drive_tools-KeepsHash s transcript name hash now meta h = cc

abbrev pub drive_outcome : Outcome
drive_outcome = record {
  status = processed;
  hash = codes "bb";
  entry_name = codes "2024-05-01_acme_invoice";
  stage = none;
  cause = none;
  move_err = none;
}

process_one-indexed_example :
    indexed
      (process_one
        (drive_storage service drive ascii seconds)
        drive_tools
        (codes "scan.pdf")
        drive_world).1.store.db
      (codes "bb")
    ≡ true
unfolding process_one read_pdf read_with read_cached refetched verified local_pdf is_duplicate
    has_hash query validate_metadata described write_entry drive_client ◌>>=◌ write_with
    folder_child_names on_remote pure write_beside entry_name unique_dir_name contains text_eq
    format_dir_name write_as fill_entry upload_all recorded stored_record relabel put_document exec
    lookup is_alnum last_index lower_rune slug_loop slug_step to_lower to_slug transliterate
    trim_right truncate_slug umlaut_map cached_id document_record resolved on_db count_hash
    statement move_to_processed move_with move_cached
process_one-indexed_example =
    process_one-indexed service drive ascii seconds drive_tools (λ db. refl) drive_tools-KeepsHash
      (codes "scan.pdf") drive_world drive_outcome refl refl
