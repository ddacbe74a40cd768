-- ===== src/Tests/System.antt =====
-- The whole daemon: a scan with a notification in between, and a request for another one.
use paper_claw.Base.{
  true, ℕ, ◌≤◌, Text, codes, Result, ok, err, none, some, List, [], ◌∷◌, inr, ◌≡◌, refl, arith,
  text_eq, text_eq_iff, contains,
}
use paper_claw.Base.Dict.{lookup, insert}
use paper_claw.Base.Methods.{◌>>=◌, relabel}
use paper_claw.DriveStorage.{
  list_inbox, list_stable, listed, drive_client, on_remote, scan, entry_name, on_db, pure,
}
use paper_claw.Store.Sql.{query, exec, statement}
use paper_claw.Store.Sync.{get_sync_state, scan_sync}
use paper_claw.Serve.Worker.Queue.{enqueue}
use paper_claw.ServerHttp.Prober.{unprobed}
use paper_claw.ServerHttp.Webhook.{serve_http}
use paper_claw.ServerHttp.Routes.{find_route, takes}
use paper_claw.Document.Metadata.{validate_metadata}
use paper_claw.Document.Pipeline.{described, process_one}
use paper_claw.DriveStorage.Files.{
  read_with, move_to_processed, move_with, move_cached, local_pdf, refetched, stored_record,
  verified, read_cached, read_pdf, is_duplicate, folder_child_names, cached_id, document_record,
  recorded, upload_all, fill_entry, write_as, resolved, write_beside, write_with, write_entry,
}
use paper_claw.Store.Documents.{has_hash, put_document, count_hash}
use paper_claw.Document.Slug.{
  to_slug, truncate_slug, format_dir_name, is_alnum, transliterate, umlaut_map, slug_step,
  slug_loop, trim_right, lower_rune, to_lower, last_index,
}
use paper_claw.Document.UniqueName.{unique_dir_name}
use paper_claw.System.{
  Request, Daemon, Act, handled, ticked, Parts, act, acts, serve, serve_endpoint,
}
use paper_claw.System.Worker.{
  interfere, shared_call, shared_read, System, idle, scanning, names_listed, begin_scan, run_file,
  scan_file, Entry, begun, ran, Steps, rest, begin, file,
}
use paper_claw.System.Filed.{filed, Distinct, New, Steps-filed_once}
use paper_claw.System.Shutdown.{drain, drain-returned}
use paper_claw.System.Requests.{AsksForScan, scans, Steps-answered}
use paper_claw.Tests.Client.{settings, new_client}
use paper_claw.Tests.Data.{seconds}
use paper_claw.Tests.Drives
use paper_claw.Tests.Drives.{
  drive_outcome, ascii, drive_tools, drive_tools-KeepsHash, scanned_state,
}
use paper_claw.Tests.Stores.{google}

abbrev parts : Parts
parts = record {
  o = google;
  G = Drives.service;
  client_of = new_client;
  cfg = settings;
  rfc = seconds;
  unicode = ascii;
  env = drive_tools;
  get_start_page_token = λ s. (ok (codes "p"), s);
  watch_changes = λ r s. (err (codes "refused"), s);
  stop_channel = λ id resource s. (none, s);
  rand_read = λ n s. (7 ∷ [], s);
}

abbrev daemon : ℕ → Daemon Drives.service
daemon queued = record {
  drive = scanned_state;
  states = [];
  queued = queued;
  probed = unprobed;
  webhook_count = some 0;
  waits = [];
}

abbrev at_rest : ℕ → System parts
at_rest queued = record { daemon = daemon queued; phase = idle; metrics = none }

-- Drive says that something has changed.
abbrev notification : Request
notification = record {
  method = codes "POST";
  path = codes "/webhook/drive";
  state = [];
  code = [];
  note = record {
    channel_id = codes "c1";
    channel_token = codes "secret";
    resource_state = codes "change";
  };
}

abbrev random : Result Text
random = err []

-- The listing, with a tick before it.
abbrev scanned : System parts
scanned = begin_scan parts ((ticked ∷ []) ∷ []) (at_rest 1)

listed_one : scanned.phase ≡ scanning (codes "scan.pdf" ∷ [])
unfolding begin_scan names_listed shared_call interfere acts act list_inbox list_stable listed
    drive_client on_remote scan ◌>>=◌
listed_one = refl

-- The file, with a notification before its download.
abbrev noted : List (List Act)
noted = (handled notification random ∷ []) ∷ []

filed_one : (run_file parts noted (codes "scan.pdf") scanned).0 ≡ ok drive_outcome
unfolding run_file begin_scan names_listed list_inbox list_stable listed scan shared_call
    shared_read interfere acts act serve serve_endpoint serve_http get_sync_state scan_sync
    find_route takes enqueue process_one read_pdf read_with read_cached refetched verified local_pdf
    is_duplicate has_hash query validate_metadata described write_entry drive_client ◌>>=◌
    write_with folder_child_names on_remote pure write_beside entry_name unique_dir_name contains
    text_eq format_dir_name write_as fill_entry upload_all recorded stored_record relabel
    put_document exec lookup is_alnum last_index lower_rune slug_loop slug_step to_lower to_slug
    transliterate trim_right truncate_slug umlaut_map cached_id document_record resolved on_db
    count_hash statement move_to_processed move_with move_cached insert
filed_one = refl

abbrev log : List (Entry parts)
log = begun ∷ ran (ok drive_outcome) ∷ []

two_calls : Steps parts (at_rest 1) log (scan_file parts noted (codes "scan.pdf") [] scanned)
two_calls =
    begin ((ticked ∷ []) ∷ []) refl (omega arith)
      (file noted (codes "scan.pdf") [] (ok drive_outcome) listed_one filed_one (rest _))

Steps-filed_once_example : New parts (at_rest 1) (filed parts log) × Distinct (filed parts log)
Steps-filed_once_example = Steps-filed_once parts drive_tools-KeepsHash two_calls

asks : AsksForScan parts notification
unfolding find_route takes text_eq
asks = inr (refl, λ h. absurd (ground (arith, (text_eq_iff (codes "change") (codes "sync")).1 h)))

answered : (serve parts notification random (daemon 0)).0 ≡ 200
unfolding serve serve_endpoint serve_http get_sync_state scan_sync query find_route takes text_eq
answered = refl

abbrev notified : System parts
notified = record (at_rest 0) { daemon = act parts (handled notification random) (daemon 0) }

a_request : 1 ≤ notified.daemon.queued
unfolding act serve serve_endpoint serve_http get_sync_state scan_sync query find_route takes
    text_eq enqueue
a_request = omega arith

taken : (begin_scan parts [] notified).daemon.queued ≡ 0
unfolding begin_scan names_listed shared_call interfere acts act list_inbox list_stable listed
    drive_client on_remote scan ◌>>=◌ serve serve_endpoint serve_http get_sync_state scan_sync query
    find_route takes text_eq enqueue
taken = refl

Steps-answered_example : 1 ≤ scans parts (begun ∷ [])
Steps-answered_example =
    Steps-answered parts (at_rest 0) notification random asks answered
      (begin [] refl a_request (rest (begin_scan parts [] notified))) taken

drain-returned_example : (drain parts (true ∷ true ∷ true ∷ true ∷ []) scanned).1 ≡ true
unfolding begin_scan names_listed shared_call interfere acts act list_inbox list_stable listed
    drive_client on_remote scan ◌>>=◌ enqueue
drain-returned_example = drain-returned parts (true ∷ true ∷ true ∷ true ∷ []) scanned (omega arith)
