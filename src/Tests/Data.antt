-- ===== src/Tests/Data.antt =====
-- A small world to run the code in: a clock format, a migrated store, and a storage in memory.
use paper_claw.Base.{
  ℕ, ◌*◌, ◌/◌, ◌^◌, Text, codes, ok, err, true, Option, none, some, List, [], ◌∷◌, contains,
  text_eq, if◌then◌else◌, refl,
}
use paper_claw.Store.Sql.{Tables, Db, Rfc3339, IsRfc3339, default_status, SyncRow, DocumentRow}
use paper_claw.Document.Metadata.{Metadata}
use paper_claw.Document.Storage.{Storage}
use paper_claw.Document.Pipeline.{Env, World}

abbrev pub parse_seconds : Text → Option ℕ
parse_seconds (c ∷ n ∷ []) = some (n * 10 ^ 9)
parse_seconds _ = none

-- Times as a tag and a number of seconds.
abbrev pub seconds : Rfc3339
seconds = record { format = λ t. b'T' ∷ t / 10 ^ 9 ∷ []; parse = parse_seconds }

pub seconds-IsRfc3339 : IsRfc3339 seconds
seconds-IsRfc3339 = record { parse-format = λ t. refl; format_some = λ t. refl }

abbrev pub stored_channel : SyncRow
stored_channel = record {
  start_page_token = codes "p1";
  channel_id = codes "c1";
  channel_token = codes "secret";
  resource_id = codes "r1";
  expires_at = b'T' ∷ 5000 ∷ [];
}

abbrev pub stored_document : DocumentRow
stored_document = record {
  content_hash = codes "aa";
  entry_name = codes "2024-01-01_acme_invoice";
  drive_file_id = codes "f0";
  source_filename = codes "old.pdf";
  processed_at = b'T' ∷ 1 ∷ [];
}

-- One document and an active channel.
abbrev pub tables : Tables
tables = record {
  schema_version = some (codes "1");
  documents = stored_document ∷ [];
  sync_state = some stored_channel;
  oauth_token = none;
  daemon_status = some default_status;
}

abbrev pub db : Db
db = record { tables = tables; faults = [] }

abbrev pub fresh_db : Db
fresh_db = record { tables = record tables { sync_state = none }; faults = [] }

abbrev pub bill : Metadata
bill = record {
  id = codes "bb";
  type = codes "invoice";
  document_date = codes "2024-05-01";
  vendor = codes "Acme";
  summary = codes "A bill.";
  source_filename = codes "scan.pdf";
  processed_at = codes "2024-05-02T00:00:00Z";
  content_hash = codes "bb";
  amount = none;
  currency = [];
  due_date = [];
  tags = [];
  language = [];
  file_description = codes "Invoice";
}

-- The hashes of the library are the state. A file's content is its name, and "torn.pdf" cannot be
-- read.
abbrev pub memory : Storage
memory = record {
  State = List Text;
  list_inbox = λ s. (ok (codes "aa" ∷ codes "bb" ∷ codes "torn.pdf" ∷ []), s);
  read_pdf = λ name s.
      if text_eq name (codes "torn.pdf")
      then (err (codes "unreadable"), s)
      else (ok (record { local_path = name; content_hash = name; cleanup = λ s. s }), s);
  is_duplicate = λ hash s. (ok (contains s hash), s);
  write_entry = λ e s. (ok e.metadata.vendor, e.metadata.content_hash ∷ s);
  move_to_processed = λ _ _ s. (none, s);
  quarantine = λ _ _ s. (none, s);
}

abbrev pub tools : Env (List Text)
tools = record {
  extractor = λ _ path. ok path;
  classifier = λ _ _ _ hash _. ok (record bill { content_hash = hash });
  validator = λ _. ok [];
  now = λ _. 7 * 10 ^ 9;
  observed = true;
}

abbrev pub world : World (List Text)
world = record { store = codes "aa" ∷ []; events = [] }
