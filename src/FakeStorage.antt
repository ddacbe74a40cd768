-- ===== src/FakeStorage.antt =====
-- internal/storage/fake/fake.go: the storage in memory that the tests of the pipeline use. A Go map has
-- no order; here its keys stand in the order in which they were added.
use paper_claw.Base.{
  Text, codes, Error, Result, ok, err, Method, Bool, true, false, ◌||◌, Bool-cases, Option, none,
  some, List, [], ◌∷◌, ◌++◌, text_eq, text_eq_refl, ◌≡◌, inl, inr, ap, arith,
}
use paper_claw.Base.Dict.{Dict, keys, lookup, insert}
use paper_claw.Document.Storage.{Entry, ProcessingError, LocalPdf, Storage}

-- The operating system's temporary files, and SHA-256.
pub record TempFiles : Type 1 where
  pub Disk : Type 0
  pub create_temp : Text → Method Disk Text
  pub write_temp : Text → Text → Method Disk (Unit {0})
  pub close_temp : Text → Method Disk (Unit {0})
  pub remove_temp : Text → Disk → Disk
  pub hex_digest : Text → Text
  pub quote : Text → Text

pub record QuarantineRecord : Type 0 where
  pub name : Text
  pub pe : ProcessingError

-- `Storage` of the source, and the disk.
pub record Fake (T : TempFiles) : Type 0 where
  pub inbox : Dict Text
  pub library : Dict Entry
  pub processed : List Text
  pub quarantined : List QuarantineRecord
  pub is_duplicate_err : Option Error
  pub write_entry_err : Option Error
  pub disk : T.Disk

-- `e.Metadata.ContentHash == contentHash` for some entry.
unfoldable pub any_hash : Text → Dict Entry → Bool
any_hash hash [] = false
any_hash hash ((name, e) ∷ entries) = text_eq e.metadata.content_hash hash || any_hash hash entries

module _ (T : TempFiles) where
  -- `New`, on a disk.
  abbrev pub new_fake : T.Disk → Fake T
  new_fake disk = record {
    inbox = [];
    library = [];
    processed = [];
    quarantined = [];
    is_duplicate_err = none;
    write_entry_err = none;
    disk = disk;
  }

  unfoldable pub add_pdf : Text → Text → Fake T → Fake T
  add_pdf name bytes f = record f { inbox = insert name bytes f.inbox }

  unfoldable pub list_inbox : Method (Fake T) (List Text)
  list_inbox f = (ok (keys f.inbox), f)

  temp_closed :
      Text → Text → Fake T → Result (Unit {0}) × T.Disk → Result (LocalPdf (Fake T)) × Fake T
  temp_closed tmp bytes f (err e, disk) = (err e, record f { disk = T.remove_temp tmp disk })
  temp_closed tmp bytes f (ok u, disk) = (
    ok record {
      local_path = tmp;
      content_hash = T.hex_digest bytes;
      cleanup = λ g. record g { disk = T.remove_temp tmp g.disk };
    },
    record f { disk = disk },
  )

  temp_written :
      Text → Text → Fake T → Result (Unit {0}) × T.Disk → Result (LocalPdf (Fake T)) × Fake T
  unfolding temp_closed
  temp_written tmp bytes f (err e, disk) =
      (err e, record f { disk = T.remove_temp tmp (T.close_temp tmp disk).1 })
  temp_written tmp bytes f (ok u, disk) = temp_closed tmp bytes f (T.close_temp tmp disk)

  temp_made : Text → Fake T → Result Text × T.Disk → Result (LocalPdf (Fake T)) × Fake T
  unfolding temp_written
  temp_made bytes f (err e, disk) = (err e, record f { disk = disk })
  temp_made bytes f (ok tmp, disk) = temp_written tmp bytes f (T.write_temp tmp bytes disk)

  read_bytes : Text → Option Text → Fake T → Result (LocalPdf (Fake T)) × Fake T
  unfolding temp_made
  read_bytes name none f = (err (codes "fake: " ++ (T.quote name ++ codes " not in inbox")), f)
  read_bytes name (some bytes) f = temp_made bytes f (T.create_temp (codes "fake-pdf-*.pdf") f.disk)

  unfoldable pub read_pdf : Text → Method (Fake T) (LocalPdf (Fake T))
  unfolding read_bytes
  read_pdf name f = read_bytes name (lookup name f.inbox) f

  duplicate_or : Option Error → Text → Method (Fake T) Bool
  duplicate_or (some e) hash f = (err e, f)
  duplicate_or none hash f = (ok (any_hash hash f.library), f)

  unfoldable pub is_duplicate : Text → Method (Fake T) Bool
  unfolding duplicate_or
  is_duplicate hash f = duplicate_or f.is_duplicate_err hash f

  -- `e.Metadata.DocumentDate + "_" + e.Metadata.Vendor`
  unfoldable pub entry_name : Entry → Text
  entry_name e = e.metadata.document_date ++ (b'_' ∷ e.metadata.vendor)

  write_or : Option Error → Entry → Method (Fake T) Text
  write_or (some e) entry f = (err e, f)
  write_or none entry f =
      (ok (entry_name entry), record f { library = insert (entry_name entry) entry f.library })

  unfoldable pub write_entry : Entry → Method (Fake T) Text
  unfolding write_or
  write_entry e f = write_or f.write_entry_err e f

  unfoldable pub move_to_processed : Text → Text → Fake T → Option Error × Fake T
  move_to_processed name hash f = (none, record f { processed = f.processed ++ (name ∷ []) })

  unfoldable pub quarantine : Text → ProcessingError → Fake T → Option Error × Fake T
  quarantine name pe f =
      (none, record f { quarantined = f.quarantined ++ (record { name = name; pe = pe } ∷ []) })

  abbrev pub fake_storage : Storage
  fake_storage = record {
    State = Fake T;
    list_inbox = list_inbox;
    read_pdf = read_pdf;
    is_duplicate = is_duplicate;
    write_entry = write_entry;
    move_to_processed = move_to_processed;
    quarantine = quarantine;
  }

  any_hash-insert :
      (name : Text) (e : Entry) (entries : Dict Entry)
      → any_hash e.metadata.content_hash (insert name e entries) ≡ true
  unfolding any_hash insert
  any_hash-insert name e [] = ground (arith, text_eq_refl e.metadata.content_hash)
  any_hash-insert name e ((k, old) ∷ entries) = elim (Bool-cases (text_eq k name)) [
    | inl same ↦ rw same (ground (arith, text_eq_refl e.metadata.content_hash))
    | inr other ↦ rw other (ground (arith, any_hash-insert name e entries))
  ]

  -- With no error injected, an entry that was written is a duplicate from then on.
  is_duplicate_after_write :
      (e : Entry) (f : Fake T)
      → f.write_entry_err ≡ none
      → f.is_duplicate_err ≡ none
      → (is_duplicate e.metadata.content_hash (write_entry e f).1).0 ≡ ok true
  unfolding is_duplicate write_entry
  is_duplicate_after_write e f writes asks =
      rw (writes, asks) (ap ok (any_hash-insert (entry_name e) e f.library))
