-- ===== src/Store/Grows.antt =====
-- What the rows of the store only ever gain: no method of internal/store/store.go takes a hash out of
-- the dedup index or removes the row of the run status.
use paper_claw.Base.{
  ℕ, Text, ok, err, true, Option, none, some, [], Result, ltb, inl, inr, ◌≡◌, refl, ap, ◌∙◌, arith,
}
use paper_claw.Store.Sql.{StatusRow, Tables, Db, Rfc3339, exec, query, exec-cases, query-tables}
use paper_claw.Store.Documents.{
  DocumentRecord, count_hash, indexed, put_document, has_hash, indexed-put_document,
  insert_or_ignore, to_row, map_result,
}
use paper_claw.Store.Token.{put_token, upsert_token}
use paper_claw.Store.Sync.{
  put_start_page_token, upsert_start_page_token, put_channel, upsert_channel, channel_row,
  get_sync_state, get_sync_state-tables,
}
use paper_claw.Store.DaemonStatus.{
  HasStatus, record_poll, record_error, record_error-HasStatus, bump_counter, bump_with, bump,
  update_status, upsert_poll, bump_with-HasStatus,
}

pub record Grows (old new : Db) : Type 0 where
  pub index : (hash : Text) → indexed old hash ≡ true → indexed new hash ≡ true
  pub row : HasStatus old → HasStatus new

pub Grows-refl : (db : Db) → Grows db db
Grows-refl db = record { index = λ hash h. h; row = λ h. h }

pub Grows-trans : {a b c : Db} → Grows a b → Grows b c → Grows a c
Grows-trans p q = record {
  index = λ hash h. q.index hash (p.index hash h);
  row = λ h. q.row (p.row h);
}

indexed-documents :
    (hash : Text) (db db' : Db)
    → db'.tables.documents ≡ db.tables.documents
    → indexed db hash ≡ true
    → indexed db' hash ≡ true
unfolding indexed
indexed-documents hash db db' p h = ap (λ rows. ltb 0 (count_hash hash rows)) p ∙ h

-- The documents and the status row are as they were.
pub Grows-rows :
    (db db' : Db)
    → db'.tables.documents ≡ db.tables.documents
    → db'.tables.daemon_status ≡ db.tables.daemon_status
    → Grows db db'
Grows-rows db db' p q = record {
  index = λ hash. indexed-documents hash db db' p;
  row = λ (r, h). (r, q ∙ h);
}

pub Grows-tables : (db db' : Db) → db'.tables ≡ db.tables → Grows db db'
Grows-tables db db' p = Grows-rows db db' (ap (λ t. t.documents) p) (ap (λ t. t.daemon_status) p)

-- A statement that keeps the documents and the status row.
exec-Grows :
    (f : Tables → Tables) (db : Db)
    → (f db.tables).documents ≡ db.tables.documents
    → (f db.tables).daemon_status ≡ db.tables.daemon_status
    → Grows db (exec f db).1
exec-Grows f db p q = elim (exec-cases f db) [
  | inl (done, t) ↦
      Grows-rows db (exec f db).1 (ap (λ t. t.documents) t ∙ p) (ap (λ t. t.daemon_status) t ∙ q)
  | inr (e, failed, t) ↦ Grows-tables db (exec f db).1 t
]

pub put_document-Grows :
    (rfc : Rfc3339) (r : DocumentRecord) (db : Db) → Grows db (put_document rfc r db).1
unfolding put_document
put_document-Grows rfc r db = elim (exec-cases (insert_or_ignore (to_row rfc r)) db) [
  | inl (done, t) ↦ record {
    index = λ hash h. indexed-put_document rfc r db hash done ∙ ground (arith, h);
    row = λ (row, h).
        (row, ap (λ t. t.daemon_status) t ∙ (unfold insert_or_ignore in ground (arith, h)));
  }
  | inr (e, failed, t) ↦ Grows-tables db (put_document rfc r db).1 t
]

pub put_token-Grows : (token : Text) (db : Db) → Grows db (put_token token db).1
unfolding put_token upsert_token
put_token-Grows token db = exec-Grows (upsert_token token) db refl refl

pub put_start_page_token-Grows :
    (token : Text) (db : Db) → Grows db (put_start_page_token token db).1
unfolding put_start_page_token upsert_start_page_token
put_start_page_token-Grows token db =
    exec-Grows (upsert_start_page_token token) db (ground arith) (ground arith)

pub put_channel-Grows :
    (rfc : Rfc3339) (id token resource : Text) (expires : ℕ) (db : Db)
    → Grows db (put_channel rfc id token resource expires db).1
unfolding put_channel upsert_channel channel_row
put_channel-Grows rfc id token resource expires db =
    exec-Grows (upsert_channel id token resource (rfc.format expires)) db (ground arith)
      (ground arith)

-- The documents after a statement that keeps them.
exec-index :
    (f : Tables → Tables) (db : Db)
    → (f db.tables).documents ≡ db.tables.documents
    → (hash : Text) → indexed db hash ≡ true
    → indexed (exec f db).1 hash ≡ true
exec-index f db p hash h = elim (exec-cases f db) [
  | inl (done, t) ↦ indexed-documents hash db (exec f db).1 (ap (λ t. t.documents) t ∙ p) h
  | inr (e, failed, t) ↦ indexed-documents hash db (exec f db).1 (ap (λ t. t.documents) t) h
]

pub record_error-Grows :
    (rfc : Rfc3339) (now : ℕ) (msg : Text) (db : Db) → Grows db (record_error rfc now msg db).1
record_error-Grows rfc now msg db = record {
  index =
      unfold record_error upsert_poll in
      exec-index (upsert_poll (rfc.format now) msg) db (ground arith);
  row = record_error-HasStatus rfc now msg db;
}

pub record_poll-Grows : (rfc : Rfc3339) (now : ℕ) (db : Db) → Grows db (record_poll rfc now db).1
unfolding record_poll
record_poll-Grows rfc now db = unfold record_error in record_error-Grows rfc now [] db

bump_with-Grows :
    (counter : Text) (f : Option (StatusRow → StatusRow)) (db : Db)
    → Grows db (bump_with counter f db).1
unfolding bump_with update_status
bump_with-Grows counter none db = Grows-refl db
bump_with-Grows counter (some f) db = record {
  index = exec-index (update_status f) db (ground arith);
  row = bump_with-HasStatus counter (some f) db;
}

pub bump_counter-Grows : (counter : Text) (db : Db) → Grows db (bump_counter counter db).1
unfolding bump_counter
bump_counter-Grows counter db = bump_with-Grows counter (bump counter) db

pub get_sync_state-Grows : (rfc : Rfc3339) (db : Db) → Grows db (get_sync_state rfc db).1
get_sync_state-Grows rfc db =
    Grows-tables db (get_sync_state rfc db).1 (get_sync_state-tables rfc db)

map_result-tables :
    {A B : Type 0} (f : A → B) (r : Result A × Db) → (map_result f r).1.tables ≡ r.1.tables
unfolding map_result
map_result-tables f (ok a, db) = refl
map_result-tables f (err e, db) = refl

pub has_hash-Grows : (hash : Text) (db : Db) → Grows db (has_hash hash db).1
unfolding has_hash
has_hash-Grows hash db = Grows-tables db (has_hash hash db).1 (
    map_result-tables (λ n. ltb 0 n) (query (λ t. count_hash hash t.documents) db)
    ∙ query-tables (λ t. count_hash hash t.documents) db)
