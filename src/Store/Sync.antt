-- ===== src/Store/Sync.antt =====
-- internal/store/store.go: the Drive sync state, `GetSyncState`, `PutStartPageToken`, `PutChannel`.
use paper_claw.Base.{
  ℕ, Text, Error, ok, err, Method, Option, none, some, [], ◌*◌, ◌/◌, ◌^◌, ◌≡◌, ap, arith,
}
use paper_claw.Store.Sql.{
  SyncRow, Tables, Db, Rfc3339, IsRfc3339, read_time, read_time-format, default_sync, query, exec,
  query-ok, exec-ok, exec-err, query-tables, query-Works, exec-Works, Works,
}

pub record SyncState : Type 0 where
  pub start_page_token : Text
  pub channel_id : Text
  pub channel_token : Text
  pub resource_id : Text
  pub expires_at : ℕ

abbrev pub zero_sync : SyncState
zero_sync = record {
  start_page_token = [];
  channel_id = [];
  channel_token = [];
  resource_id = [];
  expires_at = 0;
}

-- What `Scan` and the code behind it make of the row, or of `sql.ErrNoRows`.
unfoldable pub scan_sync : Rfc3339 → Option SyncRow → SyncState
scan_sync rfc none = zero_sync
scan_sync rfc (some row) = record {
  start_page_token = row.start_page_token;
  channel_id = row.channel_id;
  channel_token = row.channel_token;
  resource_id = row.resource_id;
  expires_at = read_time rfc row.expires_at;
}

-- The state that the row stands for, and the method that reads it.
unfoldable pub sync_of : Rfc3339 → Db → SyncState
unfolding scan_sync
sync_of rfc db = scan_sync rfc db.tables.sync_state

unfoldable pub get_sync_state : Rfc3339 → Method Db SyncState
unfolding scan_sync
get_sync_state rfc = query (λ t. scan_sync rfc t.sync_state)

-- `INSERT … ON CONFLICT(id) DO UPDATE`: a missing row is made of the defaults first.
unfoldable pub upsert_start_page_token : Text → Tables → Tables
upsert_start_page_token token t = elim t.sync_state [
  | none ↦ record t { sync_state = some (record default_sync { start_page_token = token }) }
  | some row ↦ record t { sync_state = some (record row { start_page_token = token }) }
]

unfoldable pub put_start_page_token : Text → Method Db (Unit {0})
unfolding upsert_start_page_token
put_start_page_token token = exec (upsert_start_page_token token)

unfoldable pub channel_row : SyncRow → Text → Text → Text → Text → SyncRow
channel_row row channel_id channel_token resource_id expires_at = record row {
  channel_id = channel_id;
  channel_token = channel_token;
  resource_id = resource_id;
  expires_at = expires_at;
}

unfoldable pub upsert_channel : Text → Text → Text → Text → Tables → Tables
unfolding channel_row
upsert_channel channel_id channel_token resource_id expires_at t = elim t.sync_state [
  | none ↦ record t {
    sync_state = some (channel_row default_sync channel_id channel_token resource_id expires_at);
  }
  | some row ↦ record t {
    sync_state = some (channel_row row channel_id channel_token resource_id expires_at);
  }
]

unfoldable pub put_channel : Rfc3339 → Text → Text → Text → ℕ → Method Db (Unit {0})
unfolding upsert_channel
put_channel rfc channel_id channel_token resource_id expires_at =
    exec (upsert_channel channel_id channel_token resource_id (rfc.format expires_at))

-- `GetSyncState` returns what the row stands for, or fails.
pub get_sync_state-ok :
    (rfc : Rfc3339) (db : Db) (ss : SyncState)
    → (get_sync_state rfc db).0 ≡ ok ss
    → ss ≡ sync_of rfc db
unfolding get_sync_state sync_of
get_sync_state-ok rfc db ss h = query-ok (λ t. scan_sync rfc t.sync_state) db ss h

-- A stored start page token is read back, and the channel fields keep their values.
sync_of-put_start_page_token :
    (rfc : Rfc3339) (token : Text) (db : Db)
    → (put_start_page_token token db).0 ≡ ok tt
    → sync_of rfc (put_start_page_token token db).1
      ≡ record (sync_of rfc db) { start_page_token = token }
unfolding sync_of put_start_page_token
sync_of-put_start_page_token rfc token db h =
    rw (exec-ok (upsert_start_page_token token) db h)
      (unfold upsert_start_page_token scan_sync read_time in ground arith)

-- A stored channel is read back, its expiry to the second, and the start page token keeps its value.
pub sync_of-put_channel :
    (rfc : Rfc3339)
    → IsRfc3339 rfc
    → (id token resource : Text) (expires : ℕ) (db : Db)
    → (put_channel rfc id token resource expires db).0 ≡ ok tt
    → sync_of rfc (put_channel rfc id token resource expires db).1 ≡ record (sync_of rfc db) {
      channel_id = id;
      channel_token = token;
      resource_id = resource;
      expires_at = expires / 10 ^ 9 * 10 ^ 9;
    }
unfolding sync_of put_channel
sync_of-put_channel rfc lawful id token resource expires db h =
    rw (exec-ok (upsert_channel id token resource (rfc.format expires)) db h)
      (unfold upsert_channel scan_sync in ground (arith, read_time-format rfc lawful expires))

-- A failed write leaves the sync state alone.
sync_of_failed :
    (rfc : Rfc3339) (f : Tables → Tables) (db : Db) (e : Error)
    → (exec f db).0 ≡ err e
    → sync_of rfc (exec f db).1 ≡ sync_of rfc db
unfolding sync_of
sync_of_failed rfc f db e h = rw (exec-err f db e h)

pub get_sync_state-tables : (rfc : Rfc3339) (db : Db) → (get_sync_state rfc db).1.tables ≡ db.tables
unfolding get_sync_state
get_sync_state-tables rfc db = query-tables (λ t. scan_sync rfc t.sync_state) db

pub get_sync_state-Works :
    (rfc : Rfc3339) (db : Db) → Works db → get_sync_state rfc db ≡ (ok (sync_of rfc db), db)
unfolding get_sync_state sync_of
get_sync_state-Works rfc db w = query-Works (λ t. scan_sync rfc t.sync_state) db w

-- In a working store a channel is written.
pub put_channel-Works :
    (rfc : Rfc3339) (id token resource : Text) (expires : ℕ) (db : Db)
    → Works db
    → ((put_channel rfc id token resource expires db).0 ≡ ok tt)
      × Works (put_channel rfc id token resource expires db).1
unfolding put_channel
put_channel-Works rfc id token resource expires db w =
    let e = exec-Works (upsert_channel id token resource (rfc.format expires)) db w in
    (ap (λ p. p.0) e, ap (λ p. p.1.faults) e)

-- What the row stands for depends on the tables only.
pub sync_of-tables :
    (rfc : Rfc3339) (db db' : Db) → db.tables ≡ db'.tables → sync_of rfc db ≡ sync_of rfc db'
unfolding sync_of
sync_of-tables rfc db db' p = ap (λ t. scan_sync rfc t.sync_state) p
