-- ===== src/Store/DaemonStatus.antt =====
-- internal/store/store.go: the run status and its counters.
-- The counters are `int64` columns; that they stay below 2^63 is assumed.
pub mod Ready
use paper_claw.Base.{
  ℕ, ◌+◌, Text, codes, ok, err, Method, Option, none, some, [], ◌++◌, text_eq, if◌then◌else◌, ◌*◌,
  ◌/◌, ◌^◌, ◌≡◌, inl, inr, refl, arith, Option-cases,
}
use paper_claw.Store.Sql.{
  StatusRow, Tables, Db, Rfc3339, IsRfc3339, read_time, read_time-format, default_status, query,
  exec, query-ok, query-tables, query-Works, Works, exec-ok, exec-cases,
}

pub record DaemonStatus : Type 0 where
  pub last_poll_at : ℕ
  pub last_error : Text
  pub processed : ℕ
  pub skipped : ℕ
  pub quarantine : ℕ

abbrev pub zero_status : DaemonStatus
zero_status = record {
  last_poll_at = 0;
  last_error = [];
  processed = 0;
  skipped = 0;
  quarantine = 0;
}

scan_status : Rfc3339 → Option StatusRow → DaemonStatus
scan_status rfc none = zero_status
scan_status rfc (some row) = record {
  last_poll_at = read_time rfc row.last_poll_at;
  last_error = row.last_error;
  processed = row.processed;
  skipped = row.skipped;
  quarantine = row.quarantine;
}

unfoldable pub status_of : Rfc3339 → Db → DaemonStatus
unfolding scan_status
status_of rfc db = scan_status rfc db.tables.daemon_status

unfoldable pub get_status : Rfc3339 → Method Db DaemonStatus
unfolding scan_status
get_status rfc = query (λ t. scan_status rfc t.daemon_status)

-- The upsert of `RecordPoll`, with no error, and of `RecordError`.
unfoldable pub upsert_poll : Text → Text → Tables → Tables
upsert_poll at error t = elim t.daemon_status [
  | none ↦ record t {
    daemon_status = some (record default_status { last_poll_at = at; last_error = error });
  }
  | some row ↦ record t {
    daemon_status = some (record row { last_poll_at = at; last_error = error });
  }
]

unfoldable pub record_poll : Rfc3339 → ℕ → Method Db (Unit {0})
unfolding upsert_poll
record_poll rfc now = exec (upsert_poll (rfc.format now) [])

unfoldable pub record_error : Rfc3339 → ℕ → Text → Method Db (Unit {0})
unfolding upsert_poll
record_error rfc now msg = exec (upsert_poll (rfc.format now) msg)

-- `UPDATE daemon_status SET c = c + 1 WHERE id = 1`: nothing where there is no row.
unfoldable pub update_status : (StatusRow → StatusRow) → Tables → Tables
update_status f t = elim t.daemon_status [
  | none ↦ t
  | some row ↦ record t { daemon_status = some (f row) }
]

-- The column that the allow-list lets through.
unfoldable pub bump : Text → Option (StatusRow → StatusRow)
bump counter =
    if text_eq counter (codes "processed")
    then some (λ row. record row { processed = row.processed + 1 })
    else if text_eq counter (codes "skipped")
    then some (λ row. record row { skipped = row.skipped + 1 })
    else if text_eq counter (codes "quarantine")
    then some (λ row. record row { quarantine = row.quarantine + 1 })
    else none

unfoldable pub bump_with : Text → Option (StatusRow → StatusRow) → Method Db (Unit {0})
bump_with counter none db = (err (codes "store: unknown counter " ++ counter), db)
bump_with counter (some f) db = exec (update_status f) db

unfoldable pub bump_counter : Text → Method Db (Unit {0})
unfolding bump_with
bump_counter counter = bump_with counter (bump counter)

-- The row that the migration inserts is there.
abbrev pub HasStatus : Db → Type 0
HasStatus db = (row : StatusRow) × (db.tables.daemon_status ≡ some row)

module _ (rfc : Rfc3339) where
  -- `GetStatus` returns what the row stands for, or fails.
  get_status-ok :
      (db : Db) (st : DaemonStatus) → (get_status rfc db).0 ≡ ok st → st ≡ status_of rfc db
  unfolding get_status status_of
  get_status-ok db st h = query-ok (λ t. scan_status rfc t.daemon_status) db st h

  -- In a store that works it returns it, and changes nothing.
  pub get_status-Works : (db : Db) → Works db → get_status rfc db ≡ (ok (status_of rfc db), db)
  unfolding get_status status_of
  get_status-Works db works = query-Works (λ t. scan_status rfc t.daemon_status) db works

  pub get_status-tables : (db : Db) → (get_status rfc db).1.tables ≡ db.tables
  unfolding get_status
  get_status-tables db = query-tables (λ t. scan_status rfc t.daemon_status) db

  -- A successful `RecordError` stores the time, to the second, and the message, and keeps the
  -- counters; `RecordPoll` does the same and clears the message.
  pub status_of-record_error :
      IsRfc3339 rfc
      → (now : ℕ) (msg : Text) (db : Db) → (record_error rfc now msg db).0 ≡ ok tt
      → status_of rfc (record_error rfc now msg db).1
        ≡ record (status_of rfc db) { last_poll_at = now / 10 ^ 9 * 10 ^ 9; last_error = msg }
  unfolding status_of record_error
  status_of-record_error lawful now msg db h =
      rw (exec-ok (upsert_poll (rfc.format now) msg) db h)
        (unfold upsert_poll scan_status in ground (arith, read_time-format rfc lawful now))

  status_of-record_poll :
      IsRfc3339 rfc
      → (now : ℕ) (db : Db) → (record_poll rfc now db).0 ≡ ok tt
      → status_of rfc (record_poll rfc now db).1
        ≡ record (status_of rfc db) { last_poll_at = now / 10 ^ 9 * 10 ^ 9; last_error = [] }
  unfolding record_poll
  status_of-record_poll lawful now db h =
      unfold record_error in status_of-record_error lawful now [] db h

-- The status with one of the counters raised.
abbrev pub counted : Text → DaemonStatus → DaemonStatus
counted counter st =
    if text_eq counter (codes "processed")
    then record st { processed = st.processed + 1 }
    else if text_eq counter (codes "skipped")
    then record st { skipped = st.skipped + 1 }
    else if text_eq counter (codes "quarantine")
    then record st { quarantine = st.quarantine + 1 }
    else st

counted-scan_status :
    (rfc : Rfc3339) (counter : Text) (t : Tables) (row : StatusRow) (f : StatusRow → StatusRow)
    → t.daemon_status ≡ some row
    → bump counter ≡ some f
    → scan_status rfc (update_status f t).daemon_status
      ≡ counted counter (scan_status rfc t.daemon_status)
unfolding scan_status update_status bump
counted-scan_status rfc counter t row f there b = rw (there, update_status) (ground (arith, there))

pub status_of-bump_with :
    (rfc : Rfc3339) (counter : Text) (f : Option (StatusRow → StatusRow)) (db : Db)
    → HasStatus db
    → bump counter ≡ f
    → (bump_with counter f db).0 ≡ ok tt
    → status_of rfc (bump_with counter f db).1 ≡ counted counter (status_of rfc db)
unfolding bump_with status_of
status_of-bump_with rfc counter none db there e h = cc
status_of-bump_with rfc counter (some f) db (row, there) e h =
    rw (exec-ok (update_status f) db h) (counted-scan_status rfc counter db.tables row f there e)

-- Where the migrated row is there, a successful `BumpCounter` raises the counter that it names by
-- one and keeps the rest of the status.
status_of-bump_counter :
    (rfc : Rfc3339) (counter : Text) (db : Db)
    → HasStatus db
    → (bump_counter counter db).0 ≡ ok tt
    → status_of rfc (bump_counter counter db).1 ≡ counted counter (status_of rfc db)
unfolding bump_counter
status_of-bump_counter rfc counter db there h =
    status_of-bump_with rfc counter (bump counter) db there refl h

update_status-HasStatus :
    (f : StatusRow → StatusRow) (db db' : Db)
    → HasStatus db
    → db'.tables ≡ update_status f db.tables
    → HasStatus db'
unfolding update_status
update_status-HasStatus f db db' (row, there) e = (f row, ground (arith, e, there))

pub bump_with-HasStatus :
    (counter : Text) (f : Option (StatusRow → StatusRow)) (db : Db)
    → HasStatus db
    → HasStatus (bump_with counter f db).1
unfolding bump_with
bump_with-HasStatus counter none db there = there
bump_with-HasStatus counter (some f) db there = elim (exec-cases (update_status f) db) [
  | inl (p, q) ↦ update_status-HasStatus f db (exec (update_status f) db).1 there q
  | inr (e, p, q) ↦ rw q there
]

bump_counter-HasStatus :
    (counter : Text) (db : Db) → HasStatus db → HasStatus (bump_counter counter db).1
unfolding bump_counter
bump_counter-HasStatus counter = bump_with-HasStatus counter (bump counter)

upsert_poll-HasStatus :
    (at error : Text) (t : Tables)
    → (row : StatusRow) × ((upsert_poll at error t).daemon_status ≡ some row)
unfolding upsert_poll
upsert_poll-HasStatus at error t = elim (Option-cases t.daemon_status) [
  | inl e ↦ (record default_status { last_poll_at = at; last_error = error }, rw e)
  | inr (row, e) ↦ (record row { last_poll_at = at; last_error = error }, rw e)
]

pub record_error-HasStatus :
    (rfc : Rfc3339) (now : ℕ) (msg : Text) (db : Db)
    → HasStatus db
    → HasStatus (record_error rfc now msg db).1
unfolding record_error
record_error-HasStatus rfc now msg db there =
    elim (exec-cases (upsert_poll (rfc.format now) msg) db) [
      | inl (p, q) ↦ rw q (upsert_poll-HasStatus (rfc.format now) msg db.tables)
      | inr (e, p, q) ↦ rw q there
    ]
