-- ===== src/Store/Sql.antt =====
-- The tables of internal/store/migrate.go, and SQL statements that may fail.
-- The database driver is not part of the program: a statement either does what SQL says or returns
-- an error and changes nothing. `faults` says which of the coming statements fail, and with what;
-- behind its end all succeed.
use paper_claw.Base.{
  ℕ, ◌*◌, ◌/◌, ◌^◌, false, is_empty, if◌then◌else◌, Text, Error, Result, ok, err, Method, Option,
  none, some, List, [], ◌∷◌, ◌≡◌, ◌⊎◌, inl, inr, refl, ap, sym, ◌∙◌,
}

pub record DocumentRow : Type 0 where
  pub content_hash : Text
  pub entry_name : Text
  pub drive_file_id : Text
  pub source_filename : Text
  pub processed_at : Text

pub record SyncRow : Type 0 where
  pub start_page_token : Text
  pub channel_id : Text
  pub channel_token : Text
  pub resource_id : Text
  pub expires_at : Text

pub record StatusRow : Type 0 where
  pub last_poll_at : Text
  pub last_error : Text
  pub processed : ℕ
  pub skipped : ℕ
  pub quarantine : ℕ

-- The row with id 1, where the schema allows no other.
pub record Tables : Type 0 where
  pub schema_version : Option Text
  pub documents : List DocumentRow
  pub sync_state : Option SyncRow
  pub oauth_token : Option Text
  pub daemon_status : Option StatusRow

pub record Db : Type 0 where
  pub tables : Tables
  pub faults : List (Option Error)

-- The defaults of the columns.
abbrev pub default_sync : SyncRow
default_sync = record {
  start_page_token = [];
  channel_id = [];
  channel_token = [];
  resource_id = [];
  expires_at = [];
}

abbrev pub default_status : StatusRow
default_status = record {
  last_poll_at = [];
  last_error = [];
  processed = 0;
  skipped = 0;
  quarantine = 0;
}

abbrev pub no_tables : Tables
no_tables = record {
  schema_version = none;
  documents = [];
  sync_state = none;
  oauth_token = none;
  daemon_status = none;
}

-- The rest of a statement, by whether it fails.
attempt : {A : Type 0} → (Tables → A × Tables) → Tables → List (Option Error) → Result A × Db
attempt f t [] = let (a, t') = f t in (ok a, record { tables = t'; faults = [] })
attempt f t (none ∷ faults) = let (a, t') = f t in (ok a, record { tables = t'; faults = faults })
attempt f t (some e ∷ faults) = (err e, record { tables = t; faults = faults })

module _ {A : Type 0} where
  unfoldable pub statement : (Tables → A × Tables) → Method Db A
  unfolding attempt
  statement f db = attempt f db.tables db.faults

  -- `QueryRow`: reads, and changes no table.
  unfoldable pub query : (Tables → A) → Method Db A
  unfolding statement
  query f = statement (λ t. (f t, t))

-- `Exec`: its result is not used.
unfoldable pub exec : (Tables → Tables) → Method Db (Unit {0})
unfolding statement
exec f = statement (λ t. (tt, f t))

-- A statement does its work or leaves the tables alone.
attempt-cases :
    {A : Type 0} (f : Tables → A × Tables) (t : Tables) (faults : List (Option Error))
    → (((attempt f t faults).0 ≡ ok (f t).0) × ((attempt f t faults).1.tables ≡ (f t).1))
      ⊎ ((e : Error) × ((attempt f t faults).0 ≡ err e) × ((attempt f t faults).1.tables ≡ t))
unfolding attempt
attempt-cases f t [] = inl (refl, refl)
attempt-cases f t (none ∷ faults) = inl (refl, refl)
attempt-cases f t (some e ∷ faults) = inr (e, refl, refl)

pub exec-cases :
    (f : Tables → Tables) (db : Db)
    → (((exec f db).0 ≡ ok tt) × ((exec f db).1.tables ≡ f db.tables))
      ⊎ ((e : Error) × ((exec f db).0 ≡ err e) × ((exec f db).1.tables ≡ db.tables))
unfolding exec
exec-cases f db = attempt-cases (λ t. (tt, f t)) db.tables db.faults

pub exec-ok :
    (f : Tables → Tables) (db : Db) → (exec f db).0 ≡ ok tt → (exec f db).1.tables ≡ f db.tables
exec-ok f db h = elim (exec-cases f db) [ inl (p, q) ↦ q | inr (e, p, q) ↦ cc ]

pub exec-err :
    (f : Tables → Tables) (db : Db) (e : Error)
    → (exec f db).0 ≡ err e
    → (exec f db).1.tables ≡ db.tables
exec-err f db e h = elim (exec-cases f db) [ inl (p, q) ↦ cc | inr (e', p, q) ↦ q ]

module _ {A : Type 0} where
  pub query-cases :
      (f : Tables → A) (db : Db)
      → ((query f db).0 ≡ ok (f db.tables)) ⊎ ((e : Error) × ((query f db).0 ≡ err e))
  unfolding query
  query-cases f db = elim (attempt-cases (λ t. (f t, t)) db.tables db.faults) [
    | inl (p, q) ↦ inl p
    | inr (e, p, q) ↦ inr (e, p)
  ]

  -- A query changes no table.
  pub query-tables : (f : Tables → A) (db : Db) → (query f db).1.tables ≡ db.tables
  unfolding query
  query-tables f db = elim (attempt-cases (λ t. (f t, t)) db.tables db.faults) [
    | inl (p, q) ↦ q
    | inr (e, p, q) ↦ q
  ]

  pub query-ok : (f : Tables → A) (db : Db) (a : A) → (query f db).0 ≡ ok a → a ≡ f db.tables
  query-ok f db a h = elim (query-cases f db) [ inl p ↦ cc | inr (e, p) ↦ cc ]

-- A store in which no statement fails any more.
abbrev pub Works : Db → Type 0
Works db = db.faults ≡ []

pub exec-Works :
    (f : Tables → Tables) (db : Db)
    → Works db
    → exec f db ≡ (ok tt, record { tables = f db.tables; faults = [] })
unfolding exec
exec-Works f db w = ap (attempt (λ t. (tt, f t)) db.tables) w

pub query-Works :
    {A : Type 0} (f : Tables → A) (db : Db) → Works db → query f db ≡ (ok (f db.tables), db)
unfolding query
query-Works f db w =
    ap (attempt (λ t. (f t, t)) db.tables) w
    ∙ ap (λ faults. (ok (f db.tables), record { tables = db.tables; faults = faults })) (sym w)

-- Go's times, in nanoseconds from its zero time, and the RFC 3339 texts that the tables hold.
-- `time.Format` and `time.Parse` are parameters: a written time is read back to the second.
pub record Rfc3339 : Type 0 where
  pub format : ℕ → Text
  pub parse : Text → Option ℕ

-- What the documents of package `time` promise of a layout that keeps whole seconds.
pub record IsRfc3339 (r : Rfc3339) : Type 0 where
  pub parse-format : (t : ℕ) → r.parse (r.format t) ≡ some (t / 10 ^ 9 * 10 ^ 9)
  pub format_some : (t : ℕ) → is_empty (r.format t) ≡ false

-- `if s != "" { t, _ = time.Parse(time.RFC3339, s) }`: the zero time for the empty text, and for one
-- that is no time.
unfoldable pub read_time : Rfc3339 → Text → ℕ
read_time r s = if is_empty s then 0 else elim (r.parse s) [ none ↦ 0 | some t ↦ t ]

pub read_time-format :
    (r : Rfc3339) → IsRfc3339 r → (t : ℕ) → read_time r (r.format t) ≡ t / 10 ^ 9 * 10 ^ 9
unfolding read_time
read_time-format r h t = rw (h.format_some t, h.parse-format t)
