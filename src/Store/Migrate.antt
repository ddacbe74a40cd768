-- ===== src/Store/Migrate.antt =====
-- internal/store/migrate.go: the statements run one by one, and the first that fails ends the run.
use paper_claw.Base.{
  ℕ, ◌+◌, Text, codes, Error, Result, ok, err, Option, none, some, List, [], ◌∷◌, ◌++◌, ◌≡◌, ◌∙◌,
  ap, refl, sym, arith, Option-cases, ◌⊎◌, inl, inr,
}
use mathlib.Core.Option
use paper_claw.Document.UniqueName.Decimal.{itoa}
use paper_claw.Store.Sql.{Tables, StatusRow, Db, exec, exec-ok, default_status}

-- `CREATE TABLE IF NOT EXISTS`: it touches no row, and the tables of a new file are empty.
abbrev create_table : Tables → Tables
create_table t = t

-- `INSERT OR IGNORE INTO daemon_status (id) VALUES (1)`
insert_status : Tables → Tables
insert_status t = elim t.daemon_status [
  | none ↦ record t { daemon_status = some default_status }
  | some row ↦ t
]

-- `INSERT OR IGNORE INTO schema_version (version, applied_at) VALUES (1, datetime('now'))`
insert_version : Text → Tables → Tables
insert_version now t = elim t.schema_version [
  | none ↦ record t { schema_version = some now }
  | some applied_at ↦ t
]

migrations : Text → List (Tables → Tables)
unfolding insert_status insert_version
migrations now =
    create_table
    ∷ create_table
    ∷ create_table
    ∷ create_table
    ∷ create_table
    ∷ insert_status
    ∷ insert_version now
    ∷ []

-- The loop, from statement `i` on, and its error if any.
continue_with : (Db → Option Error × Db) → ℕ → Result (Unit {0}) × Db → Option Error × Db
continue_with rest i (err e, db) =
    (some (codes "migration statement " ++ (itoa i ++ (codes ": " ++ e))), db)
continue_with rest i (ok _, db) = rest db

run_migrations : ℕ → List (Tables → Tables) → Db → Option Error × Db
unfolding continue_with
run_migrations i [] db = (none, db)
run_migrations i (stmt ∷ stmts) db = continue_with (run_migrations (i + 1) stmts) i (exec stmt db)

unfoldable pub migrate : Text → Db → Option Error × Db
unfolding migrations run_migrations
migrate now db = run_migrations 0 (migrations now) db

-- `Open`, behind `sql.Open`.
unfoldable pub open_store : Text → Db → Option Error × Db
open_store now db =
    let (e, db') = migrate now db in
    (Option.map (λ cause. codes "migrating store: " ++ cause) e, db')

apply_all : List (Tables → Tables) → Tables → Tables
apply_all [] t = t
apply_all (stmt ∷ stmts) t = apply_all stmts (stmt t)

-- A run with no error has made every statement, in order.
run_migrations-ok :
    (i : ℕ) (stmts : List (Tables → Tables)) (db : Db)
    → (run_migrations i stmts db).0 ≡ none
    → (run_migrations i stmts db).1.tables ≡ apply_all stmts db.tables
unfolding run_migrations apply_all
run_migrations-ok i [] db h = refl
run_migrations-ok i (stmt ∷ stmts) db h =
    go (λ db' g. run_migrations-ok (i + 1) stmts db' g) (exec stmt db) refl h
  where
    go :
        (rest : (db' : Db)
          → (run_migrations (i + 1) stmts db').0 ≡ none
          → (run_migrations (i + 1) stmts db').1.tables ≡ apply_all stmts db'.tables)
        (r : Result (Unit {0}) × Db)
        → exec stmt db ≡ r
        → (continue_with (run_migrations (i + 1) stmts) i r).0 ≡ none
        → (continue_with (run_migrations (i + 1) stmts) i r).1.tables
          ≡ apply_all stmts (stmt db.tables)
    go rest (err e, db') p g = cc
    go rest (ok u, db') p g =
        rest db' g
        ∙ ap (apply_all stmts) (rw (ap (λ q. q.1.tables) p) at (exec-ok stmt db (ap (λ q. q.0) p)))

migrate-tables :
    (now : Text) (db : Db)
    → (migrate now db).0 ≡ none
    → (migrate now db).1.tables ≡ insert_version now (insert_status db.tables)
unfolding migrate apply_all
migrate-tables now db h = run_migrations-ok 0 (migrations now) db h

-- The two inserts keep the other tables and a status row that is there, and leave one there.
inserted :
    (now : Text) (t : Tables)
    → let t' = insert_version now (insert_status t) in
      (t'.documents ≡ t.documents)
      × (t'.sync_state ≡ t.sync_state)
      × (t'.oauth_token ≡ t.oauth_token)
      × (t'.daemon_status
          ≡ (elim t.daemon_status [ none ↦ some default_status | some row ↦ some row ]))
unfolding insert_status insert_version
inserted now t = ground arith

-- What a migration that succeeds leaves behind: every row that was there, and a status row.
pub record IsMigrated (old new : Tables) : Type 0 where
  pub documents : new.documents ≡ old.documents
  pub sync_state : new.sync_state ≡ old.sync_state
  pub oauth_token : new.oauth_token ≡ old.oauth_token
  pub status :
      ((old.daemon_status ≡ none) × (new.daemon_status ≡ some default_status))
      ⊎ ((row : StatusRow) × (old.daemon_status ≡ some row) × (new.daemon_status ≡ some row))

-- A migration that reports no error keeps the documents, the sync state, the token and a status row,
-- and puts a status row of zeros where there was none.
pub migrate-IsMigrated :
    (now : Text) (db : Db)
    → (migrate now db).0 ≡ none
    → IsMigrated db.tables (migrate now db).1.tables
migrate-IsMigrated now db h =
    let (documents, sync, token, status) = inserted now db.tables in
    rw (migrate-tables now db h) (record {
      documents = documents;
      sync_state = sync;
      oauth_token = token;
      status = elim (Option-cases db.tables.daemon_status) [
        | inl e ↦ inl (e, ground (arith, status, e))
        | inr (row, e) ↦ inr (row, e, ground (arith, status, e))
      ];
    })

-- The same of `Open`.
pub open_store-IsMigrated :
    (now : Text) (db db' : Db) → open_store now db ≡ (none, db') → IsMigrated db.tables db'.tables
unfolding open_store
open_store-IsMigrated now db db' h = elim (Option-cases (migrate now db).0) [
  | inl e ↦ rw (sym (ap (λ r. r.1) h)) (migrate-IsMigrated now db e)
  | inr (cause, e) ↦ absurd (ground (arith, rw e at (ap (λ r. r.0) h)))
]
