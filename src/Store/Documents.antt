-- ===== src/Store/Documents.antt =====
-- internal/store/store.go: the dedup index, `HasHash` and `PutDocument`.
use paper_claw.Base.{
  ℕ, Text, Result, ok, err, Method, Bool, true, ◌||◌, List, [], ◌∷◌, ◌++◌, text_eq, text_eq_iff,
  if◌then◌else◌, ltb, ◌+◌, ◌<◌, inl, inr, ◌≡◌, arith,
}
use paper_claw.Store.Sql.{
  DocumentRow, Tables, Db, Rfc3339, query, exec, query-cases, exec-ok, exec-cases,
}

pub record DocumentRecord : Type 0 where
  pub content_hash : Text
  pub entry_name : Text
  pub drive_file_id : Text
  pub source_filename : Text
  pub processed_at : ℕ

-- `SELECT COUNT(*) FROM documents WHERE content_hash = ?`
unfoldable pub count_hash : Text → List DocumentRow → ℕ
count_hash hash [] = 0
count_hash hash (row ∷ rows) =
    let rest = count_hash hash rows in if text_eq row.content_hash hash then rest + 1 else rest

unfoldable pub map_result : {A B : Type 0} → (A → B) → Result A × Db → Result B × Db
map_result f (ok a, db) = (ok (f a), db)
map_result f (err e, db) = (err e, db)

unfoldable pub has_hash : Text → Method Db Bool
unfolding count_hash map_result
has_hash hash db = map_result (λ n. ltb 0 n) (query (λ t. count_hash hash t.documents) db)

-- `INSERT OR IGNORE INTO documents …`, whose primary key is the hash.
unfoldable pub insert_or_ignore : DocumentRow → Tables → Tables
unfolding count_hash
insert_or_ignore row t =
    if ltb 0 (count_hash row.content_hash t.documents)
    then t
    else record t { documents = t.documents ++ row ∷ [] }

unfoldable pub to_row : Rfc3339 → DocumentRecord → DocumentRow
to_row rfc r = record {
  content_hash = r.content_hash;
  entry_name = r.entry_name;
  drive_file_id = r.drive_file_id;
  source_filename = r.source_filename;
  processed_at = rfc.format r.processed_at;
}

unfoldable pub put_document : Rfc3339 → DocumentRecord → Method Db (Unit {0})
unfolding insert_or_ignore to_row
put_document rfc r = exec (insert_or_ignore (to_row rfc r))

-- The hashes that are in the index.
unfoldable pub indexed : Db → Text → Bool
unfolding count_hash
indexed db hash = ltb 0 (count_hash hash db.tables.documents)

count_hash-append :
    (hash : Text) (rows : List DocumentRow) (row : DocumentRow)
    → count_hash hash (rows ++ row ∷ [])
      ≡ count_hash hash rows + (if text_eq row.content_hash hash then 1 else 0)
unfolding count_hash
count_hash-append hash [] row = ground arith
count_hash-append hash (r ∷ rows) row = ground (arith, count_hash-append hash rows row)

-- `HasHash` answers by the index, or fails.
pub has_hash-indexed :
    (hash : Text) (db : Db) (b : Bool) → (has_hash hash db).0 ≡ ok b → b ≡ indexed db hash
unfolding has_hash indexed map_result
has_hash-indexed hash db b h = elim (query-cases (λ t. count_hash hash t.documents) db) [
  | inl p ↦ ground (arith, p)
  | inr (e, p) ↦ ground (arith, p)
]

-- A successful `PutDocument` adds its hash to the index and no other.
pub indexed-put_document :
    (rfc : Rfc3339) (r : DocumentRecord) (db : Db) (hash : Text)
    → (put_document rfc r db).0 ≡ ok tt
    → indexed (put_document rfc r db).1 hash ≡ (text_eq r.content_hash hash || indexed db hash)
unfolding put_document indexed
indexed-put_document rfc r db hash h = rw (exec-ok (insert_or_ignore (to_row rfc r)) db h) (
    unfold insert_or_ignore in
    ground (
      arith,
      text_eq_iff r.content_hash hash,
      count_hash-append hash db.tables.documents (to_row rfc r),
    ))

-- A hash that is in the index keeps its first row: the second write of a document changes nothing.
put_document_again :
    (rfc : Rfc3339) (r : DocumentRecord) (db : Db)
    → indexed db r.content_hash ≡ true
    → (put_document rfc r db).1.tables ≡ db.tables
unfolding put_document indexed
put_document_again rfc r db h = elim (exec-cases (insert_or_ignore (to_row rfc r)) db) [
  | inl (p, q) ↦ rw q (unfold insert_or_ignore in ground arith)
  | inr (e, p, q) ↦ q
]

-- No hash has two rows.
abbrev pub HasUniqueHashes : Db → Type 0
HasUniqueHashes db = (hash : Text) → count_hash hash db.tables.documents < 2

-- If no hash has two rows, none has after a `PutDocument`, whether or not it succeeds.
put_document-HasUniqueHashes :
    (rfc : Rfc3339) (r : DocumentRecord) (db : Db)
    → HasUniqueHashes db
    → HasUniqueHashes (put_document rfc r db).1
unfolding put_document
put_document-HasUniqueHashes rfc r db u hash =
    elim (exec-cases (insert_or_ignore (to_row rfc r)) db) [
      | inl (p, q) ↦ rw q (
          unfold insert_or_ignore in
          ground (
            arith,
            u hash,
            text_eq_iff r.content_hash hash,
            count_hash-append hash db.tables.documents (to_row rfc r),
          ))
      | inr (e, p, q) ↦ rw q (u hash)
    ]
