-- ===== src/Store/Token.antt =====
-- internal/store/store.go: the OAuth token blob.
use paper_claw.Base.{Text, ok, Method, Option, some, ◌≡◌}
use paper_claw.Store.Sql.{
  Tables, Db, query, exec, query-ok, query-Works, query-tables, Works, exec-ok,
}

-- `none` is the nil slice, for `sql.ErrNoRows`.
unfoldable pub get_token : Method Db (Option Text)
get_token = query (λ t. t.oauth_token)

unfoldable pub upsert_token : Text → Tables → Tables
upsert_token token_json t = record t { oauth_token = some token_json }

unfoldable pub put_token : Text → Method Db (Unit {0})
unfolding upsert_token
put_token token_json = exec (upsert_token token_json)

pub get_token-Works : (db : Db) → Works db → get_token db ≡ (ok db.tables.oauth_token, db)
unfolding get_token
get_token-Works db works = query-Works (λ t. t.oauth_token) db works

-- The token that was stored last is the one that is read.
get_token-put_token :
    (token : Text) (db : Db) (read : Option Text)
    → (put_token token db).0 ≡ ok tt
    → (get_token (put_token token db).1).0 ≡ ok read
    → read ≡ some token
unfolding put_token get_token
get_token-put_token token db read h g =
    rw (query-ok (λ t. t.oauth_token) _ read g, exec-ok (upsert_token token) db h)

pub get_token-tables : (db : Db) → (get_token db).1.tables ≡ db.tables
unfolding get_token
get_token-tables db = query-tables (λ t. t.oauth_token) db
