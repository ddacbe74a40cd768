-- ===== src/Oauth.antt =====
-- internal/oauth/oauth.go: the authorization-code flow. The oauth2 library, JSON and the random
-- source are parameters; an HTTP client is known by the token that it was made of.
pub mod RandomState
pub mod States
pub mod Stored
use paper_claw.Base.{
  ℕ, ◌+◌, Text, codes, Error, Result, ok, err, Bool, Option, none, some, List, ◌∷◌, ◌++◌, contains,
  without, if◌then◌else◌,
}
use paper_claw.Store.Sql.{Db}
use paper_claw.Store.Token.{get_token, put_token}

pub record Oauth2 : Type 1 where
  pub Token : Type 0
  pub exchange : Text → Result Token
  pub marshal : Token → Result Text
  pub unmarshal : Text → Result Token
  -- `inner.Token()`: the token, refreshed if it has expired.
  pub refresh : Token → Result Token

-- `Config` with the store, and what the callbacks `setClient` and `onReady` change.
pub record Flow (Drive : Type 0) : Type 0 where
  pub db : Db
  pub states : List Text
  pub drive : Drive
  pub ready : ℕ

module _ {Drive : Type 0} where
  started : Result Text → Flow Drive → ℕ × Flow Drive
  started (err e) f = (500, f)
  started (ok state) f = (302, record f { states = state ∷ without state f.states })

  -- `HandleStart`, with what `randomState` returned; the status code of the answer.
  unfoldable pub handle_start : Result Text → Flow Drive → ℕ × Flow Drive
  unfolding started
  handle_start random f = started random f

-- `set_client` is what the daemon does with a client made of the token, `has_ready` says whether a
-- callback `onReady` was given.
module _ (o : Oauth2) {Drive : Type 0} (set_client : o.Token → Drive → Option Error × Drive)
    (has_ready : Bool) where
  client_set : Option Error × Drive → Flow Drive → ℕ × Flow Drive
  client_set (some e, drive) f = (500, record f { drive = drive })
  client_set (none, drive) f =
      (200, record f { drive = drive; ready = if has_ready then f.ready + 1 else f.ready })

  token_put : o.Token → Result (Unit {0}) × Db → Flow Drive → ℕ × Flow Drive
  unfolding client_set
  token_put tok (err e, db) f = (500, record f { db = db })
  token_put tok (ok u, db) f = client_set (set_client tok f.drive) (record f { db = db })

  marshalled : o.Token → Result Text → Flow Drive → ℕ × Flow Drive
  unfolding token_put
  marshalled tok (err e) f = (500, f)
  marshalled tok (ok raw) f = token_put tok (put_token raw f.db) f

  exchanged : Result o.Token → Flow Drive → ℕ × Flow Drive
  unfolding marshalled
  exchanged (err e) f = (400, f)
  exchanged (ok tok) f = marshalled tok (o.marshal tok) f

  -- `HandleCallback`, by the two parameters of the query.
  unfoldable pub handle_callback : Text → Text → Flow Drive → ℕ × Flow Drive
  unfolding exchanged
  handle_callback state code f =
      let f' = record f { states = without state f.states } in
      if contains f.states state then exchanged (o.exchange code) f' else (400, f')

module _ (o : Oauth2) where
  source_of : Option Text → Result (Option o.Token)
  source_of none = ok none
  source_of (some raw) = elim (o.unmarshal raw) [
    | err e ↦ err (codes "oauth: unmarshalling token: " ++ e)
    | ok tok ↦ ok (some tok)
  ]

  read_source : Result (Option Text) × Db → Result (Option o.Token) × Db
  unfolding source_of
  read_source (err e, db) = (err (codes "oauth: reading token: " ++ e), db)
  read_source (ok raw, db) = (source_of raw, db)

  -- `TokenSource`, and `HTTPClient`, which wraps it: the token that is stored, if there is one.
  unfoldable pub token_source : Db → Result (Option o.Token) × Db
  unfolding read_source
  token_source db = read_source (get_token db)

  persisted : o.Token → Result Text → Db → Db
  persisted tok (err e) db = db
  persisted tok (ok raw) db = (put_token raw db).1

  refreshed : Result o.Token → Db → Result o.Token × Db
  unfolding persisted
  refreshed (err e) db = (err e, db)
  refreshed (ok tok) db = (ok tok, persisted tok (o.marshal tok) db)

  -- `storeTokenSource.Token`
  unfoldable pub token : o.Token → Db → Result o.Token × Db
  unfolding refreshed
  token inner db = refreshed (o.refresh inner) db
