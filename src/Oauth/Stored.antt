-- ===== src/Oauth/Stored.antt =====
-- What a successful callback leaves behind, and that failures tell nobody.
use paper_claw.Base.{
  ◌∙◌, ℕ, ◌+◌, Text, Error, Result, ok, err, Bool, true, Option, none, some, contains, without,
  if◌then◌else◌, ◌≡◌, ◌≢◌, refl, sym, ap, inl, inr, Bool-cases, Result-cases, arith,
}
use paper_claw.Store.Sql.{Db, query-tables}
use paper_claw.Store.Token.{put_token, get_token}
use paper_claw.Store.Grows.{Grows, Grows-refl, put_token-Grows}
use paper_claw.Oauth.{
  read_source, token_source, Oauth2, Flow, client_set, token_put, marshalled, exchanged,
  handle_callback,
}

module _ (o : Oauth2) {Drive : Type 0} (set_client : o.Token → Drive → Option Error × Drive)
    (has_ready : Bool) where
  -- The code was exchanged for a token, its JSON is what the store was given last and was written,
  -- the Drive client was made of it, and `onReady` was called once.
  pub record IsAuthenticated (code : Text) (f f' : Flow Drive) : Type 0 where
    pub tok : o.Token
    pub raw : Text
    pub exchanged_for : o.exchange code ≡ ok tok
    pub encoded : o.marshal tok ≡ ok raw
    pub written : (put_token raw f.db).0 ≡ ok tt
    pub store : f'.db ≡ (put_token raw f.db).1
    pub client : set_client tok f.drive ≡ (none, f'.drive)
    pub told : f'.ready ≡ (if has_ready then f.ready + 1 else f.ready)

  -- A failed answer has told nobody.
  abbrev Silent : Flow Drive → ℕ × Flow Drive → Type 0
  Silent f answer = answer.0 ≢ 200 → answer.1.ready ≡ f.ready

  client_set-Silent :
      (r : Option Error × Drive) (f : Flow Drive) → Silent f (client_set o set_client has_ready r f)
  unfolding client_set
  client_set-Silent (some e, drive) f h = refl
  client_set-Silent (none, drive) f h = absurd (h refl)

  token_put-Silent :
      (tok : o.Token) (r : Result (Unit {0}) × Db) (f : Flow Drive)
      → Silent f (token_put o set_client has_ready tok r f)
  unfolding token_put
  token_put-Silent tok (err e, db) f h = refl
  token_put-Silent tok (ok u, db) f h =
      client_set-Silent (set_client tok f.drive) (record f { db = db }) h

  marshalled-Silent :
      (tok : o.Token) (r : Result Text) (f : Flow Drive)
      → Silent f (marshalled o set_client has_ready tok r f)
  unfolding marshalled
  marshalled-Silent tok (err e) f h = refl
  marshalled-Silent tok (ok raw) f h = token_put-Silent tok (put_token raw f.db) f h

  exchanged-Silent :
      (r : Result o.Token) (f : Flow Drive) → Silent f (exchanged o set_client has_ready r f)
  unfolding exchanged
  exchanged-Silent (err e) f h = refl
  exchanged-Silent (ok tok) f h = marshalled-Silent tok (o.marshal tok) f h

  client_set-IsAuthenticated :
      (code : Text) (tok : o.Token) (raw : Text) (f : Flow Drive) (r : Option Error × Drive)
      → o.exchange code ≡ ok tok
      → o.marshal tok ≡ ok raw
      → (put_token raw f.db).0 ≡ ok tt
      → set_client tok f.drive ≡ r
      → let answer =
          client_set o set_client has_ready r (record f { db = (put_token raw f.db).1 }) in
        answer.0 ≡ 200 → IsAuthenticated code f answer.1
  unfolding client_set
  client_set-IsAuthenticated code tok raw f (some e, drive) p q w c h = absurd (omega arith)
  client_set-IsAuthenticated code tok raw f (none, drive) p q w c h = record {
    tok = tok;
    raw = raw;
    exchanged_for = p;
    encoded = q;
    written = w;
    store = refl;
    client = c;
    told = refl;
  }

  token_put-IsAuthenticated :
      (code : Text) (tok : o.Token) (raw : Text) (f : Flow Drive) (r : Result (Unit {0}) × Db)
      → o.exchange code ≡ ok tok
      → o.marshal tok ≡ ok raw
      → put_token raw f.db ≡ r
      → (token_put o set_client has_ready tok r f).0 ≡ 200
      → IsAuthenticated code f (token_put o set_client has_ready tok r f).1
  unfolding token_put
  token_put-IsAuthenticated code tok raw f (err e, db) p q w h = absurd (omega arith)
  token_put-IsAuthenticated code tok raw f (ok u, db) p q w h =
      let same : db ≡ (put_token raw f.db).1 = sym (ap (λ r. r.1) w) in
      rw same (
        client_set-IsAuthenticated code tok raw f (set_client tok f.drive) p q (ap (λ r. r.0) w)
          refl (rw same at h))

  marshalled-IsAuthenticated :
      (code : Text) (tok : o.Token) (r : Result Text) (f : Flow Drive)
      → o.exchange code ≡ ok tok
      → o.marshal tok ≡ r
      → (marshalled o set_client has_ready tok r f).0 ≡ 200
      → IsAuthenticated code f (marshalled o set_client has_ready tok r f).1
  unfolding marshalled
  marshalled-IsAuthenticated code tok (err e) f p q h = absurd (omega arith)
  marshalled-IsAuthenticated code tok (ok raw) f p q h =
      token_put-IsAuthenticated code tok raw f (put_token raw f.db) p q refl h

  exchanged-IsAuthenticated :
      (code : Text) (r : Result o.Token) (f : Flow Drive)
      → o.exchange code ≡ r
      → (exchanged o set_client has_ready r f).0 ≡ 200
      → IsAuthenticated code f (exchanged o set_client has_ready r f).1
  unfolding exchanged
  exchanged-IsAuthenticated code (err e) f p h = absurd (omega arith)
  exchanged-IsAuthenticated code (ok tok) f p h =
      marshalled-IsAuthenticated code tok (o.marshal tok) f p refl h

  -- `onReady` is called only with a 200 answer, and an answer is 200 only if the state was pending
  -- and the whole exchange went through: the token is written to the store and the Drive client is
  -- made of it.
  pub handle_callback-IsAuthenticated :
      (state code : Text) (f : Flow Drive)
      → let answer = handle_callback o set_client has_ready state code f in
        (answer.0 ≢ 200 → answer.1.ready ≡ f.ready)
        × (answer.0 ≡ 200
            → (contains f.states state ≡ true)
              × IsAuthenticated code (record f { states = without state f.states }) answer.1)
  unfolding handle_callback
  handle_callback-IsAuthenticated state code f =
      let f' = record f { states = without state f.states } in
      elim (Bool-cases (contains f.states state)) [
        | inl known ↦ rw known (
          exchanged-Silent (o.exchange code) f',
          λ h. (refl, exchanged-IsAuthenticated code (o.exchange code) f' refl h),
        )
        | inr unknown ↦ rw unknown (λ h. refl, λ h. absurd (omega arith))
      ]

module _ (o : Oauth2) where
  read_source-tables : (r : Result (Option Text) × Db) → (read_source o r).1.tables ≡ r.1.tables
  unfolding read_source
  read_source-tables (err e, db) = refl
  read_source-tables (ok raw, db) = refl

  -- `TokenSource`, from which the Drive client is built, changes no table.
  pub token_source-tables : (db : Db) → (token_source o db).1.tables ≡ db.tables
  unfolding token_source get_token
  token_source-tables db = read_source-tables (get_token db) ∙ query-tables (λ t. t.oauth_token) db

-- A callback takes nothing out of the store.
module _ (o : Oauth2) {Drive : Type 0} (set_client : o.Token → Drive → Option Error × Drive)
    (has_ready : Bool) where
  client_set-db :
      (r : Option Error × Drive) (f : Flow Drive)
      → (client_set o set_client has_ready r f).1.db ≡ f.db
  unfolding client_set
  client_set-db (some e, drive) f = refl
  client_set-db (none, drive) f = refl

  token_put-db :
      (tok : o.Token) (r : Result (Unit {0}) × Db) (f : Flow Drive)
      → (token_put o set_client has_ready tok r f).1.db ≡ r.1
  unfolding token_put
  token_put-db tok (err e, db) f = refl
  token_put-db tok (ok u, db) f = client_set-db (set_client tok f.drive) (record f { db = db })

  exchanged-Grows :
      (r : Result o.Token) (f : Flow Drive) → Grows f.db (exchanged o set_client has_ready r f).1.db
  unfolding exchanged marshalled
  exchanged-Grows (err e) f = Grows-refl f.db
  exchanged-Grows (ok tok) f = elim (Result-cases (o.marshal tok)) [
    | inl (raw, e) ↦
        rw (e, marshalled) (rw (token_put-db tok (put_token raw f.db) f) (put_token-Grows raw f.db))
    | inr (cause, e) ↦ rw (e, marshalled) (Grows-refl f.db)
  ]

  pub handle_callback-Grows :
      (state code : Text) (f : Flow Drive)
      → Grows f.db (handle_callback o set_client has_ready state code f).1.db
  unfolding handle_callback
  handle_callback-Grows state code f = elim (Bool-cases (contains f.states state)) [
    | inl known ↦
        rw known (exchanged-Grows (o.exchange code) (record f { states = without state f.states }))
    | inr unknown ↦ rw unknown (Grows-refl f.db)
  ]
