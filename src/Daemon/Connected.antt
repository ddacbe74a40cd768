-- ===== src/Daemon/Connected.antt =====
-- That the daemon's parts fit: the token provider only reads the store, what a run files is in the
-- index, and after a successful OAuth callback the Drive storage has its client.
use paper_claw.Base.{
  ℕ, Text, Error, Result, ok, err, true, Option, none, some, ◌≡◌, refl, sym, ap, ◌∙◌, arith,
}
use paper_claw.Base.Methods.{◌>>=◌}
use paper_claw.Config.{Config}
use paper_claw.Oauth.{Oauth2, Flow, token_source, handle_callback}
use paper_claw.Oauth.Stored.{handle_callback-IsAuthenticated, token_source-tables}
use paper_claw.Document.Storage.{Outcome, processed}
use paper_claw.Document.Pipeline.{Env, World, process_one}
use paper_claw.Store.Sql.{Db, Rfc3339}
use paper_claw.Store.Documents.{indexed}
use paper_claw.DriveStorage.{
  Service, State, pure, keep_client, client_or_new, drive_client, set_http_client,
}
use paper_claw.DriveStorage.Quarantine.{drive_storage}
use paper_claw.DriveStorage.Quiet.{ReadsOnly}
use paper_claw.Document.Pipeline.Indexed.{KeepsHash}
use paper_claw.DriveStorage.Dedup.{process_one-indexed}
use paper_claw.Daemon.{provided, get_http, daemon_drive, client_result, set_client}

module _ (o : Oauth2) (G : Service) (client_of : o.Token → G.Http) (cfg : Config) where
  provided-tables :
      (r : Result (Option o.Token) × Db) → (provided o G client_of r).1.tables ≡ r.1.tables
  unfolding provided
  provided-tables (err e, db) = refl
  provided-tables (ok none, db) = refl
  provided-tables (ok (some tok), db) = refl

  pub daemon_drive-ReadsOnly : ReadsOnly G (daemon_drive o G client_of cfg)
  unfolding get_http
  daemon_drive-ReadsOnly db = provided-tables (token_source o db) ∙ token_source-tables o db

  -- In the daemon, with a classifier that keeps the hash, a run that ends as processed leaves its hash
  -- in the dedup index.
  process_one-indexed_daemon :
      (unicode : ℕ → ℕ) (rfc : Rfc3339) (env : Env (State G))
      → KeepsHash env
      → (name : Text) (w : World (State G)) (outcome : Outcome)
      → let files = drive_storage G (daemon_drive o G client_of cfg) unicode rfc in
        (process_one files env name w).0 ≡ ok outcome
        → outcome.status ≡ processed
        → indexed (process_one files env name w).1.store.db outcome.hash ≡ true
  process_one-indexed_daemon unicode rfc env keeps name =
      process_one-indexed G (daemon_drive o G client_of cfg) unicode rfc env daemon_drive-ReadsOnly
        keeps name

  -- The Drive storage has a client, made of a token.
  pub record IsConnected (code : Text) (drive : State G) : Type 0 where
    pub tok : o.Token
    pub client : G.Client
    pub exchanged_for : o.exchange code ≡ ok tok
    pub made_of : G.new_client (client_of tok) ≡ ok client
    pub in_use : drive_client G (daemon_drive o G client_of cfg) drive ≡ (ok client, drive)

  -- What setting a client comes to, by what making it returns.
  pub after_new : Result G.Client → State G → Option Error × State G
  after_new r s =
      client_result o G client_of cfg
        ((keep_client G (daemon_drive o G client_of cfg) r >>= λ _. pure tt) s)

  pub after_new_err : (e : Error) (s : State G) → after_new (err e) s ≡ (some e, s)
  unfolding after_new client_result ◌>>=◌ keep_client pure
  after_new_err e s = refl

  pub after_new_ok :
      (c : G.Client) (s : State G) → after_new (ok c) s ≡ (none, record s { client = some c })
  unfolding after_new client_result ◌>>=◌ keep_client pure
  after_new_ok c s = refl

  pub set_client-after_new :
      (tok : o.Token) (s : State G)
      → set_client o G client_of cfg tok s ≡ after_new (G.new_client (client_of tok)) s
  unfolding set_client set_http_client after_new
  set_client-after_new tok s = refl

  in_use :
      (c : G.Client) (s : State G)
      → s.client ≡ some c
      → drive_client G (daemon_drive o G client_of cfg) s ≡ (ok c, s)
  unfolding drive_client client_or_new
  in_use c s h = ap (λ found. client_or_new G (daemon_drive o G client_of cfg) found s) h

  -- A client that was set without an error is in use.
  set_client-IsConnected :
      (code : Text) (tok : o.Token) (s s' : State G) (r : Result G.Client)
      → o.exchange code ≡ ok tok
      → G.new_client (client_of tok) ≡ r
      → set_client o G client_of cfg tok s ≡ (none, s')
      → IsConnected code s'
  set_client-IsConnected code tok s s' (err e) x p h =
      let q : ◌≡◌ {A = Option Error × State G} (some e, s) (none, s') =
        sym (after_new_err e s)
        ∙ ap (λ r. after_new r s) (sym p)
        ∙ sym (set_client-after_new tok s)
        ∙ h in
      let failed : ◌≡◌ {A = Option Error} (some e) none = ap (λ r. r.0) q in
      absurd (ground (arith, failed))
  set_client-IsConnected code tok s s' (ok c) x p h =
      let q : (none, record s { client = some c }) ≡ (none, s') =
        sym (after_new_ok c s)
        ∙ ap (λ r. after_new r s) (sym p)
        ∙ sym (set_client-after_new tok s)
        ∙ h in
      let kept : some c ≡ s'.client = ap (λ r. r.1.client) q in
      record {
        tok = tok;
        client = c;
        exchanged_for = x;
        made_of = p;
        in_use = in_use c s' (sym kept);
      }

  -- After an OAuth callback that answers 200 the Drive storage uses a client made of the token that the
  -- code was exchanged for, without asking the token provider.
  pub handle_callback-IsConnected :
      (state code : Text) (f : Flow (State G))
      → let answer = handle_callback o (set_client o G client_of cfg) true state code f in
        answer.0 ≡ 200 → IsConnected code answer.1.drive
  handle_callback-IsConnected state code f h =
      let (known, done) =
        (handle_callback-IsAuthenticated o (set_client o G client_of cfg) true state code f).1 h in
      set_client-IsConnected code done.tok f.drive _ (G.new_client (client_of done.tok))
        done.exchanged_for refl done.client
