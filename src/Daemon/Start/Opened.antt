-- ===== src/Daemon/Start/Opened.antt =====
-- cmd/paperclaw/serve.go: what a start of the daemon with no error has done.
use mathlib.Core.Path.{subst}
use paper_claw.Base.{
  Text, codes, Error, Result, ok, err, Option, none, some, [], ◌++◌, ◌≡◌, refl, sym, ap, ◌∙◌, arith,
  ok-injective, error_of,
}
use paper_claw.Config.{Config, Secrets, load}
use paper_claw.Config.Complete.{IsComplete, load-IsComplete}
use paper_claw.Oauth.{Oauth2, token_source}
use paper_claw.Oauth.Stored.{token_source-tables}
use paper_claw.Store.Sql.{Db}
use paper_claw.Store.Migrate.{open_store, IsMigrated, open_store-IsMigrated}
use paper_claw.DriveStorage.{Service, State}
use paper_claw.Telemetry.Setup.{Telemetry, Shutdown}
use paper_claw.Telemetry.Instruments.{init}
use paper_claw.Daemon.{restored_from, restored}
use paper_claw.Daemon.Connected.{after_new, after_new_err, after_new_ok, set_client-after_new}
use paper_claw.Daemon.Start.{
  Boot, Started, new_state, metrics_made, store_open, file_open, dir_made, exporters_set, loaded,
  start,
}

module _ (o : Oauth2) (G : Service) (client_of : o.Token → G.Http) where
  -- The Drive client is made of the token that the store gives, or there is none.
  pub data ClientOf (db : Db) (client : Option G.Client) : Type 0 where
    no_client : client ≡ none → ClientOf db client
    client_made :
        (tok : o.Token) (c : G.Client)
        → (token_source o db).0 ≡ ok (some tok)
        → G.new_client (client_of tok) ≡ ok c
        → client ≡ some c
        → ClientOf db client

  -- What a start with no error has done: the configuration is complete, the store that was opened in its
  -- directory is migrated and has kept its rows, and the Drive storage has no scan and no client but
  -- that of the stored token.
  pub record IsStarted {Instrument : Type 0} (boot : Boot Instrument) (s : Started o G client_of)
      : Type 0 where
    pub before : Db
    pub db : Db
    pub complete : IsComplete boot.getenv s.cfg
    pub opened : boot.sql_open (s.cfg.state_dir ++ codes "/paperclaw.db") ≡ ok before
    pub migrated : open_store boot.now before ≡ (none, db)
    pub kept : IsMigrated before.tables s.drive.db.tables
    pub unscanned : s.drive.scan_files ≡ []
    pub client : ClientOf db s.drive.client

  -- What the restored client leaves as it was, and where it comes from.
  abbrev Restored : Db → Db → State G → State G → Type 0
  Restored stored db s s' =
      (s'.db ≡ db) × (s'.scan_files ≡ s.scan_files) × ClientOf stored s'.client

  after_new-Restored :
      (cfg : Config) (stored db : Db) (tok : o.Token) (r : Result G.Client) (s : State G)
      → (token_source o stored).0 ≡ ok (some tok)
      → G.new_client (client_of tok) ≡ r
      → s.client ≡ none
      → Restored stored db s (after_new o G client_of cfg r (record s { db = db })).1
  after_new-Restored cfg stored db tok (err e) s p q h =
      rw (after_new_err o G client_of cfg e (record s { db = db })) (refl, refl, no_client h)
  after_new-Restored cfg stored db tok (ok c) s p q h =
      rw (after_new_ok o G client_of cfg c (record s { db = db }))
        (refl, refl, client_made tok c p q refl)

  restored_from-Restored :
      (cfg : Config) (stored : Db) (r : Result (Option o.Token) × Db) (s : State G)
      → (token_source o stored).0 ≡ r.0
      → s.client ≡ none
      → Restored stored r.1 s (restored_from o G client_of cfg r s)
  unfolding restored_from
  restored_from-Restored cfg stored (err e, db) s p h = (refl, refl, no_client h)
  restored_from-Restored cfg stored (ok none, db) s p h = (refl, refl, no_client h)
  restored_from-Restored cfg stored (ok (some tok), db) s p h =
      subst (λ t. Restored stored db s t.1)
        (sym (set_client-after_new o G client_of cfg tok (record s { db = db })))
        (after_new-Restored cfg stored db tok (G.new_client (client_of tok)) s p refl h)

  module _ {Instrument : Type 0} (boot : Boot Instrument) (remote : G.Remote) where
    metrics_made-ok :
        (e : Option Error) (s s' : Started o G client_of)
        → metrics_made o G client_of boot remote e s ≡ ok s'
        → s ≡ s'
    unfolding metrics_made
    metrics_made-ok (some e) s s' h = absurd (ground (arith, h))
    metrics_made-ok none s s' h = ok-injective s s' h

    store_open-IsStarted :
        (cfg : Config) (secrets : Secrets) (before : Db) (r : Option Error × Db)
        (s : Started o G client_of)
        → IsComplete boot.getenv cfg
        → boot.sql_open (cfg.state_dir ++ codes "/paperclaw.db") ≡ ok before
        → open_store boot.now before ≡ r
        → store_open o G client_of boot remote cfg secrets r ≡ ok s
        → IsStarted boot s
    unfolding store_open restored
    store_open-IsStarted cfg secrets before (some e, db) s full opened done h =
        absurd (ground (arith, h))
    store_open-IsStarted cfg secrets before (none, db) s full opened done h =
        let (same, unscanned, client) =
          restored_from-Restored cfg db (token_source o db) (new_state o G client_of boot remote db)
            refl refl in
        let tables = ap (λ d. d.tables) same ∙ token_source-tables o db in
        rw (sym (metrics_made-ok (error_of (init boot.meter)) _ s h)) (record {
          before = before;
          db = db;
          complete = full;
          opened = opened;
          migrated = done;
          kept = rw tables (open_store-IsMigrated boot.now before db done);
          unscanned = unscanned;
          client = client;
        })

    file_open-IsStarted :
        (cfg : Config) (secrets : Secrets) (r : Result Db) (s : Started o G client_of)
        → IsComplete boot.getenv cfg
        → boot.sql_open (cfg.state_dir ++ codes "/paperclaw.db") ≡ r
        → file_open o G client_of boot remote cfg secrets r ≡ ok s
        → IsStarted boot s
    unfolding file_open
    file_open-IsStarted cfg secrets (err e) s full opened h = absurd (ground (arith, h))
    file_open-IsStarted cfg secrets (ok db) s full opened h =
        store_open-IsStarted cfg secrets db (open_store boot.now db) s full opened refl h

    dir_made-IsStarted :
        (cfg : Config) (secrets : Secrets) (e : Option Error) (s : Started o G client_of)
        → IsComplete boot.getenv cfg
        → dir_made o G client_of boot remote cfg secrets e ≡ ok s
        → IsStarted boot s
    unfolding dir_made
    dir_made-IsStarted cfg secrets (some e) s full h = absurd (ground (arith, h))
    dir_made-IsStarted cfg secrets none s full h =
        file_open-IsStarted cfg secrets (boot.sql_open (cfg.state_dir ++ codes "/paperclaw.db")) s
          full refl h

    exporters_set-IsStarted :
        (cfg : Config) (secrets : Secrets) (r : Result Shutdown × Telemetry)
        (s : Started o G client_of)
        → IsComplete boot.getenv cfg
        → (exporters_set o G client_of boot remote cfg secrets r).0 ≡ ok s
        → IsStarted boot s
    unfolding exporters_set
    exporters_set-IsStarted cfg secrets (err e, t) s full h = absurd (ground (arith, h))
    exporters_set-IsStarted cfg secrets (ok shutdown, t) s full h =
        dir_made-IsStarted cfg secrets (boot.mkdir_all cfg.state_dir) s full h

    loaded-IsStarted :
        (file : Result Text) (r : Result (Config × Secrets)) (s : Started o G client_of)
        → load boot.unmarshal boot.getenv file ≡ r
        → (loaded o G client_of boot remote r).0 ≡ ok s
        → IsStarted boot s
    unfolding loaded
    loaded-IsStarted file (err e) s p h = absurd (ground (arith, h))
    loaded-IsStarted (err e) (ok (cfg, secrets)) s p h = absurd (unfold load in ground (arith, p))
    loaded-IsStarted (ok file) (ok (cfg, secrets)) s p h =
        exporters_set-IsStarted cfg secrets _ s
          (load-IsComplete boot.unmarshal boot.getenv file cfg secrets p) h

    -- A daemon that starts has a complete configuration, a migrated store with the rows that were there,
    -- and a Drive client of the stored token or none.
    pub start-IsStarted :
        (s : Started o G client_of) → (start o G client_of boot remote).0 ≡ ok s → IsStarted boot s
    unfolding start
    start-IsStarted s h =
        loaded-IsStarted boot.file (load boot.unmarshal boot.getenv boot.file) s refl h
