-- ===== src/Daemon/Start.antt =====
-- cmd/paperclaw/serve.go: the start of the daemon, from the configuration to the scan worker, with the
-- early returns of `runServe`. The goroutines begin behind it.
pub mod Exporting
pub mod Opened
use paper_claw.Base.{Text, codes, Error, Result, ok, err, Option, none, some, [], ◌++◌, error_of}
use paper_claw.Config.{Config, Secrets, load}
use paper_claw.Oauth.{Oauth2}
use paper_claw.Store.Sql.{Db}
use paper_claw.Store.Migrate.{open_store}
use paper_claw.DriveStorage.{Service, State}
use paper_claw.Telemetry.Setup.{Exporters, Telemetry, Shutdown, meter, untouched, setup}
use paper_claw.Telemetry.Instruments.{Meter, init}
use paper_claw.Daemon.{restored}

-- What the start finds: the configuration file, its decoder and the environment, the directory and the
-- database file, the time, and which constructors of the exporters and of the instruments fail.
pub record Boot (Instrument : Type 0) : Type 0 where
  pub file : Result Text
  pub unmarshal : Text → Result Config
  pub getenv : Text → Text
  pub exporters : Exporters
  pub mkdir_all : Text → Option Error
  pub sql_open : Text → Result Db
  pub now : Text
  pub meter : Meter Instrument

module _ (o : Oauth2) (G : Service) (client_of : o.Token → G.Http) where
  pub record Started : Type 0 where
    pub cfg : Config
    pub secrets : Secrets
    pub drive : State G

  module _ {Instrument : Type 0} (boot : Boot Instrument) (remote : G.Remote) where
    -- `drive.New`, with the open store.
    abbrev pub new_state : Db → State G
    new_state db = record { client = none; scan_files = []; db = db; remote = remote }

    metrics_made : Option Error → Started → Result Started
    metrics_made (some e) s = err (codes "initialising metrics: " ++ e)
    metrics_made none s = ok s

    store_open : Config → Secrets → Option Error × Db → Result Started
    unfolding metrics_made
    store_open cfg secrets (some e, db) = err e
    store_open cfg secrets (none, db) =
        metrics_made (error_of (init boot.meter)) (record {
          cfg = cfg;
          secrets = secrets;
          drive = restored o G client_of cfg (new_state db);
        })

    file_open : Config → Secrets → Result Db → Result Started
    unfolding store_open
    file_open cfg secrets (err e) = err (codes "opening store: " ++ e)
    file_open cfg secrets (ok db) = store_open cfg secrets (open_store boot.now db)

    dir_made : Config → Secrets → Option Error → Result Started
    unfolding file_open
    dir_made cfg secrets (some e) = err (codes "creating state dir: " ++ e)
    dir_made cfg secrets none =
        file_open cfg secrets (boot.sql_open (cfg.state_dir ++ codes "/paperclaw.db"))

    -- None of the returns from here on calls the shutdown of the exporters.
    exporters_set : Config → Secrets → Result Shutdown × Telemetry → Result Started × Telemetry
    unfolding dir_made
    exporters_set cfg secrets (err e, t) = (err (codes "setting up telemetry: " ++ e), t)
    exporters_set cfg secrets (ok shutdown, t) =
        (dir_made cfg secrets (boot.mkdir_all cfg.state_dir), t)

    loaded : Result (Config × Secrets) → Result Started × Telemetry
    unfolding exporters_set
    loaded (err e) = (err e, untouched)
    loaded (ok (cfg, secrets)) =
        exporters_set cfg secrets
          (setup (boot.getenv (codes "OTEL_EXPORTER_OTLP_ENDPOINT")) boot.exporters untouched)

    -- `runServe`, up to the goroutines; the state of the exporters is as it leaves them.
    unfoldable pub start : Result Started × Telemetry
    unfolding loaded
    start = loaded (load boot.unmarshal boot.getenv boot.file)
