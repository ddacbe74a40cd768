-- ===== src/Daemon.antt =====
-- cmd/paperclaw/serve.go: how the daemon joins the OAuth flow, the Drive storage and the store.
-- Flags and logging are left out; the goroutines are the acts of System.antt.
pub mod Connected
pub mod Start
use paper_claw.Base.{
  Text, codes, Error, Result, ok, err, error_of, Method, Option, none, some, ◌++◌,
}
use paper_claw.Config.{Config}
use paper_claw.Oauth.{Oauth2, token_source}
use paper_claw.Store.Sql.{Db}
use paper_claw.DriveStorage.{Service, Drive, State, set_http_client}

-- `drive.ErrUnauthenticated`
abbrev pub unauthenticated : Error
unauthenticated = codes "drive: unauthenticated — complete the OAuth flow at /oauth/start"

unfoldable pub webhook_url : Config → Text
webhook_url cfg = cfg.http.public_base_url ++ codes "/webhook/drive"

-- `client_of` is `oauth2.NewClient` around the token source.
module _ (o : Oauth2) (G : Service) (client_of : o.Token → G.Http) where
  provided : Result (Option o.Token) × Db → Result G.Http × Db
  provided (err e, db) = (err e, db)
  provided (ok none, db) = (err unauthenticated, db)
  provided (ok (some tok), db) = (ok (client_of tok), db)

  -- `oauthTokenProvider.Get`
  unfoldable pub get_http : Method Db G.Http
  unfolding provided
  get_http db = provided (token_source o db)

  -- The Drive storage that `runServe` makes.
  abbrev pub daemon_drive : Config → Drive G
  daemon_drive cfg = record {
    inbox_folder_id = cfg.drive.inbox_folder_id;
    library_folder_id = cfg.drive.library_folder_id;
    processed_folder_id = cfg.drive.processed_folder_id;
    stable_threshold = cfg.poll.stable_threshold;
    get_http = get_http;
  }

  module _ (cfg : Config) where
    client_result : Result (Unit {0}) × State G → Option Error × State G
    client_result (r, s) = (error_of r, s)

    -- What the OAuth flow is given to make a client of a token.
    unfoldable pub set_client : o.Token → State G → Option Error × State G
    unfolding client_result
    set_client tok s = client_result (set_http_client G (daemon_drive cfg) (client_of tok) s)

    restored_from : Result (Option o.Token) × Db → State G → State G
    restored_from (err e, db) s = record s { db = db }
    restored_from (ok none, db) s = record s { db = db }
    restored_from (ok (some tok), db) s = (set_client tok (record s { db = db })).1

    -- The client of a token that is stored already, made at the start.
    unfoldable pub restored : State G → State G
    unfolding restored_from
    restored s = restored_from (token_source o s.db) s
