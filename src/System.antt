-- ===== src/System.antt =====
-- cmd/paperclaw/serve.go: the goroutines of the daemon over its one store: the HTTP handlers, the poll
-- ticker, the prober, the channel manager and the scan worker. What a handler, a tick, a probe or a round
-- of the channel manager does is one act. The worker goes from storage call to storage call, and before
-- each of its calls any acts of the others may happen.
pub mod Worker
pub mod Grows
pub mod Filed
pub mod Requests
pub mod Shutdown
use paper_claw.Base.{
  ℕ, zero, suc, Text, Error, Result, Method, Bool, Option, List, [], ◌∷◌, is_empty, if◌then◌else◌,
}
use paper_claw.Config.{Config}
use paper_claw.Oauth.{Oauth2, Flow, handle_start, handle_callback}
use paper_claw.Store.Sql.{Rfc3339}
use paper_claw.Document.Storage.{Storage}
use paper_claw.Document.Pipeline.{Env}
use paper_claw.DriveStorage.{Service, State}
use paper_claw.DriveStorage.Quarantine.{drive_storage}
use paper_claw.Daemon.{daemon_drive, set_client, webhook_url}
use paper_claw.Serve.Worker.Queue.{enqueue}
use paper_claw.Serve.ChannelManager.{
  Channel, WatchRequest, ChangeDriver, Settings, Managed, Wake, ensure_start_page_token,
  ensure_channel, run_round,
}
use paper_claw.ServerHttp.Prober.{ProbeResult, probe}
use paper_claw.ServerHttp.Readyz.{code_of, handle_healthz, handle_readyz}
use paper_claw.ServerHttp.Webhook.{Notification, Hook, serve_http}
use paper_claw.ServerHttp.Routes.{
  Endpoint, healthz, readyz, oauth_start, oauth_callback, webhook_drive, new_routes,
  register_webhook, Routed, routed, method_not_allowed, not_found, find_route,
}

-- What the handlers read of a request: the query of the OAuth callback, and the headers of Drive's.
pub record Request : Type 0 where
  pub method : Text
  pub path : Text
  pub state : Text
  pub code : Text
  pub note : Notification

-- The store is that of the Drive storage. `queued` is what the channel of scan requests holds.
pub record Daemon (G : Service) : Type 0 where
  pub drive : State G
  pub states : List Text
  pub queued : ℕ
  pub probed : ProbeResult
  pub webhook_count : Option ℕ
  pub waits : List ℕ

-- One act of a goroutine other than the worker: a request is handled, with what `randomState` returns;
-- the poll ticker ticks; the channel manager starts, at a time, or goes a round; the API is probed.
pub data Act : Type 0 where
  handled : Request → Result Text → Act
  ticked : Act
  started : ℕ → Act
  round : ℕ → Wake → Act
  probed : Option Error → ℕ → Act

-- `enqueue`, called so many times.
abbrev pub enqueue_times : ℕ → ℕ → ℕ
enqueue_times zero queued = queued
enqueue_times (suc n) queued = enqueue_times n (enqueue queued)

-- The parts that `runServe` joins, and the parameters of each.
pub record Parts : Type 1 where
  pub o : Oauth2
  pub G : Service
  pub client_of : o.Token → G.Http
  pub cfg : Config
  pub rfc : Rfc3339
  pub unicode : ℕ → ℕ
  pub env : Env (State G)
  pub get_start_page_token : Method (State G) Text
  pub watch_changes : WatchRequest → Method (State G) Channel
  pub stop_channel : Text → Text → State G → Option Error × State G
  pub rand_read : ℕ → State G → List ℕ × State G

module _ (P : Parts) where
  abbrev pub files : Storage
  files = drive_storage P.G (daemon_drive P.o P.G P.client_of P.cfg) P.unicode P.rfc

  -- The changes API, through the Drive storage.
  abbrev pub driver : ChangeDriver
  driver = record {
    State = State P.G;
    get_start_page_token = P.get_start_page_token;
    watch_changes = P.watch_changes;
    stop_channel = P.stop_channel;
    rand_read = P.rand_read;
  }

  -- `NewChannelManager`
  abbrev pub settings : Settings
  settings = record {
    webhook_url = webhook_url P.cfg;
    channel_ttl = P.cfg.webhook.channel_ttl;
    renew_lead_time = P.cfg.webhook.renew_lead_time;
  }

  -- The OAuth flow over the daemon's store; `onReady` is `enqueue`.
  abbrev pub flow_of : Daemon P.G → Flow (State P.G)
  flow_of d = record { db = d.drive.db; states = d.states; drive = d.drive; ready = 0 }

  abbrev pub after_flow : ℕ × Flow (State P.G) → Daemon P.G → ℕ × Daemon P.G
  after_flow (code, f) d = (
    code,
    record d {
      drive = record f.drive { db = f.db };
      states = f.states;
      queued = enqueue_times f.ready d.queued;
    },
  )

  abbrev pub hook_of : Daemon P.G → Hook
  hook_of d = record { db = d.drive.db; enqueued = 0; webhook_count = d.webhook_count }

  abbrev pub after_hook : ℕ × Hook → Daemon P.G → ℕ × Daemon P.G
  after_hook (code, h) d = (
    code,
    record d {
      drive = record d.drive { db = h.db };
      queued = enqueue_times h.enqueued d.queued;
      webhook_count = h.webhook_count;
    },
  )

  unfoldable pub serve_endpoint : Endpoint → Request → Result Text → Daemon P.G → ℕ × Daemon P.G
  serve_endpoint healthz r random d = (handle_healthz, d)
  serve_endpoint readyz r random d =
      let (answer, db) = handle_readyz P.rfc d.probed.healthy d.drive.db in
      (code_of answer, record d { drive = record d.drive { db = db } })
  serve_endpoint oauth_start r random d = after_flow (handle_start random (flow_of d)) d
  serve_endpoint oauth_callback r random d =
      after_flow
        (handle_callback P.o (set_client P.o P.G P.client_of P.cfg) Bool.true r.state r.code
          (flow_of d))
        d
  serve_endpoint webhook_drive r random d = after_hook (serve_http P.rfc r.note (hook_of d)) d

  serve_routed : Routed → Request → Result Text → Daemon P.G → ℕ × Daemon P.G
  unfolding serve_endpoint
  serve_routed (routed e) r random d = serve_endpoint e r random d
  serve_routed method_not_allowed r random d = (405, d)
  serve_routed not_found r random d = (404, d)

  -- A request, as the server's mux hands it on; the status code of the answer.
  unfoldable pub serve : Request → Result Text → Daemon P.G → ℕ × Daemon P.G
  unfolding serve_routed
  serve r random d =
      serve_routed (find_route r.method r.path (register_webhook new_routes)) r random d

  -- The channel manager's view of the daemon. Its token provider reads the store as it was before.
  abbrev pub managed_of : Daemon P.G → Managed (State P.G)
  managed_of d = record { db = d.drive.db; drive = d.drive; waits = d.waits }

  abbrev pub after_managed : Managed (State P.G) → Daemon P.G → Daemon P.G
  after_managed m d = record d { drive = record m.drive { db = m.db }; waits = m.waits }

  -- `Run` returns at once if there is no public URL.
  managing : Managed (State P.G) → Daemon P.G → Daemon P.G
  managing m d = if is_empty (webhook_url P.cfg) then d else after_managed m d

  unfoldable pub act : Act → Daemon P.G → Daemon P.G
  unfolding serve managing
  act (handled r random) d = (serve r random d).1
  act ticked d = record d { queued = enqueue d.queued }
  act (started now) d =
      managing
        (ensure_channel driver P.rfc settings now
          (ensure_start_page_token driver P.rfc settings (managed_of d)))
        d
  act (round now wake) d = managing (run_round driver P.rfc settings now wake (managed_of d)).1 d
  act (probed cause now) d = record d { probed = probe cause now d.probed }

  unfoldable pub acts : List Act → Daemon P.G → Daemon P.G
  unfolding act
  acts [] d = d
  acts (a ∷ rest) d = acts rest (act a d)
