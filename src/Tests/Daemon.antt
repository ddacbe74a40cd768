-- ===== src/Tests/Daemon.antt =====
-- The worker, the channel manager and the webhook.
use paper_claw.Base.{
  ℕ, ◌*◌, ◌^◌, ◌/◌, ◌+◌, Text, codes, ok, err, Bool, false, none, some, List, [], ◌∷◌, map, ◌≡◌,
  refl, arith,
}
use paper_claw.Store.Sql.{read_time}
use paper_claw.Store.Sync.{sync_of}
use paper_claw.Store.DaemonStatus.{status_of}
use paper_claw.Store.DaemonStatus.Ready.{IsReady}
use paper_claw.Document.Storage.{Storage}
use paper_claw.Serve.Worker.{Scan, run_scan}
use paper_claw.Serve.Worker.Counters.{results, Counted, run_scan-Counted}
use paper_claw.Serve.Worker.Queue.{Signal, requested, begun, Steps, idle, request, begin, enqueue}
use paper_claw.Serve.ChannelManager.{
  Channel, ChangeDriver, Settings, Managed, Wake, timer, is_fresh, ensure_channel, wait_for,
  run_rounds, run,
}
use paper_claw.Serve.ChannelManager.Active.{request_from, ensure_channel-registers}
use paper_claw.Serve.ChannelManager.Renewal.{
  Refuses, fired, zeros, is_fresh-wait_for, run_rounds_refused,
}
use paper_claw.Serve.ChannelManager.Registers.{IsUnset, run-never_registers}
use paper_claw.ServerHttp.Webhook.{Notification, Hook, serve_http}
use paper_claw.ServerHttp.Webhook.Auth.{Decides, serve_http-Decides}
use paper_claw.Tests.Data.{seconds, seconds-IsRfc3339, db, fresh_db, memory, tools, world}

abbrev scan : Scan (List Text)
scan = record { world = world; db = db; metrics = none }

abbrev never_done : Scan (List Text) → Bool
never_done s = false

db-IsReady : IsReady db
db-IsReady = record { works = refl; row = (_, refl) }

abbrev names : List Text
names = codes "aa" ∷ codes "bb" ∷ codes "torn.pdf" ∷ []

run_scan-Counted_example :
    let new = status_of seconds (run_scan memory tools seconds never_done scan).db in
    Counted (status_of seconds db) new (results memory tools names world) × (new.last_error ≡ [])
run_scan-Counted_example =
    run_scan-Counted memory tools seconds seconds-IsRfc3339 never_done scan names (codes "aa" ∷ [])
      db-IsReady (λ t. refl) refl

-- A storage that cannot be listed.
abbrev offline : Storage
offline = record memory { list_inbox = λ s. (err (codes "offline"), s) }

-- Three requests, of which one is dropped, and two scans.
abbrev signals : List Signal
signals = requested ∷ begun ∷ requested ∷ requested ∷ begun ∷ []

signals-Steps : Steps 0 signals 0
unfolding enqueue
signals-Steps = request (begin (request (request (begin (idle 0)))))

abbrev granted : Channel
granted = record {
  assigned_id = codes "c2";
  resource_id = codes "r2";
  expires_at = 9000 * 10 ^ 9 + 7;
}

-- A Drive that grants every channel, and one that is not authenticated.
abbrev granting : ChangeDriver
granting = record {
  State = ℕ;
  get_start_page_token = λ d. (ok (codes "p2"), d);
  watch_changes = λ r d. (ok granted, d);
  stop_channel = λ _ _ d. (none, d);
  rand_read = λ n d. (171 ∷ [], d + 1);
}

abbrev refusing : ChangeDriver
refusing = record granting {
  get_start_page_token = λ d. (err (codes "unauthenticated"), d);
  watch_changes = λ r d. (err (codes "unauthenticated"), d);
}

abbrev settings : Settings
settings = record {
  webhook_url = codes "https://x/webhook";
  channel_ttl = 604800 * 10 ^ 9;
  renew_lead_time = 3600 * 10 ^ 9;
}

abbrev managed : Managed ℕ
managed = record { db = db; drive = 0; waits = [] }

abbrev unset : Managed ℕ
unset = record { db = fresh_db; drive = 0; waits = [] }

ensure_channel-registers_example :
    sync_of seconds (ensure_channel granting seconds settings (4000 * 10 ^ 9) managed).db
    ≡ record (sync_of seconds db) {
      channel_id = codes "c2";
      channel_token =
          (request_from granting seconds settings (sync_of seconds db) 0).0.channel_token;
      resource_id = codes "r2";
      expires_at = (9000 * 10 ^ 9 + 7) / 10 ^ 9 * 10 ^ 9;
    }
unfolding sync_of read_time request_from paper_claw.Serve.RandomHex.random_hex
ensure_channel-registers_example =
    ensure_channel-registers granting seconds settings seconds-IsRfc3339 (4000 * 10 ^ 9) managed
      granted 2 refl refl refl refl

is_fresh-wait_for_example :
    is_fresh granting seconds settings (2000 * 10 ^ 9) (sync_of seconds db) ≡ false
unfolding sync_of read_time wait_for
is_fresh-wait_for_example =
    is_fresh-wait_for granting seconds settings (1000 * 10 ^ 9) (2000 * 10 ^ 9) (sync_of seconds db)
      (omega arith)

abbrev times : List (ℕ × ℕ)
times = (4000 * 10 ^ 9, 4000 * 10 ^ 9) ∷ (4001 * 10 ^ 9, 4001 * 10 ^ 9) ∷ []

refusing-Refuses : Refuses refusing seconds settings
refusing-Refuses r d = (codes "unauthenticated", d, refl)

run_rounds_refused_example :
    (run_rounds refusing seconds settings
      (map (fired refusing seconds settings) times)
      managed).waits
    ≡ zeros refusing seconds settings times []
unfolding sync_of read_time
run_rounds_refused_example =
    run_rounds_refused refusing seconds settings refusing-Refuses times managed refl
      (λ e. omega arith) (omega arith, (omega arith, tt))

unset-IsUnset : IsUnset refusing seconds settings unset
unfolding sync_of
unset-IsUnset = record { no_token = refl; no_channel = refl }

abbrev rounds : List (ℕ × Wake)
rounds = (60, timer 120) ∷ (120, timer 180) ∷ []

run-never_registers_example :
    sync_of seconds (run refusing seconds settings 0 rounds unset).db ≡ sync_of seconds fresh_db
run-never_registers_example =
    run-never_registers refusing seconds settings 0 rounds unset (codes "unauthenticated") 0
      unset-IsUnset refl

abbrev notification : Notification
notification = record {
  channel_id = codes "c1";
  channel_token = codes "secret";
  resource_state = codes "change";
}

abbrev hook : Hook
hook = record { db = db; enqueued = 0; webhook_count = some 4 }

serve_http-Decides_example :
    Decides
      (sync_of seconds db)
      notification
      hook
      (serve_http seconds notification hook).1
      (serve_http seconds notification hook).0
serve_http-Decides_example = serve_http-Decides seconds notification hook refl
