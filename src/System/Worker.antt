-- ===== src/System/Worker.antt =====
-- cmd/paperclaw/serve.go, internal/serve/worker.go: the scan worker over the daemon's store, from storage
-- call to storage call, and the steps of the daemon: any interleaving of the worker with the other
-- goroutines.
use paper_claw.Base.{◌-◌, ◌≤◌, Text, Result, ok, err, Bool, false, Option, List, [], ◌∷◌, ◌≡◌}
use paper_claw.Store.Sql.{Db}
use paper_claw.Store.DaemonStatus.{record_error}
use paper_claw.Document.Storage.{LocalPdf, Storage, Outcome}
use paper_claw.Document.Pipeline.{Env, World, process_one}
use paper_claw.DriveStorage.{State}
use paper_claw.Serve.Worker.{Metrics, Scan, record_result, poll_recorded}
use paper_claw.System.{Daemon, Act, Parts, act, acts, files}

module _ (P : Parts) where
  -- The daemon, and what the other goroutines do before each of the worker's coming storage calls.
  pub record Shared : Type 0 where
    pub daemon : Daemon P.G
    pub others : List (List Act)

  unfoldable pub interfere : Shared → Shared
  unfolding acts
  interfere s = elim s.others [
    | [] ↦ s
    | batch ∷ rest ↦ record { daemon = acts P batch s.daemon; others = rest }
  ]

  abbrev pub with_drive : Shared → State P.G → Shared
  with_drive s drive = record s { daemon = record s.daemon { drive = drive } }

  -- A method of the Drive storage, behind the acts of the others.
  unfoldable pub shared_call : {A : Type 0} → (State P.G → A × State P.G) → Shared → A × Shared
  unfolding interfere
  shared_call m s =
      let s' = interfere s in ((m s'.daemon.drive).0, with_drive s' (m s'.daemon.drive).1)

  abbrev pub shared_pdf : LocalPdf (State P.G) → LocalPdf Shared
  shared_pdf pdf = record {
    local_path = pdf.local_path;
    content_hash = pdf.content_hash;
    cleanup = λ s. with_drive s (pdf.cleanup s.daemon.drive);
  }

  unfoldable pub shared_read :
      Result (LocalPdf (State P.G)) × Shared → Result (LocalPdf Shared) × Shared
  shared_read (err e, s) = (err e, s)
  shared_read (ok pdf, s) = (ok (shared_pdf pdf), s)

  -- The Drive storage as the worker meets it.
  abbrev pub shared_storage : Storage
  shared_storage = record {
    State = Shared;
    list_inbox = shared_call (files P).list_inbox;
    read_pdf = λ name s. shared_read (shared_call ((files P).read_pdf name) s);
    is_duplicate = λ hash. shared_call ((files P).is_duplicate hash);
    write_entry = λ e. shared_call ((files P).write_entry e);
    move_to_processed = λ name hash. shared_call ((files P).move_to_processed name hash);
    quarantine = λ name pe. shared_call ((files P).quarantine name pe);
  }

  -- The tools do not touch the daemon's state.
  abbrev pub shared_env : Env Shared
  shared_env = record {
    extractor = λ s. P.env.extractor s.daemon.drive;
    classifier = λ s. P.env.classifier s.daemon.drive;
    validator = P.env.validator;
    now = λ s. P.env.now s.daemon.drive;
    observed = P.env.observed;
  }

  -- Where the worker is: it waits for a request, or has these names before it.
  pub data Phase : Type 0 where
    idle : Phase
    scanning : List Text → Phase

  pub record System : Type 0 where
    pub daemon : Daemon P.G
    pub phase : Phase
    pub metrics : Option Metrics

  abbrev pub with_db : Daemon P.G → Db → Daemon P.G
  with_db d db = record d { drive = record d.drive { db = db } }

  unfoldable pub names_listed : Result (List Text) × Shared → System → System
  names_listed (err e, sh) s = record s {
    daemon =
        with_db sh.daemon (record_error P.rfc (P.env.now sh.daemon.drive) e sh.daemon.drive.db).1;
    phase = idle;
  }
  names_listed (ok names, sh) s = record s { daemon = sh.daemon; phase = scanning names }

  -- `runScan`, up to its loop, behind the receipt of a request.
  unfoldable pub begin_scan : List (List Act) → System → System
  unfolding names_listed
  begin_scan others s =
      let taken = record s.daemon { queued = s.daemon.queued - 1 } in
      names_listed (shared_storage.list_inbox (record { daemon = taken; others = others })) s

  -- The worker's state over the daemon's store, and back.
  abbrev pub scan_of : World Shared → System → Scan Shared
  scan_of w s = record { world = w; db = w.store.daemon.drive.db; metrics = s.metrics }

  abbrev pub after_scan : Scan Shared → Phase → System
  after_scan c phase = record {
    daemon = with_db c.world.store.daemon c.db;
    phase = phase;
    metrics = c.metrics;
  }

  -- The pipeline's run on one file of a scan.
  unfoldable pub run_file : List (List Act) → Text → System → Result Outcome × World Shared
  run_file others name s =
      process_one shared_storage shared_env name
        (record { store = record { daemon = s.daemon; others = others }; events = [] })

  abbrev pub uncancelled : Scan Shared → Bool
  uncancelled c = false

  -- One round of the loop of `runScan`.
  unfoldable pub scan_file : List (List Act) → Text → List Text → System → System
  unfolding run_file
  scan_file others name names s =
      let run = run_file others name s in
      after_scan (record_result shared_storage shared_env P.rfc uncancelled run (scan_of run.1 s))
        (scanning names)

  -- The end of `runScan`.
  unfoldable pub end_scan : System → System
  end_scan s =
      let w : World Shared = record {
        store = record { daemon = s.daemon; others = [] };
        events = [];
      } in
      after_scan (poll_recorded shared_storage shared_env P.rfc uncancelled (scan_of w s)) idle

  -- What the worker does, as a history shows it.
  pub data Entry : Type 0 where
    begun : Entry
    ran : Result Outcome → Entry

  -- The daemon goes from one state to another, with this history of the worker.
  pub data Steps : System → List Entry → System → Type 0 where
    rest : (s : System) → Steps s [] s
    other :
        {s t : System} {log : List Entry} (a : Act)
        → Steps (record s { daemon = act P a s.daemon }) log t
        → Steps s log t
    begin :
        {s t : System} {log : List Entry} (others : List (List Act))
        → s.phase ≡ idle
        → 1 ≤ s.daemon.queued
        → Steps (begin_scan others s) log t
        → Steps s (begun ∷ log) t
    file :
        {s t : System} {log : List Entry} (others : List (List Act)) (name : Text)
        (names : List Text) (result : Result Outcome)
        → s.phase ≡ scanning (name ∷ names)
        → (run_file others name s).0 ≡ result
        → Steps (scan_file others name names s) log t
        → Steps s (ran result ∷ log) t
    end :
        {s t : System} {log : List Entry}
        → s.phase ≡ scanning []
        → Steps (end_scan s) log t
        → Steps s log t
