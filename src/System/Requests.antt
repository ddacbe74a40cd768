-- ===== src/System/Requests.antt =====
-- Requests for scans, through the whole daemon: none that was answered with 200 is lost.
use paper_claw.Base.{
  ℕ, zero, suc, ◌≤◌, Text, codes, Result, true, Bool-cases, is_empty, List, [], ◌∷◌, inl, inr, ◌⊎◌,
  ◌≡◌, ◌≢◌, refl, arith,
}
use paper_claw.Oauth.{handle_start, handle_callback}
use paper_claw.Oauth.Stored.{handle_callback-IsAuthenticated}
use paper_claw.Document.Pipeline.Indexed.{IsKept, process_one-Keeps}
use paper_claw.DriveStorage.{State}
use paper_claw.Daemon.{set_client, webhook_url}
use paper_claw.Serve.Worker.Queue.{enqueue}
use paper_claw.Serve.ChannelManager.{Managed}
use paper_claw.ServerHttp.Webhook.{serve_http}
use paper_claw.ServerHttp.Webhook.Auth.{serve_http-enqueues}
use paper_claw.ServerHttp.Routes.{
  Endpoint, healthz, readyz, oauth_start, oauth_callback, webhook_drive, Routed, routed,
  method_not_allowed, not_found, find_route, new_routes, register_webhook,
}
use paper_claw.System.{
  Request, Daemon, Act, handled, ticked, started, round, probed, Parts, flow_of, hook_of,
  enqueue_times, serve_endpoint, serve_routed, serve, managing, act, acts,
}
use paper_claw.System.Grows.{shared_storage-IsKept}
use paper_claw.System.Filed.{record_result-store}
use paper_claw.System.Worker.{
  shared_storage, shared_env, System, scan_of, run_file, uncancelled, scan_file, end_scan, Entry,
  begun, ran, Steps, rest, other, begin, file, end,
}

-- A request is queued.
abbrev pub Asked : ℕ → Type 0
Asked queued = 1 ≤ queued

enqueue-Asked : (queued : ℕ) → Asked (enqueue queued)
unfolding enqueue
enqueue-Asked queued = ground arith

enqueue_times-Asked : (n queued : ℕ) → Asked queued → Asked (enqueue_times n queued)
enqueue_times-Asked zero queued h = h
enqueue_times-Asked (suc n) queued h = enqueue_times-Asked n (enqueue queued) (enqueue-Asked queued)

module _ (P : Parts) where
  serve_endpoint-Asked :
      (e : Endpoint) (r : Request) (random : Result Text) (d : Daemon P.G)
      → Asked d.queued
      → Asked (serve_endpoint P e r random d).1.queued
  unfolding serve_endpoint
  serve_endpoint-Asked healthz r random d h = h
  serve_endpoint-Asked readyz r random d h = h
  serve_endpoint-Asked oauth_start r random d h =
      enqueue_times-Asked (handle_start random (flow_of P d)).1.ready d.queued h
  serve_endpoint-Asked oauth_callback r random d h =
      enqueue_times-Asked
        (handle_callback P.o (set_client P.o P.G P.client_of P.cfg) true r.state r.code
          (flow_of P d)).1.ready
        d.queued h
  serve_endpoint-Asked webhook_drive r random d h =
      enqueue_times-Asked (serve_http P.rfc r.note (hook_of P d)).1.enqueued d.queued h

  serve_routed-Asked :
      (to : Routed) (r : Request) (random : Result Text) (d : Daemon P.G)
      → Asked d.queued
      → Asked (serve_routed P to r random d).1.queued
  unfolding serve_routed
  serve_routed-Asked (routed e) r random d h = serve_endpoint-Asked e r random d h
  serve_routed-Asked method_not_allowed r random d h = h
  serve_routed-Asked not_found r random d h = h

  managing-queued : (m : Managed (State P.G)) (d : Daemon P.G) → (managing P m d).queued ≡ d.queued
  unfolding managing
  managing-queued m d = elim (Bool-cases (is_empty (webhook_url P.cfg))) [
    | inl e ↦ rw e refl
    | inr e ↦ rw e refl
  ]

  act-Asked : (a : Act) (d : Daemon P.G) → Asked d.queued → Asked (act P a d).queued
  unfolding act serve
  act-Asked (handled r random) d h = serve_routed-Asked _ r random d h
  act-Asked ticked d h = enqueue-Asked d.queued
  act-Asked (started now) d h = rw (managing-queued _ d) h
  act-Asked (round now wake) d h = rw (managing-queued _ d) h
  act-Asked (probed cause now) d h = h

  acts-Asked : (batch : List Act) (d : Daemon P.G) → Asked d.queued → Asked (acts P batch d).queued
  unfolding acts
  acts-Asked [] d h = h
  acts-Asked (a ∷ batch) d h = acts-Asked batch (act P a d) (act-Asked a d h)

  -- A queued request stays there through the worker's storage calls.
  calls-Asked : IsKept (shared_storage P) (λ s. Asked s.daemon.queued)
  calls-Asked =
      shared_storage-IsKept P (λ d. Asked d.queued) acts-Asked
        (λ d h. record {
          lists = λ s q. q;
          reads = λ name s q. q;
          closes = λ name s pdf got t q. q;
          asks = λ hash s q. q;
          writes = λ e s q. q;
          moves = λ name hash s q. q;
          sets_aside = λ name pe s q. q;
        })

  scan_file-Asked :
      (others : List (List Act)) (name : Text) (names : List Text) (s : System P)
      → Asked s.daemon.queued
      → Asked (scan_file P others name names s).daemon.queued
  unfolding scan_file
  scan_file-Asked others name names s h =
      let run = run_file P others name s in
      rw
        (record_result-store (shared_storage P) (shared_env P) P.rfc (uncancelled P) run
          (scan_of P run.1 s))
        (unfold run_file in
          process_one-Keeps (shared_storage P) (λ sh. Asked sh.daemon.queued) calls-Asked
            (shared_env P) name
            (record { store = record { daemon = s.daemon; others = others }; events = [] }) h)

  -- How many scans have begun.
  abbrev pub scans : List (Entry P) → ℕ
  scans [] = 0
  scans (begun ∷ log) = suc (scans log)
  scans (ran r ∷ log) = scans log

  -- A queued request is gone only if a scan has begun.
  Steps-Asked :
      {s t : System P} {log : List (Entry P)}
      → Steps P s log t
      → Asked s.daemon.queued
      → t.daemon.queued ≡ 0
      → 1 ≤ scans log
  Steps-Asked (rest s) h e = absurd (omega arith)
  Steps-Asked (other {s} a steps) h e = Steps-Asked steps (act-Asked a s.daemon h) e
  Steps-Asked (begin others waiting asked steps) h e = omega arith
  Steps-Asked (file {s} others name names result there p steps) h e =
      Steps-Asked steps (scan_file-Asked others name names s h) e
  Steps-Asked (end {s} there steps) h e = Steps-Asked steps (unfold end_scan in h) e

  -- A request that asks for a scan: the OAuth callback, and a notification that is no handshake.
  abbrev pub AsksForScan : Request → Type 0
  AsksForScan r =
      let to = find_route r.method r.path (register_webhook new_routes) in
      (to ≡ routed oauth_callback)
      ⊎ ((to ≡ routed webhook_drive) × (r.note.resource_state ≢ codes "sync"))

  serve-Asked :
      (r : Request) (random : Result Text) (d : Daemon P.G)
      → AsksForScan r
      → (serve P r random d).0 ≡ 200
      → Asked (serve P r random d).1.queued
  unfolding serve
  serve-Asked r random d (inl to) done = rw to (
      unfold serve_routed serve_endpoint in
      let f = flow_of P d in
      let set = set_client P.o P.G P.client_of P.cfg in
      let (known, auth) =
        (handle_callback-IsAuthenticated P.o set true r.state r.code f).1
          (unfold serve_routed serve_endpoint in rw to at done) in
      rw auth.told (enqueue-Asked d.queued))
  serve-Asked r random d (inr (to, notified)) done = rw to (
      unfold serve_routed serve_endpoint in
      rw
        (serve_http-enqueues P.rfc r.note (hook_of P d) notified
          (unfold serve_routed serve_endpoint in rw to at done))
        (enqueue-Asked d.queued))

  -- If the daemon answers 200 to an OAuth callback, or to a notification that is no handshake, then
  -- before its queue of scan requests is empty a scan has begun, whatever its goroutines do.
  pub Steps-answered :
      (s : System P) {t : System P} {log : List (Entry P)} (r : Request) (random : Result Text)
      → AsksForScan r
      → (serve P r random s.daemon).0 ≡ 200
      → Steps P (record s { daemon = act P (handled r random) s.daemon }) log t
      → t.daemon.queued ≡ 0
      → 1 ≤ scans log
  Steps-answered s r random asks done steps empty =
      Steps-Asked steps (unfold act in serve-Asked r random s.daemon asks done) empty
