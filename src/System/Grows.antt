-- ===== src/System/Grows.antt =====
-- Whatever the goroutines do, the dedup index only grows; so the storage that the worker meets is an
-- indexed one.
use mathlib.Core.Path.{subst}
use paper_claw.Base.{
  Text, Result, ok, err, Bool, true, Bool-cases, is_empty, List, [], ◌∷◌, inl, inr, ◌≡◌, refl,
  ok-injective,
}
use paper_claw.Store.Documents.{indexed}
use paper_claw.Store.Grows.{Grows, Grows-refl, Grows-trans, Grows-tables}
use paper_claw.Oauth.{handle_start}
use paper_claw.Oauth.Stored.{handle_callback-Grows}
use paper_claw.Document.Storage.{LocalPdf}
use paper_claw.Document.Pipeline.Indexed.{IsKept, IsIndexed}
use paper_claw.DriveStorage.{State, Drive}
use paper_claw.DriveStorage.Grows.Calls.{ProviderGrows}
use paper_claw.DriveStorage.Grows.{knows_hash, drive_storage-IsIndexed}
use paper_claw.Daemon.{daemon_drive, set_client, webhook_url}
use paper_claw.Daemon.Connected.{daemon_drive-ReadsOnly}
use paper_claw.Serve.ChannelManager.{Managed, ensure_start_page_token, ensure_channel, run_round}
use paper_claw.Serve.ChannelManager.Grows.{
  ensure_start_page_token-Grows, ensure_channel-Grows, run_round-Grows,
}
use paper_claw.ServerHttp.Readyz.Healthy.{handle_readyz-tables}
use paper_claw.ServerHttp.Webhook.Auth.{serve_http-tables}
use paper_claw.ServerHttp.Routes.{
  Endpoint, healthz, readyz, oauth_start, oauth_callback, webhook_drive, Routed, routed,
  method_not_allowed, not_found,
}
use paper_claw.System.{
  Request, Daemon, Act, handled, ticked, started, round, probed, Parts, files, driver, settings,
  flow_of, hook_of, serve_endpoint, serve_routed, serve, managed_of, managing, act, acts,
}
use paper_claw.System.Worker.{
  Shared, interfere, shared_call, shared_pdf, shared_read, shared_storage,
}

module _ (P : Parts) where
  abbrev Provider : Drive P.G
  Provider = daemon_drive P.o P.G P.client_of P.cfg

  provider-Grows : ProviderGrows P.G Provider
  provider-Grows db =
      Grows-tables db (Provider.get_http db).1 (daemon_drive-ReadsOnly P.o P.G P.client_of P.cfg db)

  serve_endpoint-Grows :
      (e : Endpoint) (r : Request) (random : Result Text) (d : Daemon P.G)
      → Grows d.drive.db (serve_endpoint P e r random d).1.drive.db
  unfolding serve_endpoint
  serve_endpoint-Grows healthz r random d = Grows-refl d.drive.db
  serve_endpoint-Grows readyz r random d =
      Grows-tables d.drive.db _ (handle_readyz-tables P.rfc d.probed.healthy d.drive.db)
  serve_endpoint-Grows oauth_start r (ok state) d = unfold handle_start in Grows-refl d.drive.db
  serve_endpoint-Grows oauth_start r (err e) d = unfold handle_start in Grows-refl d.drive.db
  serve_endpoint-Grows oauth_callback r random d =
      handle_callback-Grows P.o (set_client P.o P.G P.client_of P.cfg) true r.state r.code
        (flow_of P d)
  serve_endpoint-Grows webhook_drive r random d =
      Grows-tables d.drive.db _ (serve_http-tables P.rfc r.note (hook_of P d))

  serve_routed-Grows :
      (to : Routed) (r : Request) (random : Result Text) (d : Daemon P.G)
      → Grows d.drive.db (serve_routed P to r random d).1.drive.db
  unfolding serve_routed
  serve_routed-Grows (routed e) r random d = serve_endpoint-Grows e r random d
  serve_routed-Grows method_not_allowed r random d = Grows-refl d.drive.db
  serve_routed-Grows not_found r random d = Grows-refl d.drive.db

  managing-Grows :
      (m : Managed (State P.G)) (d : Daemon P.G)
      → Grows d.drive.db m.db
      → Grows d.drive.db (managing P m d).drive.db
  unfolding managing
  managing-Grows m d g = elim (Bool-cases (is_empty (webhook_url P.cfg))) [
    | inl e ↦ rw e (Grows-refl d.drive.db)
    | inr e ↦ rw e g
  ]

  -- No act of the other goroutines takes a hash out of the index.
  pub act-Grows : (a : Act) (d : Daemon P.G) → Grows d.drive.db (act P a d).drive.db
  unfolding act serve
  act-Grows (handled r random) d = serve_routed-Grows _ r random d
  act-Grows ticked d = Grows-refl d.drive.db
  act-Grows (started now) d =
      managing-Grows
        (ensure_channel (driver P) P.rfc (settings P) now
          (ensure_start_page_token (driver P) P.rfc (settings P) (managed_of P d)))
        d
        (Grows-trans (ensure_start_page_token-Grows (driver P) P.rfc (settings P) (managed_of P d))
          (ensure_channel-Grows (driver P) P.rfc (settings P) now
            (ensure_start_page_token (driver P) P.rfc (settings P) (managed_of P d))))
  act-Grows (round now wake) d =
      managing-Grows (run_round (driver P) P.rfc (settings P) now wake (managed_of P d)).1 d
        (run_round-Grows (driver P) P.rfc (settings P) now wake (managed_of P d))
  act-Grows (probed cause now) d = Grows-refl d.drive.db

  acts-Grows : (batch : List Act) (d : Daemon P.G) → Grows d.drive.db (acts P batch d).drive.db
  unfolding acts
  acts-Grows [] d = Grows-refl d.drive.db
  acts-Grows (a ∷ batch) d = Grows-trans (act-Grows a d) (acts-Grows batch (act P a d))

  interfere-kept :
      (Q : Daemon P.G → Type 0)
      → ((batch : List Act) (d : Daemon P.G) → Q d → Q (acts P batch d))
      → (s : Shared P) → Q s.daemon
      → Q (interfere P s).daemon
  interfere-kept Q undisturbed s h = batches s.others
    where
      batches :
          (others : List (List Act))
          → Q (interfere P (record { daemon = s.daemon; others = others })).daemon
      batches [] = unfold interfere in h
      batches (batch ∷ rest) = unfold interfere in undisturbed batch s.daemon h

  -- What the dedup index has.
  abbrev pub filed_before : Shared P → Text → Bool
  filed_before s hash = indexed s.daemon.drive.db hash

  -- What the acts of the others and a call on the drive keep.
  call-kept :
      {A : Type 0} (Q : Daemon P.G → Type 0) (m : State P.G → A × State P.G)
      → ((batch : List Act) (d : Daemon P.G) → Q d → Q (acts P batch d))
      → ((d : Daemon P.G) → Q d → Q (record d { drive = (m d.drive).1 }))
      → (s : Shared P) → Q s.daemon
      → Q (shared_call P m s).1.daemon
  unfolding shared_call
  call-kept Q m undisturbed keeps s h =
      keeps (interfere P s).daemon (interfere-kept Q undisturbed s h)

  shared_read-state : (r : Result (LocalPdf (State P.G)) × Shared P) → (shared_read P r).1 ≡ r.1
  unfolding shared_read
  shared_read-state (err e, s) = refl
  shared_read-state (ok pdf, s) = refl

  shared_read-ok :
      (r : Result (LocalPdf (State P.G)) × Shared P) (pdf : LocalPdf (Shared P))
      → (shared_read P r).0 ≡ ok pdf
      → (local : LocalPdf (State P.G)) × (r.0 ≡ ok local) × (shared_pdf P local ≡ pdf)
  unfolding shared_read
  shared_read-ok (err e, s) pdf h = cc
  shared_read-ok (ok local, s) pdf h = (local, refl, ok-injective _ _ h)

  drive-IsIndexed : IsIndexed (files P) (knows_hash P.G Provider provider-Grows)
  drive-IsIndexed = drive_storage-IsIndexed P.G Provider provider-Grows P.unicode P.rfc

  closed :
      (Q : Daemon P.G → Type 0)
      → ((local : LocalPdf (State P.G)) (name : Text) (t : State P.G) (d : Daemon P.G)
          → ((files P).read_pdf name t).0 ≡ ok local
          → Q d
          → Q (record d { drive = local.cleanup d.drive }))
      → (name : Text) (s : Shared P) (pdf : LocalPdf (Shared P))
      → ((shared_storage P).read_pdf name s).0 ≡ ok pdf
      → (t : Shared P) → Q t.daemon
      → Q (pdf.cleanup t).daemon
  closed Q keeps name s pdf got t h =
      let (local, read, same) =
        shared_read-ok (shared_call P ((files P).read_pdf name) s) pdf got in
      subst (λ p. Q (p.cleanup t).daemon) same
        (keeps local name (interfere P s).daemon.drive t.daemon (unfold shared_call in read) h)

  -- What the others keep, and each method of the Drive storage, the worker's calls keep.
  pub shared_storage-IsKept :
      (Q : Daemon P.G → Type 0)
      → ((batch : List Act) (d : Daemon P.G) → Q d → Q (acts P batch d))
      → ((d : Daemon P.G) → Q d → IsKept (files P) (λ t. Q (record d { drive = t })))
      → IsKept (shared_storage P) (λ s. Q s.daemon)
  shared_storage-IsKept Q undisturbed keeps = record {
    lists = call-kept Q (files P).list_inbox undisturbed (λ d h. (keeps d h).lists d.drive h);
    reads = λ name s h. rw (shared_read-state (shared_call P ((files P).read_pdf name) s)) (
        call-kept Q ((files P).read_pdf name) undisturbed (λ d h. (keeps d h).reads name d.drive h)
          s h);
    closes = closed Q (λ local name t d got h. (keeps d h).closes name t local got d.drive h);
    asks = λ hash.
        call-kept Q ((files P).is_duplicate hash) undisturbed
          (λ d h. (keeps d h).asks hash d.drive h);
    writes = λ e.
        call-kept Q ((files P).write_entry e) undisturbed (λ d h. (keeps d h).writes e d.drive h);
    moves = λ name hash.
        call-kept Q ((files P).move_to_processed name hash) undisturbed
          (λ d h. (keeps d h).moves name hash d.drive h);
    sets_aside = λ name pe.
        call-kept Q ((files P).quarantine name pe) undisturbed
          (λ d h. (keeps d h).sets_aside name pe d.drive h);
  }

  acts-index :
      (hash : Text) (batch : List Act) (d : Daemon P.G)
      → indexed d.drive.db hash ≡ true
      → indexed (acts P batch d).drive.db hash ≡ true
  acts-index hash batch d h = (acts-Grows batch d).index hash h

  -- With the other goroutines between its calls, the storage is still an indexed one.
  pub shared_storage-IsIndexed : IsIndexed (shared_storage P) filed_before
  shared_storage-IsIndexed = record {
    keeps = λ hash.
        shared_storage-IsKept (λ d. indexed d.drive.db hash ≡ true) (acts-index hash)
          (λ d h. drive-IsIndexed.keeps hash);
    answers = λ s hash h.
        unfold shared_call in
        drive-IsIndexed.answers (interfere P s).daemon.drive hash
          (interfere-kept (λ d. indexed d.drive.db hash ≡ true) (acts-index hash) s h);
    written = λ e s name h.
        unfold shared_call in drive-IsIndexed.written e (interfere P s).daemon.drive name h;
  }
