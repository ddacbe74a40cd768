-- ===== src/System/Filed.antt =====
-- No document is filed twice by the daemon, whatever its goroutines do in between.
use paper_claw.Base.{
  ◌-◌, Text, Result, ok, err, Bool, true, false, Bool-cases, All, List, [], ◌∷◌, inl, inr, ◌≡◌, ◌≢◌,
  refl, ap,
}
use paper_claw.Store.Sql.{Rfc3339}
use paper_claw.Store.Documents.{indexed}
use paper_claw.Store.Grows.{Grows, record_error-Grows, record_poll-Grows, bump_counter-Grows}
use paper_claw.Document.Storage.{Storage, Status, processed, skipped, quarantined, Outcome}
use paper_claw.Document.Pipeline.{Env, World}
use paper_claw.Document.Pipeline.Indexed.{
  KeepsHash, process_one-Keeps, process_one-unknown, process_one-knows,
}
use paper_claw.Serve.Worker.{Scan, record_result, counter_name}
use paper_claw.System.{Act, Parts, act}
use paper_claw.System.Grows.{act-Grows, filed_before, shared_storage-IsIndexed}
use paper_claw.System.Worker.{
  Shared, shared_storage, shared_env, System, names_listed, begin_scan, scan_of, run_file,
  uncancelled, scan_file, end_scan, Entry, begun, ran, Steps, rest, other, begin, file, end,
}

abbrev hash_if_processed : Status → Text → List Text → List Text
hash_if_processed processed hash hashes = hash ∷ hashes
hash_if_processed skipped hash hashes = hashes
hash_if_processed quarantined hash hashes = hashes

module _ (P : Parts) where
  -- The hashes of the documents that the worker filed, in order.
  abbrev pub filed : List (Entry P) → List Text
  filed [] = []
  filed (begun ∷ log) = filed log
  filed (ran (err e) ∷ log) = filed log
  filed (ran (ok outcome) ∷ log) = hash_if_processed outcome.status outcome.hash (filed log)

-- No text is there twice.
abbrev pub Distinct : List Text → Type 0
Distinct [] = Unit
Distinct (x ∷ xs) = All (λ y. y ≢ x) xs × Distinct xs

record_result-Grows :
    (S : Storage) (env : Env S.State) (rfc : Rfc3339) (done : Scan S.State → Bool)
    (r : Result Outcome × World S.State) (s : Scan S.State)
    → Grows s.db (record_result S env rfc done r s).db
unfolding record_result
record_result-Grows S env rfc done (err e, w) s = record_error-Grows rfc (env.now w.store) e s.db
record_result-Grows S env rfc done (ok outcome, w) s =
    bump_counter-Grows (counter_name outcome.status) s.db

pub record_result-store :
    (S : Storage) (env : Env S.State) (rfc : Rfc3339) (done : Scan S.State → Bool)
    (r : Result Outcome × World S.State) (s : Scan S.State)
    → (record_result S env rfc done r s).world ≡ r.1
unfolding record_result
record_result-store S env rfc done (err e, w) s = refl
record_result-store S env rfc done (ok outcome, w) s = refl

module _ (P : Parts) where
  -- The hashes that are in the index before a step are in it behind the step.
  abbrev Kept : System P → System P → Type 0
  Kept s t =
      (hash : Text) → indexed s.daemon.drive.db hash ≡ true → indexed t.daemon.drive.db hash ≡ true

  names_listed-Kept :
      (r : Result (List Text) × Shared P) (s : System P) (hash : Text)
      → filed_before P r.1 hash ≡ true
      → indexed (names_listed P r s).daemon.drive.db hash ≡ true
  unfolding names_listed
  names_listed-Kept (err e, sh) s hash h =
      (record_error-Grows P.rfc (P.env.now sh.daemon.drive) e sh.daemon.drive.db).index hash h
  names_listed-Kept (ok names, sh) s hash h = h

  begin_scan-Kept : (others : List (List Act)) (s : System P) → Kept s (begin_scan P others s)
  unfolding begin_scan
  begin_scan-Kept others s hash h =
      let taken : Shared P = record {
        daemon = record s.daemon { queued = s.daemon.queued - 1 };
        others = others;
      } in
      names_listed-Kept ((shared_storage P).list_inbox taken) s hash
        (((shared_storage-IsIndexed P).keeps hash).lists taken h)

  -- The worker's world at the beginning of a run.
  abbrev world_of : List (List Act) → System P → World (Shared P)
  world_of others s = record { store = record { daemon = s.daemon; others = others }; events = [] }

  run_file-Kept :
      (others : List (List Act)) (name : Text) (names : List Text) (s : System P) (hash : Text)
      → filed_before P (run_file P others name s).1.store hash ≡ true
      → indexed (scan_file P others name names s).daemon.drive.db hash ≡ true
  unfolding scan_file
  run_file-Kept others name names s hash h =
      let run = run_file P others name s in
      (record_result-Grows (shared_storage P) (shared_env P) P.rfc (uncancelled P) run
          (scan_of P run.1 s)).index
        hash h

  scan_file-Kept :
      (others : List (List Act)) (name : Text) (names : List Text) (s : System P)
      → Kept s (scan_file P others name names s)
  scan_file-Kept others name names s hash h = run_file-Kept others name names s hash (
      unfold run_file in
      process_one-Keeps (shared_storage P) (λ sh. filed_before P sh hash ≡ true)
        ((shared_storage-IsIndexed P).keeps hash) (shared_env P) name (world_of others s) h)

  end_scan-Kept : (s : System P) → Kept s (end_scan P s)
  unfolding end_scan
  end_scan-Kept s hash h =
      (record_poll-Grows P.rfc (P.env.now s.daemon.drive) s.daemon.drive.db).index hash h

  -- What was not in the index behind a step was not in it before.
  Kept-new :
      (s t : System P) (hash : Text)
      → Kept s t
      → indexed t.daemon.drive.db hash ≡ false
      → indexed s.daemon.drive.db hash ≡ false
  Kept-new s t hash kept new = elim (Bool-cases (indexed s.daemon.drive.db hash)) [
    | inl known ↦ absurd (cc (kept hash known, new))
    | inr unknown ↦ unknown
  ]

  abbrev pub New : System P → List Text → Type 0
  New s hashes = All (λ hash. indexed s.daemon.drive.db hash ≡ false) hashes

  New-Kept : (s t : System P) (hashes : List Text) → Kept s t → New t hashes → New s hashes
  New-Kept s t [] kept h = tt
  New-Kept s t (hash ∷ hashes) kept (h, hs) =
      (Kept-new s t hash kept h, New-Kept s t hashes kept hs)

  New-others :
      (t : System P) (hash : Text) (hashes : List Text)
      → indexed t.daemon.drive.db hash ≡ true
      → New t hashes
      → All (λ other. other ≢ hash) hashes
  New-others t hash [] known h = tt
  New-others t hash (later ∷ hashes) known (h, hs) = (
    λ same. absurd (cc (ap (indexed t.daemon.drive.db) same, h, known)),
    New-others t hash hashes known hs,
  )

  -- One file of a scan, by the status of its result.
  ran-Distinct :
      KeepsHash P.env
      → (others : List (List Act)) (name : Text) (names : List Text) (s : System P)
        (result : Result Outcome) (log : List (Entry P))
      → (run_file P others name s).0 ≡ result
      → New (scan_file P others name names s) (filed P log)
      → Distinct (filed P log)
      → New s (filed P (ran result ∷ log)) × Distinct (filed P (ran result ∷ log))
  ran-Distinct keeps others name names s (err e) log p new distinct = (
    New-Kept s (scan_file P others name names s) (filed P log) (scan_file-Kept others name names s)
        new,
    distinct,
  )
  ran-Distinct keeps others name names s (ok outcome) log p new distinct =
      by_status outcome.status refl
    where
      old : New s (filed P log)
      old =
          New-Kept s (scan_file P others name names s) (filed P log)
            (scan_file-Kept others name names s) new

      by_status :
          (st : Status)
          → outcome.status ≡ st
          → New s (hash_if_processed st outcome.hash (filed P log))
            × Distinct (hash_if_processed st outcome.hash (filed P log))
      by_status skipped e = (old, distinct)
      by_status quarantined e = (old, distinct)
      by_status processed e =
          let unknown =
            process_one-unknown (shared_storage P) (filed_before P) (shared_storage-IsIndexed P)
              (shared_env P) name (world_of others s) outcome (unfold run_file in p) e in
          let known =
            process_one-knows (shared_storage P) (filed_before P) (shared_storage-IsIndexed P)
              (shared_env P) name (world_of others s) outcome (unfold run_file in p) e
              (λ sh. keeps sh.daemon.drive) in
          let after = run_file-Kept others name names s outcome.hash (unfold run_file in known) in
          (
            (unknown, old),
            (
              New-others (scan_file P others name names s) outcome.hash (filed P log) after new,
              distinct,
            ),
          )

  -- In any run of the daemon, with a classifier that keeps the hash, the documents that are filed have
  -- different hashes, and none of them was in the index at its beginning.
  pub Steps-filed_once :
      KeepsHash P.env
      → {s t : System P} {log : List (Entry P)} → Steps P s log t
      → New s (filed P log) × Distinct (filed P log)
  Steps-filed_once keeps (rest s) = (tt, tt)
  Steps-filed_once keeps (other {s} {t} {log} a steps) =
      let (new, distinct) = Steps-filed_once keeps steps in
      (
        New-Kept s (record s { daemon = act P a s.daemon }) (filed P log)
            (act-Grows P a s.daemon).index new,
        distinct,
      )
  Steps-filed_once keeps (begin {s} {t} {log} others waiting asked steps) =
      let (new, distinct) = Steps-filed_once keeps steps in
      (New-Kept s (begin_scan P others s) (filed P log) (begin_scan-Kept others s) new, distinct)
  Steps-filed_once keeps (file {s} {t} {log} others name names result there p steps) =
      let (new, distinct) = Steps-filed_once keeps steps in
      ran-Distinct keeps others name names s result log p new distinct
  Steps-filed_once keeps (end {s} {t} {log} there steps) =
      let (new, distinct) = Steps-filed_once keeps steps in
      (New-Kept s (end_scan P s) (filed P log) (end_scan-Kept s) new, distinct)
