-- ===== src/Serve/Worker/Counters.antt =====
-- What a scan leaves in the run status.
use paper_claw.Base.{
  ℕ, ◌+◌, Text, Error, Result, ok, err, Bool, false, List, [], ◌∷◌, ◌≡◌, refl, arith,
}
use paper_claw.Store.Sql.{Rfc3339, IsRfc3339}
use paper_claw.Store.DaemonStatus.{DaemonStatus, status_of, bump_counter}
use paper_claw.Store.DaemonStatus.Ready.{
  IsReady, record_error-IsReady, record_poll-IsReady, bump_processed, bump_skipped, bump_quarantine,
}
use paper_claw.Document.Storage.{Storage, Status, processed, skipped, quarantined, Outcome}
use paper_claw.Document.Pipeline.{Env, World}
use paper_claw.Document.Pipeline
use paper_claw.Serve.Worker.{Scan, counter_name, record_result, process_one, scan_files, run_scan}

module _ (S : Storage) (env : Env S.State) where
  -- The results of the files, in order.
  pub results : List Text → World S.State → List (Result Outcome)
  results [] w = []
  results (name ∷ names) w = let (r, w') = Pipeline.process_one S env name w in r ∷ results names w'

-- How many results have a status; a run that returned an error has none.
abbrev pub is_processed : Result Outcome → ℕ
is_processed (err e) = 0
is_processed (ok outcome) = elim outcome.status [ processed ↦ 1 | skipped ↦ 0 | quarantined ↦ 0 ]

abbrev pub is_skipped : Result Outcome → ℕ
is_skipped (err e) = 0
is_skipped (ok outcome) = elim outcome.status [ processed ↦ 0 | skipped ↦ 1 | quarantined ↦ 0 ]

abbrev pub is_quarantined : Result Outcome → ℕ
is_quarantined (err e) = 0
is_quarantined (ok outcome) = elim outcome.status [ processed ↦ 0 | skipped ↦ 0 | quarantined ↦ 1 ]

abbrev pub total : (Result Outcome → ℕ) → List (Result Outcome) → ℕ
total f [] = 0
total f (r ∷ rs) = f r + total f rs

-- The counters of a status.
pub record Counted (old new : DaemonStatus) (rs : List (Result Outcome)) : Type 0 where
  pub processed_count : new.processed ≡ old.processed + total is_processed rs
  pub skipped_count : new.skipped ≡ old.skipped + total is_skipped rs
  pub quarantine_count : new.quarantine ≡ old.quarantine + total is_quarantined rs

module _ (S : Storage) (env : Env S.State) (rfc : Rfc3339) (lawful : IsRfc3339 rfc)
    (done : Scan S.State → Bool) where
  record_result-Counted :
      (r : Result Outcome × World S.State) (s : Scan S.State)
      → IsReady s.db
      → Counted
          (status_of rfc s.db)
          (status_of rfc (record_result S env rfc done r s).db)
          (r.0 ∷ [])
        × IsReady (record_result S env rfc done r s).db
  unfolding record_result
  record_result-Counted (err e, w) s ready =
      let (p, q) = record_error-IsReady rfc lawful (env.now w.store) e s.db ready in
      (rw p (omega arith), q)
  record_result-Counted (ok outcome, w) s ready = status_counted outcome.status ready
    where
      status_counted :
          (st : Status)
          → IsReady s.db
          → Counted
              (status_of rfc s.db)
              (status_of rfc (bump_counter (counter_name st) s.db).1)
              (ok (record outcome { status = st }) ∷ [])
            × IsReady (bump_counter (counter_name st) s.db).1
      status_counted processed ready =
          let (p, q) = bump_processed rfc s.db ready in (rw p (omega arith), q)
      status_counted skipped ready =
          let (p, q) = bump_skipped rfc s.db ready in (rw p (omega arith), q)
      status_counted quarantined ready =
          let (p, q) = bump_quarantine rfc s.db ready in (rw p (omega arith), q)

  record_result-world :
      (r : Result Outcome × World S.State) (s : Scan S.State)
      → (record_result S env rfc done r s).world ≡ r.1
  unfolding record_result
  record_result-world (err e, w) s = refl
  record_result-world (ok outcome, w) s = refl

  Counted-append :
      {a b c : DaemonStatus} (r : Result Outcome) {rs : List (Result Outcome)}
      → Counted a b (r ∷ [])
      → Counted b c rs
      → Counted a c (r ∷ rs)
  Counted-append r {rs} p q = omega arith

  scan_files-Counted :
      (names : List Text) (s : Scan S.State)
      → IsReady s.db
      → ((t : Scan S.State) → done t ≡ false)
      → let new = status_of rfc (scan_files S env rfc done names s).db in
        Counted (status_of rfc s.db) new (results S env names s.world) × (new.last_error ≡ [])
  unfolding scan_files results process_one
  scan_files-Counted [] s ready going =
      let (p, q) = record_poll-IsReady rfc lawful (env.now s.world.store) s.db ready in
      rw p (omega arith, refl)
  scan_files-Counted (name ∷ names) s ready going =
      let r = Pipeline.process_one S env name s.world in
      let s' = record_result S env rfc done r s in
      let (one, ready') = record_result-Counted r s ready in
      let (rest, cleared) = scan_files-Counted names s' ready' going in
      rw (going s) (Counted-append r.0 one (rw (record_result-world r s) at rest), cleared)

  -- A scan that is not interrupted, over a ready store, counts every file that it listed by the
  -- status of its result. A file whose run returned an error is counted nowhere, and no error
  -- message of such a run is left: the end of the scan clears it.
  pub run_scan-Counted :
      (s : Scan S.State) (names : List Text) (store : S.State)
      → IsReady s.db
      → ((t : Scan S.State) → done t ≡ false)
      → S.list_inbox s.world.store ≡ (ok names, store)
      → let new = status_of rfc (run_scan S env rfc done s).db in
        Counted (status_of rfc s.db) new (results S env names (record s.world { store = store }))
        × (new.last_error ≡ [])
  unfolding run_scan
  run_scan-Counted s names store ready going found =
      rw found (
        scan_files-Counted names (record s { world = record s.world { store = store } }) ready
          going)

  -- A scan whose listing fails stores the error and processes nothing.
  run_scan_unlisted :
      (s : Scan S.State) (e : Error) (store : S.State)
      → IsReady s.db
      → S.list_inbox s.world.store ≡ (err e, store)
      → let s' = run_scan S env rfc done s in
        (s'.world ≡ record s.world { store = store })
        × Counted (status_of rfc s.db) (status_of rfc s'.db) []
        × ((status_of rfc s'.db).last_error ≡ e)
  unfolding run_scan
  run_scan_unlisted s e store ready failed =
      let (p, q) = record_error-IsReady rfc lawful (env.now store) e s.db ready in
      rw (failed, p) (refl, omega arith, refl)
