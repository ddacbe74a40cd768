-- ===== src/Serve/Worker.antt =====
-- internal/serve/worker.go: the serialised scan, over any storage. Spans, the durations of the
-- metrics and the logging are left out; the context is the test `done`, by the state that it meets.
pub mod Counters
pub mod Queue
use paper_claw.Base.{
  ℕ, ◌+◌, Text, codes, Result, ok, err, Bool, Option, none, some, List, [], ◌∷◌, if◌then◌else◌,
}
use paper_claw.Store.Sql.{Db, Rfc3339}
use paper_claw.Store.DaemonStatus.{record_poll, record_error, bump_counter}
use paper_claw.Document.Storage.{Storage, Status, processed, skipped, quarantined, Outcome}
use paper_claw.Document.Pipeline.{Env, World}
use paper_claw.Document.Pipeline

-- internal/telemetry/metrics.go: the counters that the worker adds to.
pub record Metrics : Type 0 where
  pub documents_processed : ℕ
  pub documents_skipped : ℕ
  pub documents_quarantined : ℕ
  pub poll_count : ℕ

pub record Scan (State : Type 0) : Type 0 where
  pub world : World State
  pub db : Db
  pub metrics : Option Metrics

abbrev pub count_status : Status → Metrics → Metrics
count_status processed m = record m { documents_processed = m.documents_processed + 1 }
count_status skipped m = record m { documents_skipped = m.documents_skipped + 1 }
count_status quarantined m = record m { documents_quarantined = m.documents_quarantined + 1 }

abbrev pub counter_name : Status → Text
counter_name processed = codes "processed"
counter_name skipped = codes "skipped"
counter_name quarantined = codes "quarantine"

abbrev pub if_some {ℓ} : {A : Type ℓ} → (A → A) → Option A → Option A
if_some f none = none
if_some f (some a) = some (f a)

module _ (S : Storage) (env : Env S.State) (rfc : Rfc3339) (done : Scan S.State → Bool) where
  unfoldable pub record_result : Result Outcome × World S.State → Scan S.State → Scan S.State
  record_result (err e, w) s = record s {
    world = w;
    db = (record_error rfc (env.now w.store) e s.db).1;
  }
  record_result (ok outcome, w) s = record s {
    world = w;
    db = (bump_counter (counter_name outcome.status) s.db).1;
    metrics = if_some (count_status outcome.status) s.metrics;
  }

  unfoldable pub process_one : Text → Scan S.State → Scan S.State
  unfolding record_result
  process_one name s = record_result (Pipeline.process_one S env name s.world) s

  -- The end of a scan that was not interrupted.
  abbrev pub poll_recorded : Scan S.State → Scan S.State
  poll_recorded s = record s {
    db = (record_poll rfc (env.now s.world.store) s.db).1;
    metrics = if_some (λ m. record m { poll_count = m.poll_count + 1 }) s.metrics;
  }

  unfoldable pub scan_files : List Text → Scan S.State → Scan S.State
  scan_files [] s = poll_recorded s
  scan_files (name ∷ names) s =
      let rest = scan_files names (process_one name s) in if done s then s else rest

  listed : Result (List Text) × S.State → Scan S.State → Scan S.State
  listed (err e, store) s = record s {
    world = record s.world { store = store };
    db = (record_error rfc (env.now store) e s.db).1;
  }
  listed (ok names, store) s =
      scan_files names (record s { world = record s.world { store = store } })

  unfoldable pub run_scan : Scan S.State → Scan S.State
  unfolding listed scan_files process_one
  run_scan s = listed (S.list_inbox s.world.store) s
