-- ===== src/Store/DaemonStatus/Ready.antt =====
-- Status writes in a store where no statement fails.
use paper_claw.Base.{ℕ, ◌*◌, ◌/◌, ◌^◌, ◌+◌, Text, codes, [], ok, some, text_eq, ◌≡◌, refl, ap}
use paper_claw.Store.Sql.{StatusRow, Db, Rfc3339, IsRfc3339, exec-Works, Works}
use paper_claw.Store.DaemonStatus.{
  HasStatus, status_of, counted, bump, bump_with, bump_counter, update_status, upsert_poll,
  record_error, record_poll, status_of-bump_with, bump_with-HasStatus, status_of-record_error,
  record_error-HasStatus,
}

-- A store that works and has the migrated row.
pub record IsReady (db : Db) : Type 0 where
  pub works : Works db
  pub row : HasStatus db

bump_with-IsReady :
    (counter : Text) (f : StatusRow → StatusRow) (db : Db)
    → IsReady db
    → ((bump_with counter (some f) db).0 ≡ ok tt) × IsReady (bump_with counter (some f) db).1
unfolding bump_with
bump_with-IsReady counter f db r =
    let e = exec-Works (update_status f) db r.works in
    (
      ap (λ p. p.0) e,
      record {
        works = ap (λ p. p.1.faults) e;
        row = bump_with-HasStatus counter (some f) db r.row;
      },
    )

-- In a ready store a known counter is raised, and the store stays ready.
bump_counter-IsReady :
    (rfc : Rfc3339) (counter : Text) (f : StatusRow → StatusRow) (db : Db)
    → bump counter ≡ some f
    → IsReady db
    → (status_of rfc (bump_counter counter db).1 ≡ counted counter (status_of rfc db))
      × IsReady (bump_counter counter db).1
unfolding bump_counter
bump_counter-IsReady rfc counter f db known r =
    let (done, ready) = bump_with-IsReady counter f db r in
    rw known (status_of-bump_with rfc counter (some f) db r.row known done, ready)

pub record_error-IsReady :
    (rfc : Rfc3339)
    → IsRfc3339 rfc
    → (now : ℕ) (msg : Text) (db : Db) → IsReady db
    → (status_of rfc (record_error rfc now msg db).1
        ≡ record (status_of rfc db) { last_poll_at = now / 10 ^ 9 * 10 ^ 9; last_error = msg })
      × IsReady (record_error rfc now msg db).1
unfolding record_error
record_error-IsReady rfc lawful now msg db r =
    let e = exec-Works (upsert_poll (rfc.format now) msg) db r.works in
    (
      status_of-record_error rfc lawful now msg db (ap (λ p. p.0) e),
      record { works = ap (λ p. p.1.faults) e; row = record_error-HasStatus rfc now msg db r.row },
    )

module _ (rfc : Rfc3339) (db : Db) (r : IsReady db) where
  pub bump_processed :
      (status_of rfc (bump_counter (codes "processed") db).1
        ≡ record (status_of rfc db) { processed = (status_of rfc db).processed + 1 })
      × IsReady (bump_counter (codes "processed") db).1
  unfolding bump text_eq
  bump_processed = bump_counter-IsReady rfc (codes "processed") _ db refl r

  pub bump_skipped :
      (status_of rfc (bump_counter (codes "skipped") db).1
        ≡ record (status_of rfc db) { skipped = (status_of rfc db).skipped + 1 })
      × IsReady (bump_counter (codes "skipped") db).1
  unfolding bump text_eq
  bump_skipped = bump_counter-IsReady rfc (codes "skipped") _ db refl r

  pub bump_quarantine :
      (status_of rfc (bump_counter (codes "quarantine") db).1
        ≡ record (status_of rfc db) { quarantine = (status_of rfc db).quarantine + 1 })
      × IsReady (bump_counter (codes "quarantine") db).1
  unfolding bump text_eq
  bump_quarantine = bump_counter-IsReady rfc (codes "quarantine") _ db refl r

-- `RecordPoll` in a ready store.
pub record_poll-IsReady :
    (rfc : Rfc3339)
    → IsRfc3339 rfc
    → (now : ℕ) (db : Db) → IsReady db
    → (status_of rfc (record_poll rfc now db).1
        ≡ record (status_of rfc db) { last_poll_at = now / 10 ^ 9 * 10 ^ 9; last_error = [] })
      × IsReady (record_poll rfc now db).1
unfolding record_poll record_error
record_poll-IsReady rfc lawful now db r = record_error-IsReady rfc lawful now [] db r
