-- ===== src/DriveStorage/Dedup.antt =====
-- The pipeline over the Drive storage: what it files is in the dedup index.
use paper_claw.Base.{ℕ, Text, ok, true, ◌≡◌, sym, ap, ◌∙◌}
use paper_claw.Document.Classify.{Claude, claude_classify, claude_classify-hash}
use paper_claw.Document.Storage.{Outcome, processed}
use paper_claw.Document.Pipeline.{Env, World, process_one}
use paper_claw.Document.Pipeline.Indexed.{KeepsHash, process_one-knows}
use paper_claw.Store.Sql.{Rfc3339}
use paper_claw.Store.Documents.{indexed}
use paper_claw.Store.Grows.{Grows-tables}
use paper_claw.DriveStorage.{Service, Drive, State}
use paper_claw.DriveStorage.Quarantine.{drive_storage}
use paper_claw.DriveStorage.Quiet.{ReadsOnly}
use paper_claw.DriveStorage.Grows.Calls.{ProviderGrows}
use paper_claw.DriveStorage.Grows.{knows_hash, drive_storage-IsIndexed}

-- The Claude classifier keeps the hash that it is given.
claude_classify-KeepsHash :
    {A : Type 0} (c : Claude) (env : Env A)
    → ((s : A) → env.classifier s ≡ claude_classify c)
    → KeepsHash env
claude_classify-KeepsHash c env same s transcript name hash now meta h =
    let (id, content_hash, source) =
      claude_classify-hash c transcript name hash now meta
        (sym (ap (λ f. f transcript name hash now) (same s)) ∙ h) in
    content_hash

-- Over the Drive storage, with a token provider that changes no table and a classifier that keeps
-- the hash, a run that ends as processed leaves its hash in the dedup index.
pub process_one-indexed :
    (G : Service) (d : Drive G) (unicode : ℕ → ℕ) (rfc : Rfc3339) (env : Env (State G))
    → ReadsOnly G d
    → KeepsHash env
    → (name : Text) (w : World (State G)) (outcome : Outcome)
    → let files = drive_storage G d unicode rfc in
      (process_one files env name w).0 ≡ ok outcome
      → outcome.status ≡ processed
      → indexed (process_one files env name w).1.store.db outcome.hash ≡ true
process_one-indexed G d unicode rfc env reads keeps name w outcome h p =
    let provider : ProviderGrows G d = λ db. Grows-tables db (d.get_http db).1 (reads db) in
    process_one-knows (drive_storage G d unicode rfc) (knows_hash G d provider)
      (drive_storage-IsIndexed G d provider unicode rfc) env name w outcome h p keeps
