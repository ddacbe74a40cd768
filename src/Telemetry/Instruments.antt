-- ===== src/Telemetry/Instruments.antt =====
-- internal/telemetry/metrics.go: `Init`. The meter is a parameter: it makes an instrument of a name, a
-- description and, for a histogram, a unit, or fails.
use paper_claw.Base.{Text, codes, Result, ok, err}

pub record Meter (Instrument : Type 0) : Type 0 where
  pub int64_counter : Text → Text → Result Instrument
  pub float64_histogram : Text → Text → Text → Result Instrument

pub record Metrics (Instrument : Type 0) : Type 0 where
  pub documents_processed : Instrument
  pub documents_skipped : Instrument
  pub documents_quarantined : Instrument
  pub poll_count : Instrument
  pub webhook_count : Instrument
  pub processing_duration : Instrument

infixl 10 ◌>>=◌
-- An error returns early.
abbrev ◌>>=◌ : {A B : Type 0} → Result A → (A → Result B) → Result B
err e >>= k = err e
ok a >>= k = k a

unfoldable pub init : {Instrument : Type 0} → Meter Instrument → Result (Metrics Instrument)
init meter = do
  processed ←
      meter.int64_counter (codes "documents.processed")
        (codes "Number of documents successfully processed")
  skipped ←
      meter.int64_counter (codes "documents.skipped")
        (codes "Number of documents skipped as duplicates")
  quarantined ←
      meter.int64_counter (codes "documents.quarantined")
        (codes "Number of documents moved to quarantine")
  polls ← meter.int64_counter (codes "poll.count") (codes "Number of inbox poll cycles completed")
  webhooks ←
      meter.int64_counter (codes "webhook.count")
        (codes "Number of Drive push notifications received")
  dur ←
      meter.float64_histogram (codes "document.processing.duration")
        (codes "Time taken to process a single PDF, in seconds") (codes "s")
  ok (record {
    documents_processed = processed;
    documents_skipped = skipped;
    documents_quarantined = quarantined;
    poll_count = polls;
    webhook_count = webhooks;
    processing_duration = dur;
  })
