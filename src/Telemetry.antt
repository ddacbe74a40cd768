-- ===== src/Telemetry.antt =====
-- internal/telemetry/observer.go: the observer that makes a span of each stage of the pipeline. The
-- OpenTelemetry library is the list of the spans that it was told of, the last one first; the context
-- that a stage carries is that of the span that was started last.
pub mod Setup
pub mod Instruments
use paper_claw.Base.{
  Text, Error, Result, Bool, true, false, All, Option, none, some, List, [], ◌∷◌, ◌≡◌, refl, ◌∙◌,
  arith,
}
use paper_claw.Document.Storage.{Stage, Outcome, LocalPdf, Storage}
use paper_claw.Document.Pipeline.{Event, stage_started, stage_ended, Env, World, process_one}
use paper_claw.Document.Pipeline.Protocol.{Call}
use paper_claw.Document.Pipeline.Filing.{
  Filing, ocr_failed, unclassified, invalid, unwritten, filed,
}
use paper_claw.Document.Pipeline.Run.{
  Protocol, unreadable, index_failed, duplicate, new_document, process_one-Run,
}

-- A span with its attribute `pipeline.stage`, and its error status, if any.
pub record Span : Type 0 where
  pub stage : Stage
  pub status : Option Error
  pub ended : Bool

-- `StageStarted`
unfoldable pub stage_begun : Stage → List Span → List Span
stage_begun stage spans = record { stage = stage; status = none; ended = false } ∷ spans

-- `StageEnded`: the status is set for an error only.
unfoldable pub stage_over : Option Error → List Span → List Span
stage_over cause [] = []
stage_over none (span ∷ spans) = record span { ended = true } ∷ spans
stage_over (some e) (span ∷ spans) = record span { status = some e; ended = true } ∷ spans

-- The observer's calls, one after another.
unfoldable pub observe_all : List Event → List Span → List Span
unfolding stage_begun stage_over
observe_all [] spans = spans
observe_all (stage_started stage ∷ events) spans = observe_all events (stage_begun stage spans)
observe_all (stage_ended stage cause ∷ events) spans = observe_all events (stage_over cause spans)

-- `StartDocumentSpan`, and the function that it returns: the span of a document, from its end.
unfoldable pub document_span : Option Error → Option Error × Bool
document_span none = (none, true)
document_span (some e) = (some e, true)

-- No span but the first of the list has an error.
abbrev pub FineButFirst : List Span → Type 0
FineButFirst [] = Unit
FineButFirst (span ∷ spans) = All (λ earlier. earlier.status ≡ none) spans

-- Every span is ended, and none but the last one that was started has an error.
abbrev pub Closed : List Span → Type 0
Closed spans = All (λ span. span.ended ≡ true) spans × FineButFirst spans

module _ (S : Storage) (env : Env S.State) (name : Text) where
  Filing-Closed :
      (pdf : LocalPdf S.State) (v : World S.State) (result : Result Outcome)
      (inner : List (Call S.State)) (told : List Event)
      → Filing S env name pdf v result inner told
      → Closed (observe_all told [])
  unfolding observe_all
  Filing-Closed pdf v result inner told (ocr_failed pe a b r c t) = rw t ((refl, tt), tt)
  Filing-Closed pdf v result inner told (unclassified text pe a b r c t) =
      rw t ((refl, (refl, tt)), (refl, tt))
  Filing-Closed pdf v result inner told (invalid text m pe a b e r c t) =
      rw t ((refl, (refl, tt)), (refl, tt))
  Filing-Closed pdf v result inner told (unwritten en pe a b e r c t) =
      rw t ((refl, (refl, (refl, tt))), (refl, (refl, tt)))
  Filing-Closed pdf v result inner told (filed entry entry_name m fit wrote e r c t) =
      rw t ((refl, (refl, (refl, tt))), (refl, (refl, tt)))

  Protocol-Closed :
      (w : World S.State) (result : Result Outcome) (calls : List (Call S.State))
      (told : List Event)
      → Protocol S env name w result calls told
      → Closed (observe_all told [])
  unfolding observe_all
  Protocol-Closed w result calls told (unreadable pe a b r c t) = rw t (tt, tt)
  Protocol-Closed w result calls told (index_failed pdf cause a b r c t) = rw t (tt, tt)
  Protocol-Closed w result calls told (duplicate pdf a b r c t) = rw t (tt, tt)
  Protocol-Closed w result calls told (new_document pdf v inner got new filing c) =
      Filing-Closed pdf v result inner told filing

  -- However an observed run of `ProcessOne` ends, every span that it started is ended, and no span but
  -- that of its last stage has an error.
  pub process_one-Closed :
      (w : World S.State)
      → env.observed ≡ true
      → w.events ≡ []
      → Closed (observe_all (process_one S env name w).1.events [])
  process_one-Closed w observed none_yet =
      let run = process_one-Run S env name w in
      let heard : (process_one S env name w).1.events ≡ run.told =
        run.did.heard ∙ ground (arith, observed, none_yet) in
      rw heard (Protocol-Closed w _ run.calls run.told run.protocol)
