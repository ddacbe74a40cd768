-- ===== src/Document/Pipeline.antt =====
-- internal/document/pipeline.go: `ProcessOne`, over any storage. Every early return of the source
-- is the error clause of a function here, which takes what the call before it returned.
-- The OCR tool, the classifier, the schema library and the clock are the environment: each may
-- answer by the state that it meets. An observer is the list of what it was told.
pub mod Protocol
pub mod Filing
pub mod Run
pub mod Calls
pub mod Indexed
use paper_claw.Base.{
  ℕ, Text, Error, Result, ok, err, Bool, true, false, Option, none, some, List, [], ◌∷◌, ◌++◌,
  if◌then◌else◌, is_empty,
}
use paper_claw.Document.FileName.{stem}
use paper_claw.Document.Metadata.{Metadata, Validator, validate_metadata}
use paper_claw.Document.Classify.{Classifier}
use paper_claw.Document.Storage.{
  Stage, ocr, classify, schema_validate, library_write, Entry, ProcessingError, processed, skipped,
  quarantined, Outcome, LocalPdf, Storage,
}

pub data Event : Type 0 where
  stage_started : Stage → Event
  stage_ended : Stage → Option Error → Event

-- `observed`: an observer was passed, as the daemon does.
pub record Env (State : Type 0) : Type 0 where
  pub extractor : State → Text → Result Text
  pub classifier : State → Classifier
  pub validator : Validator
  pub now : State → ℕ
  pub observed : Bool

pub record World (State : Type 0) : Type 0 where
  pub store : State
  pub events : List Event

module _ (S : Storage) (env : Env S.State) where
  abbrev pub quarantined_at : Text → Stage → Error → Outcome
  quarantined_at hash stage cause = record {
    status = quarantined;
    hash = hash;
    entry_name = [];
    stage = some stage;
    cause = some cause;
    move_err = none;
  }

  abbrev pub skipped_as : Text → Outcome
  skipped_as hash = record {
    status = skipped;
    hash = hash;
    entry_name = [];
    stage = none;
    cause = none;
    move_err = none;
  }

  abbrev pub processed_as : Text → Text → Option Error → Outcome
  processed_as hash entry_name move_err = record {
    status = processed;
    hash = hash;
    entry_name = entry_name;
    stage = none;
    cause = none;
    move_err = move_err;
  }

  -- `observe`, and the function that it returns.
  abbrev notify : Event → World S.State → World S.State
  notify event w = if env.observed then record w { events = w.events ++ event ∷ [] } else w

  abbrev pub failure : Stage → Error → S.State → ProcessingError
  failure stage cause s = record { stage = stage; cause = cause; occurred_at = env.now s }

  -- `_ = s.Quarantine(ctx, name, ProcessingError{…})`
  abbrev put_aside : Text → Stage → Error → World S.State → World S.State
  put_aside name stage cause w = record w {
    store = (S.quarantine name (failure stage cause w.store) w.store).1;
  }

  module _ (name : Text) where
    pub run_ocr : Result Text → World S.State → Result Text × World S.State
    run_ocr (err cause) w = (err cause, put_aside name ocr cause w)
    run_ocr (ok transcript) w = (ok transcript, w)

    run_classify : Result Metadata → World S.State → Result Metadata × World S.State
    run_classify (err cause) w = (err cause, put_aside name classify cause w)
    run_classify (ok meta) w = (ok (record meta { source_filename = name }), w)

    run_validate : Option Error → World S.State → Option Error × World S.State
    run_validate (some cause) w = (some cause, put_aside name schema_validate cause w)
    run_validate none w = (none, w)

    -- `runWrite` fills in the description before the storage is called, and quarantines after.
    unfoldable pub described : Metadata → Metadata
    described meta =
        if is_empty meta.file_description
        then record meta { file_description = stem name }
        else meta

    run_write : Result Text × S.State → List Event → Result Text × World S.State
    run_write (err cause, s) events =
        (err cause, put_aside name library_write cause (record { store = s; events = events }))
    run_write (ok entry_name, s) events = (ok entry_name, record { store = s; events = events })

    after_move : Text → Text → Option Error × S.State → List Event → Result Outcome × World S.State
    after_move hash entry_name (move_err, s) events =
        (ok (processed_as hash entry_name move_err), record { store = s; events = events })

    after_write : Text → Result Text × World S.State → Result Outcome × World S.State
    unfolding after_move
    after_write hash (err cause, w) = (
      ok (quarantined_at hash library_write cause),
      notify (stage_ended library_write (some cause)) w,
    )
    after_write hash (ok entry_name, w) =
        let w' = notify (stage_ended library_write none) w in
        after_move hash entry_name (S.move_to_processed name hash w'.store) w'.events

    after_validate :
        LocalPdf S.State
        → Text
        → Metadata
        → Option Error × World S.State
        → Result Outcome × World S.State
    unfolding after_write run_write described
    after_validate pdf transcript meta (some cause, w) =
        (ok (quarantined_at pdf.content_hash schema_validate cause), w)
    after_validate pdf transcript meta (none, w) =
        let w' = notify (stage_started library_write) w in
        let entry : Entry = record {
          pdf_path = pdf.local_path;
          transcript = transcript;
          metadata = described meta;
        } in
        after_write pdf.content_hash (run_write (S.write_entry entry w'.store) w'.events)

    after_classify :
        LocalPdf S.State → Text → Result Metadata × World S.State → Result Outcome × World S.State
    unfolding after_validate run_validate
    after_classify pdf transcript (err cause, w) = (
      ok (quarantined_at pdf.content_hash classify cause),
      notify (stage_ended classify (some cause)) w,
    )
    after_classify pdf transcript (ok meta, w) =
        let w' = notify (stage_ended classify none) w in
        after_validate pdf transcript meta (run_validate (validate_metadata env.validator meta) w')

    pub after_ocr : LocalPdf S.State → Result Text × World S.State → Result Outcome × World S.State
    unfolding after_classify run_classify
    after_ocr pdf (err cause, w) =
        (ok (quarantined_at pdf.content_hash ocr cause), notify (stage_ended ocr (some cause)) w)
    after_ocr pdf (ok transcript, w) =
        let w' = notify (stage_started classify) (notify (stage_ended ocr none) w) in
        let answer = env.classifier w'.store transcript name pdf.content_hash (env.now w'.store) in
        after_classify pdf transcript (run_classify answer w')

    after_duplicate :
        LocalPdf S.State → Result Bool × S.State → List Event → Result Outcome × World S.State
    unfolding after_ocr run_ocr
    after_duplicate pdf (err cause, s) events = (err cause, record { store = s; events = events })
    after_duplicate pdf (ok true, s) events =
        (ok (skipped_as pdf.content_hash), record { store = s; events = events })
    after_duplicate pdf (ok false, s) events =
        let w = notify (stage_started ocr) (record { store = s; events = events }) in
        after_ocr pdf (run_ocr (env.extractor w.store pdf.local_path) w)

    -- `defer cleanup()`
    abbrev with_cleanup :
        LocalPdf S.State → Result Outcome × World S.State → Result Outcome × World S.State
    with_cleanup pdf (result, w) = (result, record w { store = pdf.cleanup w.store })

    after_read : Result (LocalPdf S.State) × S.State → List Event → Result Outcome × World S.State
    unfolding after_duplicate
    after_read (err cause, s) events = (
      ok (quarantined_at [] library_write cause),
      put_aside name library_write cause (record { store = s; events = events }),
    )
    after_read (ok pdf, s) events =
        with_cleanup pdf (after_duplicate pdf (S.is_duplicate pdf.content_hash s) events)

    unfoldable pub process_one : World S.State → Result Outcome × World S.State
    unfolding after_read
    process_one w = after_read (S.read_pdf name w.store) w.events
