-- ===== src/Document/Pipeline/Filing.antt =====
-- Every way in which `ProcessOne` can end, with its storage calls and what the observer was told.
use paper_claw.Base.{
  Text, Error, Result, ok, err, Option, none, some, List, [], ◌∷◌, ◌++◌, ◌≡◌, refl, sym, ap,
}
use paper_claw.Document.Metadata.{Metadata, validate_metadata}
use paper_claw.Document.Storage.{
  ocr, classify, schema_validate, library_write, Entry, ProcessingError, Outcome, LocalPdf, Storage,
}
use paper_claw.Document.Pipeline.{
  Event, stage_started, stage_ended, Env, World, quarantined_at, processed_as, failure, run_ocr,
  run_classify, run_validate, described, run_write, after_move, after_write, after_validate,
  after_classify, after_ocr,
}
use paper_claw.Document.Pipeline.Protocol.{
  Call, write_entry, move_to_processed, quarantine, Did, Did-notify, Did-call,
}

abbrev ocr_done : List Event
ocr_done = stage_started ocr ∷ stage_ended ocr none ∷ []

abbrev classify_done : List Event
classify_done = ocr_done ++ (stage_started classify ∷ stage_ended classify none ∷ [])

module _ (S : Storage) (env : Env S.State) (name : Text) where
  -- The classifier's answer to a transcript, with the source filename set.
  abbrev pub named : Metadata → Metadata
  named meta = record meta { source_filename = name }

  -- The text was extracted, and the classifier gave an answer to it.
  pub record IsAnswer (pdf : LocalPdf S.State) (w : World S.State) (transcript : Text)
      (answer : Result Metadata) : Type 0 where
    pub extracted : env.extractor w.store pdf.local_path ≡ ok transcript
    pub answered :
        env.classifier w.store transcript name pdf.content_hash (env.now w.store) ≡ answer

  -- The entry that a run writes: the local file with its transcript, and the classifier's metadata,
  -- which name the source file and passed the validation before an empty description was filled in.
  pub record IsFit (pdf : LocalPdf S.State) (w : World S.State) (entry : Entry) : Type 0 where
    pub local : entry.pdf_path ≡ pdf.local_path
    pub meta : Metadata
    pub classified : IsAnswer pdf w entry.transcript (ok meta)
    pub valid : validate_metadata env.validator (named meta) ≡ none
    pub described_as : entry.metadata ≡ described S env name (named meta)

  -- What follows `IsDuplicate` for a new document.
  pub data Filing (pdf : LocalPdf S.State) (w : World S.State) (result : Result Outcome)
      (calls : List (Call S.State)) (told : List Event) : Type 0 where
    ocr_failed :
        (pe : ProcessingError)
        → pe.stage ≡ ocr
        → env.extractor w.store pdf.local_path ≡ err pe.cause
        → result ≡ ok (quarantined_at S env pdf.content_hash ocr pe.cause)
        → calls ≡ quarantine name pe ∷ []
        → told ≡ stage_started ocr ∷ stage_ended ocr (some pe.cause) ∷ []
        → Filing pdf w result calls told
    unclassified :
        (transcript : Text) (pe : ProcessingError)
        → IsAnswer pdf w transcript (err pe.cause)
        → pe.stage ≡ classify
        → result ≡ ok (quarantined_at S env pdf.content_hash classify pe.cause)
        → calls ≡ quarantine name pe ∷ []
        → told ≡ ocr_done ++ (stage_started classify ∷ stage_ended classify (some pe.cause) ∷ [])
        → Filing pdf w result calls told
    invalid :
        (transcript : Text) (meta : Metadata) (pe : ProcessingError)
        → IsAnswer pdf w transcript (ok meta)
        → validate_metadata env.validator (named meta) ≡ some pe.cause
        → pe.stage ≡ schema_validate
        → result ≡ ok (quarantined_at S env pdf.content_hash schema_validate pe.cause)
        → calls ≡ quarantine name pe ∷ []
        → told ≡ classify_done
        → Filing pdf w result calls told
    unwritten :
        (entry : Entry) (pe : ProcessingError)
        → IsFit pdf w entry
        → pe.stage ≡ library_write
        → (S.write_entry entry w.store).0 ≡ err pe.cause
        → result ≡ ok (quarantined_at S env pdf.content_hash library_write pe.cause)
        → calls ≡ write_entry entry ∷ quarantine name pe ∷ []
        → told
          ≡ classify_done
            ++ (stage_started library_write ∷ stage_ended library_write (some pe.cause) ∷ [])
        → Filing pdf w result calls told
    filed :
        (entry : Entry) (entry_name : Text) (move_err : Option Error)
        → IsFit pdf w entry
        → (S.write_entry entry w.store).0 ≡ ok entry_name
        → (S.move_to_processed name pdf.content_hash (S.write_entry entry w.store).1).0 ≡ move_err
        → result ≡ ok (processed_as S env pdf.content_hash entry_name move_err)
        → calls ≡ write_entry entry ∷ move_to_processed name pdf.content_hash ∷ []
        → told
          ≡ classify_done ++ (stage_started library_write ∷ stage_ended library_write none ∷ [])
        → Filing pdf w result calls told

  -- A run from `w` that ended in one of these ways.
  pub record Filed (pdf : LocalPdf S.State) (w : World S.State)
      (run : Result Outcome × World S.State) : Type 0 where
    pub calls : List (Call S.State)
    pub told : List Event
    pub did : Did S env w run.1 calls told
    pub filing : Filing pdf w run.0 calls told

  module _ (pdf : LocalPdf S.State) (w : World S.State) where
    after_move-Filed :
        (entry : Entry) (entry_name : Text) (moved : Option Error × S.State) (w' : World S.State)
        → IsFit pdf w entry
        → (S.write_entry entry w.store).0 ≡ ok entry_name
        → S.move_to_processed name pdf.content_hash w'.store ≡ moved
        → Did S env w w'
            (write_entry entry ∷ [])
            (classify_done ++ (stage_started library_write ∷ stage_ended library_write none ∷ []))
        → Filed pdf w (after_move S env name pdf.content_hash entry_name moved w'.events)
    unfolding after_move
    after_move-Filed entry entry_name (move_err, s) w' fit wrote p did = record {
      calls = write_entry entry ∷ move_to_processed name pdf.content_hash ∷ [];
      told = _;
      did = Did-call S env (move_to_processed name pdf.content_hash) (sym (ap (λ r. r.1) p)) did;
      filing =
          filed entry entry_name move_err fit wrote (rw did.state at (ap (λ r. r.0) p)) refl refl
            refl;
    }

    after_write-Filed :
        (entry : Entry) (written : Result Text × S.State) (w' : World S.State)
        → IsFit pdf w entry
        → S.write_entry entry w'.store ≡ written
        → Did S env w w' [] (classify_done ++ (stage_started library_write ∷ []))
        → Filed pdf w
            (after_write S env name pdf.content_hash (run_write S env name written w'.events))
    unfolding after_write run_write
    after_write-Filed entry (err cause, s) w' fit p did = record {
      calls = write_entry entry ∷ quarantine name (failure S env library_write cause s) ∷ [];
      told = _;
      did = Did-notify S env (stage_ended library_write (some cause)) (
          Did-call S env (quarantine name (failure S env library_write cause s)) refl
            (Did-call S env (write_entry entry) (sym (ap (λ r. r.1) p)) did));
      filing =
          unwritten entry (failure S env library_write cause s) fit refl
            (rw did.state at (ap (λ r. r.0) p)) refl refl refl;
    }
    after_write-Filed entry (ok entry_name, s) w' fit p did =
        after_move-Filed entry entry_name _ _ fit (rw did.state at (ap (λ r. r.0) p)) refl (
          Did-notify S env (stage_ended library_write none)
            (Did-call S env (write_entry entry) (sym (ap (λ r. r.1) p)) did))

    after_validate-Filed :
        (transcript : Text) (meta : Metadata) (w' : World S.State) (checked : Option Error)
        → IsAnswer pdf w transcript (ok meta)
        → validate_metadata env.validator (named meta) ≡ checked
        → Did S env w w' [] classify_done
        → Filed pdf w (
            after_validate S env name pdf transcript
              (named meta)
              (run_validate S env name checked w'))
    unfolding after_validate run_validate
    after_validate-Filed transcript meta w' (some cause) c p did = record {
      calls = quarantine name (failure S env schema_validate cause w'.store) ∷ [];
      told = _;
      did =
          Did-call S env (quarantine name (failure S env schema_validate cause w'.store)) refl did;
      filing =
          invalid transcript meta (failure S env schema_validate cause w'.store) c p refl refl refl
            refl;
    }
    after_validate-Filed transcript meta w' none c p did =
        after_write-Filed
          (record {
            pdf_path = pdf.local_path;
            transcript = transcript;
            metadata = described S env name (named meta);
          })
          _ _ (record { local = refl; meta = meta; classified = c; valid = p; described_as = refl })
          refl (Did-notify S env (stage_started library_write) did)

    after_classify-Filed :
        (transcript : Text) (w' : World S.State) (answer : Result Metadata)
        → IsAnswer pdf w transcript answer
        → Did S env w w' [] (ocr_done ++ (stage_started classify ∷ []))
        → Filed pdf w (after_classify S env name pdf transcript (run_classify S env name answer w'))
    unfolding after_classify run_classify
    after_classify-Filed transcript w' (err cause) c did = record {
      calls = quarantine name (failure S env classify cause w'.store) ∷ [];
      told = _;
      did =
          Did-notify S env (stage_ended classify (some cause))
            (Did-call S env (quarantine name (failure S env classify cause w'.store)) refl did);
      filing =
          unclassified transcript (failure S env classify cause w'.store) c refl refl refl refl;
    }
    after_classify-Filed transcript w' (ok meta) c did =
        after_validate-Filed transcript meta _ _ c refl
          (Did-notify S env (stage_ended classify none) did)

    pub after_ocr-Filed :
        (w' : World S.State) (answer : Result Text)
        → env.extractor w.store pdf.local_path ≡ answer
        → Did S env w w' [] (stage_started ocr ∷ [])
        → Filed pdf w (after_ocr S env name pdf (run_ocr S env name answer w'))
    unfolding after_ocr run_ocr
    after_ocr-Filed w' (err cause) x did = record {
      calls = quarantine name (failure S env ocr cause w'.store) ∷ [];
      told = _;
      did =
          Did-notify S env (stage_ended ocr (some cause))
            (Did-call S env (quarantine name (failure S env ocr cause w'.store)) refl did);
      filing = ocr_failed (failure S env ocr cause w'.store) refl x refl refl refl;
    }
    after_ocr-Filed w' (ok transcript) x did =
        let started =
          Did-notify S env (stage_started classify) (Did-notify S env (stage_ended ocr none) did) in
        after_classify-Filed transcript _ _
          (record {
            extracted = x;
            answered =
                ap (λ s. env.classifier s transcript name pdf.content_hash (env.now s))
                  (sym started.state);
          })
          started
