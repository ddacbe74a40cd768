-- ===== src/Document/Pipeline/Run.antt =====
-- What one run of `ProcessOne` does to its storage and tells its observer, for every storage and
-- environment.
use paper_claw.Base.{
  Text, Error, Result, ok, err, Bool, true, false, List, [], ◌∷◌, ◌++◌, ◌≡◌, refl, sym, ap,
  append-nil, arith,
}
use paper_claw.Document.Storage.{ocr, library_write, ProcessingError, Outcome, LocalPdf, Storage}
use paper_claw.Document.Pipeline.{
  Event, stage_started, Env, World, quarantined_at, skipped_as, failure, after_duplicate,
  after_read, process_one,
}
use paper_claw.Document.Pipeline.Protocol.{
  Call, read_pdf, is_duplicate, quarantine, close, effects-append, Did, Did-start, Did-notify,
  Did-call,
}
use paper_claw.Document.Pipeline.Filing.{Filing, after_ocr-Filed}

module _ (S : Storage) (env : Env S.State) (name : Text) where
  -- The ways in which a whole run can end, with its storage calls in order and what the observer
  -- was told. A file that was read is closed last, whatever happened.
  pub data Protocol (w : World S.State) (result : Result Outcome) (calls : List (Call S.State))
      (told : List Event) : Type 0 where
    unreadable :
        (pe : ProcessingError)
        → pe.stage ≡ library_write
        → (S.read_pdf name w.store).0 ≡ err pe.cause
        → result ≡ ok (quarantined_at S env [] library_write pe.cause)
        → calls ≡ read_pdf name ∷ quarantine name pe ∷ []
        → told ≡ []
        → Protocol w result calls told
    index_failed :
        (pdf : LocalPdf S.State) (cause : Error)
        → (S.read_pdf name w.store).0 ≡ ok pdf
        → (S.is_duplicate pdf.content_hash (S.read_pdf name w.store).1).0 ≡ err cause
        → result ≡ err cause
        → calls ≡ read_pdf name ∷ is_duplicate pdf.content_hash ∷ close pdf.cleanup ∷ []
        → told ≡ []
        → Protocol w result calls told
    duplicate :
        (pdf : LocalPdf S.State)
        → (S.read_pdf name w.store).0 ≡ ok pdf
        → (S.is_duplicate pdf.content_hash (S.read_pdf name w.store).1).0 ≡ ok true
        → result ≡ ok (skipped_as S env pdf.content_hash)
        → calls ≡ read_pdf name ∷ is_duplicate pdf.content_hash ∷ close pdf.cleanup ∷ []
        → told ≡ []
        → Protocol w result calls told
    new_document :
        (pdf : LocalPdf S.State) (v : World S.State) (inner : List (Call S.State))
        → (S.read_pdf name w.store).0 ≡ ok pdf
        → S.is_duplicate pdf.content_hash (S.read_pdf name w.store).1 ≡ (ok false, v.store)
        → Filing S env name pdf v result inner told
        → calls ≡ read_pdf name ∷ is_duplicate pdf.content_hash ∷ (inner ++ close pdf.cleanup ∷ [])
        → Protocol w result calls told

  pub record Run (w : World S.State) (run : Result Outcome × World S.State) : Type 0 where
    pub calls : List (Call S.State)
    pub told : List Event
    pub did : Did S env w run.1 calls told
    pub protocol : Protocol w run.0 calls told

  -- The calls and events of the part between `IsDuplicate` and the cleanup, behind those before it.
  Did-Filed :
      {w w' w'' : World S.State} {before calls : List (Call S.State)} {told : List Event}
      → Did S env w w' before []
      → Did S env w' w'' calls told
      → Did S env w w'' (before ++ calls) told
  Did-Filed {w} {before} {calls} did more = record {
    state = rw (effects-append S before calls w.store, ← did.state) more.state;
    heard = ground (arith, did.heard, more.heard, append-nil w.events);
  }

  -- A run up to its cleanup.
  record Inner (pdf : LocalPdf S.State) (w : World S.State) (run : Result Outcome × World S.State)
      : Type 0 where
    calls : List (Call S.State)
    told : List Event
    did : Did S env w run.1 calls told
    protocol : Protocol w run.0 (calls ++ close pdf.cleanup ∷ []) told

  after_duplicate-Inner :
      (pdf : LocalPdf S.State) (w w' : World S.State) (answer : Result Bool × S.State)
      → (S.read_pdf name w.store).0 ≡ ok pdf
      → S.is_duplicate pdf.content_hash w'.store ≡ answer
      → Did S env w w' (read_pdf name ∷ []) []
      → Inner pdf w (after_duplicate S env name pdf answer w'.events)
  unfolding after_duplicate
  after_duplicate-Inner pdf w w' (err cause, s) r p did = record {
    calls = read_pdf name ∷ is_duplicate pdf.content_hash ∷ [];
    told = [];
    did = Did-call S env (is_duplicate pdf.content_hash) (sym (ap (λ a. a.1) p)) did;
    protocol = index_failed pdf cause r (rw did.state at (ap (λ a. a.0) p)) refl refl refl;
  }
  after_duplicate-Inner pdf w w' (ok true, s) r p did = record {
    calls = read_pdf name ∷ is_duplicate pdf.content_hash ∷ [];
    told = [];
    did = Did-call S env (is_duplicate pdf.content_hash) (sym (ap (λ a. a.1) p)) did;
    protocol = duplicate pdf r (rw did.state at (ap (λ a. a.0) p)) refl refl refl;
  }
  after_duplicate-Inner pdf w w' (ok false, s) r p did =
      let asked = Did-call S env (is_duplicate pdf.content_hash) (sym (ap (λ a. a.1) p)) did in
      let v : World S.State = record { store = s; events = w'.events } in
      let told = Did-notify S env (stage_started ocr) (Did-start S env v) in
      let filed =
        after_ocr-Filed S env name pdf v _ _
          (ap (λ store. env.extractor store pdf.local_path) (sym told.state)) told in
      record {
        calls = read_pdf name ∷ is_duplicate pdf.content_hash ∷ filed.calls;
        told = filed.told;
        did = Did-Filed asked filed.did;
        protocol = new_document pdf v filed.calls r (rw did.state at p) filed.filing refl;
      }

  after_read-Run :
      (w : World S.State) (answer : Result (LocalPdf S.State) × S.State)
      → S.read_pdf name w.store ≡ answer
      → Run w (after_read S env name answer w.events)
  unfolding after_read
  after_read-Run w (err cause, s) p = record {
    calls = read_pdf name ∷ quarantine name (failure S env library_write cause s) ∷ [];
    told = [];
    did =
        Did-call S env (quarantine name (failure S env library_write cause s)) refl
          (Did-call S env (read_pdf name) (sym (ap (λ a. a.1) p)) (Did-start S env w));
    protocol =
        unreadable (failure S env library_write cause s) refl (ap (λ a. a.0) p) refl refl refl;
  }
  after_read-Run w (ok pdf, s) p =
      let inner =
        after_duplicate-Inner pdf w _ _ (ap (λ a. a.0) p) refl
          (Did-call S env (read_pdf name) (sym (ap (λ a. a.1) p)) (Did-start S env w)) in
      record {
        calls = inner.calls ++ close pdf.cleanup ∷ [];
        told = inner.told;
        did = Did-call S env (close pdf.cleanup) refl inner.did;
        protocol = inner.protocol;
      }

  -- Whatever the storage, the tools and the classifier answer, a run ends in one of the ways that
  -- `Protocol` lists: it makes exactly those storage calls in that order, tells a present observer
  -- exactly those events, and tells nothing to an absent one.
  pub process_one-Run : (w : World S.State) → Run w (process_one S env name w)
  unfolding process_one
  process_one-Run w = after_read-Run w (S.read_pdf name w.store) refl
