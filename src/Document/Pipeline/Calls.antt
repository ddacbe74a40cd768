-- ===== src/Document/Pipeline/Calls.antt =====
-- The storage calls of a run, read off the ways in which it can end: at most one of them moves the
-- file, and then only the cleanup comes after it.
use paper_claw.Base.{Text, Result, ok, All, All-append, List, [], ◌∷◌, ◌++◌, ◌≡◌, ap}
use paper_claw.Document.Storage.{Entry, ProcessingError, Outcome, LocalPdf, Storage}
use paper_claw.Document.Pipeline.{Event, Env, World}
use paper_claw.Document.Pipeline.Protocol.{
  Call, read_pdf, is_duplicate, write_entry, move_to_processed, quarantine, close,
}
use paper_claw.Document.Pipeline.Filing.{
  Filing, ocr_failed, unclassified, invalid, unwritten, filed,
}
use paper_claw.Document.Pipeline.Run.{Protocol, unreadable, index_failed, duplicate, new_document}

module _ (S : Storage) (env : Env S.State) (name : Text) (w : World S.State)
    (P : Call S.State → Type 0) where
  -- What holds of every call but the move.
  pub record Tame : Type 0 where
    pub reads : P (read_pdf name)
    pub asks : (hash : Text) → P (is_duplicate hash)
    pub writes : (entry : Entry) → P (write_entry entry)
    pub sets_aside : (pe : ProcessingError) → P (quarantine name pe)
    pub closes :
        (pdf : LocalPdf S.State) → (S.read_pdf name w.store).0 ≡ ok pdf → P (close pdf.cleanup)

  -- The calls of a run.
  pub data Calls (calls : List (Call S.State)) : Type 0 where
    unmoved : All P calls → Calls calls
    moved :
        (pdf : LocalPdf S.State) (before : List (Call S.State))
        → (S.read_pdf name w.store).0 ≡ ok pdf
        → All P before
        → calls ≡ before ++ (move_to_processed name pdf.content_hash ∷ close pdf.cleanup ∷ [])
        → Calls calls

  -- A part that does not move the file.
  framed :
      (pdf : LocalPdf S.State) (inner : List (Call S.State))
      → Tame
      → (S.read_pdf name w.store).0 ≡ ok pdf
      → All P inner
      → Calls (read_pdf name ∷ is_duplicate pdf.content_hash ∷ (inner ++ close pdf.cleanup ∷ []))
  framed pdf inner tame got h = unmoved (
    tame.reads,
    (
      tame.asks pdf.content_hash,
      All-append P inner (close pdf.cleanup ∷ []) h (tame.closes pdf got, tt),
    ),
  )

  Filing-Calls :
      (pdf : LocalPdf S.State) (v : World S.State) (result : Result Outcome)
      (inner : List (Call S.State)) (told : List Event)
      → Tame
      → (S.read_pdf name w.store).0 ≡ ok pdf
      → Filing S env name pdf v result inner told
      → Calls (read_pdf name ∷ is_duplicate pdf.content_hash ∷ (inner ++ close pdf.cleanup ∷ []))
  Filing-Calls pdf v result inner told tame got (ocr_failed pe a b r c t) =
      framed pdf inner tame got (rw c (tame.sets_aside pe, tt))
  Filing-Calls pdf v result inner told tame got (unclassified text pe a b r c t) =
      framed pdf inner tame got (rw c (tame.sets_aside pe, tt))
  Filing-Calls pdf v result inner told tame got (invalid text m pe a b e r c t) =
      framed pdf inner tame got (rw c (tame.sets_aside pe, tt))
  Filing-Calls pdf v result inner told tame got (unwritten en pe a b e r c t) =
      framed pdf inner tame got (rw c (tame.writes en, (tame.sets_aside pe, tt)))
  Filing-Calls pdf v result inner told tame got (filed entry entry_name m fit wrote e r c t) =
      moved pdf (read_pdf name ∷ is_duplicate pdf.content_hash ∷ write_entry entry ∷ []) got
        (tame.reads, (tame.asks pdf.content_hash, (tame.writes entry, tt)))
        (ap (λ cs. read_pdf name ∷ is_duplicate pdf.content_hash ∷ (cs ++ close pdf.cleanup ∷ []))
          c)

  pub Protocol-Calls :
      (result : Result Outcome) (calls : List (Call S.State)) (told : List Event)
      → Tame
      → Protocol S env name w result calls told
      → Calls calls
  Protocol-Calls result calls told tame (unreadable pe a b r c t) =
      rw c (unmoved (tame.reads, (tame.sets_aside pe, tt)))
  Protocol-Calls result calls told tame (index_failed pdf cause a b r c t) =
      rw c (unmoved (tame.reads, (tame.asks pdf.content_hash, (tame.closes pdf a, tt))))
  Protocol-Calls result calls told tame (duplicate pdf a b r c t) =
      rw c (unmoved (tame.reads, (tame.asks pdf.content_hash, (tame.closes pdf a, tt))))
  Protocol-Calls result calls told tame (new_document pdf v inner got new filing c) =
      rw c (Filing-Calls pdf v result inner told tame got filing)
