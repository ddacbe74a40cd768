-- ===== src/Document/Pipeline/Indexed.antt =====
-- The dedup index behind a storage: what `IsDuplicate` knows, as the clients of a storage rely on it,
-- and what `ProcessOne` makes of it. The index may grow at any call, not only by an entry.
use paper_claw.Base.{
  ℕ, Text, Result, Bool-cases, inl, inr, ok, Bool, true, false, All, All-append, List, [], ◌∷◌,
  ◌++◌, ok-injective, ◌≡◌, ◌≢◌, refl, sym, ap, ◌∙◌, arith,
}
use paper_claw.Document.Metadata.{Metadata}
use paper_claw.Document.Storage.{Entry, ProcessingError, LocalPdf, Storage, Outcome, processed}
use paper_claw.Document.Pipeline.{Event, Env, World, described, process_one}
use paper_claw.Document.Pipeline.Protocol.{Call, read_pdf, is_duplicate, close, effect, effects}
use paper_claw.Document.Pipeline.Filing.{
  Filing, ocr_failed, unclassified, invalid, unwritten, filed, named, IsFit,
}
use paper_claw.Document.Pipeline.Run.{
  Protocol, unreadable, index_failed, duplicate, new_document, process_one-Run,
}
use paper_claw.Document.Pipeline.Calls.{Tame, Calls, unmoved, moved, Protocol-Calls}

-- A classifier that keeps the hash that it is given, as that of `internal/document/classify.go` does.
abbrev pub KeepsHash : {A : Type 0} → Env A → Type 0
KeepsHash {A} env =
    (s : A) (transcript name hash : Text) (now : ℕ) (meta : Metadata)
    → env.classifier s transcript name hash now ≡ ok meta
    → meta.content_hash ≡ hash

-- What no call on a storage puts an end to; the cleanup is that of a file that was read.
pub record IsKept (S : Storage) (Q : S.State → Type 0) : Type 0 where
  pub lists : (s : S.State) → Q s → Q (S.list_inbox s).1
  pub reads : (name : Text) (s : S.State) → Q s → Q (S.read_pdf name s).1
  pub closes :
      (name : Text) (s : S.State) (pdf : LocalPdf S.State)
      → (S.read_pdf name s).0 ≡ ok pdf
      → (t : S.State) → Q t
      → Q (pdf.cleanup t)
  pub asks : (hash : Text) (s : S.State) → Q s → Q (S.is_duplicate hash s).1
  pub writes : (e : Entry) (s : S.State) → Q s → Q (S.write_entry e s).1
  pub moves : (name hash : Text) (s : S.State) → Q s → Q (S.move_to_processed name hash s).1
  pub sets_aside :
      (name : Text) (pe : ProcessingError) (s : S.State) → Q s → Q (S.quarantine name pe s).1

-- The hashes that a state knows stay known, and those of written entries become known.
pub record IsIndexed (S : Storage) (knows : S.State → Text → Bool) : Type 0 where
  pub keeps : (hash : Text) → IsKept S (λ s. knows s hash ≡ true)
  pub answers :
      (s : S.State) (hash : Text) → knows s hash ≡ true → (S.is_duplicate hash s).0 ≢ ok false
  pub written :
      (e : Entry) (s : S.State) (name : Text)
      → (S.write_entry e s).0 ≡ ok name
      → knows (S.write_entry e s).1 e.metadata.content_hash ≡ true

described-hash :
    (S : Storage) (env : Env S.State) (name : Text) (m : Metadata)
    → (described S env name m).content_hash ≡ m.content_hash
unfolding described
described-hash S env name m = ground arith

module _ (S : Storage) (Q : S.State → Type 0) (kept : IsKept S Q) where
  abbrev Keeps : Call S.State → Type 0
  Keeps c = (s : S.State) → Q s → Q (effect S c s)

  effects-Keeps : (cs : List (Call S.State)) (s : S.State) → All Keeps cs → Q s → Q (effects S cs s)
  effects-Keeps [] s h q = q
  effects-Keeps (c ∷ cs) s (h, hs) q = effects-Keeps cs (effect S c s) hs (h s q)

  module _ (env : Env S.State) (name : Text) where
    tame : (w : World S.State) → Tame S env name w Keeps
    tame w = record {
      reads = kept.reads name;
      asks = λ hash. kept.asks hash;
      writes = λ entry. kept.writes entry;
      sets_aside = λ pe. kept.sets_aside name pe;
      closes = λ pdf got. kept.closes name w.store pdf got;
    }

    Calls-Keeps :
        (w : World S.State) (calls : List (Call S.State))
        → Calls S env name w Keeps calls
        → All Keeps calls
    Calls-Keeps w calls (unmoved h) = h
    Calls-Keeps w calls (moved pdf before got h c) = rw c (
        All-append Keeps before _ h
          (kept.moves name pdf.content_hash, (kept.closes name w.store pdf got, tt)))

    -- What every call keeps, a run keeps.
    pub process_one-Keeps : (w : World S.State) → Q w.store → Q (process_one S env name w).1.store
    process_one-Keeps w q =
        let run = process_one-Run S env name w in
        rw run.did.state (
          effects-Keeps run.calls w.store
            (Calls-Keeps w run.calls
              (Protocol-Calls S env name w Keeps _ run.calls run.told (tame w) run.protocol))
            q)

module _ (S : Storage) (knows : S.State → Text → Bool) (indexed : IsIndexed S knows) where
  module _ (env : Env S.State) (name : Text) where
    -- What a run that ends as processed has done.
    record IsFiled (w : World S.State) (outcome : Outcome) (calls : List (Call S.State))
        : Type 0 where
      pdf : LocalPdf S.State
      v : World S.State
      entry : Entry
      entry_name : Text
      got : (S.read_pdf name w.store).0 ≡ ok pdf
      new : S.is_duplicate pdf.content_hash (S.read_pdf name w.store).1 ≡ (ok false, v.store)
      fit : IsFit S env name pdf v entry
      wrote : (S.write_entry entry v.store).0 ≡ ok entry_name
      hash : outcome.hash ≡ pdf.content_hash
      made :
          effects S calls w.store
          ≡ pdf.cleanup
              (S.move_to_processed name pdf.content_hash (S.write_entry entry v.store).1).1

    -- No outcome but `processed_as` has the status.
    unlike :
        (result : Result Outcome) (o outcome : Outcome)
        → result ≡ ok o
        → result ≡ ok outcome
        → o ≡ outcome
    unlike result o outcome r h = ok-injective o outcome (sym r ∙ h)

    not_filed :
        (result : Result Outcome) (o outcome : Outcome)
        → result ≡ ok o
        → result ≡ ok outcome
        → outcome.status ≡ processed
        → o.status ≡ processed
    not_filed result o outcome r h p = ap (λ x. x.status) (unlike result o outcome r h) ∙ p

    Filing-IsFiled :
        (w v : World S.State) (pdf : LocalPdf S.State) (result : Result Outcome)
        (inner : List (Call S.State)) (told : List Event) (outcome : Outcome)
        → (S.read_pdf name w.store).0 ≡ ok pdf
        → S.is_duplicate pdf.content_hash (S.read_pdf name w.store).1 ≡ (ok false, v.store)
        → Filing S env name pdf v result inner told
        → result ≡ ok outcome
        → outcome.status ≡ processed
        → IsFiled w outcome
            (read_pdf name ∷ is_duplicate pdf.content_hash ∷ (inner ++ close pdf.cleanup ∷ []))
    Filing-IsFiled w v pdf result inner told outcome got new (ocr_failed pe a b r c t) h p =
        absurd (cc (not_filed result _ outcome r h p))
    Filing-IsFiled w v pdf result inner told outcome got new (unclassified text pe a b r c t) h p =
        absurd (cc (not_filed result _ outcome r h p))
    Filing-IsFiled w v pdf result inner told outcome got new (invalid text m pe a b e r c t) h p =
        absurd (cc (not_filed result _ outcome r h p))
    Filing-IsFiled w v pdf result inner told outcome got new (unwritten en pe a b e r c t) h p =
        absurd (cc (not_filed result _ outcome r h p))
    Filing-IsFiled w v pdf result inner told outcome got new
          (filed entry entry_name m fit wrote e r c t) h p =
        record {
          pdf = pdf;
          v = v;
          entry = entry;
          entry_name = entry_name;
          got = got;
          new = new;
          fit = fit;
          wrote = wrote;
          hash = sym (ap (λ o. o.hash) (unlike result _ outcome r h));
          made = rw (c, ap (λ r. r.1) new) refl;
        }

    Protocol-IsFiled :
        (w : World S.State) (result : Result Outcome) (calls : List (Call S.State))
        (told : List Event) (outcome : Outcome)
        → Protocol S env name w result calls told
        → result ≡ ok outcome
        → outcome.status ≡ processed
        → IsFiled w outcome calls
    Protocol-IsFiled w result calls told outcome (unreadable pe a b r c t) h p =
        absurd (cc (not_filed result _ outcome r h p))
    Protocol-IsFiled w result calls told outcome (index_failed pdf cause a b r c t) h p =
        absurd (cc (sym r ∙ h))
    Protocol-IsFiled w result calls told outcome (duplicate pdf a b r c t) h p =
        absurd (cc (not_filed result _ outcome r h p))
    Protocol-IsFiled w result calls told outcome (new_document pdf v inner got new filing c) h p =
        rw c (Filing-IsFiled w v pdf result inner told outcome got new filing h p)

    module _ (w : World S.State) (outcome : Outcome)
        (result : (process_one S env name w).0 ≡ ok outcome)
        (filed_it : outcome.status ≡ processed) where
      run-IsFiled : IsFiled w outcome (process_one-Run S env name w).calls
      run-IsFiled =
          let run = process_one-Run S env name w in
          Protocol-IsFiled w _ run.calls run.told outcome run.protocol result filed_it

      -- The hash of a file that is filed was not known.
      pub process_one-unknown : knows w.store outcome.hash ≡ false
      process_one-unknown =
          let f = run-IsFiled in
          elim (Bool-cases (knows w.store outcome.hash)) [
            | inl known ↦
                let asked =
                  (indexed.keeps f.pdf.content_hash).reads name w.store
                    (ap (knows w.store) (sym f.hash) ∙ known) in
                absurd (
                  indexed.answers (S.read_pdf name w.store).1 f.pdf.content_hash asked
                    (ap (λ r. r.0) f.new))
            | inr unknown ↦ unknown
          ]

      -- It is from then on, if the classifier keeps the hash.
      pub process_one-knows :
          KeepsHash env → knows (process_one S env name w).1.store outcome.hash ≡ true
      process_one-knows keeps =
          let f = run-IsFiled in
          let entry_hash : f.entry.metadata.content_hash ≡ outcome.hash =
            ap (λ m. m.content_hash) f.fit.described_as
            ∙ described-hash S env name (named S env name f.fit.meta)
            ∙ keeps f.v.store f.entry.transcript name f.pdf.content_hash (env.now f.v.store)
                f.fit.meta f.fit.classified.answered
            ∙ sym f.hash in
          let known =
            ap (knows (S.write_entry f.entry f.v.store).1) (sym entry_hash)
            ∙ indexed.written f.entry f.v.store f.entry_name f.wrote in
          let moved_too = (indexed.keeps outcome.hash).moves name f.pdf.content_hash _ known in
          ap (λ s. knows s outcome.hash) ((process_one-Run S env name w).did.state ∙ f.made)
          ∙ (indexed.keeps outcome.hash).closes name w.store f.pdf f.got _ moved_too
