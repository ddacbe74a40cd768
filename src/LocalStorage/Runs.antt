-- ===== src/LocalStorage/Runs.antt =====
-- The pipeline over the local storage: what a whole run leaves in place.
use paper_claw.Base.{
  ℕ, Text, Result, ok, err, All, Option-cases, List, [], ◌∷◌, ◌++◌, ◌≡◌, ◌≢◌, ◌⊎◌, inl, inr, sym,
  ap, ◌∙◌, arith, ok-injective,
}
use paper_claw.Document.Storage.{LocalPdf, Storage}
use paper_claw.Document.Pipeline.{Env, World, process_one}
use paper_claw.Document.Pipeline.Protocol.{Call, close, effect, effects, effects-append}
use paper_claw.Document.Pipeline.Run.{process_one-Run}
use paper_claw.Document.Pipeline.Calls.{Tame, Calls, unmoved, moved, Protocol-Calls}
use paper_claw.LocalStorage.{
  Os, Local, hash_file, hashed, read_pdf, is_duplicate, move_to_processed, local_storage,
}
use paper_claw.LocalStorage.Disk.{Holds, IsOs}
use paper_claw.LocalStorage.Entries.{write_entry_keeps}
use paper_claw.LocalStorage.Moves.{
  inbox_path, first_path, second_path, quarantine_paths, move_to_processed-Safe, quarantine_keeps,
}

module _ (O : Os) (os : IsOs O) (d : Local) (rounds : ℕ) (unicode : ℕ → ℕ) where
  abbrev pub files : Storage
  files = local_storage O d rounds unicode

  -- What was read of an inbox file that holds bytes: their digest, with nothing to clean up.
  pub record IsRead (name bytes : Text) (s : O.Disk) (pdf : LocalPdf O.Disk) : Type 0 where
    pub hash : pdf.content_hash ≡ O.hex_digest bytes
    pub clean : (t : O.Disk) → pdf.cleanup t ≡ t

  hashed-clean :
      (path : Text) (r : Result Text) (pdf : LocalPdf O.Disk)
      → hashed O d path r ≡ ok pdf
      → (r ≡ ok pdf.content_hash) × ((t : O.Disk) → pdf.cleanup t ≡ t)
  unfolding hashed
  hashed-clean path (err e) pdf h = absurd (ground arith)
  hashed-clean path (ok hash) pdf h =
      let same = ok-injective _ _ h in
      (ap (λ p. ok p.content_hash) same, λ t. ap (λ p. p.cleanup t) (sym same))

  hash_file-digest :
      (path bytes hash : Text) (s : O.Disk)
      → Holds O s path bytes
      → hash_file O s path ≡ ok hash
      → hash ≡ O.hex_digest bytes
  unfolding hash_file
  hash_file-digest path bytes hash s there h = elim (Option-cases (O.open_to_read s path)) [
    | inl e ↦ ok-injective hash _ (sym (rw (hash_file, e, there) at h))
    | inr (x, e) ↦ absurd (ground (arith, rw (hash_file, e) at h))
  ]

  read_pdf-IsRead :
      (name bytes : Text) (s : O.Disk) (pdf : LocalPdf O.Disk)
      → Holds O s (inbox_path O os d name) bytes
      → (read_pdf O d name s).0 ≡ ok pdf
      → IsRead name bytes s pdf
  unfolding read_pdf
  read_pdf-IsRead name bytes s pdf there h =
      let (r, clean) = hashed-clean (inbox_path O os d name) _ pdf h in
      record {
        hash = hash_file-digest (inbox_path O os d name) bytes pdf.content_hash s there r;
        clean = clean;
      }

  -- A call that keeps what a path holds.
  abbrev Keeps : Text → Text → Call O.Disk → Type 0
  Keeps q b c = (s : O.Disk) → Holds O s q b → Holds O (effect files c s) q b

  effects-Keeps :
      (q b : Text) (calls : List (Call O.Disk)) (s : O.Disk)
      → All (Keeps q b) calls
      → Holds O s q b
      → Holds O (effects files calls s) q b
  effects-Keeps q b [] s keeps h = h
  effects-Keeps q b (c ∷ calls) s keeps h =
      effects-Keeps q b calls (effect files c s) keeps.1 (keeps.0 s h)

  module _ (env : Env O.Disk) (name bytes : Text) (w : World O.Disk)
      (there : Holds O w.store (inbox_path O os d name) bytes)
      (has_library : d.library_dir ≢ []) where
    tame :
        (q b : Text)
        → All (λ p. p ≢ q) (quarantine_paths O os d name)
        → Tame files env name w (Keeps q b)
    unfolding read_pdf is_duplicate
    tame q b off = record {
      reads = λ s h. h;
      asks = λ hash s h. h;
      writes = λ entry s h. write_entry_keeps O os d rounds unicode entry s q b has_library h;
      sets_aside = λ pe s h. quarantine_keeps O os d name pe s q b off h;
      closes = λ pdf got s h.
          ap (λ t. O.read_file t q) ((read_pdf-IsRead name bytes w.store pdf there got).clean s)
          ∙ h;
    }

    -- What a run keeps: the bytes of the inbox file, where they were or under one of the two names in
    -- the processed directory, and every file that is neither this one nor the run's own.
    pub record Intact (s : O.Disk) : Type 0 where
      pub kept :
          Holds O s (inbox_path O os d name) bytes
          ⊎ (Holds O s (first_path O os d name) bytes
              ⊎ Holds O s (second_path O os d name (O.hex_digest bytes)) bytes)
      pub others :
          (q b : Text)
          → inbox_path O os d name ≢ q
          → second_path O os d name (O.hex_digest bytes) ≢ q
          → All (λ p. p ≢ q) (quarantine_paths O os d name)
          → Holds O w.store q b
          → Holds O s q b

    -- The state after a run that moves the file.
    moved_state :
        (pdf : LocalPdf O.Disk) (before calls : List (Call O.Disk))
        → (read_pdf O d name w.store).0 ≡ ok pdf
        → calls ≡ before ++ (Call.move_to_processed name pdf.content_hash ∷ close pdf.cleanup ∷ [])
        → effects files calls w.store
          ≡ (move_to_processed O d name (O.hex_digest bytes) (effects files before w.store)).1
    moved_state pdf before calls got e =
        let read = read_pdf-IsRead name bytes w.store pdf there got in
        let move : List (Call O.Disk) =
          Call.move_to_processed name pdf.content_hash ∷ close pdf.cleanup ∷ [] in
        let s1 = effects files before w.store in
        ap (λ cs. effects files cs w.store) e
        ∙ effects-append files before move w.store
        ∙ read.clean (move_to_processed O d name pdf.content_hash s1).1
        ∙ ap (λ hash. (move_to_processed O d name hash s1).1) read.hash

    module _ (off : inbox_path O os d name ≢ first_path O os d name)
        (off' : inbox_path O os d name ≢ second_path O os d name (O.hex_digest bytes)) where
      Calls-kept :
          (calls : List (Call O.Disk))
          → Calls files env name w (Keeps (inbox_path O os d name) bytes) calls
          → let s = effects files calls w.store in
            Holds O s (inbox_path O os d name) bytes
            ⊎ (Holds O s (first_path O os d name) bytes
                ⊎ Holds O s (second_path O os d name (O.hex_digest bytes)) bytes)
      Calls-kept calls (unmoved keeps) =
          inl (effects-Keeps (inbox_path O os d name) bytes calls w.store keeps there)
      Calls-kept calls (moved pdf before got keeps e) =
          let hash = O.hex_digest bytes in
          let s1 = effects files before w.store in
          let safe = move_to_processed-Safe O os d name hash s1 off off' in
          rw (moved_state pdf before calls got e) (
            safe.kept bytes
              (effects-Keeps (inbox_path O os d name) bytes before w.store keeps there))

      Calls-others :
          (calls : List (Call O.Disk)) (q b : Text)
          → inbox_path O os d name ≢ q
          → second_path O os d name (O.hex_digest bytes) ≢ q
          → Holds O w.store q b
          → Calls files env name w (Keeps q b) calls
          → Holds O (effects files calls w.store) q b
      Calls-others calls q b away away' h (unmoved keeps) = effects-Keeps q b calls w.store keeps h
      Calls-others calls q b away away' h (moved pdf before got keeps e) =
          let s1 = effects files before w.store in
          let safe = move_to_processed-Safe O os d name (O.hex_digest bytes) s1 off off' in
          rw (moved_state pdf before calls got e)
            (safe.others q b away away' (effects-Keeps q b before w.store keeps h))

      -- However a run of `ProcessOne` over the local storage ends, and whatever fails in it, the bytes
      -- of its inbox file are still in the inbox or under one of the two names in the processed
      -- directory, and every other file is kept but for the second of these names and the two files of
      -- the quarantine. The inbox must be neither the processed nor the quarantine directory.
      pub process_one-Intact :
          All (λ p. p ≢ inbox_path O os d name) (quarantine_paths O os d name)
          → Intact (process_one files env name w).1.store
      process_one-Intact aside =
          let run = process_one-Run files env name w in
          let sorted : (q b : Text)
              → All (λ p. p ≢ q) (quarantine_paths O os d name)
              → Calls files env name w (Keeps q b) run.calls =
            λ q b quiet.
              Protocol-Calls files env name w (Keeps q b) _ run.calls run.told (tame q b quiet)
                run.protocol in
          rw run.did.state record {
            kept = Calls-kept run.calls (sorted (inbox_path O os d name) bytes aside);
            others = λ q b away away' quiet h.
                Calls-others run.calls q b away away' h (sorted q b quiet);
          }
