-- ===== src/LocalStorage/Moves.antt =====
-- What a move of a processed file, and a quarantine, leave in place.
use paper_claw.Base.{
  Text, codes, Result, ok, err, All, Bool-cases, true, false, List, [], ◌∷◌, ◌++◌, ◌≡◌, ◌≢◌, ◌⊎◌,
  inl, inr, refl, sym, ap, ◌∙◌, arith,
}
use paper_claw.Document.Storage.{ProcessingError}
use paper_claw.LocalStorage.Path.{join_path}
use paper_claw.LocalStorage.{
  Os, Local, copy_file, second_name, destination, fallen_back, renamed, moved, move_to_processed,
  error_written, put_aside, quarantine_dir, quarantine,
}
use paper_claw.LocalStorage.Disk.{Holds, IsOs, copy_file-Only, copy_file-ok}

module _ (O : Os) (os : IsOs O) (d : Local) where
  -- The bytes are at one of the two paths.
  abbrev pub Either : O.Disk → Text → Text → Text → Type 0
  Either s p q b = Holds O s p b ⊎ Holds O s q b

  fallen_back-Either :
      (name src dst cause b : Text) (r : Result (Unit {0}) × O.Disk)
      → src ≢ dst
      → Holds O r.1 src b
      → (r.0 ≡ ok tt → Holds O r.1 dst b)
      → Either (fallen_back O d name src cause r) src dst b
  unfolding fallen_back
  fallen_back-Either name src dst cause b (ok u, s) off there copy =
      inr (os.remove_keeps src s dst b off (copy refl))
  fallen_back-Either name src dst cause b (err e, s) off there copy =
      inl (os.warn_keeps _ s src b there)

  renamed-Either :
      (name src dst b : Text) (r : Result (Unit {0}) × O.Disk)
      → src ≢ dst
      → (r.0 ≡ ok tt → Holds O r.1 dst b)
      → ((e : Text) → r.0 ≡ err e → Holds O r.1 src b)
      → Either (renamed O d name src dst r) src dst b
  unfolding renamed
  renamed-Either name src dst b (ok u, s) off done failed = inr (done refl)
  renamed-Either name src dst b (err cause, s) off done failed =
      let there = failed cause refl in
      fallen_back-Either name src dst cause b (copy_file O src dst s) off
        (copy_file-Only O os src dst s src b ((λ p. off (sym p)), tt) there)
        (copy_file-ok O os src dst s b off there)

  fallen_back-keeps :
      (name src cause q b : Text) (r : Result (Unit {0}) × O.Disk)
      → src ≢ q
      → Holds O r.1 q b
      → Holds O (fallen_back O d name src cause r) q b
  unfolding fallen_back
  fallen_back-keeps name src cause q b (ok u, s) off h = os.remove_keeps src s q b off h
  fallen_back-keeps name src cause q b (err e, s) off h = os.warn_keeps _ s q b h

  renamed-keeps :
      (name src dst q b : Text) (r : Result (Unit {0}) × O.Disk)
      → src ≢ q
      → dst ≢ q
      → Holds O r.1 q b
      → Holds O (renamed O d name src dst r) q b
  unfolding renamed
  renamed-keeps name src dst q b (ok u, s) off off' h = h
  renamed-keeps name src dst q b (err cause, s) off off' h =
      fallen_back-keeps name src cause q b (copy_file O src dst s) off
        (copy_file-Only O os src dst s q b (off', tt) h)

  -- Where a file of the inbox is before and may be after the move.
  abbrev pub inbox_path : Text → Text
  inbox_path name = join_path d.inbox_dir name

  abbrev pub first_path : Text → Text
  first_path name = join_path d.processed_dir name

  abbrev pub second_path : Text → Text → Text
  second_path name hash = join_path d.processed_dir (second_name O d name hash)

  destination-cases :
      (name hash : Text) (s : O.Disk)
      → ((O.stat s (first_path name) ≡ true)
          × (destination O d name hash s ≡ second_path name hash))
        ⊎ ((O.stat s (first_path name) ≡ false) × (destination O d name hash s ≡ first_path name))
  unfolding destination
  destination-cases name hash s = elim (Bool-cases (O.stat s (first_path name))) [
    | inl seen ↦ inl (seen, rw seen)
    | inr free ↦ inr (free, rw free)
  ]

  -- Another file is not where the move puts its own.
  destination-off :
      (name hash q b : Text) (s : O.Disk)
      → second_path name hash ≢ q
      → Holds O s q b
      → destination O d name hash s ≢ q
  destination-off name hash q b s off h p = elim (destination-cases name hash s) [
    | inl (seen, e) ↦ off (sym e ∙ p)
    | inr (free, e) ↦
        let found : O.stat s (first_path name) ≡ true =
          ap (O.stat s) (sym e ∙ p) ∙ os.stat_file s q b h in
        absurd (ground (arith, found, free))
  ]

  -- What a move leaves behind, of the file and of all others.
  pub record Safe (name hash : Text) (s s' : O.Disk) : Type 0 where
    pub kept :
        (b : Text)
        → Holds O s (inbox_path name) b
        → Holds O s' (inbox_path name) b
          ⊎ (Holds O s' (first_path name) b ⊎ Holds O s' (second_path name hash) b)
    pub others :
        (q b : Text)
        → inbox_path name ≢ q
        → second_path name hash ≢ q
        → Holds O s q b
        → Holds O s' q b

  placed :
      (name hash b : Text) (s s' : O.Disk)
      → Either s' (inbox_path name) (destination O d name hash s) b
      → Holds O s' (inbox_path name) b
        ⊎ (Holds O s' (first_path name) b ⊎ Holds O s' (second_path name hash) b)
  placed name hash b s s' (inl h) = inl h
  placed name hash b s s' (inr h) = elim (destination-cases name hash s) [
    | inl (seen, e) ↦ inr (inr (rw e at h))
    | inr (free, e) ↦ inr (inl (rw e at h))
  ]

  moved-Safe :
      (name hash : Text) (s : O.Disk) (r : Result (Unit {0}) × O.Disk)
      → inbox_path name ≢ first_path name
      → inbox_path name ≢ second_path name hash
      → Safe name hash r.1 (moved O d name hash r)
  unfolding moved
  moved-Safe name hash s (err e, t) off off' = record {
    kept = λ b h. inl (os.warn_keeps _ t (inbox_path name) b h);
    others = λ q b _ _ h. os.warn_keeps _ t q b h;
  }
  moved-Safe name hash s (ok u, t) off off' =
      let src = inbox_path name in
      let dst = destination O d name hash t in
      let away : src ≢ dst = λ p. elim (destination-cases name hash t) [
        | inl (seen, e) ↦ off' (p ∙ e)
        | inr (free, e) ↦ off (p ∙ e)
      ] in
      record {
        kept = λ b h. placed name hash b t _ (
            renamed-Either name src dst b (O.rename src dst t) away
              (λ done. os.rename_ok src dst t b done h)
              (λ e failed. os.rename_err src dst t e src b failed h));
        others = λ q b here there h.
            let elsewhere = destination-off name hash q b t there h in
            renamed-keeps name src dst q b (O.rename src dst t) here elsewhere
              (os.rename_keeps src dst t q b here elsewhere h);
      }

  -- Whatever fails, after `MoveToProcessed` the bytes of the inbox file are where they were or at one
  -- of its two names in the processed directory, and no other file is changed: the first name is
  -- never overwritten. The inbox must not be the processed directory.
  pub move_to_processed-Safe :
      (name hash : Text) (s : O.Disk)
      → inbox_path name ≢ first_path name
      → inbox_path name ≢ second_path name hash
      → Safe name hash s (move_to_processed O d name hash s).1
  unfolding move_to_processed
  move_to_processed-Safe name hash s off off' =
      let made = O.mkdir_all d.processed_dir s in
      let safe = moved-Safe name hash s made off off' in
      record {
        kept = λ b h. safe.kept b (os.mkdir_all_keeps d.processed_dir s (inbox_path name) b h);
        others = λ q b here there h.
            safe.others q b here there (os.mkdir_all_keeps d.processed_dir s q b h);
      }

  -- The two files of a quarantine.
  abbrev pub quarantine_paths : Text → List Text
  quarantine_paths name =
      join_path (quarantine_dir O d name) (codes "document.pdf")
      ∷ join_path (quarantine_dir O d name) (codes "processing_error.json")
      ∷ []

  error_written-keeps :
      (path : Text) (json : Result Text) (s : O.Disk) (q b : Text)
      → path ≢ q
      → Holds O s q b
      → Holds O (error_written O d path json s) q b
  unfolding error_written
  error_written-keeps path (err e) s q b off h = h
  error_written-keeps path (ok json) s q b off h =
      os.write_file_keeps path (json ++ (10 ∷ [])) s q b off h

  put_aside-keeps :
      (name : Text) (pe : ProcessingError) (r : Result (Unit {0}) × O.Disk) (q b : Text)
      → All (λ p. p ≢ q) (quarantine_paths name)
      → Holds O r.1 q b
      → Holds O (put_aside O d name (quarantine_dir O d name) pe r).1 q b
  unfolding put_aside
  put_aside-keeps name pe (err e, s) q b off h = h
  put_aside-keeps name pe (ok u, s) q b off h =
      let document = join_path (quarantine_dir O d name) (codes "document.pdf") in
      error_written-keeps _ _ (copy_file O (inbox_path name) document s).1 q b off.1.0
        (copy_file-Only O os (inbox_path name) document s q b (off.0, tt) h)

  -- `Quarantine` changes at most the two files of its own.
  pub quarantine_keeps :
      (name : Text) (pe : ProcessingError) (s : O.Disk) (q b : Text)
      → All (λ p. p ≢ q) (quarantine_paths name)
      → Holds O s q b
      → Holds O (quarantine O d name pe s).1 q b
  unfolding quarantine
  quarantine_keeps name pe s q b off h =
      let dir = quarantine_dir O d name in
      put_aside-keeps name pe (O.mkdir_all dir s) q b off (os.mkdir_all_keeps dir s q b h)
