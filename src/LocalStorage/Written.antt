-- ===== src/LocalStorage/Written.antt =====
-- What an entry holds that the local storage has written, and its name.
use paper_claw.Base.{
  ℕ, suc, ◌≤◌, ◌+◌, Text, codes, Result, ok, err, All, length, contains, true, false, Option, none,
  some, List, [], ◌∷◌, ◌++◌, ◌≡◌, ◌≢◌, ◌⊎◌, Result-cases, refl, sym, ◌∙◌, inl, inr, arith,
  ok-injective, text_eq, text_eq_iff,
}
use paper_claw.Base.Methods.{>>=-first, >>=-failed, Then, Then->>=}
use paper_claw.Document.Storage.{Entry}
use paper_claw.Document.UniqueName.{candidate, unique_dir_name}
use paper_claw.Document.UniqueName.Fresh.{
  IsFirstFree, IsFirstFree-free, unique_dir_name-candidates, unique_dir_name-free,
}
use paper_claw.LocalStorage.Path.{join_path, is_plain}
use paper_claw.LocalStorage.Path.Plain.{join_path-injective}
use paper_claw.LocalStorage.Path.Full.{join_path-full}
use paper_claw.LocalStorage.{
  Os, Local, copy_file, write_metadata, fill_entry, write_as, taken, entry_base, write_entry,
}
use paper_claw.LocalStorage.Entries.{sidecars, sidecars-off}
use paper_claw.LocalStorage.Disk.{Holds, IsOs, copy_file-ok}

module _ (O : Os) (os : IsOs O) (d : Local) where
  -- What an entry that was written holds: the PDF's bytes, the transcript and the metadata.
  pub record Filled (e : Entry) (dir : Text) (pdf : Text) (s : O.Disk) : Type 0 where
    pub document : Holds O s (join_path dir (codes "document.pdf")) pdf
    pub transcript : Holds O s (join_path dir (codes "transcript.md")) e.transcript
    pub json : Text
    pub encoded : O.marshal_metadata e.metadata ≡ ok json
    pub metadata : Holds O s (join_path dir (codes "metadata.json")) (json ++ (10 ∷ []))

  -- Two of the three names are different paths.
  apart :
      (dir n m : Text)
      → dir ≢ []
      → is_plain n ≡ true
      → is_plain m ≡ true
      → text_eq n m ≡ false
      → join_path dir n ≢ join_path dir m
  apart dir n m full hn hm ne p =
      let same = (text_eq_iff n m).1 (join_path-injective dir n m full hn hm p) in
      absurd (ground (arith, same, ne))

  fill_entry-Filled :
      (e : Entry) (dir pdf : Text)
      → dir ≢ []
      → All (λ p. p ≢ e.pdf_path) (sidecars dir)
      → Then (λ s. Holds O s e.pdf_path pdf) (fill_entry O d e dir) (λ _. Filled e dir pdf)
  unfolding fill_entry write_metadata is_plain text_eq
  fill_entry-Filled e dir pdf full off =
      let document = join_path dir (codes "document.pdf") in
      let transcript = join_path dir (codes "transcript.md") in
      let metadata = join_path dir (codes "metadata.json") in
      let Pdf : O.Disk → Type 0 = λ s. Holds O s e.pdf_path pdf in
      let Copied : O.Disk → Type 0 = λ s. Holds O s document pdf in
      let Written : O.Disk → Type 0 = λ s. Copied s × Holds O s transcript e.transcript in
      let Encoded : Text → O.Disk → Type 0 =
        λ json s. Written s × (O.marshal_metadata e.metadata ≡ ok json) in
      Then->>= Pdf (λ _. Pdf) (λ _. Filled e dir pdf) (O.mkdir_all dir) _
        (λ s _ h _. os.mkdir_all_keeps dir s e.pdf_path pdf h)
        (λ _.
          Then->>= Pdf (λ _. Copied) (λ _. Filled e dir pdf) (copy_file O e.pdf_path document) _
            (λ s _ h done. copy_file-ok O os e.pdf_path document s pdf (λ p. off.0 (sym p)) h done)
            (λ _.
              Then->>= Copied (λ _. Written) (λ _. Filled e dir pdf)
                (O.write_file transcript e.transcript) _
                (λ s _ h done. (
                  os.write_file_keeps transcript e.transcript s document pdf
                      (apart dir (codes "transcript.md") (codes "document.pdf") full refl refl refl)
                      h,
                  os.write_file_ok transcript e.transcript s done,
                ))
                (λ _.
                  Then->>= Written Encoded (λ _. Filled e dir pdf)
                    (λ s. (O.marshal_metadata e.metadata, s)) _ (λ s json h done. (h, done))
                    (λ json s _ h done. record {
                      document =
                          os.write_file_keeps metadata (json ++ (10 ∷ [])) s document pdf
                            (apart dir (codes "metadata.json") (codes "document.pdf") full refl refl
                              refl)
                            h.0.0;
                      transcript =
                          os.write_file_keeps metadata (json ++ (10 ∷ [])) s transcript e.transcript
                            (apart dir (codes "metadata.json") (codes "transcript.md") full refl
                              refl refl)
                            h.0.1;
                      json = json;
                      encoded = h.1;
                      metadata = os.write_file_ok metadata (json ++ (10 ∷ [])) s done;
                    }))))

  -- What `WriteEntry` does with the name that it picks.
  pub record Picked (e : Entry) (base pdf : Text) (s : O.Disk) (run : Result Text × O.Disk)
      : Type 0 where
    pub name : Text
    pub is_first : IsFirstFree base (taken O d s) name
    pub ends :
        ((run.0 ≡ ok name) × Filled e (join_path d.library_dir name) pdf run.1)
        ⊎ ((x : Text) × (run.0 ≡ err x)
            × ((fill_entry O d e (join_path d.library_dir name) s).0 ≡ err x))

  write_as-ends :
      (e : Entry) (name pdf : Text) (s : O.Disk)
      → d.library_dir ≢ []
      → taken O d s name ≡ false
      → Holds O s e.pdf_path pdf
      → let run = write_as O d e (some name) s in
        let dir = join_path d.library_dir name in
        ((run.0 ≡ ok name) × Filled e dir pdf run.1)
        ⊎ ((x : Text) × (run.0 ≡ err x) × ((fill_entry O d e dir s).0 ≡ err x))
  unfolding write_as taken
  write_as-ends e name pdf s full free there =
      let dir = join_path d.library_dir name in
      let there_full = join_path-full d.library_dir name full in
      elim (Result-cases (fill_entry O d e dir s).0) [
        | inl (u, done) ↦ rw (>>=-first (fill_entry O d e dir) (λ _ t. (ok name, t)) s tt done) (
            inl (
              refl,
              fill_entry-Filled e dir pdf there_full
                  (sidecars-off O os d dir s e.pdf_path pdf there_full free there) s tt there done,
            ))
        | inr (x, failed) ↦
            rw (>>=-failed (fill_entry O d e dir) (λ _ t. (ok name, t)) s x failed)
              (inr (x, refl, failed))
      ]

  -- If of the first candidates those that are taken are among the names, and the PDF can be read, `WriteEntry` picks the first
  -- free name; it returns that name, and the entry's files hold the PDF, the transcript and the
  -- metadata's JSON, or it returns the error of a call that failed.
  pub write_entry-Picked :
      (unicode : ℕ → ℕ) (names : List Text) (e : Entry) (pdf : Text) (s : O.Disk)
      → let rounds = suc (length names) in
        let base = entry_base O d rounds unicode e.metadata in
        d.library_dir ≢ []
        → ((i : ℕ)
            → i ≤ 2 + length names
            → taken O d s (candidate base i) ≡ true
            → contains names (candidate base i) ≡ true)
        → Holds O s e.pdf_path pdf
        → Picked e base pdf s (write_entry O d rounds unicode e s)
  unfolding write_entry
  write_entry-Picked unicode names e pdf s full finite there =
      let base = entry_base O d (suc (length names)) unicode e.metadata in
      let (name, found, first) = unique_dir_name-candidates base (taken O d s) names finite in
      rw found record {
        name = name;
        is_first = first;
        ends =
            write_as-ends e name pdf s full (IsFirstFree-free base (taken O d s) name first) there;
      }

  write_as-Filled :
      (e : Entry) (picked : Option Text) (name pdf : Text) (s : O.Disk)
      → d.library_dir ≢ []
      → ((dir_name : Text) → picked ≡ some dir_name → taken O d s dir_name ≡ false)
      → Holds O s e.pdf_path pdf
      → (write_as O d e picked s).0 ≡ ok name
      → Filled e (join_path d.library_dir name) pdf (write_as O d e picked s).1
  write_as-Filled e none name pdf s full free there h =
      absurd (unfold write_as in ground (arith, h))
  write_as-Filled e (some n) name pdf s full free there h =
      elim (write_as-ends e n pdf s full (free n refl) there) [
        | inl (done, filled) ↦ rw (← ok-injective n name (sym done ∙ h)) filled
        | inr (x, failed, _) ↦ absurd (ground (arith, failed, h))
      ]

  -- An entry whose name `WriteEntry` returns is filled.
  pub write_entry-Filled :
      (rounds : ℕ) (unicode : ℕ → ℕ) (e : Entry) (pdf name : Text) (s : O.Disk)
      → d.library_dir ≢ []
      → Holds O s e.pdf_path pdf
      → (write_entry O d rounds unicode e s).0 ≡ ok name
      → Filled e (join_path d.library_dir name) pdf (write_entry O d rounds unicode e s).1
  unfolding write_entry
  write_entry-Filled rounds unicode e pdf name s full there h =
      let base = entry_base O d rounds unicode e.metadata in
      write_as-Filled e (unique_dir_name rounds base (taken O d s)) name pdf s full
        (λ n p. unique_dir_name-free rounds base (taken O d s) n p) there h
