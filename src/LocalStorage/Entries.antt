-- ===== src/LocalStorage/Entries.antt =====
-- The entries that the local storage writes into the library.
use paper_claw.Base.{
  ℕ, Text, codes, ok, All, true, false, Option, none, some, List, [], ◌∷◌, ◌++◌, ◌≡◌, ◌≢◌, refl,
  text_eq,
}
use paper_claw.Document.Metadata.{Metadata}
use paper_claw.Document.Storage.{Entry}
use paper_claw.Document.UniqueName.{unique_dir_name}
use paper_claw.Document.UniqueName.Fresh.{unique_dir_name-free}
use paper_claw.LocalStorage.Path.{join_path, is_plain}
use paper_claw.LocalStorage.Path.Full.{join_path-full}
use paper_claw.LocalStorage.{
  Os, Local, copy_file, write_metadata, fill_entry, write_as, taken, entry_base, write_entry,
}
use paper_claw.LocalStorage.Disk.{Holds, IsOs, Only, Only->>=, copy_file-Only}

-- The three files of an entry.
abbrev pub sidecars : Text → List Text
sidecars dir =
    join_path dir (codes "document.pdf")
    ∷ join_path dir (codes "transcript.md")
    ∷ join_path dir (codes "metadata.json")
    ∷ []

module _ (O : Os) (os : IsOs O) (d : Local) where
  write_metadata-Only :
      (dir : Text) (m : Metadata)
      → Only O (sidecars dir) (write_metadata O d m (join_path dir (codes "metadata.json")))
  unfolding write_metadata
  write_metadata-Only dir m =
      Only->>= O (sidecars dir) (λ s. (O.marshal_metadata m, s)) _ (λ s q b off h. h)
        (λ json s q b off h.
          os.write_file_keeps (join_path dir (codes "metadata.json")) (json ++ (10 ∷ [])) s q b
            off.1.1.0 h)

  fill_entry-Only : (e : Entry) (dir : Text) → Only O (sidecars dir) (fill_entry O d e dir)
  unfolding fill_entry
  fill_entry-Only e dir =
      let document = join_path dir (codes "document.pdf") in
      let transcript = join_path dir (codes "transcript.md") in
      let files = sidecars dir in
      Only->>= O files (O.mkdir_all dir) _ (λ s q b off h. os.mkdir_all_keeps dir s q b h)
        (λ _.
          Only->>= O files (copy_file O e.pdf_path document) _
            (λ s q b off h. copy_file-Only O os e.pdf_path document s q b (off.0, tt) h)
            (λ _.
              Only->>= O files (O.write_file transcript e.transcript) _
                (λ s q b off h. os.write_file_keeps transcript e.transcript s q b off.1.0 h)
                (λ _. write_metadata-Only dir e.metadata)))

  -- Nothing is at the paths of an entry whose directory is not there.
  pub sidecars-off :
      (dir : Text) (s : O.Disk) (q b : Text)
      → dir ≢ []
      → O.stat s dir ≡ false
      → Holds O s q b
      → All (λ p. p ≢ q) (sidecars dir)
  unfolding is_plain text_eq
  sidecars-off dir s q b full free h = (
    off (codes "document.pdf") refl,
    (off (codes "transcript.md") refl, (off (codes "metadata.json") refl, tt)),
  )
    where
      off : (name : Text) → is_plain name ≡ true → join_path dir name ≢ q
      off name plain p = let seen = os.stat_dir s dir name b full plain (rw p h) in absurd (cc)

  write_as-keeps :
      (e : Entry) (name : Option Text) (s : O.Disk) (q b : Text)
      → d.library_dir ≢ []
      → ((dir_name : Text) → name ≡ some dir_name → taken O d s dir_name ≡ false)
      → Holds O s q b
      → Holds O (write_as O d e name s).1 q b
  unfolding write_as taken
  write_as-keeps e none s q b full free h = h
  write_as-keeps e (some dir_name) s q b full free h =
      let dir = join_path d.library_dir dir_name in
      let off =
        sidecars-off dir s q b (join_path-full d.library_dir dir_name full) (free dir_name refl)
          h in
      Only->>= O (sidecars dir) (fill_entry O d e dir) (λ _ t. (ok dir_name, t))
        (fill_entry-Only e dir) (λ _ t p c o k. k) s q b off h

  -- `WriteEntry` changes no file that is there before it, whatever it returns: every file keeps what
  -- it holds.
  pub write_entry_keeps :
      (rounds : ℕ) (unicode : ℕ → ℕ) (e : Entry) (s : O.Disk) (path bytes : Text)
      → d.library_dir ≢ []
      → Holds O s path bytes
      → Holds O (write_entry O d rounds unicode e s).1 path bytes
  unfolding write_entry
  write_entry_keeps rounds unicode e s path bytes full h =
      let base = entry_base O d rounds unicode e.metadata in
      write_as-keeps e (unique_dir_name rounds base (taken O d s)) s path bytes full
        (λ name p. unique_dir_name-free rounds base (taken O d s) name p) h
