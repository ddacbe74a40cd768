-- ===== src/LocalStorage/Duplicates.antt =====
-- What counts as a duplicate in the library, and that an entry that was written does.
use paper_claw.Base.{
  ℕ, Text, codes, ok, Any, true, false, Bool-cases, Result-cases, List, [], ◌∷◌, ◌++◌, text_eq,
  text_eq_iff, ◌≡◌, ◌≢◌, ◌↔◌, ◌⊎◌, inl, inr, ap, ◌∙◌, arith, ok-injective,
}
use paper_claw.Document.Metadata.{Metadata}
use paper_claw.Document.Storage.{Entry}
use paper_claw.LocalStorage.Path.{join_path}
use paper_claw.LocalStorage.{
  DirEntry, Os, Local, is_entry, load_metadata, any_with_hash, duplicate_in, is_duplicate,
  write_entry,
}
use paper_claw.LocalStorage.Disk.{Holds, IsOs}
use paper_claw.LocalStorage.Written.{write_entry-Filled}

module _ (O : Os) where
  abbrev pub metadata_path : Text → Text → Text
  metadata_path library name = join_path (join_path library name) (codes "metadata.json")

  -- A directory entry is a library entry, not the quarantine, whose metadata can be read and have the
  -- hash.
  abbrev pub HasHash : Text → Text → O.Disk → DirEntry → Type 0
  HasHash library hash s e =
      (is_entry e ≡ true)
      × (m : Metadata) × (load_metadata O s (metadata_path library e.name) ≡ ok m)
      × (m.content_hash ≡ hash)

  -- One step of the loop.
  first_or_later :
      (library hash : Text) (s : O.Disk) (e : DirEntry) (es : List DirEntry)
      → any_with_hash O library hash s (e ∷ es) ≡ true
      → HasHash library hash s e ⊎ (any_with_hash O library hash s es ≡ true)
  unfolding any_with_hash
  first_or_later library hash s e es h = elim (Bool-cases (is_entry e)) [
    | inl entry ↦ elim (Result-cases (load_metadata O s (metadata_path library e.name))) [
      | inl (m, loaded) ↦ elim (Bool-cases (text_eq m.content_hash hash)) [
        | inl same ↦ inl (entry, m, loaded, (text_eq_iff m.content_hash hash).0 same)
        | inr other ↦ inr (rw (entry, loaded, other) at h)
      ]
      | inr (x, failed) ↦ inr (rw (entry, failed) at h)
    ]
    | inr no_entry ↦ inr (rw no_entry at h)
  ]

  found_first :
      (library hash : Text) (s : O.Disk) (e : DirEntry) (es : List DirEntry)
      → HasHash library hash s e
      → any_with_hash O library hash s (e ∷ es) ≡ true
  unfolding any_with_hash
  found_first library hash s e es (entry, m, loaded, same) =
      rw (entry, loaded, (text_eq_iff m.content_hash hash).1 same)

  found_later :
      (library hash : Text) (s : O.Disk) (e : DirEntry) (es : List DirEntry)
      → any_with_hash O library hash s es ≡ true
      → any_with_hash O library hash s (e ∷ es) ≡ true
  unfolding any_with_hash
  found_later library hash s e es h = elim (Bool-cases (is_entry e)) [
    | inl entry ↦ elim (Result-cases (load_metadata O s (metadata_path library e.name))) [
      | inl (m, loaded) ↦ rw (entry, loaded) (ground (arith, h))
      | inr (x, failed) ↦ rw (entry, failed) h
    ]
    | inr no_entry ↦ rw no_entry h
  ]

  any_with_hash_sound :
      (library hash : Text) (s : O.Disk) (es : List DirEntry)
      → any_with_hash O library hash s es ≡ true
      → Any (HasHash library hash s) es
  unfolding any_with_hash
  any_with_hash_sound library hash s [] h = absurd (ground arith)
  any_with_hash_sound library hash s (e ∷ es) h = elim (first_or_later library hash s e es h) [
    | inl first ↦ inl first
    | inr later ↦ inr (any_with_hash_sound library hash s es later)
  ]

  any_with_hash_complete :
      (library hash : Text) (s : O.Disk) (es : List DirEntry)
      → Any (HasHash library hash s) es
      → any_with_hash O library hash s es ≡ true
  any_with_hash_complete library hash s [] h = absurd h
  any_with_hash_complete library hash s (e ∷ es) (inl first) = found_first library hash s e es first
  any_with_hash_complete library hash s (e ∷ es) (inr later) =
      found_later library hash s e es (any_with_hash_complete library hash s es later)

  loaded :
      (m : Metadata) (path bytes : Text) (s : O.Disk)
      → Holds O s path bytes
      → O.unmarshal_metadata bytes ≡ ok m
      → load_metadata O s path ≡ ok m
  unfolding load_metadata
  loaded m path bytes s held decoded = rw (load_metadata, held, decoded)

  module _ (d : Local) where
    -- A listed directory whose metadata have the hash.
    listed-HasHash :
        (name hash : Text) (m : Metadata) (s : O.Disk) (es : List DirEntry)
        → load_metadata O s (metadata_path d.library_dir name) ≡ ok m
        → m.content_hash ≡ hash
        → Any (λ x. (x.name ≡ name) × (is_entry x ≡ true)) es
        → Any (HasHash d.library_dir hash s) es
    listed-HasHash name hash m s [] got same lists = lists
    listed-HasHash name hash m s (x ∷ es) got same (inl (p, entry)) =
        inl (entry, m, ap (λ n. load_metadata O s (metadata_path d.library_dir n)) p ∙ got, same)
    listed-HasHash name hash m s (x ∷ es) got same (inr later) =
        inr (listed-HasHash name hash m s es got same later)

    -- If the library can be listed, `IsDuplicate` answers true if an entry of it has the hash and
    -- false if none has.
    pub is_duplicate_iff :
        (hash : Text) (s : O.Disk) (es : List DirEntry)
        → O.read_dir s d.library_dir ≡ ok es
        → (((is_duplicate O d hash s).0 ≡ ok true) ↔ Any (HasHash d.library_dir hash s) es)
          × (((is_duplicate O d hash s).0 ≡ ok false) ↔ (¬ Any (HasHash d.library_dir hash s) es))
    unfolding is_duplicate duplicate_in
    is_duplicate_iff hash s es listed =
        let found = any_with_hash O d.library_dir hash s es in
        let there = any_with_hash_sound d.library_dir hash s es in
        let back = any_with_hash_complete d.library_dir hash s es in
        rw listed (
          (λ p. there (ok-injective found true p), λ any. ap ok (back any)),
          (
            λ p any. absurd (ground (arith, ok-injective found false p, back any)),
            λ no. elim (Bool-cases found) [
              | inl some_one ↦ absurd (no (there some_one))
              | inr no_one ↦ ap ok no_one
            ],
          ),
        )

    -- An entry that `WriteEntry` has written is a duplicate from then on: if the library can be listed
    -- and lists its directory, which is not the quarantine's, and its metadata's JSON is read back
    -- with the same hash.
    pub is_duplicate_after_write_entry :
        (os : IsOs O) (rounds : ℕ) (unicode : ℕ → ℕ) (e : Entry) (pdf name : Text) (s : O.Disk)
        (es : List DirEntry)
        → let s' = (write_entry O d rounds unicode e s).1 in
          d.library_dir ≢ []
          → Holds O s e.pdf_path pdf
          → (write_entry O d rounds unicode e s).0 ≡ ok name
          → O.read_dir s' d.library_dir ≡ ok es
          → Any (λ x. (x.name ≡ name) × (is_entry x ≡ true)) es
          → ((json : Text)
              → O.marshal_metadata e.metadata ≡ ok json
              → (m : Metadata) × (O.unmarshal_metadata (json ++ (10 ∷ [])) ≡ ok m)
                × (m.content_hash ≡ e.metadata.content_hash))
          → (is_duplicate O d e.metadata.content_hash s').0 ≡ ok true
    is_duplicate_after_write_entry os rounds unicode e pdf name s es full there wrote listed lists
          reads =
        let s' = (write_entry O d rounds unicode e s).1 in
        let filled = write_entry-Filled O os d rounds unicode e pdf name s full there wrote in
        let (m, decoded, same) = reads filled.json filled.encoded in
        let hash = e.metadata.content_hash in
        (is_duplicate_iff hash s' es listed).0.1 (
          listed-HasHash name hash m s' es
            (loaded m (metadata_path d.library_dir name) (filled.json ++ (10 ∷ [])) s'
              filled.metadata decoded)
            same lists)
