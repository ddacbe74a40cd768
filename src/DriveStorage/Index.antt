-- ===== src/DriveStorage/Index.antt =====
-- `WriteEntry` takes a name that the library does not have, and leaves the hash in the index.
use mathlib.Core.Path.{subst}
use paper_claw.Base.{
  ok-injective, ◌≢◌, false, ℕ, Text, ok, true, List, contains, text_eq_refl, ◌≡◌, refl, sym, ap,
  ◌∙◌,
}
use paper_claw.Base.Methods.{>>=-ok, relabel-ok, relabel-state}
use paper_claw.Document.Metadata.{Metadata}
use paper_claw.Document.Storage.{Entry}
use paper_claw.Document.UniqueName.Fresh.{IsFirstFree, unique_dir_name-IsFirstFree}
use paper_claw.Store.Sql.{Rfc3339}
use paper_claw.Store.Documents.{indexed, put_document, indexed-put_document, has_hash-indexed}
use paper_claw.DriveStorage.{
  Service, Drive, State, entry_name, on_remote, on_db, pure, drive_client,
}
use paper_claw.DriveStorage.Files.{
  document_record, is_duplicate, recorded, stored_record, upload_all, fill_entry, write_as,
  resolved, write_beside, write_with, write_entry, folder_child_names, entry_base,
}

-- The search for a name always ends, with the first name that is free.
entry_name-IsFirstFree :
    (children : List Text) (base : Text)
    → (name : Text) × (entry_name children base ≡ ok name)
      × IsFirstFree base (contains children) name
unfolding entry_name
entry_name-IsFirstFree children base =
    let (name, found, free) =
      unique_dir_name-IsFirstFree base (contains children) children (λ name h. h) in
    (name, rw (entry_name, found) refl, free)

module _ (G : Service) (d : Drive G) (unicode : ℕ → ℕ) (rfc : Rfc3339) where
  recorded-indexed :
      (m : Metadata) (dir_name name : Text) (s : State G)
      → (recorded G d unicode rfc m dir_name s).0 ≡ ok name
      → (name ≡ dir_name)
        × (indexed (recorded G d unicode rfc m dir_name s).1.db m.content_hash ≡ true)
  unfolding recorded stored_record on_db pure document_record
  recorded-indexed m dir_name name s h =
      let row = document_record G d unicode rfc m dir_name s in
      let (u, answer, p) =
        >>=-ok (stored_record G d unicode rfc m dir_name) (λ _. pure dir_name) s name h in
      let stored = relabel-ok _ (on_db (put_document rfc row) s) u answer in
      (
        ok-injective _ _ (sym h ∙ ap (λ r. r.0) p),
        ap (λ r. indexed r.1.db m.content_hash) p
            ∙ ap (λ t. indexed t.db m.content_hash)
                (relabel-state _ (on_db (put_document rfc row) s))
            ∙ indexed-put_document rfc row s.db m.content_hash stored
            ∙ rw (text_eq_refl m.content_hash) refl,
      )

  write_as-recorded :
      (c : G.Client) (e : Entry) (dir_name name : Text) (s : State G)
      → (write_as G d unicode rfc c e dir_name s).0 ≡ ok name
      → (s' : State G) × (write_as G d unicode rfc c e dir_name s
          ≡ recorded G d unicode rfc e.metadata dir_name s')
  unfolding write_as fill_entry
  write_as-recorded c e dir_name name s h =
      let (folder, made, p) =
        >>=-ok (on_remote (G.create_folder c d.library_folder_id dir_name))
          (fill_entry G d unicode rfc c e dir_name) s name h in
      let (u, uploaded, q) =
        >>=-ok (upload_all G d unicode rfc c e folder)
          (λ _. recorded G d unicode rfc e.metadata dir_name) _ name (rw (← p) h) in
      (_, p ∙ q)

  -- A written entry: its name is the first free one among the names in the library folder, and its
  -- hash is in the index.
  pub record Written (e : Entry) (s : State G) (name : Text) : Type 0 where
    pub client : G.Client
    pub children : List Text
    pub connected : (drive_client G d s).0 ≡ ok client
    pub found :
        (folder_child_names G d client d.library_folder_id (drive_client G d s).1).0 ≡ ok children
    pub is_first_free : IsFirstFree (entry_base G d unicode rfc e.metadata) (contains children) name
    pub is_indexed : indexed (write_entry G d unicode rfc e s).1.db e.metadata.content_hash ≡ true

  -- A `WriteEntry` that succeeds took the first free one of its base name, base-2, base-3, … among
  -- the children that the library folder was listed with, and the hash of its metadata is in the
  -- index.
  pub write_entry-Written :
      (e : Entry) (s : State G) (name : Text)
      → (write_entry G d unicode rfc e s).0 ≡ ok name
      → Written e s name
  unfolding write_entry write_with write_beside resolved
  write_entry-Written e s name h =
      let (c, connected, p) = >>=-ok (drive_client G d) (write_with G d unicode rfc e) s name h in
      let s1 = (drive_client G d s).1 in
      let (children, found, q) =
        >>=-ok (folder_child_names G d c d.library_folder_id) (write_beside G d unicode rfc c e) s1
          name (rw (← p) h) in
      let s2 = (folder_child_names G d c d.library_folder_id s1).1 in
      let (dir_name, named, r) =
        >>=-ok (resolved G d unicode rfc e children) (write_as G d unicode rfc c e) s2 name
          (rw (← (p ∙ q)) h) in
      let (s', t) = write_as-recorded c e dir_name name s2 (rw (← (p ∙ q ∙ r)) h) in
      let whole = p ∙ q ∙ r ∙ t in
      let (same, is_indexed) = recorded-indexed e.metadata dir_name name s' (rw (← whole) h) in
      let (first, answer, free) =
        entry_name-IsFirstFree children (entry_base G d unicode rfc e.metadata) in
      record {
        client = c;
        children = children;
        connected = connected;
        found = found;
        is_first_free =
            subst (IsFirstFree (entry_base G d unicode rfc e.metadata) (contains children))
              (sym (same ∙ ok-injective _ _ (sym named ∙ answer))) free;
        is_indexed = ap (λ r. indexed r.1.db e.metadata.content_hash) whole ∙ is_indexed;
      }

  -- After a `WriteEntry` that succeeds, `IsDuplicate` never answers that the hash of the entry is
  -- new: it says that it is a duplicate, or returns an error.
  pub is_duplicate-write_entry :
      (e : Entry) (s : State G) (name : Text)
      → (write_entry G d unicode rfc e s).0 ≡ ok name
      → (is_duplicate G d e.metadata.content_hash (write_entry G d unicode rfc e s).1).0 ≢ ok false
  unfolding is_duplicate on_db
  is_duplicate-write_entry e s name h answered =
      let no =
        has_hash-indexed e.metadata.content_hash (write_entry G d unicode rfc e s).1.db false
          answered in
      let yes = (write_entry-Written e s name h).is_indexed in absurd (cc (no, yes))
