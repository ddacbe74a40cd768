-- ===== src/Commands/Search.antt =====
-- cmd/paperclaw/main.go: `runShow` and `runSearch`.
pub mod Found
pub mod Hits
use paper_claw.Base.{
  ℕ, Text, codes, Result, ok, err, Method, Option, none, some, List, [], ◌∷◌, ◌++◌, length, take,
  is_empty, ltb, if◌then◌else◌,
}
use paper_claw.Base.Utf8.{utf8}
use paper_claw.Document.Metadata.{Metadata}
use paper_claw.Document.Slug.{to_lower}
use paper_claw.LocalStorage.{DirEntry, Os, is_entry, load_metadata}
use paper_claw.LocalStorage.Path.{join_path}
use paper_claw.Commands.{Hit, shown_json, hits_json, Console}
use paper_claw.Commands.Library.{has_prefix, contains_text, metadata_text}

-- The library's directory and the arguments behind the flags.
pub record QueryFlags : Type 0 where
  pub library : Text
  pub args : List Text

-- `h.ID[:12]`, which panics on an ID of fewer bytes and may cut inside a character.
unfoldable pub first_12 : Text → Option (List ℕ)
first_12 id = let bytes = utf8 id in if ltb (length bytes) 12 then none else some (take 12 bytes)

-- How `runSearch` ends.
pub data Ending (D : Type 0) : Type 0 where
  returned : Result (Unit {0}) → D → Ending D
  panicked : D → Ending D

module _ (O : Os) where
  abbrev pub meta_path : Text → Text → Text
  meta_path library name = join_path (join_path library name) (codes "metadata.json")

  abbrev pub transcript_path : Text → Text → Text
  transcript_path library name = join_path (join_path library name) (codes "transcript.md")

  -- The loop of `runShow`: the first entry whose ID starts with the prefix.
  unfoldable pub find_shown : Text → Text → O.Disk → List DirEntry → Option (Text × Metadata)
  find_shown library prefix s [] = none
  find_shown library prefix s (e ∷ es) =
      let rest = find_shown library prefix s es in
      if is_entry e
      then (elim (load_metadata O s (meta_path library e.name)) [
        | err x ↦ rest
        | ok m ↦ if has_prefix m.id prefix then some (e.name, m) else rest
      ])
      else rest

  -- `transcript, _ := os.ReadFile(…)`
  transcript_of : Result Text → Text
  transcript_of (err e) = []
  transcript_of (ok text) = text

  unfoldable pub hit_of : Text → Result Metadata → Hit
  hit_of name (err e) = record { entry = name; id = [] }
  hit_of name (ok m) = record { entry = name; id = m.id }

  module _ (unicode : ℕ → ℕ) where
    -- The loop of `runSearch`, for a query in lower case.
    unfoldable pub hits_in : Text → Text → O.Disk → List DirEntry → List Hit
    hits_in library query s [] = []
    hits_in library query s (e ∷ es) =
        let rest = hits_in library query s es in
        if is_entry e
        then (elim (O.read_file s (transcript_path library e.name)) [
          | err x ↦ rest
          | ok text ↦
              if contains_text (to_lower unicode text) query
              then hit_of e.name (load_metadata O s (meta_path library e.name)) ∷ rest
              else rest
        ])
        else rest

  module _ (c : Console O) where
    print_shown : Text → Metadata → Text → O.Disk → O.Disk
    print_shown name m transcript s =
        let titled = c.print (codes "=== " ++ (name ++ codes " ===\n")) s in
        let described = c.print (metadata_text O c m) titled in
        if is_empty transcript
        then described
        else c.print (codes "\n--- transcript ---\n" ++ (transcript ++ (10 ∷ []))) described

    show_found : Text → Text → Option (Text × Metadata) → Method O.Disk (Unit {0})
    unfolding transcript_of print_shown
    show_found library prefix none s =
        (err (codes "no document found with id prefix " ++ c.quote prefix), s)
    show_found library prefix (some (name, m)) s =
        let transcript = transcript_of (O.read_file s (transcript_path library name)) in
        if c.is_terminal s
        then (ok tt, print_shown name m transcript s)
        else c.encode (shown_json m transcript) s

    show_listed : Text → Text → Result (List DirEntry) → Method O.Disk (Unit {0})
    unfolding show_found
    show_listed library prefix (err e) s = (err (codes "reading library: " ++ e), s)
    show_listed library prefix (ok es) s =
        show_found library prefix (find_shown library prefix s es) s

    show_with : Text → List Text → Method O.Disk (Unit {0})
    unfolding show_listed
    show_with library [] s = (err (codes "show requires an id prefix argument"), s)
    show_with library (prefix ∷ args) s = show_listed library prefix (O.read_dir s library) s

    -- `runShow`, by what parsing the flags returns.
    unfoldable pub run_show : Result QueryFlags → Method O.Disk (Unit {0})
    unfolding show_with
    run_show (err e) s = (err e, s)
    run_show (ok flags) s = show_with flags.library flags.args s

    print_hit : Hit → List ℕ → O.Disk → O.Disk
    print_hit h id = c.print_bytes (id ++ utf8 (codes "  " ++ (h.entry ++ (10 ∷ []))))

    unfoldable pub print_hits : List Hit → O.Disk → Ending O.Disk
    unfolding print_hit
    print_hits [] s = returned (ok tt) s
    print_hits (h ∷ hs) s = elim (first_12 h.id) [
      | none ↦ panicked s
      | some id ↦ print_hits hs (print_hit h id s)
    ]

    print_found : Text → List Hit → O.Disk → Ending O.Disk
    print_found query [] s =
        returned (ok tt) (c.print (codes "no results for " ++ (c.quote query ++ (10 ∷ []))) s)
    print_found query (h ∷ hs) s = print_hits (h ∷ hs) s

    unfoldable pub report_hits : Text → List Hit → O.Disk → Ending O.Disk
    unfolding print_found
    report_hits query hits s =
        if c.is_terminal s
        then print_found query hits s
        else (let r = c.encode (hits_json hits) s in returned r.0 r.1)

    module _ (unicode : ℕ → ℕ) where
      search_listed : Text → Text → Result (List DirEntry) → O.Disk → Ending O.Disk
      search_listed library query (err e) s = returned (err (codes "reading library: " ++ e)) s
      search_listed library query (ok es) s =
          report_hits query (hits_in unicode library query s es) s

      search_with : Text → List Text → O.Disk → Ending O.Disk
      unfolding search_listed
      search_with library [] s = returned (err (codes "search requires a query argument")) s
      search_with library (arg ∷ args) s =
          search_listed library (to_lower unicode arg) (O.read_dir s library) s

      -- `runSearch`, by what parsing the flags returns.
      unfoldable pub run_search : Result QueryFlags → O.Disk → Ending O.Disk
      unfolding search_with
      run_search (err e) s = returned (err e) s
      run_search (ok flags) s = search_with flags.library flags.args s
