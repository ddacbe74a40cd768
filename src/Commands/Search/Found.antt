-- ===== src/Commands/Search/Found.antt =====
-- Which document `show` prints.
use paper_claw.Base.{
  Text, ok, true, Bool-cases, Result-cases, All, Option, none, some, List, [], ◌∷◌, ◌++◌, ◌≡◌, inl,
  inr, refl, sym, ap, ◌∙◌, arith, ok-injective,
}
use paper_claw.Document.Metadata.{Metadata}
use paper_claw.LocalStorage.{DirEntry, Os, is_entry, load_metadata}
use paper_claw.Commands.Library.{has_prefix}
use paper_claw.Commands.Search.{meta_path, find_shown}

module _ (O : Os) (library prefix : Text) (s : O.Disk) where
  -- A library entry whose metadata can be read and have an ID with the prefix.
  pub record Shows (e : DirEntry) (m : Metadata) : Type 0 where
    pub entry : is_entry e ≡ true
    pub loaded : load_metadata O s (meta_path O library e.name) ≡ ok m
    pub prefixed : has_prefix m.id prefix ≡ true

  abbrev pub Hidden : DirEntry → Type 0
  Hidden e = (m : Metadata) → ¬ Shows e m

  -- The first entry of the list that shows, or none if none does.
  pub data First (es : List DirEntry) (found : Option (Text × Metadata)) : Type 0 where
    at :
        (before after : List DirEntry) (e : DirEntry) (m : Metadata)
        → es ≡ before ++ (e ∷ after)
        → All Hidden before
        → Shows e m
        → found ≡ some (e.name, m)
        → First es found
    nowhere : All Hidden es → found ≡ none → First es found

  First-later :
      (e : DirEntry) (es : List DirEntry) (found : Option (Text × Metadata))
      → Hidden e
      → First es found
      → First (e ∷ es) found
  First-later e es found hidden (at before after x m p hs shows q) =
      at (e ∷ before) after x m (ap (λ l. e ∷ l) p) (hidden, hs) shows q
  First-later e es found hidden (nowhere hs q) = nowhere (hidden, hs) q

  -- The loop of `show` finds the first library entry whose ID starts with the prefix, and nothing only
  -- if there is none.
  pub find_shown-First : (es : List DirEntry) → First es (find_shown O library prefix s es)
  unfolding find_shown
  find_shown-First [] = nowhere tt refl
  find_shown-First (e ∷ es) = elim (Bool-cases (is_entry e)) [
    | inl entry ↦ elim (Result-cases (load_metadata O s (meta_path O library e.name))) [
      | inl (m, loaded) ↦ elim (Bool-cases (has_prefix m.id prefix)) [
        | inl here ↦
            rw (entry, loaded, here)
              (at [] es e m refl tt (record { entry = entry; loaded = loaded; prefixed = here })
                refl)
        | inr other ↦
            rw (entry, loaded, other)
              (First-later e es (find_shown O library prefix s es)
                (λ n shows. ground (
                  arith,
                  other,
                  ap (λ x. has_prefix x.id prefix) (ok-injective m n (sym loaded ∙ shows.loaded)),
                  shows.prefixed,
                ))
                (find_shown-First es))
      ]
      | inr (x, failed) ↦
          rw (entry, failed)
            (First-later e es (find_shown O library prefix s es)
              (λ n shows. ground (arith, failed, shows.loaded)) (find_shown-First es))
    ]
    | inr no_entry ↦ rw no_entry (
        First-later e es (find_shown O library prefix s es)
          (λ n shows. ground (arith, no_entry, shows.entry)) (find_shown-First es))
  ]
