-- ===== src/Commands/Search/Hits.antt =====
-- Which documents `search` reports, and where it panics.
use paper_claw.Base.{
  ℕ, ◌<◌, Text, ok, true, Bool-cases, Result-cases, Any, none, some, List, [], ◌∷◌, ◌++◌, codes,
  length, take, ltb, ◌≡◌, ◌⊎◌, inl, inr, refl, sym, ap, ◌∙◌, arith, ok-injective,
}
use paper_claw.Base.Utf8.{utf8, byte_count, length-utf8}
use paper_claw.Document.Slug.{to_lower}
use paper_claw.LocalStorage.{DirEntry, Os, is_entry, load_metadata}
use paper_claw.Commands.{Hit, Console}
use paper_claw.Commands.Library.{contains_text}
use paper_claw.Commands.Library.Selected.{IsInfix, contains_text_iff}
use paper_claw.Commands.Search.{
  first_12, Ending, returned, panicked, meta_path, transcript_path, hit_of, hits_in, print_hit,
  print_hits, print_found, report_hits, search_listed, search_with, run_search,
}

module _ (O : Os) (unicode : ℕ → ℕ) (library query : Text) (s : O.Disk) where
  -- A library entry whose transcript can be read and has the query, both in lower case.
  pub record IsHit (e : DirEntry) : Type 0 where
    pub entry : is_entry e ≡ true
    pub text : Text
    pub transcript : O.read_file s (transcript_path O library e.name) ≡ ok text
    pub has_query : IsInfix query (to_lower unicode text)

  -- The hits among the entries, in order, each with its ID if the metadata can be read.
  pub data Hits : List DirEntry → List Hit → Type 0 where
    no_more : Hits [] []
    hit :
        (e : DirEntry) (es : List DirEntry) (hs : List Hit)
        → IsHit e
        → Hits es hs
        → Hits (e ∷ es) (hit_of O e.name (load_metadata O s (meta_path O library e.name)) ∷ hs)
    missed :
        (e : DirEntry) (es : List DirEntry) (hs : List Hit)
        → ¬ IsHit e
        → Hits es hs
        → Hits (e ∷ es) hs

  -- The loop of `search` reports exactly the library entries whose transcript has the query, in the
  -- directory's order.
  pub hits_in-Hits : (es : List DirEntry) → Hits es (hits_in O unicode library query s es)
  unfolding hits_in
  hits_in-Hits [] = no_more
  hits_in-Hits (e ∷ es) = elim (Bool-cases (is_entry e)) [
    | inl entry ↦ elim (Result-cases (O.read_file s (transcript_path O library e.name))) [
      | inl (text, read) ↦ elim (Bool-cases (contains_text (to_lower unicode text) query)) [
        | inl here ↦
            rw (entry, read, here)
              (hit e es (hits_in O unicode library query s es)
                (record {
                  entry = entry;
                  text = text;
                  transcript = read;
                  has_query = (contains_text_iff (to_lower unicode text) query).0 here;
                })
                (hits_in-Hits es))
        | inr other ↦
            rw (entry, read, other)
              (missed e es (hits_in O unicode library query s es)
                (λ is. ground (
                  arith,
                  other,
                  ap (λ t. contains_text (to_lower unicode t) query)
                      (ok-injective text is.text (sym read ∙ is.transcript)),
                  (contains_text_iff (to_lower unicode is.text) query).1 is.has_query,
                ))
                (hits_in-Hits es))
      ]
      | inr (x, failed) ↦
          rw (entry, failed)
            (missed e es (hits_in O unicode library query s es)
              (λ is. ground (arith, failed, is.transcript)) (hits_in-Hits es))
    ]
    | inr no_entry ↦ rw no_entry (
        missed e es (hits_in O unicode library query s es)
          (λ is. ground (arith, no_entry, is.entry)) (hits_in-Hits es))
  ]

-- An ID with too few bytes to be cut.
abbrev pub IsShort : Hit → Type 0
IsShort h = byte_count h.id < 12

first_12-cases :
    (h : Hit)
    → (IsShort h × (first_12 h.id ≡ none))
      ⊎ (¬ IsShort h × (first_12 h.id ≡ some (take 12 (utf8 h.id))))
unfolding first_12
first_12-cases h = elim (Bool-cases (ltb (length (utf8 h.id)) 12)) [
  | inl short ↦ inl (ground (arith, short, length-utf8 h.id), rw short)
  | inr long ↦ inr (λ short. ground (arith, long, short, length-utf8 h.id), rw long)
]

module _ (O : Os) (c : Console O) where
  -- A panic for some short ID, or the end with no error if there is none.
  abbrev pub Cut : List Hit → Ending O.Disk → Type 0
  Cut hs run =
      (Any IsShort hs × (t : O.Disk) × (run ≡ panicked t))
      ⊎ (¬ Any IsShort hs × (t : O.Disk) × (run ≡ returned (ok tt) t))

  Cut-later :
      (h : Hit) (hs : List Hit) (run : Ending O.Disk) → ¬ IsShort h → Cut hs run → Cut (h ∷ hs) run
  Cut-later h hs run long (inl (any, t, p)) = inl (inr any, t, p)
  Cut-later h hs run long (inr (none_short, t, p)) =
      inr (λ any. elim any [ inl short ↦ long short | inr later ↦ none_short later ], t, p)

  print_hits-Cut : (hs : List Hit) (s : O.Disk) → Cut hs (print_hits O c hs s)
  unfolding print_hits
  print_hits-Cut [] s = inr (λ any. any, s, refl)
  print_hits-Cut (h ∷ hs) s = elim (first_12-cases h) [
    | inl (short, e) ↦ inl (inl short, s, rw (print_hits, e))
    | inr (long, e) ↦
        rw (print_hits, e)
          (Cut-later h hs (print_hits O c hs (print_hit O c h (take 12 (utf8 h.id)) s)) long
            (print_hits-Cut hs (print_hit O c h (take 12 (utf8 h.id)) s)))
  ]

  print_found-Cut :
      (query : Text) (hs : List Hit) (s : O.Disk) → Cut hs (print_found O c query hs s)
  unfolding print_found
  print_found-Cut query [] s =
      inr (λ any. any, c.print (codes "no results for " ++ (c.quote query ++ (10 ∷ []))) s, refl)
  print_found-Cut query (h ∷ hs) s = print_hits-Cut (h ∷ hs) s

  -- On a terminal, and with a library that can be listed, `search` panics if the ID of some hit has
  -- fewer than 12 bytes, and else ends with no error.
  pub run_search-Cut :
      (unicode : ℕ → ℕ) (library arg : Text) (args : List Text) (s : O.Disk) (es : List DirEntry)
      → O.read_dir s library ≡ ok es
      → c.is_terminal s ≡ true
      → Cut
          (hits_in O unicode library (to_lower unicode arg) s es)
          (run_search O c unicode (ok record { library = library; args = arg ∷ args }) s)
  unfolding run_search search_with search_listed report_hits
  run_search-Cut unicode library arg args s es listed terminal =
      let hs = hits_in O unicode library (to_lower unicode arg) s es in
      rw (listed, search_listed, terminal) (print_found-Cut (to_lower unicode arg) hs s)
