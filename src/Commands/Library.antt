-- ===== src/Commands/Library.antt =====
-- cmd/paperclaw/main.go: `walkLibrary` and `runList`.
pub mod Selected
use paper_claw.Base.{
  ℕ, Text, codes, Result, ok, err, Method, Bool, true, false, not, ◌&&◌, ◌||◌, Option, none, some,
  List, [], ◌∷◌, ◌++◌, is_empty, text_eq, ltb, ◌==◌, if◌then◌else◌,
}
use paper_claw.Base.Methods.{◌>>=◌}
use paper_claw.Document.Metadata.{Metadata, Amount}
use paper_claw.Document.Slug.{to_lower}
use paper_claw.LocalStorage.{DirEntry, Os, is_entry, load_metadata}
use paper_claw.LocalStorage.Path.{join_path}
use paper_claw.Commands.{list_json, Console}

-- `strings.HasPrefix` and `strings.Contains`
unfoldable pub has_prefix : Text → Text → Bool
has_prefix s [] = true
has_prefix [] (c ∷ t) = false
has_prefix (d ∷ s) (c ∷ t) = d == c && has_prefix s t

unfoldable pub contains_text : Text → Text → Bool
contains_text [] t = has_prefix [] t
contains_text (c ∷ s) t = has_prefix (c ∷ s) t || contains_text s t

-- `a < b` of strings.
unfoldable pub text_lt : Text → Text → Bool
text_lt s [] = false
text_lt [] (d ∷ t) = true
text_lt (c ∷ s) (d ∷ t) = ltb c d || (c == d && text_lt s t)

pub record ListFlags : Type 0 where
  pub library : Text
  pub doc_type : Text
  pub since : Text
  pub vendor : Text
  pub overdue : Bool

module _ (unicode : ℕ → ℕ) (f : ListFlags) (today : Text) where
  -- The four filters, in the order of the loop: true for what is passed over.
  unfoldable pub is_skipped : Metadata → Bool
  is_skipped m =
      (not (is_empty f.doc_type) && not (text_eq m.type f.doc_type))
      || ((not (is_empty f.since) && text_lt m.document_date f.since)
          || ((not (is_empty f.vendor)
                && not (contains_text (to_lower unicode m.vendor) (to_lower unicode f.vendor)))
              || (f.overdue && (is_empty m.due_date || not (text_lt m.due_date today)))))

  unfoldable pub select : List Metadata → List Metadata
  select [] = []
  select (m ∷ ms) = let rest = select ms in if is_skipped m then rest else m ∷ rest

module _ (O : Os) where
  -- The loop of `walkLibrary`.
  unfoldable pub metas_in : Text → O.Disk → List DirEntry → List Metadata
  metas_in library s [] = []
  metas_in library s (e ∷ es) =
      let rest = metas_in library s es in
      if is_entry e
      then (elim (load_metadata O s
          (join_path (join_path library e.name) (codes "metadata.json"))) [
            | err x ↦ rest
            | ok m ↦ m ∷ rest
          ])
      else rest

  walked : Text → O.Disk → Result (List DirEntry) → Result (List Metadata)
  walked library s (err e) = err (codes "reading library: " ++ e)
  walked library s (ok es) = ok (metas_in library s es)

  unfoldable pub walk_library : Text → Method O.Disk (List Metadata)
  unfolding walked
  walk_library library s = (walked library s (O.read_dir s library), s)

  module _ (c : Console O) where
    amount_line : Option Amount → Text → Text
    amount_line none currency = []
    amount_line (some a) currency =
        codes "amount:  " ++ (c.amount_text a ++ (codes " " ++ (currency ++ (10 ∷ []))))

    due_line : Text → Text
    due_line due = if is_empty due then [] else codes "due:     " ++ (due ++ (10 ∷ []))

    -- `printMetadataText`
    unfoldable pub metadata_text : Metadata → Text
    unfolding amount_line due_line
    metadata_text m =
        codes "id:      "
        ++ (m.id
            ++ (codes "\ntype:    "
                ++ (m.type
                    ++ (codes "\ndate:    "
                        ++ (m.document_date
                            ++ (codes "\nvendor:  "
                                ++ (m.vendor
                                    ++ (codes "\nsummary: "
                                        ++ (m.summary
                                            ++ (10
                                                ∷ (amount_line m.amount m.currency
                                                    ++ due_line m.due_date)))))))))))

    print_each : List Metadata → O.Disk → O.Disk
    print_each [] s = s
    print_each (m ∷ ms) s = print_each ms (c.print (10 ∷ []) (c.print (metadata_text m) s))

    print_texts : List Metadata → O.Disk → O.Disk
    unfolding print_each
    print_texts [] s = c.print (codes "no documents found\n") s
    print_texts (m ∷ ms) s = print_each (m ∷ ms) s

    -- `printMetadataList`
    unfoldable pub print_metadata_list : List Metadata → Method O.Disk (Unit {0})
    unfolding print_texts
    print_metadata_list metas s =
        if c.is_terminal s then (ok tt, print_texts metas s) else c.encode (list_json metas) s

    -- The time is read before the library.
    list_with : (ℕ → ℕ) → ListFlags → Method O.Disk (Unit {0})
    list_with unicode f s =
        (walk_library f.library >>= λ metas.
        print_metadata_list (select unicode f (c.today s) metas))
          s

    -- `runList`, by what parsing the flags returns.
    unfoldable pub run_list : (ℕ → ℕ) → Result ListFlags → Method O.Disk (Unit {0})
    unfolding list_with
    run_list unicode (err e) s = (err e, s)
    run_list unicode (ok f) s = list_with unicode f s
