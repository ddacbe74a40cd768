-- ===== src/Tests/Documents.antt =====
-- Names, metadata, classification and one run of the pipeline.
use paper_claw.Base.{
  ℕ, Text, codes, ok, Bool, true, some, List, [], ◌∷◌, contains, text_eq, ◌≡◌, ◌↔◌, refl, arith,
  suc, ◌++◌, length, not, ◌&&◌, ◌==◌,
}
use paper_claw.Tests.Data.{memory, tools, world}
use paper_claw.Document.Pipeline.{process_one}
use paper_claw.Document.Pipeline.Run.{Run, process_one-Run}
use paper_claw.Document.Slug.{
  to_slug, truncate_slug, format_dir_name, is_alnum, transliterate, umlaut_map, slug_step,
  slug_loop, trim_right, lower_rune, to_lower, last_index,
}
use paper_claw.Document.Slug.DirName.{
  Lacks, DirName, format_dir_name-DirName, format_dir_name-injective,
}
use paper_claw.Document.UniqueName.{unique_dir_name, unique_loop, candidate}
use paper_claw.Document.UniqueName.Decimal.{itoa}
use paper_claw.Document.UniqueName.Fresh.{IsFirstFree, unique_dir_name-IsFirstFree}
use paper_claw.Document.Metadata.{validate_metadata}
use paper_claw.Document.Ocr.{
  Ran, extract_text, transcript, is_space, trim_start, trim_end, trim_space,
}
use paper_claw.Telemetry.{Closed, observe_all, process_one-Closed}

process_one-Run_example :
    Run memory tools (codes "bb") world (process_one memory tools (codes "bb") world)
process_one-Run_example = process_one-Run memory tools (codes "bb") world

process_one-Closed_example :
    Closed (observe_all (process_one memory tools (codes "bb") world).1.events [])
process_one-Closed_example = process_one-Closed memory tools (codes "bb") world refl refl

-- pdftotext ends a page with a form feed.
abbrev page : Text → Ran
page path = record { failed = ok tt; out = codes " Invoice 7 \n" ++ (12 ∷ []); stderr = [] }

page_text : extract_text page (codes "a.pdf") ≡ ok (codes "Invoice 7")
unfolding extract_text transcript trim_space trim_start trim_end is_space
page_text = refl

-- A new file is written, and the library then has its hash.
process_one_test :
    (process_one memory tools (codes "bb") world).1.store ≡ codes "bb" ∷ codes "aa" ∷ []
unfolding process_one text_eq contains validate_metadata
process_one_test = refl

-- ASCII only: other letters are left as they are.
abbrev ascii : ℕ → ℕ
ascii r = r

to_slug_test : to_slug ascii (codes "Müller & Söhne") ≡ codes "mueller-soehne"
unfolding is_alnum transliterate umlaut_map slug_step slug_loop trim_right lower_rune to_lower
    to_slug
to_slug_test = refl

format_dir_name_test :
    format_dir_name ascii (codes "2024-05-01") (codes "Acme") (codes "Invoice")
    ≡ codes "2024-05-01_acme_invoice"
unfolding is_alnum transliterate umlaut_map slug_step slug_loop trim_right lower_rune to_lower
    to_slug last_index truncate_slug format_dir_name
format_dir_name_test = refl

abbrev all_differ : ℕ → Text → Bool
all_differ b [] = true
all_differ b (c ∷ s) = not (c == b) && all_differ b s

differ-Lacks : (b : ℕ) (s : Text) → all_differ b s ≡ true → Lacks b s
differ-Lacks b [] h = tt
differ-Lacks b (c ∷ s) h = (λ e. ground arith, differ-Lacks b s (ground arith))

format_dir_name-DirName_example :
    DirName
      (codes "2024-05-01")
      (format_dir_name ascii (codes "2024-05-01") (codes "Acme") (codes "Invoice"))
format_dir_name-DirName_example =
    format_dir_name-DirName ascii (codes "2024-05-01") (codes "Acme") (codes "Invoice")

format_dir_name-injective_example :
    (format_dir_name ascii (codes "2024-05-01") (codes "Acme") (codes "Invoice")
      ≡ format_dir_name ascii (codes "2024-05-01") (codes "ACME") (codes "invoice"))
    ↔ ((codes "2024-05-01" ≡ codes "2024-05-01")
        × (truncate_slug (to_slug ascii (codes "Acme")) 30
            ≡ truncate_slug (to_slug ascii (codes "ACME")) 30)
        × (truncate_slug (to_slug ascii (codes "Invoice")) 40
            ≡ truncate_slug (to_slug ascii (codes "invoice")) 40))
format_dir_name-injective_example =
    format_dir_name-injective ascii (codes "2024-05-01") (codes "2024-05-01") (codes "Acme")
      (codes "ACME") (codes "Invoice") (codes "invoice")
      (differ-Lacks b'_' (codes "2024-05-01") refl) (differ-Lacks b'_' (codes "2024-05-01") refl)

abbrev taken : List Text
taken = codes "a" ∷ codes "a-2" ∷ []

unique_dir_name_test : unique_dir_name 3 (codes "a") (contains taken) ≡ some (codes "a-3")
unfolding unique_dir_name contains text_eq unique_loop candidate itoa
unique_dir_name_test = refl

unique_dir_name-IsFirstFree_example :
    (name : Text) × (unique_dir_name (suc (length taken)) (codes "a") (contains taken) ≡ some name)
    × IsFirstFree (codes "a") (contains taken) name
unique_dir_name-IsFirstFree_example =
    unique_dir_name-IsFirstFree (codes "a") (contains taken) taken (λ name h. h)
