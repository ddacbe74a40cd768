-- ===== src/Document/Metadata.antt =====
-- internal/document/metadata.go and schema.json: `Metadata` and `ValidateMetadata`.
-- The JSON-schema library is a parameter; `IsValidator` is what it documents, that it reports an
-- error exactly for a document that does not meet the schema.
use paper_claw.Base.{
  ℕ, Text, codes, Error, Result, ok, err, Bool, true, false, not, ◌&&◌, ◌||◌, Option, none, some,
  List, [], ◌∷◌, ◌++◌, leb, ◌==◌, if◌then◌else◌, length, is_empty, contains, text_eq, ◌≡◌, ◌↔◌,
  refl, ap, arith,
}

-- A float64 amount, by its sign and its size in hundredths. The code only tests the sign.
pub record Amount : Type 0 where
  pub negative : Bool
  pub hundredths : ℕ

-- A string that is absent from the JSON when empty is the empty text.
pub record Metadata : Type 0 where
  pub id : Text
  pub type : Text
  pub document_date : Text
  pub vendor : Text
  pub summary : Text
  pub source_filename : Text
  pub processed_at : Text
  pub content_hash : Text
  pub amount : Option Amount
  pub currency : Text
  pub due_date : Text
  pub tags : List Text
  pub language : Text
  pub file_description : Text

pub is_digit : ℕ → Bool
is_digit c = leb b'0' c && leb c b'9'

is_hex : ℕ → Bool
unfolding is_digit
is_hex c = is_digit c || (leb b'a' c && leb c b'f')

-- A pattern made of character classes: the rest of the text, if its start matches.
matches : List (ℕ → Bool) → Text → Option Text
matches [] s = some s
matches (p ∷ ps) [] = none
matches (p ∷ ps) (c ∷ s) = let rest = matches ps s in if p c then rest else none

-- `^…$`, and `^…` with anything behind.
matches_all : List (ℕ → Bool) → Text → Bool
unfolding matches
matches_all ps s = elim (matches ps s) [ none ↦ false | some rest ↦ is_empty rest ]

matches_start : List (ℕ → Bool) → Text → Bool
unfolding matches
matches_start ps s = elim (matches ps s) [ none ↦ false | some rest ↦ true ]

abbrev pub lit : ℕ → ℕ → Bool
lit a c = c == a

-- `[0-9]{4}-[0-9]{2}-[0-9]{2}`
abbrev pub date_pattern : List (ℕ → Bool)
date_pattern =
    is_digit
    ∷ is_digit
    ∷ is_digit
    ∷ is_digit
    ∷ lit b'-'
    ∷ is_digit
    ∷ is_digit
    ∷ lit b'-'
    ∷ is_digit
    ∷ is_digit
    ∷ []

abbrev time_pattern : List (ℕ → Bool)
time_pattern =
    lit b'T'
    ∷ is_digit
    ∷ is_digit
    ∷ lit b':'
    ∷ is_digit
    ∷ is_digit
    ∷ lit b':'
    ∷ is_digit
    ∷ is_digit
    ∷ []

-- `^[0-9a-f]{64}$`
is_hash : Text → Bool
is_hash s = length s == 64 && all_hex s
  where
    all_hex : Text → Bool
    all_hex [] = true
    all_hex (c ∷ s) = is_hex c && all_hex s

abbrev pub document_types : List Text
document_types =
    codes "invoice"
    ∷ codes "utility_bill"
    ∷ codes "bank_statement"
    ∷ codes "insurance_letter"
    ∷ codes "contract"
    ∷ codes "government_letter"
    ∷ codes "other"
    ∷ []

amount_ok : Option Amount → Bool
amount_ok none = true
amount_ok (some a) = not a.negative

-- schema.json, over the document that `json.Marshal` writes.
pub meets_schema : Metadata → Bool
meets_schema m =
    is_hash m.id
    && contains document_types m.type
    && matches_all date_pattern m.document_date
    && not (is_empty m.vendor)
    && not (is_empty m.summary)
    && not (is_empty m.source_filename)
    && matches_start (date_pattern ++ time_pattern) m.processed_at
    && is_hash m.content_hash
    && amount_ok m.amount
    && (is_empty m.currency || length m.currency == 3)
    && (is_empty m.due_date || matches_all date_pattern m.due_date)

-- What `gojsonschema.Validate` reports: an error of its own, or the violations it found.
abbrev pub Validator : Type 0
Validator = Metadata → Result (List Text)

-- The library validates: it reports no violation exactly where the schema is met.
pub record IsValidator (validate : Validator) : Type 0 where
  pub sound : (m : Metadata) → validate m ≡ ok [] → meets_schema m ≡ true
  pub complete : (m : Metadata) → meets_schema m ≡ true → validate m ≡ ok []

-- `strings.Join`
pub join : Text → List Text → Text
join sep [] = []
join sep (t ∷ []) = t
join sep (t ∷ u ∷ ts) = t ++ (sep ++ join sep (u ∷ ts))

-- The error, if any.
unfoldable pub validate_metadata : Validator → Metadata → Option Error
validate_metadata validate m = elim (validate m) [
  | err e ↦ some (codes "schema validation: " ++ e)
  | ok [] ↦ none
  | ok (msg ∷ msgs) ↦ some (codes "invalid metadata: " ++ join (codes "; ") (msg ∷ msgs))
]

-- With a validator `ValidateMetadata` accepts exactly what meets the schema.
validate_metadata_iff :
    (validate : Validator)
    → IsValidator validate
    → (m : Metadata) → (validate_metadata validate m ≡ none) ↔ (meets_schema m ≡ true)
unfolding validate_metadata
validate_metadata_iff validate v m =
    (λ p. v.sound m (ground arith), λ p. rw (v.complete m p, validate_metadata))

amount_of_zero :
    (a : Option Amount) → ((x : Amount) → a ≡ some x → x.negative ≡ false) → amount_ok a ≡ true
unfolding amount_ok
amount_of_zero none h = refl
amount_of_zero (some x) h = ap not (h x refl)

-- A type of the list and an amount from zero on are as good as any.
pub meets_schema-typed :
    (m : Metadata)
    → contains document_types m.type ≡ true
    → ((x : Amount) → m.amount ≡ some x → x.negative ≡ false)
    → meets_schema m ≡ meets_schema (record m { type = codes "other"; amount = none })
unfolding meets_schema
meets_schema-typed m listed from_zero =
    rw (listed, amount_of_zero m.amount from_zero) (unfold contains text_eq amount_ok in refl)
