-- ===== src/Document/Classify/Schema.antt =====
-- internal/document/classify.go: the input schema of the classifier's tool, and the inputs that conform
-- to it.
pub mod Agrees
use paper_claw.Base.{
  Text, codes, Bool, true, false, not, ◌&&◌, ◌||◌, Option, none, some, List, [], ◌∷◌, is_empty,
  contains,
}
use paper_claw.Base.Dict.{Dict, lookup}
use paper_claw.Document.Metadata.{Amount}
use paper_claw.Document.Classify.{ClassifierProps}

pub data Kind : Type 0 where
  a_string a_number an_array : Kind

-- One of the properties; the texts that it allows, if they are listed, and a minimum of 0, if it has one.
pub record Property : Type 0 where
  pub kind : Kind
  pub enum : List Text
  pub from_zero : Bool
  pub description : Text

abbrev pub described_as : Text → Property
described_as t = record { kind = a_string; enum = []; from_zero = false; description = t }

-- `classifierInputSchema`
abbrev pub classifier_properties : Dict Property
classifier_properties =
    (
      codes "type",
      record {
        kind = a_string;
        enum =
            codes "invoice"
            ∷ codes "utility_bill"
            ∷ codes "bank_statement"
            ∷ codes "insurance_letter"
            ∷ codes "contract"
            ∷ codes "government_letter"
            ∷ codes "other"
            ∷ [];
        from_zero = false;
        description = codes "Document category.";
      },
    )
    ∷ (
      codes "document_date",
      described_as (codes "ISO 8601 date (YYYY-MM-DD) extracted from the document content."),
    )
    ∷ (codes "vendor", described_as (codes "Full name of the issuer or sender."))
    ∷ (codes "summary", described_as (codes "One-sentence agent-readable summary of the document."))
    ∷ (
      codes "file_description",
      described_as (
          codes
            "Short 2-4 word description for the filename, lowercase hyphenated (e.g. strom-rechnung, steuerbescheid-2024)."),
    )
    ∷ (
      codes "amount",
      record {
        kind = a_number;
        enum = [];
        from_zero = true;
        description = codes "Monetary amount if present.";
      },
    )
    ∷ (codes "currency", described_as (codes "ISO 4217 currency code, e.g. EUR."))
    ∷ (codes "due_date", described_as (codes "ISO 8601 due date if present."))
    ∷ (codes "tags", record { kind = an_array; enum = []; from_zero = false; description = [] })
    ∷ (codes "language", described_as (codes "BCP-47 language tag, e.g. de or en."))
    ∷ []

abbrev pub classifier_required : List Text
classifier_required =
    codes "type"
    ∷ codes "document_date"
    ∷ codes "vendor"
    ∷ codes "summary"
    ∷ codes "file_description"
    ∷ []

-- A field of the tool's input, as JSON has it.
pub data Value : Type 0 where
  string : Text → Value
  number : Amount → Value
  strings : List Text → Value

unfoldable pub fits : Property → Value → Bool
fits p (string s) = elim p.kind [
  | a_string ↦ is_empty p.enum || contains p.enum s
  | a_number ↦ false
  | an_array ↦ false
]
fits p (number a) = elim p.kind [
  | a_string ↦ false
  | a_number ↦ not p.from_zero || not a.negative
  | an_array ↦ false
]
fits p (strings ts) = elim p.kind [ a_string ↦ false | a_number ↦ false | an_array ↦ true ]

fits_if_there : Property → Bool → Option Value → Bool
unfolding fits
fits_if_there p required none = not required
fits_if_there p required (some v) = fits p v

-- The input conforms to the properties.
unfoldable pub conforms : Dict Property → Dict Value → Bool
unfolding fits_if_there
conforms [] input = true
conforms ((name, p) ∷ properties) input =
    fits_if_there p (contains classifier_required name) (lookup name input)
    && conforms properties input

-- What `json.Unmarshal` makes of a field: the zero value where there is none. A value of another type
-- is an error there, which a conforming input has not.
abbrev pub text_of : Option Value → Text
text_of (some (string s)) = s
text_of (some (number a)) = []
text_of (some (strings ts)) = []
text_of none = []

abbrev pub amount_of : Option Value → Option Amount
amount_of (some (number a)) = some a
amount_of (some (string s)) = none
amount_of (some (strings ts)) = none
amount_of none = none

abbrev pub texts_of : Option Value → List Text
texts_of (some (strings ts)) = ts
texts_of (some (string s)) = []
texts_of (some (number a)) = []
texts_of none = []

unfoldable pub props_of : Dict Value → ClassifierProps
props_of input = record {
  type = text_of (lookup (codes "type") input);
  document_date = text_of (lookup (codes "document_date") input);
  vendor = text_of (lookup (codes "vendor") input);
  summary = text_of (lookup (codes "summary") input);
  file_description = text_of (lookup (codes "file_description") input);
  amount = amount_of (lookup (codes "amount") input);
  currency = text_of (lookup (codes "currency") input);
  due_date = text_of (lookup (codes "due_date") input);
  tags = texts_of (lookup (codes "tags") input);
  language = text_of (lookup (codes "language") input);
}
