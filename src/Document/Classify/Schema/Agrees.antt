-- ===== src/Document/Classify/Schema/Agrees.antt =====
-- internal/document/classify.go, schema.json: what an input that conforms to the schema of the tool leaves
-- for the validation.
use paper_claw.Base.{
  ℕ, Text, codes, ok, ◌++◌, take, Bool, true, false, Option, none, some, [], ◌∷◌, contains, text_eq,
  ◌≡◌, refl, sym, ap, ◌∙◌, arith, List, map, ◌&&◌, Any, ok-injective,
}
use paper_claw.Base.Dict.{Dict, lookup}
use paper_claw.Document.Metadata.{
  Metadata, Amount, meets_schema, document_types, meets_schema-typed,
}
use paper_claw.Document.Classify.{
  Claude, classified, claude_classify, claude_classify-Made, ContentBlock, is_tool_use,
  classify_prompt,
}
use paper_claw.Document.Classify.Schema.{
  a_string, a_number, Property, classifier_properties, classifier_required, Value, string, number,
  strings, fits, fits_if_there, conforms, text_of, amount_of, props_of,
}

-- A conforming input conforms to each of the properties.
conforms-one :
    (before : Dict Property) (name : Text) (p : Property) (after : Dict Property)
    (input : Dict Value)
    → conforms (before ++ (name, p) ∷ after) input ≡ true
    → fits_if_there p (contains classifier_required name) (lookup name input) ≡ true
unfolding conforms
conforms-one [] name p after input h = ground (arith, h)
conforms-one ((other, q) ∷ before) name p after input h =
    conforms-one before name p after input (ground (arith, h))

abbrev type_property : Property
type_property = record {
  kind = a_string;
  enum = document_types;
  from_zero = false;
  description = codes "Document category.";
}

abbrev amount_property : Property
amount_property = record {
  kind = a_number;
  enum = [];
  from_zero = true;
  description = codes "Monetary amount if present.";
}

required_type : contains classifier_required (codes "type") ≡ true
unfolding contains text_eq
required_type = refl

listed_type :
    (required : Bool) (v : Option Value)
    → required ≡ true
    → fits_if_there type_property required v ≡ true
    → contains document_types (text_of v) ≡ true
unfolding fits_if_there
listed_type required none must h = absurd (ground (arith, must, h))
listed_type required (some (string s)) must h = unfold fits in h
listed_type required (some (number a)) must h = unfold fits in absurd (cc h)
listed_type required (some (strings ts)) must h = unfold fits in absurd (cc h)

amount_from_zero :
    (required : Bool) (v : Option Value) (x : Amount)
    → fits_if_there amount_property required v ≡ true
    → amount_of v ≡ some x
    → x.negative ≡ false
unfolding fits_if_there
amount_from_zero required none x h e = absurd (cc e)
amount_from_zero required (some (string s)) x h e = absurd (cc e)
amount_from_zero required (some (number a)) x h e = unfold fits in ground (arith, h, e)
amount_from_zero required (some (strings ts)) x h e = absurd (cc e)

-- The fields are those that the schema names, under these very names.
unfoldable pub only_listed : Dict Value → Bool
only_listed [] = true
only_listed ((name, v) ∷ input) =
    contains (map (λ p. p.0) classifier_properties) name && only_listed input

-- `json` is the object that a JSON text stands for. `json.Unmarshal` reads the fields of such an object
-- if it conforms to the schema and has no others, whose names it would match in any case of letters.
unfoldable pub ReadsFields : (Text → Option (Dict Value)) → Claude → Type 0
ReadsFields json c =
    (text : Text) (input : Dict Value)
    → json text ≡ some input
    → conforms classifier_properties input ≡ true
    → only_listed input ≡ true
    → c.unmarshal text ≡ ok (props_of input)

-- The API answers with no call of the tool but those with such an object.
unfoldable pub KeepsToSchema : (Text → Option (Dict Value)) → Claude → Type 0
KeepsToSchema json c =
    (prompt : Text) (content : List ContentBlock)
    → c.messages_new prompt ≡ ok content
    → (block : ContentBlock) → Any (λ b. b ≡ block) content
    → is_tool_use block ≡ true
    → (input : Dict Value) × (json block.input ≡ some input)
      × (conforms classifier_properties input ≡ true)
      × (only_listed input ≡ true)

-- If the API keeps to the schema of the tool and the JSON decoder reads the fields of what it answers
-- with, the type and the amount never make the validation fail.
pub claude_classify-typed :
    (json : Text → Option (Dict Value)) (c : Claude)
    → ReadsFields json c
    → KeepsToSchema json c
    → (transcript name hash : Text) (now : ℕ) (m : Metadata)
    → claude_classify c transcript name hash now ≡ ok m
    → meets_schema m ≡ meets_schema (record m { type = codes "other"; amount = none })
unfolding ReadsFields KeepsToSchema
claude_classify-typed json c reads keeps transcript name hash now m h =
    let (content, sent, a) = claude_classify-Made c transcript name hash now m h in
    let (input, stands_for, fine, listed) =
      keeps (classify_prompt c name transcript) content sent a.block a.among a.is_call in
    let same =
      ok-injective a.props (props_of input)
        (sym a.read_as ∙ reads a.block.input input stands_for fine listed) in
    let made : m ≡ classified name hash (c.format_rfc3339 now) (props_of input) =
      a.made_of ∙ ap (classified name hash (c.format_rfc3339 now)) same in
    meets_schema-typed m
      (ap (λ x. contains document_types x.type) made
        ∙ (unfold props_of in
            listed_type _ (lookup (codes "type") input) required_type
              (conforms-one [] (codes "type") type_property _ input fine)))
      (λ x e.
        unfold props_of in
        amount_from_zero _ (lookup (codes "amount") input) x
          (conforms-one (take 5 classifier_properties) (codes "amount") amount_property _ input
            fine)
          (ap (λ y. y.amount) (sym made) ∙ e))
