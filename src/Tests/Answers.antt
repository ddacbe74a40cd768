-- ===== src/Tests/Answers.antt =====
-- An answer of the classifier, the setup of the exporters and the state of an OAuth request.
use mathlib.Core.Path.{subst}
use paper_claw.Base.{
  Option, Result, Any, ap, inl, inr, if◌then◌else◌, ℕ, Text, codes, ok, err, ok-injective, true,
  false, contains, text_eq, none, some, List, [], ◌∷◌, All, length, without, arith, refl, sym, ◌≡◌,
}
use paper_claw.Document.Metadata.{Metadata, meets_schema}
use paper_claw.Document.Classify.{
  Claude, is_tool_use, ContentBlock, ClassifierProps, claude_classify, classified,
}
use paper_claw.Document.Classify.Schema.{Value, string, number, strings, conforms, props_of}
use paper_claw.Document.Classify.Schema.Agrees.{
  ReadsFields, KeepsToSchema, only_listed, claude_classify-typed,
}
use paper_claw.Base.Dict.{Dict, lookup}
use paper_claw.Telemetry.Setup.{Exporters, untouched, setup, Balanced, setup-Balanced}
use paper_claw.Telemetry.Instruments.{Meter, init}
use paper_claw.Tests.Data.{db}
use paper_claw.Oauth.{Flow, handle_start}
use paper_claw.Oauth.RandomState.{
  random_state, is_unreserved, decode, handle_start-issued, encode_to_string,
}

abbrev input : Dict Value
input =
    (codes "type", string (codes "invoice"))
    ∷ (codes "document_date", string (codes "2024-05-01"))
    ∷ (codes "vendor", string (codes "Acme"))
    ∷ (codes "summary", string (codes "A bill."))
    ∷ (codes "file_description", string (codes "Invoice"))
    ∷ (codes "amount", number (record { negative = false; hundredths = 1200 }))
    ∷ (codes "tags", strings (codes "paid" ∷ []))
    ∷ []

-- A call of the tool, and a decoder that knows its text.
abbrev call : ContentBlock
call = record {
  type = codes "tool_use";
  name = codes "classify_document";
  input =
      codes
        "{\"type\":\"invoice\",\"document_date\":\"2024-05-01\",\"vendor\":\"Acme\",\"summary\":\"A bill.\",\"file_description\":\"Invoice\",\"amount\":12,\"tags\":[\"paid\"]}";
}

abbrev json : Text → Option (Dict Value)
json text = if text_eq text call.input then some input else none

decoded : Option (Dict Value) → Result ClassifierProps
decoded none = err (codes "unexpected end of JSON input")
decoded (some o) = ok (props_of o)

abbrev remark : ContentBlock
remark = record { type = codes "text"; name = []; input = [] }

-- An API that says something and calls the tool.
abbrev eager : Claude
eager = record {
  messages_new = λ prompt. ok (remark ∷ call ∷ []);
  unmarshal = λ text. decoded (json text);
  format_rfc3339 = λ t. codes "2024-05-02T00:00:00Z";
}

eager-ReadsFields : ReadsFields json eager
unfolding ReadsFields decoded
eager-ReadsFields text o stands_for fine listed = rw stands_for refl

eager-KeepsToSchema : KeepsToSchema json eager
unfolding KeepsToSchema conforms contains text_eq lookup only_listed
eager-KeepsToSchema prompt content sent block among is_call =
    let replied = ok-injective (remark ∷ call ∷ []) content sent in
    elim (subst (Any (λ b. b ≡ block)) (sym replied) among) [
      | inl is_remark ↦ absurd (cc (is_call, ap is_tool_use is_remark))
      | inr later ↦ elim later [
        | inl is ↦ (input, sym (ap (λ b. json b.input) is), refl, refl)
        | inr none_left ↦ elim none_left [ ]
      ]
    ]

abbrev answer : Metadata
answer = classified (codes "a.pdf") (codes "ff") (codes "2024-05-02T00:00:00Z") (props_of input)

classify_test : claude_classify eager (codes "text") (codes "a.pdf") (codes "ff") 0 ≡ ok answer
unfolding claude_classify text_eq decoded
classify_test = refl

claude_classify-typed_example :
    meets_schema answer ≡ meets_schema (record answer { type = codes "other"; amount = none })
claude_classify-typed_example =
    claude_classify-typed json eager eager-ReadsFields eager-KeepsToSchema (codes "text")
      (codes "a.pdf") (codes "ff") 0 answer classify_test

-- The exporter of metrics cannot be made.
abbrev exporters : Exporters
exporters = record { resource = none; traces = none; metrics = some (codes "refused"); logs = none }

setup-Balanced_example :
    Balanced (codes "collector:4317") (setup (codes "collector:4317") exporters untouched)
setup-Balanced_example = setup-Balanced (codes "collector:4317") exporters

-- A meter whose instruments are their names.
abbrev meter : Meter Text
meter = record {
  int64_counter = λ name description. ok name;
  float64_histogram = λ name description unit. err (codes "no histograms");
}

init_test : init meter ≡ err (codes "no histograms")
unfolding init
init_test = refl

abbrev drawn : List ℕ
drawn = 0 ∷ 255 ∷ 16 ∷ 0 ∷ 255 ∷ 16 ∷ 7 ∷ 8 ∷ 9 ∷ 0 ∷ 255 ∷ 16 ∷ 0 ∷ 255 ∷ 16 ∷ 7 ∷ 8 ∷ 9 ∷ []

encode_to_string_test : encode_to_string (0 ∷ 255 ∷ 16 ∷ 251 ∷ []) ≡ codes "AP8Q-w"
unfolding encode_to_string
encode_to_string_test = refl

abbrev idle : Flow Text
idle = record { db = db; states = []; drive = []; ready = 0 }

handle_start-issued_example :
    (state : Text) × (handle_start (random_state (λ n. ok drawn)) idle
      ≡ (302, record idle { states = state ∷ without state idle.states }))
    × (length state ≡ 24)
    × All (λ x. is_unreserved x ≡ true) state
    × (decode state ≡ drawn)
handle_start-issued_example = handle_start-issued (λ n. ok drawn) drawn idle refl refl (grind arith)
