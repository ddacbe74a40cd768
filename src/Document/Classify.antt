-- ===== src/Document/Classify.antt =====
-- internal/document/classify.go: what `ClaudeClassifier` makes of an API response.
-- The API is a parameter: it answers a prompt with content blocks or an error, and so is the JSON
-- decoder of a block's input.
pub mod Schema
use paper_claw.Base.{
  ℕ, Text, codes, Result, ok, err, Result-cases, Option, List, [], ◌∷◌, ◌++◌, ◌&&◌, if◌then◌else◌,
  text_eq, inl, inr, ◌≡◌, arith, refl, sym, ap, ok-injective, Bool-cases, Bool, true, Any,
}
use paper_claw.Document.Metadata.{Metadata, Amount}

-- Transcript, source filename, content hash, time.
abbrev pub Classifier : Type 0
Classifier = Text → Text → Text → ℕ → Result Metadata

pub record ClassifierProps : Type 0 where
  pub type : Text
  pub document_date : Text
  pub vendor : Text
  pub summary : Text
  pub file_description : Text
  pub amount : Option Amount
  pub currency : Text
  pub due_date : Text
  pub tags : List Text
  pub language : Text

pub record ContentBlock : Type 0 where
  pub type : Text
  pub name : Text
  pub input : Text

-- What lies outside: the Anthropic API, `json.Unmarshal` into the properties, and RFC 3339.
pub record Claude : Type 0 where
  pub messages_new : Text → Result (List ContentBlock)
  pub unmarshal : Text → Result ClassifierProps
  pub format_rfc3339 : ℕ → Text

abbrev pub classify_tool_name : Text
classify_tool_name = codes "classify_document"

-- A call of the tool.
abbrev pub is_tool_use : ContentBlock → Bool
is_tool_use block = text_eq block.type (codes "tool_use") && text_eq block.name classify_tool_name

-- The metadata of the tool's answer, with the fields that the system sets.
abbrev pub classified : Text → Text → Text → ClassifierProps → Metadata
classified source_filename content_hash processed_at props = record {
  id = content_hash;
  type = props.type;
  document_date = props.document_date;
  vendor = props.vendor;
  summary = props.summary;
  file_description = props.file_description;
  source_filename = source_filename;
  processed_at = processed_at;
  content_hash = content_hash;
  amount = props.amount;
  currency = props.currency;
  due_date = props.due_date;
  tags = props.tags;
  language = props.language;
}

module _ (c : Claude) where
  tool_answer : Text → Text → ℕ → Result ClassifierProps → Result Metadata
  tool_answer source_filename content_hash processed_at (err e) =
      err (codes "parsing classifier response: " ++ e)
  tool_answer source_filename content_hash processed_at (ok props) =
      ok (classified source_filename content_hash (c.format_rfc3339 processed_at) props)

  -- The loop over `msg.Content`: the first call of the tool decides.
  first_tool_use : Text → Text → ℕ → List ContentBlock → Result Metadata
  unfolding tool_answer
  first_tool_use source_filename content_hash processed_at [] =
      err (codes "no tool_use block in classifier response")
  first_tool_use source_filename content_hash processed_at (block ∷ blocks) =
      let rest = first_tool_use source_filename content_hash processed_at blocks in
      if is_tool_use block
      then tool_answer source_filename content_hash processed_at (c.unmarshal block.input)
      else rest

  abbrev pub classify_prompt : Text → Text → Text
  classify_prompt source_filename transcript =
      codes "Classify the following document and extract metadata.\n\nFilename: "
      ++ (source_filename ++ (codes "\n\nContent:\n" ++ transcript))

  unfoldable pub claude_classify : Classifier
  unfolding first_tool_use
  claude_classify transcript source_filename content_hash processed_at =
      elim (c.messages_new (classify_prompt source_filename transcript)) [
        | err e ↦ err (codes "claude API: " ++ e)
        | ok content ↦ first_tool_use source_filename content_hash processed_at content
      ]

  -- An answer is made of the properties that the input of a call of the tool was read as.
  pub record Made (name hash : Text) (now : ℕ) (content : List ContentBlock) (m : Metadata)
      : Type 0 where
    pub block : ContentBlock
    pub among : Any (λ b. b ≡ block) content
    pub is_call : is_tool_use block ≡ true
    pub props : ClassifierProps
    pub read_as : c.unmarshal block.input ≡ ok props
    pub made_of : m ≡ classified name hash (c.format_rfc3339 now) props

  tool_answer-ok :
      (name hash : Text) (now : ℕ) (r : Result ClassifierProps) (m : Metadata)
      → tool_answer name hash now r ≡ ok m
      → (props : ClassifierProps) × (r ≡ ok props)
        × (m ≡ classified name hash (c.format_rfc3339 now) props)
  unfolding tool_answer
  tool_answer-ok name hash now (err e) m h = absurd (ground (arith, h))
  tool_answer-ok name hash now (ok props) m h = (props, refl, sym (ok-injective _ m h))

  first_tool_use-Made :
      (name hash : Text) (now : ℕ) (blocks : List ContentBlock) (m : Metadata)
      → first_tool_use name hash now blocks ≡ ok m
      → Made name hash now blocks m
  unfolding first_tool_use
  first_tool_use-Made name hash now [] m h = absurd (ground (arith, h))
  first_tool_use-Made name hash now (block ∷ blocks) m h = elim (Bool-cases (is_tool_use block)) [
    | inl tool ↦
        let (props, read, made) =
          tool_answer-ok name hash now (c.unmarshal block.input) m (rw tool at h) in
        record {
          block = block;
          among = inl refl;
          is_call = tool;
          props = props;
          read_as = read;
          made_of = made;
        }
    | inr other ↦
        let later = first_tool_use-Made name hash now blocks m (rw other at h) in
        record {
          block = later.block;
          among = inr later.among;
          is_call = later.is_call;
          props = later.props;
          read_as = later.read_as;
          made_of = later.made_of;
        }
  ]

  pub claude_classify-Made :
      (transcript name hash : Text) (now : ℕ) (m : Metadata)
      → claude_classify transcript name hash now ≡ ok m
      → (content : List ContentBlock) × (c.messages_new (classify_prompt name transcript)
          ≡ ok content)
        × Made name hash now content m
  unfolding claude_classify
  claude_classify-Made transcript name hash now m h =
      elim (Result-cases (c.messages_new (classify_prompt name transcript))) [
        | inl (content, e) ↦
            (content, e, first_tool_use-Made name hash now content m (rw (e, claude_classify) at h))
        | inr (cause, e) ↦ absurd (ground (arith, e))
      ]

  -- Whatever the model answers, the fields that the system sets are the caller's.
  pub claude_classify-hash :
      (transcript name hash : Text) (now : ℕ) (m : Metadata)
      → claude_classify transcript name hash now ≡ ok m
      → (m.id ≡ hash) × (m.content_hash ≡ hash) × (m.source_filename ≡ name)
  claude_classify-hash transcript name hash now m h =
      let (content, sent, a) = claude_classify-Made transcript name hash now m h in
      (
        ap (λ x. x.id) a.made_of,
        ap (λ x. x.content_hash) a.made_of,
        ap (λ x. x.source_filename) a.made_of,
      )
