-- ===== src/Commands/Library/Selected.antt =====
-- Which documents `list` shows.
use paper_claw.Base.{
  ℕ, Text, Bool, true, false, not, ◌&&◌, ◌||◌, Bool-cases, List, [], ◌∷◌, ◌++◌, is_empty, text_eq,
  text_eq_iff, ==_iff, ◌≡◌, ◌≢◌, ◌↔◌, ◌⊎◌, inl, inr, refl, ap, ◌∙◌, arith,
}
use paper_claw.Document.Metadata.{Metadata}
use paper_claw.Document.Slug.{to_lower}
use paper_claw.Commands.Library.{has_prefix, contains_text, text_lt, ListFlags, is_skipped, select}

has_prefix→ : (s t : Text) → has_prefix s t ≡ true → (after : Text) × (s ≡ t ++ after)
unfolding has_prefix
has_prefix→ s [] h = (s, refl)
has_prefix→ [] (c ∷ t) h = absurd (ground arith)
has_prefix→ (d ∷ s) (c ∷ t) h =
    let (after, p) = has_prefix→ s t (ground (arith, h)) in
    let same = (==_iff d c).0 (ground (arith, h)) in (after, rw same (ap (λ x. c ∷ x) p))

has_prefix-append : (t after : Text) → has_prefix (t ++ after) t ≡ true
unfolding has_prefix
has_prefix-append [] after = refl
has_prefix-append (c ∷ t) after = ground (arith, has_prefix-append t after)

-- `t` stands somewhere in `s`.
abbrev pub IsInfix : Text → Text → Type 0
IsInfix t s = (before : Text) × (after : Text) × (s ≡ before ++ (t ++ after))

contains_text→IsInfix : (s t : Text) → contains_text s t ≡ true → IsInfix t s
unfolding contains_text
contains_text→IsInfix [] t h = let (after, p) = has_prefix→ [] t h in ([], after, p)
contains_text→IsInfix (c ∷ s) t h = elim (Bool-cases (has_prefix (c ∷ s) t)) [
  | inl here ↦ let (after, p) = has_prefix→ (c ∷ s) t here in ([], after, p)
  | inr later ↦
      let (before, after, p) = contains_text→IsInfix s t (ground (arith, h, later)) in
      (c ∷ before, after, ap (λ x. c ∷ x) p)
]

contains_text-prefix : (s t : Text) → has_prefix s t ≡ true → contains_text s t ≡ true
unfolding contains_text
contains_text-prefix [] t h = h
contains_text-prefix (c ∷ s) t h = ground (arith, h)

contains_text-append : (before t after : Text) → contains_text (before ++ (t ++ after)) t ≡ true
unfolding contains_text
contains_text-append [] t after = contains_text-prefix (t ++ after) t (has_prefix-append t after)
contains_text-append (c ∷ before) t after = ground (arith, contains_text-append before t after)

pub contains_text_iff : (s t : Text) → (contains_text s t ≡ true) ↔ IsInfix t s
contains_text_iff s t = (
  contains_text→IsInfix s t,
  λ (before, after, p). ap (λ x. contains_text x t) p ∙ contains_text-append before t after,
)

module _ (unicode : ℕ → ℕ) (f : ListFlags) (today : Text) where
  -- The document meets every filter that is set; an overdue one has a due date before today.
  pub record Matches (m : Metadata) : Type 0 where
    pub of_type : (f.doc_type ≡ []) ⊎ (m.type ≡ f.doc_type)
    pub from_date : (f.since ≡ []) ⊎ (text_lt m.document_date f.since ≡ false)
    pub of_vendor :
        (f.vendor ≡ []) ⊎ IsInfix (to_lower unicode f.vendor) (to_lower unicode m.vendor)
    pub is_overdue : (f.overdue ≡ false) ⊎ ((m.due_date ≢ []) × (text_lt m.due_date today ≡ true))

  -- A filter that is not set, or a document that it does not pass over.
  unset_or :
      (flag : Text) (bad : Bool) (P : Type 0)
      → ((bad ≡ false) ↔ P)
      → ((not (is_empty flag) && bad) ≡ false) ↔ ((flag ≡ []) ⊎ P)
  unset_or [] bad P same = (λ _. inl refl, λ _. refl)
  unset_or (c ∷ flag) bad P same = (
    λ h. inr (same.0 h),
    λ either. elim either [ inl p ↦ absurd (ground (arith, p)) | inr p ↦ same.1 p ],
  )

  negated_iff : (test : Bool) (P : Type 0) → ((test ≡ true) ↔ P) → ((not test) ≡ false) ↔ P
  negated_iff true P same = (λ _. same.0 refl, λ _. refl)
  negated_iff false P same =
      (λ h. absurd (ground (arith, h)), λ p. absurd (ground (arith, same.1 p)))

  type_iff :
      (m : Metadata)
      → ((not (is_empty f.doc_type) && not (text_eq m.type f.doc_type)) ≡ false)
        ↔ ((f.doc_type ≡ []) ⊎ (m.type ≡ f.doc_type))
  type_iff m = unset_or f.doc_type (not (text_eq m.type f.doc_type)) (m.type ≡ f.doc_type) (
      negated_iff (text_eq m.type f.doc_type) (m.type ≡ f.doc_type) (text_eq_iff m.type f.doc_type))

  since_iff :
      (m : Metadata)
      → ((not (is_empty f.since) && text_lt m.document_date f.since) ≡ false)
        ↔ ((f.since ≡ []) ⊎ (text_lt m.document_date f.since ≡ false))
  since_iff m =
      unset_or f.since (text_lt m.document_date f.since) (text_lt m.document_date f.since ≡ false)
        (λ p. p, λ p. p)

  abbrev vendor_in : Metadata → Bool
  vendor_in m = contains_text (to_lower unicode m.vendor) (to_lower unicode f.vendor)

  vendor_iff :
      (m : Metadata)
      → ((not (is_empty f.vendor) && not (vendor_in m)) ≡ false)
        ↔ ((f.vendor ≡ []) ⊎ IsInfix (to_lower unicode f.vendor) (to_lower unicode m.vendor))
  vendor_iff m =
      let P = IsInfix (to_lower unicode f.vendor) (to_lower unicode m.vendor) in
      unset_or f.vendor (not (vendor_in m)) P (
        negated_iff (vendor_in m) P
          (contains_text_iff (to_lower unicode m.vendor) (to_lower unicode f.vendor)))

  overdue_iff :
      (due : Text) (flag : Bool)
      → ((flag && (is_empty due || not (text_lt due today))) ≡ false)
        ↔ ((flag ≡ false) ⊎ ((due ≢ []) × (text_lt due today ≡ true)))
  overdue_iff due false = (λ _. inl refl, λ _. refl)
  overdue_iff [] true = (
    λ h. absurd (ground (arith, h)),
    λ either. elim either [ inl p ↦ absurd (ground (arith, p)) | inr (p, q) ↦ absurd (p refl) ],
  )
  overdue_iff (c ∷ due) true = (
    λ h. inr (λ p. ground (arith, p), ground (arith, h)),
    λ either. elim either [ inl p ↦ absurd (ground (arith, p)) | inr (p, q) ↦ ground (arith, q) ],
  )

  is_skipped_iff : (m : Metadata) → (is_skipped unicode f today m ≡ false) ↔ Matches m
  unfolding is_skipped
  is_skipped_iff m = (
    λ h. record {
      of_type = (type_iff m).0 (ground (arith, h));
      from_date = (since_iff m).0 (ground (arith, h));
      of_vendor = (vendor_iff m).0 (ground (arith, h));
      is_overdue = (overdue_iff m.due_date f.overdue).0 (ground (arith, h));
    },
    λ ok. ground (
      arith,
      (type_iff m).1 ok.of_type,
      (since_iff m).1 ok.from_date,
      (vendor_iff m).1 ok.of_vendor,
      (overdue_iff m.due_date f.overdue).1 ok.is_overdue,
    ),
  )

  -- The documents that match, in their order; the others are passed over.
  pub data Selected : List Metadata → List Metadata → Type 0 where
    no_more : Selected [] []
    kept :
        (m : Metadata) (ms shown : List Metadata)
        → Matches m
        → Selected ms shown
        → Selected (m ∷ ms) (m ∷ shown)
    passed_over :
        (m : Metadata) (ms shown : List Metadata)
        → ¬ Matches m
        → Selected ms shown
        → Selected (m ∷ ms) shown

  -- The loop of `list` keeps exactly the documents that match all filters that are set, in order.
  pub select-Selected : (ms : List Metadata) → Selected ms (select unicode f today ms)
  unfolding select
  select-Selected [] = no_more
  select-Selected (m ∷ ms) = elim (Bool-cases (is_skipped unicode f today m)) [
    | inl skip ↦ rw skip (
        passed_over m ms (select unicode f today ms)
          (λ matches. ground (arith, skip, (is_skipped_iff m).1 matches)) (select-Selected ms))
    | inr keep ↦
        rw keep
          (kept m ms (select unicode f today ms) ((is_skipped_iff m).0 keep) (select-Selected ms))
  ]
