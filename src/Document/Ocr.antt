-- ===== src/Document/Ocr.antt =====
-- internal/document/ocr.go: `ExtractText`. The run of pdftotext is a parameter: the error, or what it
-- wrote to its two outputs.
use paper_claw.Base.{
  ℕ, Text, codes, Result, ok, err, Bool, true, false, not, ◌&&◌, ◌||◌, Bool-cases, Result-cases,
  inl, inr, [], ◌∷◌, ◌++◌, leb, ◌==◌, is_empty, ne-is_empty, if◌then◌else◌, ◌≡◌, ◌≢◌, refl, sym, ap,
  ◌∙◌, arith, ok-injective,
}

-- `unicode.IsSpace`
unfoldable pub is_space : ℕ → Bool
is_space c =
    (leb 9 c && leb c 13)
    || (c == 32
        || (c == 0x85
            || (c == 0xA0
                || (c == 0x1680
                    || ((leb 0x2000 c && leb c 0x200A)
                        || (c == 0x2028
                            || (c == 0x2029 || (c == 0x202F || (c == 0x205F || c == 0x3000)))))))))

unfoldable pub trim_start : Text → Text
trim_start [] = []
trim_start (c ∷ s) = let rest = trim_start s in if is_space c then rest else c ∷ s

unfoldable pub trim_end : Text → Text
trim_end [] = []
trim_end (c ∷ s) = let rest = trim_end s in if is_empty rest && is_space c then [] else c ∷ rest

-- `strings.TrimSpace`
unfoldable pub trim_space : Text → Text
unfolding trim_start trim_end
trim_space s = trim_end (trim_start s)

-- What a run of the command leaves: whether it failed, and its two outputs.
pub record Ran : Type 0 where
  pub failed : Result (Unit {0})
  pub out : Text
  pub stderr : Text

unfoldable pub transcript : Text → Text → Result Text
transcript path text =
    if is_empty text then err (codes "pdftotext: empty transcript for " ++ path) else ok text

unfoldable pub extract_text : (Text → Ran) → Text → Result Text
unfolding transcript
extract_text run path = elim (run path).failed [
  | err e ↦ err (codes "pdftotext: " ++ (e ++ (codes ": " ++ trim_space (run path).stderr)))
  | ok u ↦ transcript path (trim_space (run path).out)
]

-- The text does not begin with a space, and does not end with one.
unfoldable pub starts_bare : Text → Bool
starts_bare [] = true
starts_bare (c ∷ s) = not (is_space c)

unfoldable pub ends_bare : Text → Bool
ends_bare [] = true
ends_bare (c ∷ []) = not (is_space c)
ends_bare (c ∷ d ∷ s) = ends_bare (d ∷ s)

trim_start-bare : (s : Text) → starts_bare (trim_start s) ≡ true
unfolding trim_start starts_bare
trim_start-bare [] = refl
trim_start-bare (c ∷ s) = elim (Bool-cases (is_space c)) [
  | inl space ↦ rw space (trim_start-bare s)
  | inr other ↦ rw (other, starts_bare, other)
]

ends_bare-more : (c : ℕ) (s : Text) → s ≢ [] → ends_bare s ≡ true → ends_bare (c ∷ s) ≡ true
unfolding ends_bare
ends_bare-more c [] h e = absurd (h refl)
ends_bare-more c (d ∷ s) h e = e

last_bare : (c : ℕ) → is_space c ≡ false → ends_bare (c ∷ []) ≡ true
unfolding ends_bare
last_bare c other = ap not other

empty : (s : Text) → is_empty s ≡ true → s ≡ []
empty [] h = refl
empty (c ∷ s) h = absurd (ground (arith, h))

trim_end-bare : (s : Text) → ends_bare (trim_end s) ≡ true
unfolding trim_end
trim_end-bare [] = unfold ends_bare in refl
trim_end-bare (c ∷ s) = elim (Bool-cases (is_empty (trim_end s))) [
  | inl nothing ↦ elim (Bool-cases (is_space c)) [
    | inl space ↦ rw (nothing, space) (unfold ends_bare in refl)
    | inr other ↦ rw (nothing, other, empty (trim_end s) nothing) (last_bare c other)
  ]
  | inr more ↦
      rw more (ends_bare-more c (trim_end s) (ne-is_empty (trim_end s) more) (trim_end-bare s))
]

trim_end-starts : (s : Text) → starts_bare s ≡ true → starts_bare (trim_end s) ≡ true
unfolding trim_end starts_bare
trim_end-starts [] h = refl
trim_end-starts (c ∷ s) h = elim (Bool-cases (is_empty (trim_end s) && is_space c)) [
  | inl cut ↦ rw cut
  | inr kept ↦ rw kept h
]

transcript-ok : (path text t : Text) → transcript path text ≡ ok t → (t ≡ text) × (t ≢ [])
unfolding transcript
transcript-ok path text t h = elim (Bool-cases (is_empty text)) [
  | inl nothing ↦ absurd (ground (arith, rw nothing at h))
  | inr some_text ↦
      let same = ok-injective text t (rw some_text at h) in
      (sym same, λ e. ne-is_empty text some_text (same ∙ e))
]

-- A transcript is never empty, and has no white space at its ends.
pub extract_text-bare :
    (run : Text → Ran) (path t : Text)
    → extract_text run path ≡ ok t
    → (t ≢ []) × (starts_bare t ≡ true) × (ends_bare t ≡ true)
unfolding extract_text trim_space
extract_text-bare run path t h = elim (Result-cases (run path).failed) [
  | inl (u, fine) ↦
      let text = trim_end (trim_start (run path).out) in
      let (same, full) = transcript-ok path text t (rw (extract_text, fine) at h) in
      (
        full,
        rw same (trim_end-starts (trim_start (run path).out) (trim_start-bare (run path).out)),
        rw same (trim_end-bare (trim_start (run path).out)),
      )
  | inr (e, failed) ↦ absurd (ground (arith, rw (extract_text, failed) at h))
]
