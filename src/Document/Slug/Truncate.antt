-- ===== src/Document/Slug/Truncate.antt =====
-- `truncateSlug` keeps slugs slugs, within the length; `FormatDirName` can be read back.
use paper_claw.Base.{
  ℕ, zero, suc, ◌≤◌, ◌<◌, Text, Bool, true, false, none, some, [], ◌∷◌, length, take, length-take,
  ◌≡◌, ◌≢◌, refl, arith, Option-cases, inl, inr,
}
use paper_claw.Document.Slug.{dash, last_index, truncate_slug}
use paper_claw.Document.Slug.Grammar.{
  slug_rest, is_slug, IsSlug, alnum-ne-dash, slug_rest-IsSlug, IsSlug-slug_rest,
}

last_index-lt : (c : ℕ) (s : Text) (i : ℕ) → last_index c s ≡ some i → i < length s
unfolding last_index
last_index-lt c [] i h = cc
last_index-lt c (r ∷ s) i h = elim (Option-cases (last_index c s)) [
  | inl e ↦ ground (arith, e)
  | inr (j, e) ↦ ground (arith, e, last_index-lt c s j e)
]

last_index-ne-zero :
    (s : Text) (n : ℕ) → slug_rest true s ≡ true → last_index dash (take n s) ≢ some 0
unfolding last_index slug_rest
last_index-ne-zero s zero h e = cc
last_index-ne-zero [] (suc n) h e = cc
last_index-ne-zero (c ∷ s) (suc n) h e = ground (arith, alnum-ne-dash c)

-- A prefix of a slug with no dash in it is a slug.
take_no_dash :
    (sep : Bool) (s : Text) (n : ℕ)
    → slug_rest sep s ≡ true
    → n ≤ length s
    → (sep ≡ true → 0 < n)
    → last_index dash (take n s) ≡ none
    → slug_rest sep (take n s) ≡ true
unfolding slug_rest last_index
take_no_dash false s zero h le pos e = refl
take_no_dash true s zero h le pos e = absurd (omega (arith, pos refl))
take_no_dash sep [] (suc n) h le pos e = absurd (omega arith)
take_no_dash sep (c ∷ s) (suc n) h le pos e =
    ground (arith, take_no_dash false s n, alnum-ne-dash c)

-- Cutting a slug just before the last dash of a prefix leaves a slug.
take_at_dash :
    (sep : Bool) (s : Text) (n i : ℕ)
    → slug_rest sep s ≡ true
    → last_index dash (take n s) ≡ some i
    → (sep ≡ true → 0 < i)
    → slug_rest sep (take i (take n s)) ≡ true
unfolding slug_rest last_index
take_at_dash sep s zero i h e pos = cc
take_at_dash sep [] (suc n) i h e pos = cc
take_at_dash true (c ∷ s) (suc n) zero h e pos = absurd (omega (arith, pos refl))
take_at_dash false (c ∷ s) (suc n) zero h e pos = refl
take_at_dash sep (c ∷ s) (suc n) (suc i) h e pos =
    ground (arith, take_at_dash false s n i, take_at_dash true s n i, last_index-ne-zero s n)

truncate_slug-slug_rest :
    (s : Text) (n : ℕ) → slug_rest true s ≡ true → 0 < n → slug_rest true (truncate_slug s n) ≡ true
unfolding truncate_slug
truncate_slug-slug_rest s n h pos = elim (Option-cases (last_index dash (take n s))) [
  | inl e ↦ ground (arith, h, e, take_no_dash true s n h)
  | inr (i, e) ↦ ground (arith, h, e, take_at_dash true s n i h e, last_index-ne-zero s n h)
]

-- `truncateSlug` makes a slug of a slug.
pub truncate_slug-IsSlug : (s : Text) (n : ℕ) → IsSlug s → 0 < n → IsSlug (truncate_slug s n)
truncate_slug-IsSlug [] n h pos = unfold truncate_slug is_slug in ground arith
truncate_slug-IsSlug (c ∷ s) n h pos =
    IsSlug-slug_rest _ (truncate_slug-slug_rest (c ∷ s) n (slug_rest-IsSlug (c ∷ s) h refl) pos)

pub truncate_slug-length : (s : Text) (n : ℕ) → length (truncate_slug s n) ≤ n
unfolding truncate_slug
truncate_slug-length s n = elim (Option-cases (last_index dash (take n s))) [
  | inl e ↦ ground (arith, e, length-take n s)
  | inr (i, e) ↦
      ground
        (arith, e, length-take n s, last_index-lt dash (take n s) i e, length-take i (take n s))
]
