-- ===== src/Document/Slug/DirName.antt =====
-- `FormatDirName`: the shape of the names, and that they can be read back.
use paper_claw.Base.{
  ℕ, ◌≤◌, ◌<◌, Text, codes, true, [], ◌∷◌, ◌++◌, length, All, All-append, ◌≡◌, ◌≢◌, ◌↔◌, refl, sym,
  arith,
}
use paper_claw.Document.Slug.{is_alnum, truncate_slug, to_slug, format_dir_name}
use paper_claw.Document.Slug.Grammar.{IsSlug, slug_char, to_slug-IsSlug, IsSlug-chars}
use paper_claw.Document.Slug.Truncate.{truncate_slug-IsSlug, truncate_slug-length}

abbrev pub Lacks : ℕ → Text → Type 0
Lacks b = All (λ c. c ≢ b)

-- A directory name, taken apart: the date, a vendor slug and a description slug.
pub record DirName (date name : Text) : Type 0 where
  pub vendor : Text
  pub description : Text
  pub parts : name ≡ date ++ (codes "_" ++ (vendor ++ (codes "_" ++ description)))
  pub vendor_slug : IsSlug vendor
  pub description_slug : IsSlug description
  pub vendor_short : length vendor ≤ 30
  pub description_short : length description ≤ 40

module _ (unicode : ℕ → ℕ) where
  -- A directory name is the date, an underscore, a vendor slug of at most 30 characters, an
  -- underscore and a description slug of at most 40.
  pub format_dir_name-DirName :
      (date vendor description : Text)
      → DirName date (format_dir_name unicode date vendor description)
  unfolding format_dir_name
  format_dir_name-DirName date vendor description = record {
    vendor = truncate_slug (to_slug unicode vendor) 30;
    description = truncate_slug (to_slug unicode description) 40;
    parts = refl;
    vendor_slug =
        truncate_slug-IsSlug (to_slug unicode vendor) 30 (to_slug-IsSlug unicode vendor)
          (omega arith);
    description_slug =
        truncate_slug-IsSlug (to_slug unicode description) 40 (to_slug-IsSlug unicode description)
          (omega arith);
    vendor_short = truncate_slug-length _ 30;
    description_short = truncate_slug-length _ 40;
  }

-- Where neither text holds the separator, the text before its first occurrence can be read back.
append_sep_injective :
    (b : ℕ) (s s' t t' : Text)
    → Lacks b s
    → Lacks b s'
    → s ++ b ∷ t ≡ s' ++ b ∷ t'
    → (s ≡ s') × (t ≡ t')
append_sep_injective b [] [] t t' l l' p = ground arith
append_sep_injective b [] (c ∷ s') t t' l l' p = ground arith
append_sep_injective b (c ∷ s) [] t t' l l' p = ground arith
append_sep_injective b (c ∷ s) (c' ∷ s') t t' (_, l) (_, l') p =
    ground (arith, append_sep_injective b s s' t t' l l')

-- A slug holds none of the characters that a file system or `FormatDirName` gives a meaning.
slug_char-Lacks : (b : ℕ) → slug_char b ≢ true → (s : Text) → IsSlug s → Lacks b s
slug_char-Lacks b h s slug = go s (IsSlug-chars s slug)
  where
    go : (t : Text) → All (λ c. slug_char c ≡ true) t → Lacks b t
    go [] k = tt
    go (c ∷ t) (k, ks) = (λ e. h (rw e at k), go t ks)

underscore-Lacks : (s : Text) → IsSlug s → Lacks b'_' s
unfolding slug_char is_alnum
underscore-Lacks = slug_char-Lacks b'_' (cc)

module _ (unicode : ℕ → ℕ) where
  abbrev part : Text → ℕ → Text
  part s n = truncate_slug (to_slug unicode s) n

  part-IsSlug : (s : Text) (n : ℕ) → 0 < n → IsSlug (part s n)
  part-IsSlug s n pos = truncate_slug-IsSlug (to_slug unicode s) n (to_slug-IsSlug unicode s) pos

  -- The date and both truncated slugs can be read back from a directory name: two documents share
  -- the base name exactly when these agree, for dates with no underscore.
  pub format_dir_name-injective :
      (date date' vendor vendor' description description' : Text)
      → Lacks b'_' date
      → Lacks b'_' date'
      → (format_dir_name unicode date vendor description
          ≡ format_dir_name unicode date' vendor' description')
        ↔ ((date ≡ date')
            × (truncate_slug (to_slug unicode vendor) 30
                ≡ truncate_slug (to_slug unicode vendor') 30)
            × (truncate_slug (to_slug unicode description) 40
                ≡ truncate_slug (to_slug unicode description') 40))
  unfolding format_dir_name
  format_dir_name-injective date date' vendor vendor' description description' l l' = (
    λ p.
        let (dates, rest) = append_sep_injective b'_' date date' _ _ l l' p in
        let (vendors, descriptions) =
          append_sep_injective b'_' (part vendor 30) (part vendor' 30) _ _
            (underscore-Lacks _ (part-IsSlug vendor 30 (omega arith)))
            (underscore-Lacks _ (part-IsSlug vendor' 30 (omega arith))) rest in
        (dates, vendors, descriptions),
    λ (dates, vendors, descriptions). rw (dates, vendors, descriptions),
  )

  -- No character but those of the date, letters, digits, dashes and underscores gets into a name:
  -- vendor and description cannot add a path separator or a dot.
  format_dir_name-Lacks :
      (date vendor description : Text) (b : ℕ)
      → slug_char b ≢ true
      → b ≢ b'_'
      → Lacks b date
      → Lacks b (format_dir_name unicode date vendor description)
  unfolding format_dir_name
  format_dir_name-Lacks date vendor description b h u l = All-append _ date _ l (
    λ e. u (sym e),
    All-append _ (part vendor 30) _
        (slug_char-Lacks b h (part vendor 30) (part-IsSlug vendor 30 (omega arith)))
        (
          λ e. u (sym e),
          slug_char-Lacks b h (part description 40) (part-IsSlug description 40 (omega arith)),
        ),
  )
