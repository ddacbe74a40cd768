-- ===== src/Document/Slug/Grammar.antt =====
-- The language of slugs, words of letters and digits joined by single dashes, and `toSlug` as a
-- projection onto it.
use paper_claw.Base.{
  ℕ, Text, Bool, true, false, not, ◌&&◌, ◌||◌, [], ◌∷◌, ◌++◌, ◌==◌, if◌then◌else◌, is_empty, All,
  ◌≡◌, refl, sym, arith, append_assoc, append-nil,
}
use paper_claw.Document.Slug.{
  dash, transliterate, umlaut_map, is_alnum, slug_step, slug_loop, trim_right, lower_rune, to_lower,
  to_slug,
}

-- The rest of a slug, behind a dash or behind a letter or digit.
unfoldable pub slug_rest : Bool → Text → Bool
slug_rest sep [] = not sep
slug_rest sep (c ∷ s) =
    let word = slug_rest false s in
    let gap = slug_rest true s in if is_alnum c then word else (c == dash && (not sep && gap))

unfoldable pub is_slug : Text → Bool
is_slug [] = true
is_slug (c ∷ s) = is_alnum c && slug_rest false s

abbrev pub IsSlug : Text → Type 0
IsSlug s = is_slug s ≡ true

-- The loop without its builder.
slug_from : Bool → Text → Text
slug_from sep [] = []
slug_from sep (r ∷ s) =
    let word = slug_from false s in
    let gap = slug_from true s in if is_alnum r then r ∷ word else if sep then gap else dash ∷ gap

slug_loop-eq : (s b : Text) (sep : Bool) → slug_loop s b sep ≡ b ++ slug_from sep s
unfolding slug_loop slug_step slug_from
slug_loop-eq [] b sep = sym (append-nil b)
slug_loop-eq (r ∷ s) b sep = ground (
  arith,
  slug_loop-eq s (b ++ r ∷ []) false,
  slug_loop-eq s b true,
  slug_loop-eq s (b ++ dash ∷ []) true,
  append_assoc b (r ∷ []) (slug_from false s),
  append_assoc b (dash ∷ []) (slug_from true s),
)

pub slug_rest-IsSlug : (s : Text) → IsSlug s → is_empty s ≡ false → slug_rest true s ≡ true
unfolding is_slug slug_rest
slug_rest-IsSlug [] h e = cc
slug_rest-IsSlug (c ∷ s) h e = ground arith

pub IsSlug-slug_rest : (s : Text) → slug_rest true s ≡ true → IsSlug s
unfolding is_slug slug_rest
IsSlug-slug_rest [] h = refl
IsSlug-slug_rest (c ∷ s) h = ground arith

pub alnum-ne-dash : (r : ℕ) → is_alnum r ≡ true → (r == dash) ≡ false
unfolding is_alnum
alnum-ne-dash r h = ground arith

-- What `TrimRight` leaves of the loop's output, from either state of the loop.
trimmed :
    (s : Text)
    → IsSlug (trim_right dash (slug_from true s))
      × (slug_rest false (trim_right dash (slug_from false s)) ≡ true)
unfolding slug_from trim_right is_slug slug_rest
trimmed [] = (refl, refl)
trimmed (r ∷ s) =
    let (start, middle) = trimmed s in
    ground (
      arith,
      start,
      middle,
      alnum-ne-dash r,
      slug_rest-IsSlug (trim_right dash (slug_from true s)) start,
    )

-- `toSlug` returns letters and digits in groups with a dash between two of them, or nothing.
pub to_slug-IsSlug : (unicode : ℕ → ℕ) (s : Text) → IsSlug (to_slug unicode s)
unfolding to_slug
to_slug-IsSlug unicode s =
    let t = to_lower unicode (umlaut_map s) in rw (slug_loop-eq t [] true) (trimmed t).0

-- A letter or digit, or a dash.
unfoldable pub slug_char : ℕ → Bool
slug_char c = is_alnum c || c == dash

slug_char-kept :
    (unicode : ℕ → ℕ) (c : ℕ)
    → slug_char c ≡ true
    → (transliterate c ≡ c ∷ []) × (lower_rune unicode c ≡ c)
unfolding slug_char is_alnum transliterate lower_rune
slug_char-kept unicode c h = ground arith

-- The first two passes leave a text of slug characters alone.
lower-umlaut-slug_rest :
    (unicode : ℕ → ℕ) (sep : Bool) (s : Text)
    → slug_rest sep s ≡ true
    → to_lower unicode (umlaut_map s) ≡ s
unfolding slug_rest to_lower umlaut_map slug_char
lower-umlaut-slug_rest unicode sep [] h = refl
lower-umlaut-slug_rest unicode sep (c ∷ s) h =
    let (kept, low) = slug_char-kept unicode c (ground arith) in
    rw kept (
      ground
        (arith, low, lower-umlaut-slug_rest unicode false s, lower-umlaut-slug_rest unicode true s))

-- The third leaves slugs alone, and `TrimRight` finds nothing to cut.
slug_from-slug_rest :
    (sep : Bool) (s : Text)
    → slug_rest sep s ≡ true
    → (slug_from sep s ≡ s) × (trim_right dash s ≡ s)
unfolding slug_rest slug_from trim_right
slug_from-slug_rest sep [] h = (refl, refl)
slug_from-slug_rest sep (c ∷ s) h =
    ground (arith, slug_from-slug_rest false s, slug_from-slug_rest true s, alnum-ne-dash c)

-- `toSlug` keeps what is a slug already.
to_slug-fixed : (unicode : ℕ → ℕ) (s : Text) → IsSlug s → to_slug unicode s ≡ s
unfolding to_slug is_slug
to_slug-fixed unicode [] h = unfold slug_loop trim_right to_lower umlaut_map in refl
to_slug-fixed unicode (c ∷ s) h =
    let inside = slug_rest-IsSlug (c ∷ s) h refl in
    let (same, trim) = slug_from-slug_rest true (c ∷ s) inside in
    rw (lower-umlaut-slug_rest unicode true (c ∷ s) inside, slug_loop-eq, same) trim

-- A slug holds no other character.
slug_rest-chars : (sep : Bool) (s : Text) → slug_rest sep s ≡ true → All (λ c. slug_char c ≡ true) s
unfolding slug_rest slug_char
slug_rest-chars sep [] h = tt
slug_rest-chars sep (c ∷ s) h = ground (arith, slug_rest-chars false s, slug_rest-chars true s)

pub IsSlug-chars : (s : Text) → IsSlug s → All (λ c. slug_char c ≡ true) s
unfolding is_slug
IsSlug-chars [] h = tt
IsSlug-chars (c ∷ s) h = slug_rest-chars true (c ∷ s) (slug_rest-IsSlug (c ∷ s) h refl)
