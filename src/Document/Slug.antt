-- ===== src/Document/Slug.antt =====
-- internal/document/document.go: `toSlug`, `truncateSlug` and `FormatDirName`.
-- `unicode` is the part of Go's lower-case table beyond ASCII; nothing is assumed of it.
pub mod Grammar
pub mod Truncate
pub mod DirName
use paper_claw.Base.{
  ℕ, suc, ◌+◌, Text, codes, Bool, true, false, ◌&&◌, ◌||◌, Option, none, some, [], ◌∷◌, ◌++◌, ltb,
  leb, ◌==◌, if◌then◌else◌, length, take, is_empty,
}

abbrev pub dash : ℕ
dash = b'-'

-- One rune through `umlautMap`.
unfoldable pub transliterate : ℕ → Text
transliterate r =
    if r == 228 || r == 196
    then codes "ae"
    else if r == 246 || r == 214
    then codes "oe"
    else if r == 252 || r == 220
    then codes "ue"
    else if r == 223
    then codes "ss"
    else r ∷ []

unfoldable pub umlaut_map : Text → Text
umlaut_map [] = []
umlaut_map (r ∷ s) = transliterate r ++ umlaut_map s

-- `r >= 'a' && r <= 'z' || r >= '0' && r <= '9'`
unfoldable pub is_alnum : ℕ → Bool
is_alnum r = (leb b'a' r && leb r b'z') || (leb b'0' r && leb r b'9')

-- One round of the loop of `toSlug`, over the builder and `prevWasSep`.
unfoldable pub slug_step : ℕ → Text → Bool → Text × Bool
slug_step r b sep =
    if is_alnum r then (b ++ r ∷ [], false) else if sep then (b, true) else (b ++ dash ∷ [], true)

unfoldable pub slug_loop : Text → Text → Bool → Text
slug_loop [] b sep = b
slug_loop (r ∷ s) b sep = let (b', sep') = slug_step r b sep in slug_loop s b' sep'

-- `strings.TrimRight` for one character.
unfoldable pub trim_right : ℕ → Text → Text
trim_right c [] = []
trim_right c (r ∷ s) = let rest = trim_right c s in if is_empty rest && r == c then [] else r ∷ rest

-- `strings.LastIndex` for one character; `none` is -1.
unfoldable pub last_index : ℕ → Text → Option ℕ
last_index c [] = none
last_index c (r ∷ s) = elim (last_index c s) [
  | some i ↦ some (suc i)
  | none ↦ if r == c then some 0 else none
]

unfoldable pub truncate_slug : Text → ℕ → Text
truncate_slug s max_len =
    let cut = take max_len s in
    if leb (length s) max_len then s else elim (last_index dash cut) [
      | none ↦ cut
      | some idx ↦ if ltb 0 idx then take idx cut else cut
    ]

module _ (unicode : ℕ → ℕ) where
  -- `unicode.ToLower`
  unfoldable pub lower_rune : ℕ → ℕ
  lower_rune r = if leb b'A' r && leb r b'Z' then r + 32 else if ltb r 128 then r else unicode r

  unfoldable pub to_lower : Text → Text
  to_lower [] = []
  to_lower (r ∷ s) = lower_rune r ∷ to_lower s

  unfoldable pub to_slug : Text → Text
  to_slug s = trim_right dash (slug_loop (to_lower (umlaut_map s)) [] true)

  unfoldable pub format_dir_name : Text → Text → Text → Text
  format_dir_name date vendor description =
      let v = truncate_slug (to_slug vendor) 30 in
      let d = truncate_slug (to_slug description) 40 in
      date ++ (codes "_" ++ (v ++ (codes "_" ++ d)))
