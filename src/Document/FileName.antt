-- ===== src/Document/FileName.antt =====
-- Go's `path/filepath.Ext` and `strings.TrimSuffix`, and the `.pdf` test of the local storage.
use paper_claw.Base.{
  ℕ, ◌+◌, Text, codes, Bool, true, false, ◌&&◌, ◌||◌, [], ◌∷◌, leb, ◌==◌, if◌then◌else◌, is_empty,
  text_eq,
}

-- The text from the last dot of the last path element on, or "".
-- Walked from the left: what a later dot finds wins over this one, and a later slash hides it.
has_slash : Text → Bool
has_slash [] = false
has_slash (c ∷ s) = c == b'/' || has_slash s

unfoldable pub ext : Text → Text
unfolding has_slash
ext [] = []
ext (c ∷ s) =
    let later = ext s in if is_empty later && (c == b'.' && not_path s) then c ∷ s else later
  where
    not_path : Text → Bool
    not_path t = if has_slash t then false else true

-- `strings.TrimSuffix`
unfoldable pub trim_suffix : Text → Text → Text
trim_suffix [] suffix = []
trim_suffix (c ∷ s) suffix =
    let rest = trim_suffix s suffix in if text_eq (c ∷ s) suffix then [] else c ∷ rest

-- `strings.TrimSuffix(name, filepath.Ext(name))`
unfoldable pub stem : Text → Text
stem name = trim_suffix name (ext name)

lower_ascii : ℕ → ℕ
lower_ascii c = if leb b'A' c && leb c b'Z' then c + 32 else c

-- `strings.EqualFold(filepath.Ext(name), ".pdf")`: no rune beyond ASCII folds to p, d, f or a dot.
pub is_pdf : Text → Bool
unfolding lower_ascii
is_pdf name = text_eq (lowered (ext name)) (codes ".pdf")
  where
    lowered : Text → Text
    lowered [] = []
    lowered (c ∷ s) = lower_ascii c ∷ lowered s
