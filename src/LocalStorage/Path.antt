-- ===== src/LocalStorage/Path.antt =====
-- Go's `path/filepath` on Unix: `Clean` and `Join`, as internal/storage/local/local.go and
-- cmd/paperclaw/main.go call them.
pub mod Plain
pub mod Full
use paper_claw.Base.{
  Text, codes, Bool, true, false, not, ◌&&◌, ◌||◌, List, [], ◌∷◌, ◌++◌, is_empty, text_eq, ◌==◌,
  if◌then◌else◌,
}

put_first : Text → List Text → List Text
put_first s [] = s ∷ []
put_first s (e ∷ es) = (s ++ e) ∷ es

-- `strings.Split(path, "/")`
split_slash : Text → List Text
unfolding put_first
split_slash [] = [] ∷ []
split_slash (c ∷ s) =
    let rest = split_slash s in if c == b'/' then [] ∷ rest else put_first (c ∷ []) rest

-- The elements that change nothing: "" and ".".
is_void : Text → Bool
is_void e = is_empty e || text_eq e (codes ".")

-- One element, after those of `above`, the last of them first.
push : Bool → List Text → Text → List Text
unfolding is_void
push rooted [] e =
    if is_void e
    then []
    else if text_eq e (codes "..")
    then (if rooted then [] else e ∷ [])
    else e ∷ []
push rooted (t ∷ above) e =
    if is_void e
    then t ∷ above
    else if text_eq e (codes "..")
    then (if text_eq t (codes "..") then e ∷ t ∷ above else above)
    else e ∷ t ∷ above

walk : Bool → List Text → List Text → List Text
unfolding push
walk rooted above [] = above
walk rooted above (e ∷ es) = walk rooted (push rooted above e) es

-- The elements with slashes between them.
spell : List Text → Text
spell [] = []
spell (e ∷ []) = e
spell (e ∷ t ∷ above) = spell (t ∷ above) ++ (b'/' ∷ e)

spell_path : Bool → List Text → Text
unfolding spell
spell_path true above = b'/' ∷ spell above
spell_path false [] = codes "."
spell_path false (e ∷ above) = spell (e ∷ above)

is_rooted : Text → Bool
is_rooted [] = false
is_rooted (c ∷ s) = c == b'/'

-- `filepath.Clean`
unfoldable pub clean : Text → Text
unfolding split_slash walk spell_path is_rooted
clean path = spell_path (is_rooted path) (walk (is_rooted path) [] (split_slash path))

-- `filepath.Join` of two elements.
unfoldable pub join_path : Text → Text → Text
unfolding clean
join_path dir name =
    if is_empty dir
    then (if is_empty name then [] else clean name)
    else clean (dir ++ (b'/' ∷ name))

-- No slash.
has_no_slash : Text → Bool
has_no_slash [] = true
has_no_slash (c ∷ s) = not (c == b'/') && has_no_slash s

-- A name that stands for a file of its directory.
unfoldable pub is_plain : Text → Bool
unfolding is_void has_no_slash
is_plain name = has_no_slash name && not (is_void name) && not (text_eq name (codes ".."))
