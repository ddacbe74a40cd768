-- ===== src/LocalStorage/Path/Full.antt =====
-- A cleaned path is not empty.
use paper_claw.Base.{
  ℕ, Text, All, codes, Bool, true, false, List, [], ◌∷◌, ◌++◌, text_eq, if◌then◌else◌, ◌≡◌, ◌≢◌,
  refl, arith, Bool-cases, inl, inr,
}
use paper_claw.LocalStorage.Path.{
  split_slash, is_void, push, walk, spell, spell_path, is_rooted, clean, join_path,
}

-- No element of a path is empty.
abbrev NoVoid : List Text → Type 0
NoVoid above = All (λ e. e ≢ []) above

either :
    {A : Type 0} (P : A → Type 0) (test : Bool) (a b : A) → P a → P b → P (if test then a else b)
either P true a b ha hb = ha
either P false a b ha hb = hb

not_void : (e : Text) → is_void e ≡ false → e ≢ []
unfolding is_void
not_void [] h p = absurd (ground arith)
not_void (c ∷ e) h p = cc

push-NoVoid :
    (rooted : Bool) (above : List Text) (e : Text) → NoVoid above → NoVoid (push rooted above e)
unfolding push is_void
push-NoVoid rooted [] e h = elim (Bool-cases (is_void e)) [
  | inl void ↦ rw void tt
  | inr other ↦
      let full = not_void e other in
      rw other (
        either NoVoid (text_eq e (codes "..")) (if rooted then [] else e ∷ []) (e ∷ [])
          (either NoVoid rooted [] (e ∷ []) tt (full, tt)) (full, tt))
]
push-NoVoid rooted (t ∷ above) e h = elim (Bool-cases (is_void e)) [
  | inl void ↦ rw void h
  | inr other ↦
      let full = not_void e other in
      rw other (
        either NoVoid (text_eq e (codes ".."))
          (if text_eq t (codes "..") then e ∷ t ∷ above else above) (e ∷ t ∷ above)
          (either NoVoid (text_eq t (codes "..")) (e ∷ t ∷ above) above (full, h) h.1) (full, h))
]

walk-NoVoid : (rooted : Bool) (above es : List Text) → NoVoid above → NoVoid (walk rooted above es)
unfolding walk
walk-NoVoid rooted above [] h = h
walk-NoVoid rooted above (e ∷ es) h =
    walk-NoVoid rooted (push rooted above e) es (push-NoVoid rooted above e h)

append-full : (s t : Text) (c : ℕ) → s ++ (c ∷ t) ≢ []
append-full [] t c p = cc
append-full (d ∷ s) t c p = cc

spell-full : (e : Text) (above : List Text) → e ≢ [] → spell (e ∷ above) ≢ []
unfolding spell
spell-full e [] h p = h p
spell-full e (t ∷ above) h p = append-full (spell (t ∷ above)) e b'/' p

spell_path-full : (rooted : Bool) (above : List Text) → NoVoid above → spell_path rooted above ≢ []
unfolding spell_path
spell_path-full true above h p = cc
spell_path-full false [] h p = cc
spell_path-full false (e ∷ above) h p = spell-full e above h.0 p

clean-full : (path : Text) → clean path ≢ []
unfolding clean
clean-full path =
    spell_path-full (is_rooted path) (walk (is_rooted path) [] (split_slash path))
      (walk-NoVoid (is_rooted path) [] (split_slash path) tt)

-- What is in a directory has a path.
pub join_path-full : (dir name : Text) → dir ≢ [] → join_path dir name ≢ []
unfolding join_path
join_path-full [] name full = absurd (full refl)
join_path-full (c ∷ s) name full = clean-full ((c ∷ s) ++ (b'/' ∷ name))
