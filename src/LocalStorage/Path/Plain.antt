-- ===== src/LocalStorage/Path/Plain.antt =====
-- The path of a plain name in a directory: it ends in the name, and another name has another path.
use mathlib.Core.List.{append_cancel_left}
use paper_claw.Base.{
  Text, Bool, true, false, List, [], ◌∷◌, ◌++◌, ◌==◌, ◌≡◌, ◌≢◌, refl, sym, ap, ◌∙◌, append_assoc,
  arith, Bool-cases, inl, inr,
}
use paper_claw.LocalStorage.Path.{
  put_first, split_slash, push, walk, spell, spell_path, is_rooted, clean, join_path, has_no_slash,
  is_plain,
}

split_slash-plain : (name : Text) → has_no_slash name ≡ true → split_slash name ≡ name ∷ []
unfolding split_slash has_no_slash put_first
split_slash-plain [] h = refl
split_slash-plain (c ∷ s) h = elim (Bool-cases (c == b'/')) [
  | inl slash ↦ absurd (ground (arith, slash))
  | inr other ↦ rw (other, split_slash-plain s (ground (arith, other)), put_first)
]

-- There is a first element.
split_slash-cons : (s : Text) → (e : Text) × (es : List Text) × (split_slash s ≡ e ∷ es)
unfolding split_slash put_first
split_slash-cons [] = ([], [], refl)
split_slash-cons (c ∷ s) =
    let (e, es, p) = split_slash-cons s in
    elim (Bool-cases (c == b'/')) [
      | inl slash ↦ ([], split_slash s, rw slash)
      | inr other ↦ (c ∷ e, es, rw (other, p, put_first))
    ]

split_slash-join :
    (dir name : Text)
    → has_no_slash name ≡ true
    → split_slash (dir ++ (b'/' ∷ name)) ≡ split_slash dir ++ (name ∷ [])
unfolding split_slash put_first
split_slash-join [] name h = ap (λ es. [] ∷ es) (split_slash-plain name h)
split_slash-join (c ∷ s) name h =
    let (e, es, p) = split_slash-cons s in
    elim (Bool-cases (c == b'/')) [
      | inl slash ↦ rw (slash, split_slash-join s name h)
      | inr other ↦ rw (other, split_slash-join s name h, p, put_first)
    ]

walk-append :
    (rooted : Bool) (above es : List Text) (e : Text)
    → walk rooted above (es ++ (e ∷ [])) ≡ push rooted (walk rooted above es) e
unfolding walk
walk-append rooted above [] e = refl
walk-append rooted above (f ∷ es) e = walk-append rooted (push rooted above f) es e

push-plain :
    (rooted : Bool) (above : List Text) (name : Text)
    → is_plain name ≡ true
    → push rooted above name ≡ name ∷ above
unfolding push is_plain
push-plain rooted [] name h = ground arith
push-plain rooted (t ∷ above) name h = ground arith

-- The elements of a directory's path.
elements : Text → List Text
unfolding walk split_slash is_rooted
elements dir = walk (is_rooted dir) [] (split_slash dir)

-- A plain name in a directory is one more element of its path.
join_path-plain :
    (dir name : Text)
    → dir ≢ []
    → is_plain name ≡ true
    → join_path dir name ≡ spell_path (is_rooted dir) (name ∷ elements dir)
unfolding join_path elements
join_path-plain [] name full h = absurd (full refl)
join_path-plain (c ∷ s) name full h =
    unfold clean in
    rw (
      split_slash-join (c ∷ s) name (unfold is_plain in ground arith),
      walk-append (is_rooted (c ∷ s)) [] (split_slash (c ∷ s)) name,
      push-plain (is_rooted (c ∷ s)) (walk (is_rooted (c ∷ s)) [] (split_slash (c ∷ s))) name h,
    )

spell-injective : (above : List Text) (n m : Text) → spell (n ∷ above) ≡ spell (m ∷ above) → n ≡ m
unfolding spell
spell-injective [] n m p = p
spell-injective (t ∷ above) n m p =
    let q : b'/' ∷ n ≡ b'/' ∷ m = append_cancel_left (spell (t ∷ above)) _ _ p in cc

spell_path-injective :
    (rooted : Bool) (above : List Text) (n m : Text)
    → spell_path rooted (n ∷ above) ≡ spell_path rooted (m ∷ above)
    → n ≡ m
unfolding spell_path spell
spell_path-injective true above n m p = spell-injective above n m cc
spell_path-injective false above n m p = spell-injective above n m p

-- Different plain names in a directory are different paths.
pub join_path-injective :
    (dir n m : Text)
    → dir ≢ []
    → is_plain n ≡ true
    → is_plain m ≡ true
    → join_path dir n ≡ join_path dir m
    → n ≡ m
join_path-injective dir n m full hn hm p =
    spell_path-injective (is_rooted dir) (elements dir) n m
      (sym (join_path-plain dir n full hn) ∙ p ∙ join_path-plain dir m full hm)

spell-suffix :
    (above : List Text) (name : Text) → (before : Text) × (spell (name ∷ above) ≡ before ++ name)
unfolding spell
spell-suffix [] name = ([], refl)
spell-suffix (t ∷ above) name =
    (spell (t ∷ above) ++ (b'/' ∷ []), sym (append_assoc (spell (t ∷ above)) (b'/' ∷ []) name))

spell_path-suffix :
    (rooted : Bool) (above : List Text) (name : Text)
    → (before : Text) × (spell_path rooted (name ∷ above) ≡ before ++ name)
unfolding spell_path
spell_path-suffix true above name =
    let (before, p) = spell-suffix above name in (b'/' ∷ before, ap (λ s. b'/' ∷ s) p)
spell_path-suffix false above name = spell-suffix above name

-- The path of a plain name ends in it.
pub join_path-suffix :
    (dir name : Text)
    → dir ≢ []
    → is_plain name ≡ true
    → (before : Text) × (join_path dir name ≡ before ++ name)
join_path-suffix dir name full h =
    let (before, p) = spell_path-suffix (is_rooted dir) (elements dir) name in
    (before, join_path-plain dir name full h ∙ p)
