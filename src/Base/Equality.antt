-- ===== src/Base/Equality.antt =====
-- `==` of Go strings.
use Prim.Native.Nat.{◌<◌, ◌≤◌}
use mathlib.Core.Path.{◌≡◌, refl}
use mathlib.Core.Logic.{◌↔◌}
use mathlib.Core.Bool.{Bool, true, false, ◌&&◌, ◌||◌}
use mathlib.Core.List.{List, [], ◌∷◌}
use native.Mathlib.Omega.{arith}
use paper_claw.Base.Tests.{◌==◌, if◌then◌else◌}
use paper_claw.Base.Lists.{Text, length}

unfoldable pub text_eq : Text → Text → Bool
text_eq [] [] = true
text_eq [] (d ∷ t) = false
text_eq (c ∷ s) [] = false
text_eq (c ∷ s) (d ∷ t) = c == d && text_eq s t

text_eq→≡ : (s t : Text) → text_eq s t ≡ true → s ≡ t
unfolding text_eq
text_eq→≡ [] [] h = refl
text_eq→≡ [] (d ∷ t) h = ground arith
text_eq→≡ (c ∷ s) [] h = ground arith
text_eq→≡ (c ∷ s) (d ∷ t) h = ground (arith, text_eq→≡ s t)

pub text_eq_refl : (s : Text) → text_eq s s ≡ true
unfolding text_eq
text_eq_refl [] = refl
text_eq_refl (c ∷ s) = ground (arith, text_eq_refl s)

pub text_eq_iff : (s t : Text) → (text_eq s t ≡ true) ↔ (s ≡ t)
text_eq_iff s t = (text_eq→≡ s t, λ p. ground (arith, text_eq_refl s))

-- Membership in a set of texts, such as a Go `map[string]bool`.
unfoldable pub contains : List Text → Text → Bool
contains [] s = false
contains (t ∷ ts) s = text_eq t s || contains ts s

-- The list without a text.
unfoldable pub without : Text → List Text → List Text
without s [] = []
without s (t ∷ ts) = let rest = without s ts in if text_eq t s then rest else t ∷ rest

length-without_le : (s : Text) (ts : List Text) → length (without s ts) ≤ length ts
unfolding without
length-without_le s [] = omega arith
length-without_le s (t ∷ ts) = ground (arith, length-without_le s ts)

pub length-without :
    (s : Text) (ts : List Text) → contains ts s ≡ true → length (without s ts) < length ts
unfolding without contains
length-without s [] h = cc
length-without s (t ∷ ts) h = ground (arith, length-without s ts, length-without_le s ts)

pub contains-without :
    (s u : Text) (ts : List Text)
    → contains (without s ts) u ≡ (if text_eq s u then false else contains ts u)
unfolding without contains
contains-without s u [] = ground arith
contains-without s u (t ∷ ts) =
    ground (arith, contains-without s u ts, text_eq_iff s u, text_eq_iff t u, text_eq_iff t s)
