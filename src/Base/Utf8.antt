-- ===== src/Base/Utf8.antt =====
-- The bytes of a Go string, for the code that counts or slices bytes.
use Prim.Native.Nat.{ℕ, ◌+◌, ◌/◌, ◌%◌}
use mathlib.Core.Path.{◌≡◌, refl}
use mathlib.Core.List.{List, [], ◌∷◌, ◌++◌}
use native.Mathlib.Omega.{arith}
use paper_claw.Base.Lists.{Text, length}
use paper_claw.Base.Tests.{ltb, if◌then◌else◌}

-- The encoding of one code point.
abbrev pub utf8_rune : ℕ → List ℕ
utf8_rune r =
    if ltb r 0x80
    then r ∷ []
    else if ltb r 0x800
    then (0xc0 + r / 64) ∷ (0x80 + r % 64) ∷ []
    else if ltb r 0x10000
    then (0xe0 + r / 4096) ∷ (0x80 + r / 64 % 64) ∷ (0x80 + r % 64) ∷ []
    else (0xf0 + r / 262144) ∷ (0x80 + r / 4096 % 64) ∷ (0x80 + r / 64 % 64) ∷ (0x80 + r % 64) ∷ []

unfoldable pub utf8 : Text → List ℕ
utf8 [] = []
utf8 (r ∷ s) = utf8_rune r ++ utf8 s

-- How many bytes a text takes: one for ASCII, two below U+0800, three below U+10000, and else four.
abbrev pub width : ℕ → ℕ
width r = if ltb r 0x80 then 1 else if ltb r 0x800 then 2 else if ltb r 0x10000 then 3 else 4

unfoldable pub byte_count : Text → ℕ
byte_count [] = 0
byte_count (r ∷ s) = width r + byte_count s

pub length-utf8 : (s : Text) → length (utf8 s) ≡ byte_count s
unfolding utf8 byte_count
length-utf8 [] = refl
length-utf8 (r ∷ s) = ground (arith, length-utf8 s)
