-- ===== src/Serve/RandomHex.antt =====
-- internal/serve/channelmgr.go: `randomHex`, the id and the token of a push channel. What `rand.Read`
-- leaves in a slice of that many bytes is a parameter; the code does not look at its error.
use paper_claw.Base.{
  ℕ, ◌+◌, ◌-◌, ◌*◌, ◌/◌, ◌%◌, ◌<◌, Text, List, [], ◌∷◌, All, ltb, if◌then◌else◌, ◌≡◌, refl, sym, ap,
  ◌∙◌, arith,
}

abbrev hex_digit : ℕ → ℕ
hex_digit d = if ltb d 10 then b'0' + d else b'a' + (d - 10)

-- `hex.EncodeToString`
unfoldable pub hex : List ℕ → Text
hex [] = []
hex (b ∷ bs) = hex_digit (b / 16) ∷ hex_digit (b % 16) ∷ hex bs

unfoldable pub random_hex : {S : Type 0} → (ℕ → S → List ℕ × S) → ℕ → S → Text × S
random_hex rand_read n s = let (b, s') = rand_read n s in (hex b, s')

abbrev digit_of : ℕ → ℕ
digit_of x = if ltb x b'a' then x - b'0' else x - b'a' + 10

digit_of-hex_digit : (d : ℕ) → d < 16 → digit_of (hex_digit d) ≡ d
digit_of-hex_digit d h = ground arith

bytes_of : Text → List ℕ
bytes_of [] = []
bytes_of (x ∷ []) = []
bytes_of (x ∷ y ∷ s) = (digit_of x * 16 + digit_of y) ∷ bytes_of s

bytes_of-hex : (bs : List ℕ) → All (λ b. b < 256) bs → bytes_of (hex bs) ≡ bs
unfolding bytes_of hex
bytes_of-hex [] h = refl
bytes_of-hex (b ∷ bs) (hb, h) =
    let x = digit_of-hex_digit (b / 16) (omega arith) in
    let y = digit_of-hex_digit (b % 16) (omega arith) in rw (x, y, bytes_of-hex bs h) (grind arith)

-- Two ids are the same only if the bytes that were drawn are.
pub hex-injective :
    (a b : List ℕ) → All (λ x. x < 256) a → All (λ x. x < 256) b → hex a ≡ hex b → a ≡ b
hex-injective a b ha hb p = sym (bytes_of-hex a ha) ∙ ap bytes_of p ∙ bytes_of-hex b hb
