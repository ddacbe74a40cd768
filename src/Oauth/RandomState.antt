-- ===== src/Oauth/RandomState.antt =====
-- internal/oauth/oauth.go: `randomState`, the state of the OAuth flow. The source of random bytes is a
-- parameter; base64.RawURLEncoding is written out.
use paper_claw.Base.{
  ℕ, ◌+◌, ◌-◌, ◌*◌, ◌/◌, ◌%◌, ◌<◌, Text, Result, ok, err, Bool, true, List, [], ◌∷◌, length, All,
  ltb, leb, ◌==◌, ◌&&◌, ◌||◌, without, if◌then◌else◌, ◌≡◌, refl, ap, arith,
}
use paper_claw.Oauth.{Flow, started, handle_start}

-- A digit of six bits: A-Z, a-z, 0-9, - and _.
abbrev digit : ℕ → ℕ
digit d =
    if ltb d 26
    then b'A' + d
    else if ltb d 52
    then b'a' + (d - 26)
    else if ltb d 62
    then b'0' + (d - 52)
    else if ltb d 63
    then b'-'
    else b'_'

-- Three bytes are four digits; one or two at the end are two or three digits, with no padding.
unfoldable pub encode_to_string : List ℕ → Text
encode_to_string (a ∷ b ∷ c ∷ rest) =
    digit (a / 4)
    ∷ digit (a % 4 * 16 + b / 16)
    ∷ digit (b % 16 * 4 + c / 64)
    ∷ digit (c % 64)
    ∷ encode_to_string rest
encode_to_string (a ∷ b ∷ []) =
    digit (a / 4) ∷ digit (a % 4 * 16 + b / 16) ∷ digit (b % 16 * 4) ∷ []
encode_to_string (a ∷ []) = digit (a / 4) ∷ digit (a % 4 * 16) ∷ []
encode_to_string [] = []

-- The digit that a character is.
abbrev digit_of : ℕ → ℕ
digit_of x =
    if ltb x b'0'
    then 62
    else if ltb x b'A'
    then x - b'0' + 52
    else if ltb x b'_'
    then x - b'A'
    else if ltb x b'a'
    then 63
    else x - b'a' + 26

digit_of-digit : (d : ℕ) → d < 64 → digit_of (digit d) ≡ d
digit_of-digit d h = ground arith

pub decode : Text → List ℕ
decode (w ∷ x ∷ y ∷ z ∷ rest) =
    (digit_of w * 4 + digit_of x / 16)
    ∷ (digit_of x % 16 * 16 + digit_of y / 4)
    ∷ (digit_of y % 4 * 64 + digit_of z)
    ∷ decode rest
decode (w ∷ x ∷ y ∷ []) =
    (digit_of w * 4 + digit_of x / 16) ∷ (digit_of x % 16 * 16 + digit_of y / 4) ∷ []
decode (w ∷ x ∷ []) = (digit_of w * 4 + digit_of x / 16) ∷ []
decode (w ∷ []) = []
decode [] = []

abbrev pub AreBytes : List ℕ → Type 0
AreBytes bs = All (λ b. b < 256) bs

decode-encode_to_string : (bs : List ℕ) → AreBytes bs → decode (encode_to_string bs) ≡ bs
unfolding decode encode_to_string
decode-encode_to_string (a ∷ b ∷ c ∷ rest) h =
    let (ha, h1) = h in
    let (hb, h2) = h1 in
    let (hc, more) = h2 in
    let w = digit_of-digit (a / 4) (omega arith) in
    let x = digit_of-digit (a % 4 * 16 + b / 16) (omega arith) in
    let y = digit_of-digit (b % 16 * 4 + c / 64) (omega arith) in
    let z = digit_of-digit (c % 64) (omega arith) in
    rw (w, x, y, z, decode-encode_to_string rest more) (grind arith)
decode-encode_to_string (a ∷ b ∷ []) h =
    let (ha, h1) = h in
    let (hb, more) = h1 in
    let w = digit_of-digit (a / 4) (omega arith) in
    let x = digit_of-digit (a % 4 * 16 + b / 16) (omega arith) in
    let y = digit_of-digit (b % 16 * 4) (omega arith) in rw (w, x, y) (grind arith)
decode-encode_to_string (a ∷ []) h =
    let (ha, more) = h in
    let w = digit_of-digit (a / 4) (omega arith) in
    let x = digit_of-digit (a % 4 * 16) (omega arith) in rw (w, x) (grind arith)
decode-encode_to_string [] h = refl

-- A character that a URL holds as it is.
abbrev pub is_unreserved : ℕ → Bool
is_unreserved x =
    (leb b'A' x && leb x b'Z')
    || (leb b'a' x && leb x b'z')
    || (leb b'0' x && leb x b'9')
    || (x == b'-')
    || (x == b'_')

digit-unreserved : (d : ℕ) → is_unreserved (digit d) ≡ true
digit-unreserved d = ground arith

encode_to_string-unreserved :
    (bs : List ℕ) → All (λ x. is_unreserved x ≡ true) (encode_to_string bs)
unfolding encode_to_string
encode_to_string-unreserved (a ∷ b ∷ c ∷ rest) = (
  digit-unreserved (a / 4),
  (
    digit-unreserved (a % 4 * 16 + b / 16),
    (
      digit-unreserved (b % 16 * 4 + c / 64),
      (digit-unreserved (c % 64), encode_to_string-unreserved rest),
    ),
  ),
)
encode_to_string-unreserved (a ∷ b ∷ []) = (
  digit-unreserved (a / 4),
  (digit-unreserved (a % 4 * 16 + b / 16), (digit-unreserved (b % 16 * 4), tt)),
)
encode_to_string-unreserved (a ∷ []) =
    (digit-unreserved (a / 4), (digit-unreserved (a % 4 * 16), tt))
encode_to_string-unreserved [] = tt

length-encode_to_string : (bs : List ℕ) → length (encode_to_string bs) ≡ (length bs * 4 + 2) / 3
unfolding encode_to_string
length-encode_to_string (a ∷ b ∷ c ∷ rest) = omega (arith, length-encode_to_string rest)
length-encode_to_string (a ∷ b ∷ []) = refl
length-encode_to_string (a ∷ []) = refl
length-encode_to_string [] = refl

encoded : Result (List ℕ) → Result Text
encoded (err e) = err e
encoded (ok b) = ok (encode_to_string b)

-- `rand.Read` fills a slice of that many bytes.
unfoldable pub random_state : (ℕ → Result (List ℕ)) → Result Text
unfolding encoded
random_state read = encoded (read 18)

-- If the random source gives 18 bytes, HandleStart redirects, and the state that is pending from then
-- on has 24 characters, which a URL holds as they are and from which the 18 bytes can be read back.
pub handle_start-issued :
    {Drive : Type 0} (read : ℕ → Result (List ℕ)) (bs : List ℕ) (f : Flow Drive)
    → read 18 ≡ ok bs
    → length bs ≡ 18
    → AreBytes bs
    → (state : Text) × (handle_start (random_state read) f
        ≡ (302, record f { states = state ∷ without state f.states }))
      × (length state ≡ 24)
      × All (λ x. is_unreserved x ≡ true) state
      × (decode state ≡ bs)
unfolding random_state encoded handle_start started
handle_start-issued read bs f got eighteen bytes = (
  encode_to_string bs,
  ap (λ r. handle_start (encoded r) f) got,
  omega (arith, length-encode_to_string bs),
  encode_to_string-unreserved bs,
  decode-encode_to_string bs bytes,
)
