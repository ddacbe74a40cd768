-- ===== src/Document/UniqueName/Decimal.antt =====
-- `%d` for a number that is not negative, and that it writes different numbers differently.
use paper_claw.Base.{
  ℕ, zero, suc, ◌+◌, ◌-◌, ◌*◌, ◌/◌, ◌%◌, ◌<◌, Text, [], ◌∷◌, ◌++◌, ltb, if◌then◌else◌, ◌≡◌, refl,
  sym, ◌∙◌, ap, arith,
}

-- The digits of a number below `10 ^ fuel`.
decimal : ℕ → ℕ → Text
decimal zero n = []
decimal (suc fuel) n =
    let front = decimal fuel (n / 10) in
    if ltb n 10 then (b'0' + n) ∷ [] else front ++ (b'0' + n % 10) ∷ []

unfoldable pub itoa : ℕ → Text
unfolding decimal
itoa n = decimal (suc n) n

-- The number that digits spell.
value : ℕ → Text → ℕ
value n [] = n
value n (c ∷ s) = value (n * 10 + (c - b'0')) s

value_last : (n : ℕ) (s : Text) (c : ℕ) → value n (s ++ c ∷ []) ≡ value n s * 10 + (c - b'0')
unfolding value
value_last n [] c = refl
value_last n (d ∷ s) c = value_last (n * 10 + (d - b'0')) s c

value-decimal : (fuel n : ℕ) → n < fuel → value 0 (decimal fuel n) ≡ n
unfolding decimal value
value-decimal zero n h = elim h [ ]
value-decimal (suc fuel) n h =
    ground
      (arith, value_last 0 (decimal fuel (n / 10)) (b'0' + n % 10), value-decimal fuel (n / 10))

pub itoa-injective : (m n : ℕ) → itoa m ≡ itoa n → m ≡ n
unfolding itoa
itoa-injective m n p =
    sym (value-decimal (suc m) m (omega arith))
    ∙ ap (value 0) p
    ∙ value-decimal (suc n) n (omega arith)
