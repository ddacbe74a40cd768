-- ===== src/Base/Results.antt =====
-- Go's `(value, error)` pairs. An error is its message.
use mathlib.Core.Path.{◌≡◌, refl}
use mathlib.Core.Logic.{◌⊎◌, inl, inr}
use mathlib.Core.Bool.{Bool, true, false}
use mathlib.Core.Option.{Option, none, some}
use paper_claw.Base.Lists.{Text}

abbrev pub Error : Type 0
Error = Text

pub data Result {ℓ} (A : Type ℓ) : Type ℓ where
  ok : A → Result A
  err : Error → Result A

module _ {ℓ} {A : Type ℓ} where
  pub Result-cases : (r : Result A) → ((a : A) × (r ≡ ok a)) ⊎ ((e : Error) × (r ≡ err e))
  Result-cases (ok a) = inl (a, refl)
  Result-cases (err e) = inr (e, refl)

  pub ok-injective : (a b : A) → ok a ≡ ok b → a ≡ b
  ok-injective a b h = cc

  pub err-injective : (e e' : Error) → ◌≡◌ {A = Result A} (err e) (err e') → e ≡ e'
  err-injective e e' h = cc

  -- The error part of a result.
  abbrev pub error_of : Result A → Option Error
  error_of (ok a) = none
  error_of (err e) = some e

-- `err == nil`
abbrev pub is_nil : Option Error → Bool
is_nil none = true
is_nil (some e) = false

-- A method with a receiver that it changes: the result and the receiver after it. What was written
-- before an error stays written.
abbrev pub Method {ℓ} : Type ℓ → Type ℓ → Type ℓ
Method S A = S → Result A × S
