-- ===== src/Base/Methods.antt =====
-- Chains of methods that return at the first error.
use mathlib.Core.Path.{◌≡◌, refl, sym, ap, ◌∙◌}
use mathlib.Core.Logic.{◌⊎◌, inl, inr}
use native.Mathlib.Omega.{arith}
use mathlib.Core.List.{◌++◌}
use paper_claw.Base.Lists.{Text}
use paper_claw.Base.Results.{Error, Result, ok, err, Method, ok-injective, err-injective}

module _ {S A B : Type 0} where
  after : (A → Method S B) → Result A × S → Result B × S
  after k (err e, s) = (err e, s)
  after k (ok a, s) = k a s

  infixl 10 ◌>>=◌
  -- `a, err := m(); if err != nil { return …, err }`, then `k` with `a`.
  unfoldable pub ◌>>=◌ : Method S A → (A → Method S B) → Method S B
  unfolding after
  ◌>>=◌ m k s = after k (m s)

  after-ok :
      (k : A → Method S B) (r : Result A × S) (b : B)
      → (after k r).0 ≡ ok b
      → (a : A) × (r.0 ≡ ok a) × (after k r ≡ k a r.1)
  unfolding after
  after-ok k (err e, s) b h = absurd (ground arith)
  after-ok k (ok a, s) b h = (a, refl, refl)

  after-cases :
      (k : A → Method S B) (r : Result A × S)
      → ((e : Error) × (after k r ≡ (err e, r.1))) ⊎ ((a : A) × (after k r ≡ k a r.1))
  unfolding after
  after-cases k (err e, s) = inl (e, refl)
  after-cases k (ok a, s) = inr (a, refl)

  -- A chain ends at its first step or goes on from it.
  pub >>=-cases :
      (m : Method S A) (k : A → Method S B) (s : S)
      → ((e : Error) × ((m >>= k) s ≡ (err e, (m s).1))) ⊎ ((a : A) × ((m >>= k) s ≡ k a (m s).1))
  unfolding ◌>>=◌
  >>=-cases m k s = after-cases k (m s)

  after-first : (k : A → Method S B) (r : Result A × S) (a : A) → r.0 ≡ ok a → after k r ≡ k a r.1
  unfolding after
  after-first k (err e, s) a h = absurd (ground arith)
  after-first k (ok b, s) a h = ap (λ x. k x s) (ok-injective b a h)

  -- A first step that succeeds hands on its result.
  pub >>=-first :
      (m : Method S A) (k : A → Method S B) (s : S) (a : A)
      → (m s).0 ≡ ok a
      → (m >>= k) s ≡ k a (m s).1
  unfolding ◌>>=◌
  >>=-first m k s a h = after-first k (m s) a h

  after-failed :
      (k : A → Method S B) (r : Result A × S) (e : Error) → r.0 ≡ err e → after k r ≡ (err e, r.1)
  unfolding after
  after-failed k (err x, s) e h = ap (λ y. (err y, s)) (err-injective x e h)
  after-failed k (ok b, s) e h = absurd (ground arith)

  -- A first step that fails ends the chain.
  pub >>=-failed :
      (m : Method S A) (k : A → Method S B) (s : S) (e : Error)
      → (m s).0 ≡ err e
      → (m >>= k) s ≡ (err e, (m s).1)
  unfolding ◌>>=◌
  >>=-failed m k s e h = after-failed k (m s) e h

  -- A chain that succeeds has succeeded at its first step.
  pub >>=-ok :
      (m : Method S A) (k : A → Method S B) (s : S) (b : B)
      → ((m >>= k) s).0 ≡ ok b
      → (a : A) × ((m s).0 ≡ ok a) × ((m >>= k) s ≡ k a (m s).1)
  unfolding ◌>>=◌
  >>=-ok m k s b h = after-ok k (m s) b h

module _ {S A : Type 0} where
  -- `fmt.Errorf("…: %w", err)` around the error of a call.
  unfoldable pub relabel : Text → Result A × S → Result A × S
  relabel context (err e, s) = (err (context ++ e), s)
  relabel context (ok a, s) = (ok a, s)

  pub relabel-ok :
      (context : Text) (r : Result A × S) (a : A) → (relabel context r).0 ≡ ok a → r.0 ≡ ok a
  unfolding relabel
  relabel-ok context (err e, s) a h = absurd (ground arith)
  relabel-ok context (ok b, s) a h = h

  -- The state is the call's.
  pub relabel-state : (context : Text) (r : Result A × S) → (relabel context r).1 ≡ r.1
  unfolding relabel
  relabel-state context (err e, s) = refl
  relabel-state context (ok b, s) = refl

-- What holds after a call that succeeds, if something held before it.
abbrev pub Then : {S A : Type 0} → (S → Type 0) → Method S A → (A → S → Type 0) → Type 0
Then {S} {A} before m after = (s : S) (a : A) → before s → (m s).0 ≡ ok a → after a (m s).1

pub Then->>= :
    {S A B : Type 0} (P : S → Type 0) (Q : A → S → Type 0) (R : B → S → Type 0) (m : Method S A)
    (k : A → Method S B)
    → Then P m Q
    → ((a : A) → Then (Q a) (k a) R)
    → Then P (m >>= k) R
Then->>= P Q R m k hm hk s b before h =
    let (a, first, p) = >>=-ok m k s b h in
    rw p (hk a (m s).1 b (hm s a before first) (ap (λ r. r.0) (sym p) ∙ h))
